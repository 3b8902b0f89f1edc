-- ===== src/Bank/Sanitise.antt =====
-- What SanitiseBankString returns where its writes land, and when they stay inside its array.
use mathlib.Core.Path.{ap₂}
use fe_gem.Common.{
  NonNul, take-nil, ℕ, suc, ◌+◌, ◌-◌, ◌≤◌, ◌<◌, ◌≡◌, ◌≢◌, sym, ap, ◌∙◌, ◌⊎◌, inl, inr, true, none,
  some, [], ◌∷◌, ◌++◌, append-nil, append_assoc, arith, Bytes, ◌==◌, ltb, leb, if◌then◌else◌,
  length, set, take, drop, replicate, select, Bool-cases, ==_ne, length-append, length-set,
  length-drop, length-replicate, take-all,
}
use fe_gem.Bank.Title.{is_kept, sanitise_loop, output_size_of, sanitise_bank_string}
use fe_gem.Bank.Finish.{
  NonNul-append, finish, finish_lem, finish_loop, is_kept-ne, kept, kept-cons, kept-skip, loop-go,
  loop-nil, loop-skip, loop-stop, take-cons,
}

module _ (os a : ℕ) where
  -- The string so far is in front of the memory, and `j` is its length.
  loop_lem :
      (input out : Bytes) (r : ℕ) (rest : Bytes)
      → NonNul out
      → length out ≤ os
      → a < length out + suc (length rest)
      → (os ≤ a) ⊎ (length out + length input ≤ a)
      → finish_loop a (sanitise_loop os input (length out) (out ++ r ∷ rest))
        ≡ some (out ++ take (os - length out) (kept input))
  loop_lem [] out r rest n h k w =
      ap (finish_loop a) (loop-nil os (length out) (out ++ r ∷ rest))
      ∙ finish_lem a out r rest n (omega arith) k
      ∙ ap some (sym (ap (◌++◌ out) (take-nil (os - length out)) ∙ append-nil out))
  loop_lem (c ∷ cs) out r [] n h k w = elim (Bool-cases (is_kept c)) [
    | inl t ↦
        let z : os - length out ≡ 0 = ground arith in
        let stop : leb os (length out) ≡ true = ground arith in
        ap (finish_loop a) (loop-stop os c cs out r [] t stop)
        ∙ finish_lem a out c [] n (omega arith) k
        ∙ ap some (sym (ap (λ m. out ++ take m (kept (c ∷ cs))) z ∙ append-nil out))
    | inr f ↦
        ap (finish_loop a) (loop-skip os c cs out r [] f (ground arith))
        ∙ loop_lem cs out r [] n h k (ground arith)
        ∙ ap (λ ks. some (out ++ take (os - length out) ks)) (sym (kept-skip c cs f))
  ]
  loop_lem (c ∷ cs) out r (r' ∷ rest) n h k w = elim (Bool-cases (is_kept c)) [
    | inl t ↦ elim (Bool-cases (leb os (length out))) [
      | inl stop ↦
          let z : os - length out ≡ 0 = ground arith in
          ap (finish_loop a) (loop-stop os c cs out r (r' ∷ rest) t stop)
          ∙ finish_lem a out c (r' ∷ rest) n (ground arith) k
          ∙ ap some (sym (ap (λ m. out ++ take m (kept (c ∷ cs))) z ∙ append-nil out))
      | inr go ↦
          let l = length-append out (c ∷ []) in
          let h' : length out < os = ground arith in
          let ih =
            loop_lem cs (out ++ c ∷ []) r' rest (NonNul-append out c n (is_kept-ne c t))
              (omega (arith, l)) (omega (arith, l)) (ground (arith, l)) in
          ap (finish_loop a) (
            loop-go os c cs out r (r' ∷ rest) t go
            ∙ ap₂ (sanitise_loop os cs) (sym l) (sym (append_assoc out (c ∷ []) (r' ∷ rest))))
          ∙ ih
          ∙ ap some (
              take-cons out (kept cs) c os h'
              ∙ ap (λ ks. out ++ take (os - length out) ks) (sym (kept-cons c cs t)))
    ]
    | inr f ↦
        ap (finish_loop a) (loop-skip os c cs out r (r' ∷ rest) f (ground arith))
        ∙ loop_lem cs out r (r' ∷ rest) n h k (ground arith)
        ∙ ap (λ ks. some (out ++ take (os - length out) ks)) (sym (kept-skip c cs f))
  ]

  loop_start :
      (input memory : Bytes)
      → a < length memory
      → (os ≤ a) ⊎ (length input ≤ a)
      → finish_loop a (sanitise_loop os input 0 memory) ≡ some (take os (kept input))
  loop_start input [] k w = absurd (omega arith)
  loop_start input (r ∷ rest) k w =
      let e : os - 0 ≡ os = omega arith in
      loop_lem input [] r rest tt (omega arith) (omega arith) (ground arith)
      ∙ ap (λ n. some (take n (kept input))) e

finish_faults : (a j : ℕ) (memory : Bytes) → 0 < a → length memory ≤ a → finish a j memory ≡ none
finish_faults a j memory p h = ground (arith, length-set memory j 0)

-- Where the memory ends at `assert_size` or before, one of the writes leaves it.
loop_faults :
    (os a : ℕ) (input : Bytes) (j : ℕ) (memory : Bytes)
    → 0 < a
    → length memory ≤ a
    → finish_loop a (sanitise_loop os input j memory) ≡ none
unfolding sanitise_loop
loop_faults os a [] j memory p h = finish_faults a j memory p h
loop_faults os a (c ∷ cs) j memory p h = ground (
  arith,
  length-set memory j c,
  finish_faults a j (set memory j c) p,
  finish_faults a (j - 1) memory p h,
  loop_faults os a cs (j + 1) (set memory j c) p,
  loop_faults os a cs j memory p h,
)

length-kept : (input : Bytes) → length (kept input) ≤ length input
length-kept [] = omega arith
length-kept (c ∷ cs) = ground (arith, length-kept cs)

length-cleared :
    (os : ℕ) (memory : Bytes)
    → os ≤ length memory
    → length (replicate os 0 ++ drop os memory) ≡ length memory
length-cleared os memory h = omega (
  arith,
  length-append (replicate os 0) (drop os memory),
  length-replicate {A = ℕ} os 0,
  length-drop os memory,
)

output_size-le : (a : ℕ) (input : Bytes) → 0 < a → output_size_of a input ≤ a + 1
unfolding output_size_of
output_size-le a input p = ground arith

output_size-or : (a : ℕ) (input : Bytes) → 0 < a → (output_size_of a input ≤ a) ⊎ (length input ≤ a)
unfolding output_size_of
output_size-or a input p = ground arith

output_size-exact :
    (a : ℕ) (input : Bytes)
    → length input ≡ a
    → (output_size_of a input ≡ a + 1) × (length input ≤ a)
unfolding output_size_of
output_size-exact a input e = ground arith

output_size-small : (a : ℕ) (input : Bytes) → 0 < a → length input ≢ a → output_size_of a input ≤ a
unfolding output_size_of
output_size-small a input p n = ground arith

take-kept :
    (a : ℕ) (input : Bytes)
    → 0 < a
    → take (output_size_of a input) (kept input) ≡ take a (kept input)
unfolding output_size_of
take-kept a input p = elim (Bool-cases (ltb a (length input))) [
  | inl t ↦ ground arith
  | inr f ↦
      let short : length input ≤ a = ground arith in
      let all = take-all (length input + 1) (kept input) (omega (arith, length-kept input)) in
      ground (arith, all, take-all a (kept input) (omega (arith, length-kept input)))
]

-- If all writes land, since the memory goes on for at least two bytes behind `assert_size`, the
-- string that comes back is the letters, digits, underscores and dashes of the input, in order, the
-- first `assert_size` of them.
pub sanitise_bank_string_lands :
    (memory : Bytes) (assert_size : ℕ) (input : Bytes)
    → 0 < assert_size
    → assert_size + 1 < length memory
    → sanitise_bank_string memory assert_size input ≡ some (take assert_size (select is_kept input))
unfolding sanitise_bank_string
sanitise_bank_string_lands memory a input p h =
    let os = output_size_of a input in
    let l = length-cleared os memory (omega (arith, output_size-le a input p)) in
    loop_start os a input (replicate os 0 ++ drop os memory) (omega (arith, l))
      (output_size-or a input p)
    ∙ ap some (take-kept a input p)

-- If the memory is the declared array, the call stays inside it exactly when the input is
-- `assert_size` bytes long. Any shorter and any longer input makes it write past the end.
pub sanitise_bank_string_strict :
    (memory : Bytes) (assert_size : ℕ) (input : Bytes)
    → 0 < assert_size
    → length memory ≡ output_size_of assert_size input
    → sanitise_bank_string memory assert_size input
      ≡ (if length input == assert_size then some (select is_kept input) else none)
unfolding sanitise_bank_string
sanitise_bank_string_strict memory a input p h =
    let os = output_size_of a input in
    let cleared = replicate os 0 ++ drop os memory in
    let l = length-cleared os memory (omega arith) in
    elim (Bool-cases (length input == a)) [
      | inl e ↦
          let (fits, short) = output_size-exact a input (ground arith) in
          rw e (
            loop_start os a input cleared (omega (arith, l)) (inr short)
            ∙ ap some (take-all os (kept input) (omega (arith, length-kept input))))
      | inr n ↦
          let small = output_size-small a input p (==_ne (length input) a n) in
          rw n (loop_faults os a input 0 cleared p (omega (arith, l)))
    ]
