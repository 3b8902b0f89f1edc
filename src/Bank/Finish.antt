-- ===== src/Bank/Finish.antt =====
-- The end of SanitiseBankString (libGEM/include/GEM_BANK.h), and one step of its loop.
use mathlib.Core.Path.{}
use fe_gem.Common.{
  NonNul, c_str_text, ℕ, zero, suc, ◌+◌, ◌-◌, ◌≤◌, ◌<◌, ◌≡◌, refl, ap, inl, inr, true, false,
  Option, some, [], ◌∷◌, ◌++◌, append_assoc, arith, Bytes, ◌==◌, ltb, leb, if◌then◌else◌, length,
  set, take, select, c_str, Bool-cases, length-append,
}
use fe_gem.Bank.Title.{◌>>=◌, is_kept, store, sanitise_loop}

abbrev pub kept : Bytes → Bytes
kept = select is_kept

pub is_kept-ne : (c : ℕ) → is_kept c ≡ true → (c == 0) ≡ false
unfolding is_kept
is_kept-ne c h = ground arith

set-append :
    (out rest : Bytes) (k v : ℕ) → set (out ++ rest) (length out + k) v ≡ out ++ set rest k v
set-append [] rest k v = ap (λ i. set rest i v) (omega arith)
set-append (x ∷ out) rest k v = ground (arith, set-append out rest k v)

pub NonNul-append : (out : Bytes) (c : ℕ) → NonNul out → (c == 0) ≡ false → NonNul (out ++ c ∷ [])
NonNul-append [] c n h = (h, tt)
NonNul-append (x ∷ out) c n h = (n.0, NonNul-append out c n.1 h)

-- The two writes behind the loop, and the string that is returned.
abbrev pub finish : ℕ → ℕ → Bytes → Option Bytes
finish assert_size j memory = do
  memory ← store memory j 0
  memory ← (if ltb 0 assert_size then store memory assert_size 0 else some memory)
  some (c_str memory)

abbrev pub finish_loop : ℕ → Option (ℕ × Bytes) → Option Bytes
finish_loop assert_size r = r >>= λ (j, memory). finish assert_size j memory

store-append :
    (out : Bytes) (r v : ℕ) (rest : Bytes)
    → store (out ++ r ∷ rest) (length out) v ≡ some (out ++ v ∷ rest)
store-append [] r v rest = ground arith
store-append (x ∷ out) r v rest = ground (arith, store-append out r v rest)

-- A NUL at or behind the end of the string leaves the string as it is.
store_behind :
    (a : ℕ) (out rest : Bytes)
    → length out ≤ a
    → a < length out + suc (length rest)
    → (rest' : Bytes) × (store (out ++ 0 ∷ rest) a 0 ≡ some (out ++ 0 ∷ rest'))
store_behind zero [] rest h b = (rest, ground arith)
store_behind (suc a) [] rest h b = (set rest a 0, ground arith)
store_behind zero (x ∷ out) rest h b = absurd (omega arith)
store_behind (suc a) (x ∷ out) rest h b =
    let (rest', e) = store_behind a out rest (omega arith) (omega arith) in (rest', ground arith)

finish_tail :
    (a : ℕ) (out rest : Bytes)
    → NonNul out
    → length out ≤ a
    → a < length out + suc (length rest)
    → (do
      memory ← (if ltb 0 a then store (out ++ 0 ∷ rest) a 0 else some (out ++ 0 ∷ rest))
      some (c_str memory))
      ≡ some out
finish_tail a out rest n h b =
    let (rest', e) = store_behind a out rest h b in
    elim (Bool-cases (ltb 0 a)) [
      | inl t ↦ rw (t, e) (ap some (c_str_text out rest' n))
      | inr f ↦ rw f (ap some (c_str_text out rest n))
    ]

pub finish_lem :
    (a : ℕ) (out : Bytes) (r : ℕ) (rest : Bytes)
    → NonNul out
    → length out ≤ a
    → a < length out + suc (length rest)
    → finish a (length out) (out ++ r ∷ rest) ≡ some out
finish_lem a out r rest n h b = rw (store-append out r 0 rest) (finish_tail a out rest n h b)

pub take-cons :
    (out cs : Bytes) (c os : ℕ)
    → length out < os
    → (out ++ c ∷ []) ++ take (os - length (out ++ c ∷ [])) cs
      ≡ out ++ take (os - length out) (c ∷ cs)
take-cons out cs c os h =
    let l = length-append out (c ∷ []) in
    let e : os - length out ≡ suc (os - length (out ++ c ∷ [])) = omega (arith, l) in
    rw e (append_assoc out (c ∷ []) _)

module _ (os c : ℕ) (cs out : Bytes) (r : ℕ) (rest : Bytes) where
  pub loop-stop :
      is_kept c ≡ true
      → leb os (length out) ≡ true
      → sanitise_loop os (c ∷ cs) (length out) (out ++ r ∷ rest)
        ≡ some (length out, out ++ c ∷ rest)
  unfolding sanitise_loop
  loop-stop k s = ground (arith, store-append out r c rest)

  pub loop-go :
      is_kept c ≡ true
      → leb os (length out) ≡ false
      → sanitise_loop os (c ∷ cs) (length out) (out ++ r ∷ rest)
        ≡ sanitise_loop os cs (length out + 1) (out ++ c ∷ rest)
  unfolding sanitise_loop
  loop-go k g = ground (arith, store-append out r c rest)

  pub loop-skip :
      is_kept c ≡ false
      → leb (os + 1) (length out) ≡ false
      → sanitise_loop os (c ∷ cs) (length out) (out ++ r ∷ rest)
        ≡ sanitise_loop os cs (length out) (out ++ r ∷ rest)
  unfolding sanitise_loop
  loop-skip k g = ground arith

pub loop-nil : (os j : ℕ) (memory : Bytes) → sanitise_loop os [] j memory ≡ some (j, memory)
unfolding sanitise_loop
loop-nil os j memory = refl

pub kept-cons : (c : ℕ) (cs : Bytes) → is_kept c ≡ true → kept (c ∷ cs) ≡ c ∷ kept cs
kept-cons c cs e = ground arith

pub kept-skip : (c : ℕ) (cs : Bytes) → is_kept c ≡ false → kept (c ∷ cs) ≡ kept cs
kept-skip c cs e = ground arith
