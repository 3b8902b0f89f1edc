-- ===== src/Periodicity/Periods.antt =====
-- The period for a number of callers, and lists of callers without repetition (src/PeriodicityManager.cxx).
use native.Mathlib.Nat.{le-div_iff_mul-le, mul-le-mul_left}
use fe_gem.Common.{
  ℕ, ◌+◌, ◌*◌, ◌/◌, ◌≤◌, ◌<◌, min, ◌≡◌, refl, subst, inl, inr, true, false, List, [], ◌∷◌, ◌++◌,
  arith, Bytes, ltb, ltb→lt, if◌then◌else◌, bytes_eq, bytes_eq_self, bytes_eq→eq, Bool-cases,
}
use fe_gem.Periodicity.Manager.{is_caller}

abbrev pub Distinct : List Bytes → Type 0
Distinct [] = Unit
Distinct (x ∷ xs) = (is_caller xs x ≡ false) × Distinct xs

is_caller_end :
    (xs : List Bytes) (x p : Bytes)
    → is_caller xs x ≡ false
    → bytes_eq x p ≡ false
    → is_caller (xs ++ p ∷ []) x ≡ false
unfolding is_caller
is_caller_end [] x p e n = rw n refl
is_caller_end (y ∷ xs) x p e n = elim (Bool-cases (bytes_eq x y)) [
  | inl t ↦ absurd (ground (arith, t))
  | inr m ↦ rw m (is_caller_end xs x p (rw m at e) n)
]

pub is_caller_last : (xs : List Bytes) (p : Bytes) → is_caller (xs ++ p ∷ []) p ≡ true
unfolding is_caller
is_caller_last [] p = rw (bytes_eq_self p) refl
is_caller_last (x ∷ xs) p = elim (Bool-cases (bytes_eq p x)) [
  | inl t ↦ rw t refl
  | inr n ↦ rw n (is_caller_last xs p)
]

bytes_eq_flip : (x p : Bytes) → bytes_eq p x ≡ false → bytes_eq x p ≡ false
bytes_eq_flip x p n = elim (Bool-cases (bytes_eq x p)) [
  | inl t ↦
      let same : bytes_eq p x ≡ true =
        subst (λ q. bytes_eq q x ≡ true) (bytes_eq→eq x p t) (bytes_eq_self x) in
      absurd (ground arith)
  | inr m ↦ m
]

pub Distinct-append :
    (xs : List Bytes) (p : Bytes) → Distinct xs → is_caller xs p ≡ false → Distinct (xs ++ p ∷ [])
unfolding is_caller
Distinct-append [] p d e = (refl, tt)
Distinct-append (x ∷ xs) p (d, ds) e = elim (Bool-cases (bytes_eq p x)) [
  | inl t ↦ absurd (ground (arith, t))
  | inr n ↦ (is_caller_end xs x p d (bytes_eq_flip x p n), Distinct-append xs p ds (rw n at e))
]

lt_le : {a b : ℕ} → a < b → b ≤ a → ⊥
lt_le h g = omega arith

self_le : (a : ℕ) → a ≤ a
self_le a = omega arith

le_trans : {a b c : ℕ} → a ≤ b → b ≤ c → a ≤ c
le_trans h g = omega arith

ltb_ge : (a b : ℕ) → ltb a b ≡ false → b ≤ a
ltb_ge a b h = ground arith

not_le : {a b : ℕ} → (b ≤ a → ⊥) → a < b
not_le {a} {b} h = elim (Bool-cases (ltb a b)) [
  | inl t ↦ ltb→lt a b t
  | inr f ↦ absurd (h (ltb_ge a b f))
]

-- The period in milliseconds for n connections: as many looks per second as there are connections,
-- and one more, but never fewer than two.
abbrev pub period_for : ℕ → ℕ
period_for n = min 500 (1000 / (n + 1))

-- One update brings the period from that of m connections to that of n.
pub period_updates :
    (m n : ℕ)
    → m ≤ n
    → (if ltb 1000 (period_for m * (n + 1)) then 1000 / (n + 1) else period_for m) ≡ period_for n
period_updates m n h =
    let p = period_for m in
    let at_m = le-div_iff_mul-le {k = m + 1} {x = 1000 / (n + 1)} {y = 1000} (omega arith) in
    let at_n = le-div_iff_mul-le {k = n + 1} {x = 1000 / (n + 1)} {y = 1000} (omega arith) in
    let fits = le-div_iff_mul-le {k = n + 1} {x = p} {y = 1000} (omega arith) in
    let scaled : 1000 / (n + 1) * (m + 1) ≤ 1000 / (n + 1) * (n + 1) =
      mul-le-mul_left (1000 / (n + 1)) (omega arith) in
    let below : 1000 / (n + 1) * (n + 1) ≤ 1000 = at_n.0 (self_le (1000 / (n + 1))) in
    let antitone : 1000 / (n + 1) ≤ 1000 / (m + 1) = at_m.1 (le_trans scaled below) in
    elim (Bool-cases (ltb 1000 (p * (n + 1)))) [
      | inl t ↦
          let over : 1000 < p * (n + 1) = ltb→lt 1000 (p * (n + 1)) t in
          let less : 1000 / (n + 1) < p = not_le (λ le. lt_le over (fits.0 le)) in
          rw t (omega (arith, less))
      | inr f ↦
          let within : p * (n + 1) ≤ 1000 = ltb_ge 1000 (p * (n + 1)) f in
          let less : p ≤ 1000 / (n + 1) = fits.1 within in rw f (omega (arith, less, antitone))
    ]
