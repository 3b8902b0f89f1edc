-- ===== src/Bank/Endian.antt =====
-- change_endian of libGEM/include/GEM_BANK.h on the bytes of a value, and that it turns them round.
use mathlib.Core.List.{reverse, reverse-cons, reverse-reverse}
use fe_gem.Common.{
  ℕ, zero, suc, ◌+◌, ◌-◌, ◌/◌, ◌≤◌, ◌<◌, ◌≡◌, refl, sym, ap, ◌∙◌, ◌⊎◌, inl, inr, ◌&&◌, ◌||◌, [],
  ◌∷◌, ◌++◌, arith, Bytes, ◌==◌, ltb, leb, if◌then◌else◌, length, get_or, set, length-append,
  length-set, Bool-cases, ltb→lt,
}

-- std::swap(p[i], p[j])
unfoldable pub swap : Bytes → ℕ → ℕ → Bytes
swap p i j = set (set p i (get_or p j 0)) j (get_or p i 0)

-- The first `rounds` rounds of the loop.
unfoldable pub swaps : ℕ → Bytes → Bytes
swaps zero p = p
swaps (suc i) p = swap (swaps i p) i (length p - i - 1)

unfoldable pub change_endian : Bytes → Bytes
unfolding swaps swap
change_endian p = swaps (length p / 2) p

get_or-set :
    (xs : Bytes) (i j v : ℕ)
    → get_or (set xs i v) j 0 ≡ (if i == j && ltb j (length xs) then v else get_or xs j 0)
get_or-set [] i j v = ground arith
get_or-set (x ∷ xs) zero zero v = ground arith
get_or-set (x ∷ xs) zero (suc j) v = ground arith
get_or-set (x ∷ xs) (suc i) zero v = ground arith
get_or-set (x ∷ xs) (suc i) (suc j) v = ground (arith, get_or-set xs i j v)

get_or-swap :
    (q : Bytes) (i m j : ℕ)
    → i < length q
    → m < length q
    → get_or (swap q i m) j 0
      ≡ (if j == m then get_or q i 0 else if j == i then get_or q m 0 else get_or q j 0)
unfolding swap
get_or-swap q i m j hi hm = ground (
  arith,
  get_or-set (set q i (get_or q m 0)) m j (get_or q i 0),
  get_or-set q i j (get_or q m 0),
  length-set q i (get_or q m 0),
)

length-swap : (q : Bytes) (i m : ℕ) → length (swap q i m) ≡ length q
unfolding swap
length-swap q i m =
    length-set (set q i (get_or q m 0)) m (get_or q i 0) ∙ length-set q i (get_or q m 0)

length-swaps : (k : ℕ) (p : Bytes) → length (swaps k p) ≡ length p
unfolding swaps
length-swaps zero p = refl
length-swaps (suc k) p = length-swap (swaps k p) k (length p - k - 1) ∙ length-swaps k p

-- The byte at place j after k rounds.
abbrev mirrored : ℕ → Bytes → ℕ → ℕ
mirrored k p j =
    if ltb j k || leb (length p - k) j then get_or p (length p - 1 - j) 0 else get_or p j 0

mirrored_done :
    (k : ℕ) (p : Bytes) (j : ℕ)
    → (j < k) ⊎ (length p - k ≤ j)
    → mirrored k p j ≡ get_or p (length p - 1 - j) 0
mirrored_done k p j h = ground arith

mirrored_todo :
    (k : ℕ) (p : Bytes) (j : ℕ) → k ≤ j → j < length p - k → mirrored k p j ≡ get_or p j 0
mirrored_todo k p j h g = ground arith

-- The mirror image of a place that a later round swaps is still in its place.
mirrored-step :
    (k : ℕ) (p : Bytes) (j : ℕ)
    → suc k ≤ length p / 2
    → j < length p
    → mirrored (suc k) p j ≡ (
        if j == length p - k - 1
        then get_or p k 0
        else if j == k
        then get_or p (length p - k - 1) 0
        else mirrored k p j)
mirrored-step k p j h b = elim (Bool-cases (j == length p - k - 1)) [
  | inl last ↦
      let e : j ≡ length p - k - 1 = ground arith in
      let f : length p - 1 - j ≡ k = omega arith in
      rw last (mirrored_done (suc k) p j (inr (omega arith)) ∙ ap (λ i. get_or p i 0) f)
  | inr n ↦ rw n (elim (Bool-cases (j == k)) [
    | inl first ↦
        let e : j ≡ k = ground arith in
        let f : length p - 1 - j ≡ length p - k - 1 = omega arith in
        rw first (mirrored_done (suc k) p j (inl (omega arith)) ∙ ap (λ i. get_or p i 0) f)
    | inr m ↦ rw m (ground arith)
  ])
]

get_or-swaps :
    (k : ℕ) (p : Bytes) (j : ℕ)
    → k ≤ length p / 2
    → j < length p
    → get_or (swaps k p) j 0 ≡ mirrored k p j
unfolding swaps
get_or-swaps zero p j h b = ground arith
get_or-swaps (suc k) p j h b =
    let n = length p in
    let q = swaps k p in
    let l = length-swaps k p in
    get_or-swap q k (n - k - 1) j (omega (arith, l)) (omega (arith, l))
    ∙ rw
        (
          get_or-swaps k p k (omega arith) (omega arith)
              ∙ mirrored_todo k p k (omega arith) (omega arith),
          get_or-swaps k p (n - k - 1) (omega arith) (omega arith)
              ∙ mirrored_todo k p (n - k - 1) (omega arith) (omega arith),
          get_or-swaps k p j (omega arith) b,
        )
        (sym (mirrored-step k p j h b))

-- Half of the rounds are enough: the byte in the middle is its own mirror image.
mirrored_half :
    (p : Bytes) (j : ℕ) → j < length p → mirrored (length p / 2) p j ≡ get_or p (length p - 1 - j) 0
mirrored_half p j h = elim (Bool-cases (ltb j (length p / 2) || leb (length p - length p / 2) j)) [
  | inl t ↦ rw t
  | inr f ↦ let e : length p - 1 - j ≡ j = ground arith in rw f (ap (λ i. get_or p i 0) (sym e))
]

get_or-append_right : (xs ys : Bytes) (j : ℕ) → get_or (xs ++ ys) (length xs + j) 0 ≡ get_or ys j 0
get_or-append_right [] ys j = ap (λ i. get_or ys i 0) (omega arith)
get_or-append_right (x ∷ xs) ys j = ground (arith, get_or-append_right xs ys j)

get_or-append_left : (xs ys : Bytes) (j : ℕ) → j < length xs → get_or (xs ++ ys) j 0 ≡ get_or xs j 0
get_or-append_left [] ys j h = absurd (omega arith)
get_or-append_left (x ∷ xs) ys zero h = refl
get_or-append_left (x ∷ xs) ys (suc j) h = get_or-append_left xs ys j (omega arith)

length-reverse : (p : Bytes) → length (reverse p) ≡ length p
length-reverse [] = refl
length-reverse (x ∷ p) =
    omega
      (arith, ap length (reverse-cons x p), length-append (reverse p) (x ∷ []), length-reverse p)

get_or-reverse :
    (p : Bytes) (j : ℕ) → j < length p → get_or (reverse p) j 0 ≡ get_or p (length p - 1 - j) 0
get_or-reverse [] j h = absurd (omega arith)
get_or-reverse (x ∷ p) j h =
    let l = length-reverse p in
    ap (λ q. get_or q j 0) (reverse-cons x p) ∙ elim (Bool-cases (ltb j (length p))) [
      | inl inside ↦
          let b : j < length p = ltb→lt j (length p) inside in
          let e : suc (length p) - 1 - j ≡ suc (length p - 1 - j) = omega arith in
          get_or-append_left (reverse p) (x ∷ []) j (omega (arith, l))
          ∙ get_or-reverse p j b
          ∙ ap (λ i. get_or (x ∷ p) i 0) (sym e)
      | inr at ↦
          let b : j ≡ length (reverse p) + 0 = ground (arith, l) in
          let e : suc (length p) - 1 - j ≡ 0 = omega (arith, l) in
          ap (λ i. get_or (reverse p ++ x ∷ []) i 0) b
          ∙ get_or-append_right (reverse p) (x ∷ []) 0
          ∙ ap (λ i. get_or (x ∷ p) i 0) (sym e)
    ]

eq_of_get_or :
    (xs ys : Bytes)
    → length xs ≡ length ys
    → ((j : ℕ) → j < length xs → get_or xs j 0 ≡ get_or ys j 0)
    → xs ≡ ys
eq_of_get_or [] [] e h = refl
eq_of_get_or [] (y ∷ ys) e h = absurd (omega arith)
eq_of_get_or (x ∷ xs) [] e h = absurd (omega arith)
eq_of_get_or (x ∷ xs) (y ∷ ys) e h =
    let tail = eq_of_get_or xs ys (omega arith) (λ j b. h (suc j) (omega arith)) in
    cc (tail, h 0 (omega arith))

-- The loop of swaps reverses the bytes of a value of any size.
pub change_endian-reverse : (p : Bytes) → change_endian p ≡ reverse p
unfolding change_endian
change_endian-reverse p =
    let k = length p / 2 in
    eq_of_get_or (swaps k p) (reverse p) (length-swaps k p ∙ sym (length-reverse p)) λ j b.
      let h : j < length p = omega (arith, length-swaps k p) in
      get_or-swaps k p j (omega arith) h ∙ mirrored_half p j h ∙ sym (get_or-reverse p j h)

-- Turning the bytes round twice gives the value back.
pub change_endian-change_endian : (p : Bytes) → change_endian (change_endian p) ≡ p
change_endian-change_endian p =
    rw (change_endian-reverse p, change_endian-reverse (reverse p)) (reverse-reverse p)
