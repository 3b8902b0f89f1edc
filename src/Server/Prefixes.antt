-- ===== src/Server/Prefixes.antt =====
-- The tests of HandleCommandBank exclude one another, so their order does not matter.
use fe_gem.Common.{
  ℕ, zero, suc, ◌≤◌, ◌≡◌, refl, Bool, true, false, ◌&&◌, ◌||◌, not, List, [], ◌∷◌, Bytes, arith,
  ◌==◌, length, select, strncmp_eq,
}
use fe_gem.Server.Commands.{Test, tests, is_command}

-- Two literals that no text agrees with, compared on n and on m characters.
abbrev pub apart : ℕ → ℕ → Bytes → Bytes → Bool
apart zero m a b = false
apart (suc n) zero a b = false
apart (suc n) (suc m) [] [] = false
apart (suc n) (suc m) [] (y ∷ b) = not (y == 0)
apart (suc n) (suc m) (x ∷ a) [] = not (x == 0)
apart (suc n) (suc m) (x ∷ a) (y ∷ b) = not (x == y) || not (x == 0) && apart n m a b

pub apart-strncmp_eq :
    (n m : ℕ) (a b t : Bytes)
    → apart n m a b ≡ true
    → strncmp_eq n t a ≡ true
    → strncmp_eq m t b ≡ false
apart-strncmp_eq zero m a b t d e = cc
apart-strncmp_eq (suc n) zero a b t d e = cc
apart-strncmp_eq (suc n) (suc m) [] [] t d e = cc
apart-strncmp_eq (suc n) (suc m) [] (y ∷ b) [] d e = ground arith
apart-strncmp_eq (suc n) (suc m) [] (y ∷ b) (c ∷ t) d e = ground arith
apart-strncmp_eq (suc n) (suc m) (x ∷ a) [] [] d e = ground arith
apart-strncmp_eq (suc n) (suc m) (x ∷ a) [] (c ∷ t) d e = ground arith
apart-strncmp_eq (suc n) (suc m) (x ∷ a) (y ∷ b) [] d e = ground arith
apart-strncmp_eq (suc n) (suc m) (x ∷ a) (y ∷ b) (c ∷ t) d e =
    ground (arith, apart-strncmp_eq n m a b t)

abbrev apart_from_all : Test → List Test → Bool
apart_from_all t [] = true
apart_from_all t (u ∷ us) = apart t.count u.count t.text u.text && apart_from_all t us

abbrev pairwise_apart : List Test → Bool
pairwise_apart [] = true
pairwise_apart (t ∷ ts) = apart_from_all t ts && pairwise_apart ts

none_else :
    (text : Bytes) (t : Test) (us : List Test)
    → apart_from_all t us ≡ true
    → is_command text t ≡ true
    → select (is_command text) us ≡ []
unfolding is_command
none_else text t [] a e = refl
none_else text t (u ∷ us) a e =
    ground (arith, apart-strncmp_eq t.count u.count t.text u.text text, none_else text t us)

at_most_one :
    (text : Bytes) (ts : List Test)
    → pairwise_apart ts ≡ true
    → length (select (is_command text) ts) ≤ 1
at_most_one text [] a = omega arith
at_most_one text (t ∷ ts) a = ground (arith, none_else text t ts, at_most_one text ts)

-- No command satisfies two of the fourteen tests.
pub tests_exclusive : (command : Bytes) → length (select (is_command command) tests) ≤ 1
tests_exclusive command = at_most_one command tests (unfold tests in refl)
