-- ===== src/Supervisor/Arrays.antt =====
-- A worker list whose arrays are lists, on which the runs of the tests are made.
use fe_gem.Common.{ℕ, zero, suc, ◌<◌, ◌≡◌, refl, ap, List, [], ◌∷◌, ◌++◌, arith, length}
use fe_gem.Supervisor.Workers.{WorkerList}

-- A write at an index fills up with blanks.
unfoldable pub write : {A : Type 0} → A → List A → ℕ → A → List A
write blank [] zero v = v ∷ []
write blank [] (suc i) v = blank ∷ write blank [] i v
write blank (x ∷ xs) zero v = v ∷ xs
write blank (x ∷ xs) (suc i) v = x ∷ write blank xs i v

pub write-end :
    {A : Type 0} (blank : A) (xs : List A) (v : A) → write blank xs (length xs) v ≡ xs ++ v ∷ []
unfolding write
write-end blank [] v = refl
write-end blank (x ∷ xs) v = ap (◌∷◌ x) (write-end blank xs v)

pub write-gap :
    {A : Type 0} (blank : A) (xs : List A) (i : ℕ) (v : A)
    → length xs < i
    → write blank xs i v ≡ write blank (xs ++ blank ∷ []) i v
unfolding write
write-gap blank [] zero v h = absurd (omega arith)
write-gap blank [] (suc i) v h = refl
write-gap blank (x ∷ xs) zero v h = absurd (omega arith)
write-gap blank (x ∷ xs) (suc i) v h = ap (◌∷◌ x) (write-gap blank xs i v (omega arith))

abbrev pub odb : WorkerList
odb = record {
  write_name = write [];
  Storable = λ name. length name < 64;
  write_name-end = λ names name fits. write-end [] names name;
  write_date = write 0;
  write_port = write 0;
  write_port-end = write-end 0;
  write_port-gap = write-gap 0;
}
