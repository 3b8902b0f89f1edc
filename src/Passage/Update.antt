-- ===== src/Passage/Update.antt =====
-- What Update of src/HistoryLogger.cxx makes of the bank that it is given.
use fe_gem.Common.{
  refl, not, sym, set, subst, ℕ, zero, suc, ◌≤◌, ◌≡◌, Bool, true, false, Option, none, some, List,
  [], ◌∷◌, ◌++◌, arith, All, Bytes, length, ◌==◌, if◌then◌else◌, take, c_str, length-take,
  get_elem?, Bool-cases, inl, inr,
}
use fe_gem.Bank.Title.{◌>>=◌}
use fe_gem.Bank.Layout.{get_data_entry, get_header_size, get_category_name, get_variable_name}
use fe_gem.History.Variable.{
  has_time, HistoryVariable, LogCall, described, new_variable, update_variable,
}
use fe_gem.History.Logger.{
  HistoryLogger, find_variable, find, add_new_variable, var_and_category, update,
}
use fe_gem.Passage.Fields.{SameBank, SameBank-refl, set_equipment_type-SameBank}

-- What an optional result says when it is there.
abbrev Gives {ℓ} : {A : Type ℓ} → (A → Type 0) → Option A → Type 0
Gives P none = Unit
Gives P (some a) = P a

Gives-bind :
    {A B : Type 0} (P : A → Type 0) (Q : B → Type 0) (o : Option A) (f : A → Option B)
    → Gives P o
    → ((a : A) → P a → Gives Q (f a))
    → Gives Q (o >>= f)
Gives-bind P Q none f h g = tt
Gives-bind P Q (some a) f h g = g a h

Gives-any :
    {A B : Type 0} (Q : B → Type 0) (o : Option A) (f : A → Option B)
    → ((a : A) → Gives Q (f a))
    → Gives Q (o >>= f)
Gives-any Q none f g = tt
Gives-any Q (some a) f g = g a

Gives-if :
    {A : Type 0} (P : A → Type 0) (b : Bool) (x y : Option A)
    → Gives P x
    → Gives P y
    → Gives P (if b then x else y)
Gives-if P true x y h g = h
Gives-if P false x y h g = g

-- The name of the host fits into the 32 bytes of the description, with its NUL.
abbrev pub Short : HistoryVariable → Type 0
Short v = length v.host_name ≤ 31

length-c_str : (p : Bytes) → length (c_str p) ≤ length p
length-c_str [] = omega arith
length-c_str (x ∷ p) = elim (Bool-cases (x == 0)) [
  | inl e ↦ rw e (omega arith)
  | inr e ↦ rw e (omega (arith, length-c_str p))
]

described-SameBank :
    (v : HistoryVariable) (p : Bytes)
    → get_header_size ≤ length p
    → Short v
    → SameBank p (described v p)
unfolding described
described-SameBank v p header short = elim (Bool-cases v.add_hostname_to_description) [
  | inl e ↦ rw e (
      set_equipment_type-SameBank p (c_str v.host_name) header
        (omega (arith, length-c_str v.host_name)))
  | inr e ↦ rw e (SameBank-refl p)
]

-- What update_variable gives, when it gives anything.
abbrev Updated : HistoryVariable → Bytes → Bytes × HistoryVariable × List LogCall → Type 0
Updated v p (q, w, calls) = (q ≡ described v p) × (w.host_name ≡ v.host_name)

update_variable-Updated :
    (element_size : ℕ) (v : HistoryVariable) (p : Bytes)
    → Gives (Updated v p) (update_variable element_size v p)
unfolding update_variable
update_variable-Updated element_size v p =
    let same : (described v p ≡ described v p) × (v.host_name ≡ v.host_name) = (refl, refl) in
    search (Gives-if, same)

new_variable-Short :
    (memory : Bytes) (default_period : ℕ) (host_memory eq_name : Bytes) (element_size : ℕ)
    (p : Bytes)
    → Gives (λ r. Short r.0) (new_variable memory default_period host_memory eq_name element_size p)
unfolding new_variable
new_variable-Short memory default_period host_memory eq_name element_size p =
    let h : length (take 31 host_memory) ≤ 31 = omega (arith, length-take 31 host_memory) in
    search (Gives-any, Gives-if, h)

All-append :
    {A : Type 0} (P : A → Type 0) (xs : List A) (a : A) → All P xs → P a → All P (xs ++ a ∷ [])
All-append P [] a h g = (g, tt)
All-append P (x ∷ xs) a (h, hs) g = (h, All-append P xs a hs g)

All-get_elem :
    {A : Type 0} (P : A → Type 0) (xs : List A) (i : ℕ) → All P xs → Gives P (get_elem? xs i)
All-get_elem P [] i h = tt
All-get_elem P (x ∷ xs) zero (h, hs) = h
All-get_elem P (x ∷ xs) (suc i) (h, hs) = All-get_elem P xs i hs

module _ (memory : Bytes) (default_period element_size : ℕ) where
  add_new_variable-Short :
      (p : Bytes) (s : HistoryLogger)
      → All Short s.variables
      → Gives
          (λ r. All Short r.0.variables)
          (add_new_variable memory default_period element_size p s)
  unfolding add_new_variable
  add_new_variable-Short p s all = Gives-if Q (not (has_time (get_data_entry p 0))) none _ tt (
      Gives-any Q (get_category_name memory p) _ (λ category.
        Gives-any Q (get_variable_name memory p) _ (λ name.
          Gives-any Q (var_and_category memory default_period element_size category name) _ (λ text.
            Gives-bind (λ (r : HistoryVariable × List LogCall). Short r.0) Q
              (new_variable memory default_period s.host_memory s.eq_name element_size p) _
              (new_variable-Short memory default_period s.host_memory s.eq_name element_size p)
              (λ r short. All-append Short s.variables r.0 all short)))))
    where
      Q : HistoryLogger × ℕ → Type 0
      Q r = All Short r.0.variables

  find-Short :
      (p : Bytes) (s : HistoryLogger)
      → All Short s.variables
      → Gives (λ r. All Short r.0.variables) (find memory default_period element_size p s)
  unfolding find
  find-Short p s all =
      Gives-any (λ r. All Short r.0.variables)
        (find_variable memory default_period element_size s.variables p 0) _ found
    where
      found :
          (o : Option ℕ)
          → Gives
              (λ (r : HistoryLogger × ℕ). All Short r.0.variables)
              (elim o [
                | some i ↦ some (s, i)
                | none ↦ add_new_variable memory default_period element_size p s
              ])
      found (some i) = all
      found none = add_new_variable-Short p s all

  -- Update changes nothing of a bank but its EquipmentType.
  pub update-SameBank :
      (p : Bytes) (s : HistoryLogger)
      → get_header_size ≤ length p
      → All Short s.variables
      → Gives (λ r. SameBank p r.1) (update memory default_period element_size p s)
  unfolding update
  update-SameBank p s header all =
      Gives-bind (λ r. All Short r.0.variables) (λ r. SameBank p r.1)
        (find memory default_period element_size p s) _ (find-Short p s all)
        (λ r short.
          Gives-bind Short (λ q. SameBank p q.1) (get_elem? r.0.variables r.1) _
            (All-get_elem Short r.0.variables r.1 short)
            (λ v few.
              Gives-bind (Updated v p) (λ q. SameBank p q.1) (update_variable element_size v p) _
                (update_variable-Updated element_size v p)
                (λ u is. subst (SameBank p) (sym is.0) (described-SameBank v p header few))))

pub updated-SameBank :
    (memory : Bytes) (default_period element_size : ℕ) (p q : Bytes) (s l : HistoryLogger)
    → get_header_size ≤ length p
    → All Short s.variables
    → update memory default_period element_size p s ≡ some (l, q)
    → SameBank p q
updated-SameBank memory default_period element_size p q s l header all e =
    subst (Gives (λ r. SameBank p r.1)) e
      (update-SameBank memory default_period element_size p s header all)

All-set :
    {A : Type 0} (P : A → Type 0) (xs : List A) (i : ℕ) (a : A)
    → All P xs
    → P a
    → All P (set xs i a)
All-set P [] i a h g = tt
All-set P (x ∷ xs) zero a (h, hs) g = (g, hs)
All-set P (x ∷ xs) (suc i) a (h, hs) g = (h, All-set P xs i a hs g)

-- The names of hosts stay short.
pub updated-Short :
    (memory : Bytes) (default_period element_size : ℕ) (p q : Bytes) (s l : HistoryLogger)
    → All Short s.variables
    → update memory default_period element_size p s ≡ some (l, q)
    → All Short l.variables
unfolding update
updated-Short memory default_period element_size p q s l all e = subst (Gives R) e (
    Gives-bind (λ r. All Short r.0.variables) R (find memory default_period element_size p s) _
      (find-Short memory default_period element_size p s all)
      (λ r short.
        Gives-bind Short R (get_elem? r.0.variables r.1) _
          (All-get_elem Short r.0.variables r.1 short)
          (λ v few.
            Gives-bind (Updated v p) R (update_variable element_size v p) _
              (update_variable-Updated element_size v p)
              (λ u is.
                All-set Short r.0.variables r.1 u.1 short
                  (subst (λ n. length n ≤ 31) (sym is.1) few)))))
  where
    R : HistoryLogger × Bytes → Type 0
    R r = All Short r.0.variables
