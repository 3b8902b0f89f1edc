-- ===== src/Analyzer/TreeNames.antt =====
-- The lookup of FindOrCreateTree, libGEM/src/feGEM_module.cxx, over a list of trees that grows.
use fe_gem.Common.{
  Option-cases, subst, ℕ, zero, suc, ◌+◌, ◌≡◌, refl, sym, ap, ◌∙◌, none, some, [], ◌∷◌, ◌++◌,
  append-nil, append_assoc, arith, Bytes, length, get_elem?, bytes_eq, bytes_eq_self, bytes_eq→eq,
  Bool-cases, inl, inr,
}
use fe_gem.Analyzer.Dispatch.{Element, Trees, find_tree, find_or_create_tree, branch_name}

-- Trees are only added, behind those that there are.
abbrev pub Grows : Trees → Trees → Type 0
Grows t t' = (more : Trees) × (t' ≡ t ++ more)

pub Grows-refl : (t : Trees) → Grows t t
Grows-refl t = ([], sym (append-nil t))

pub Grows-trans : (t u v : Trees) → Grows t u → Grows u v → Grows t v
Grows-trans t u v (m, e) (n, f) = (m ++ n, f ∙ ap (λ x. x ++ n) e ∙ append_assoc t m n)

-- Finding is not disturbed by trees behind.
pub find_tree-append :
    (t more : Trees) (name : Bytes) (k i : ℕ)
    → find_tree t name k ≡ some i
    → find_tree (t ++ more) name k ≡ some i
unfolding find_tree
find_tree-append [] more name k i h = cc
find_tree-append ((tree, branch) ∷ t) more name k i h = elim (Bool-cases (bytes_eq tree name)) [
  | inl same ↦ rw same (rw same at h)
  | inr other ↦ rw other (find_tree-append t more name (k + 1) i (rw other at h))
]

pub get_elem-append :
    (t more : Trees) (i : ℕ) (b : Bytes × Bytes)
    → get_elem? t i ≡ some b
    → get_elem? (t ++ more) i ≡ some b
get_elem-append [] more i b h = cc
get_elem-append (x ∷ t) more zero b h = h
get_elem-append (x ∷ t) more (suc i) b h = get_elem-append t more i b h

-- What is found has the name.
find_tree-name :
    (t : Trees) (name : Bytes) (k i : ℕ)
    → find_tree t name k ≡ some i
    → (j : ℕ) × (branch : Bytes) × (i ≡ k + j) × (get_elem? t j ≡ some (name, branch))
unfolding find_tree
find_tree-name [] name k i h = cc
find_tree-name ((tree, branch) ∷ t) name k i h = elim (Bool-cases (bytes_eq tree name)) [
  | inl same ↦
      let e : some k ≡ some i = rw same at h in
      (
        0,
        branch,
        omega (arith, some-injective k i e),
        ap (λ n. some (n, branch)) (bytes_eq→eq tree name same),
      )
  | inr other ↦
      let (j, b, e, f) = find_tree-name t name (k + 1) i (rw other at h) in
      (suc j, b, omega (arith, e), f)
]
  where
    some-injective : (a b : ℕ) → some a ≡ some b → a ≡ b
    some-injective a b e = cc

pub find_tree-get_elem :
    (t : Trees) (name : Bytes) (i : ℕ)
    → find_tree t name 0 ≡ some i
    → (branch : Bytes) × (get_elem? t i ≡ some (name, branch))
find_tree-get_elem t name i h =
    let (j, branch, s, at) = find_tree-name t name 0 i h in
    let e : j ≡ i = omega (arith, s) in
    (branch, subst (λ n. get_elem? t n ≡ some (name, branch)) e at)

find_tree-new :
    (t : Trees) (name branch : Bytes) (k : ℕ)
    → find_tree t name k ≡ none
    → find_tree (t ++ (name, branch) ∷ []) name k ≡ some (k + length t)
unfolding find_tree
find_tree-new [] name branch k h = rw (bytes_eq_self name) (ap some (omega arith))
find_tree-new ((tree, b) ∷ t) name branch k h = elim (Bool-cases (bytes_eq tree name)) [
  | inl same ↦ let e : some k ≡ none = rw same at h in cc
  | inr other ↦
      let e : k + 1 + length t ≡ k + suc (length t) = omega arith in
      rw other (find_tree-new t name branch (k + 1) (rw other at h) ∙ ap some e)
]

-- The tree of a request is the one that is found by its name from then on.
pub find_or_create_tree-found :
    (name : Bytes) (element : Element) (t : Trees)
    → (find_tree (find_or_create_tree name element t).1 name 0
        ≡ some (find_or_create_tree name element t).0)
      × Grows t (find_or_create_tree name element t).1
unfolding find_or_create_tree
find_or_create_tree-found name element t = elim (Option-cases (find_tree t name 0)) [
  | inl e ↦
      let z : 0 + length t ≡ length t = omega arith in
      rw (find_or_create_tree, e)
        (find_tree-new t name (branch_name name element) 0 e ∙ ap some z, ((name, _) ∷ [], refl))
  | inr (i, e) ↦ rw (find_or_create_tree, e) (e, Grows-refl t)
]

pub find_or_create_tree-again :
    (name : Bytes) (element : Element) (t : Trees) (i : ℕ)
    → find_tree t name 0 ≡ some i
    → find_or_create_tree name element t ≡ (i, t)
unfolding find_or_create_tree
find_or_create_tree-again name element t i e = rw (find_or_create_tree, e) refl
