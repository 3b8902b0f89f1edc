-- ===== src/Analyzer/Filing.antt =====
-- To which tree libGEM/src/feGEM_module.cxx files a bank: FindOrCreateTree over all that the analyzer
-- reads in a run.
use fe_gem.Common.{
  subst, ℕ, zero, suc, ◌+◌, ◌≡◌, sym, ap, ◌∙◌, Option, none, some, ◌∷◌, ◌++◌, Bytes, codes, ◌==◌,
  length, drop, get_elem?,
}
use fe_gem.Bank.Layout.{
  gem_bank_at, gem_bank_array_at, get_array_header_size, get_total_size, get_array_total_size,
  get_data_entry,
}
use fe_gem.Bank.Walk.{walk}
use fe_gem.Server.State.{Run, ok, aborted, defined}
use fe_gem.Server.Settled.{Ensures, Ensures-bind, Ensures-if, Ensures-weaken}
use fe_gem.Frontend.Handlers.{then_Ensures}
use fe_gem.Analyzer.Dispatch.{
  Element, double, float, bool, int32, uint32, uint16, char, file, Trees, find_tree,
  find_or_create_tree, analyze, Analysis, bank_flow, array_flow, untouched, exits,
}
use fe_gem.Analyzer.FileHeader.{FileHeader, no_header, read_header}
use fe_gem.Analyzer.Store.{value_row}
use fe_gem.Analyzer.Writer.{
  Writer, with_trees, fill, set_entry, branch_tree_from_data, branch_tree_from_file, save_file,
  save_as, save_to_tree, save_next, save_array, analyze_as, analyze_event,
}
use fe_gem.Analyzer.TreeNames.{
  Grows, Grows-refl, Grows-trans, find_tree-append, get_elem-append, find_tree-get_elem,
  find_or_create_tree-found, find_or_create_tree-again,
}

-- Saving a bank only adds trees.
abbrev pub Grown : Writer → Writer → Type 0
Grown w w' = Grows w.trees w'.trees

branch_tree_from_data-Grown :
    (n i tree : ℕ) (element : Element) (midas_time : ℕ) (p : Bytes) (t : Trees) (w : Writer)
    → Grows t w.trees
    → Ensures (λ w'. Grows t w'.trees) (branch_tree_from_data n i tree element midas_time p w)
unfolding branch_tree_from_data
branch_tree_from_data-Grown zero i tree element midas_time p t w g = g
branch_tree_from_data-Grown (suc n) i tree element midas_time p t w g =
    then_Ensures (λ w'. Grows t w'.trees) (set_entry element midas_time p w i) _
      (λ s.
        branch_tree_from_data-Grown n (i + 1) tree element midas_time p t
          (fill (record { tree = tree; element = element; row = value_row s }) w) g)

save_file-Grown :
    (h : FileHeader) (name : Bytes) (midas_time : ℕ) (p : Bytes) (w : Writer)
    → Ensures (Grown w) (save_file h name midas_time p w)
unfolding save_file branch_tree_from_file
save_file-Grown h name midas_time p w =
    let n = codes "FILE:" ++ (name ++ b'\\' ∷ h.filename) in
    let g : Grows w.trees (find_or_create_tree n char w.trees).1 =
      (find_or_create_tree-found n char w.trees).1 in
    search (Ensures-if, then_Ensures, g)

save_element-Grown :
    (element : Element) (name : Bytes) (midas_time : ℕ) (p : Bytes) (w : Writer)
    → Ensures (Grown w) (
        branch_tree_from_data
          (gem_bank_at p).number_of_entries
          0
          (find_or_create_tree name element w.trees).0
          element
          midas_time
          p
          (with_trees (find_or_create_tree name element w.trees).1 w))
save_element-Grown element name midas_time p w =
    branch_tree_from_data-Grown (gem_bank_at p).number_of_entries 0
      (find_or_create_tree name element w.trees).0 element midas_time p w.trees
      (with_trees (find_or_create_tree name element w.trees).1 w)
      (find_or_create_tree-found name element w.trees).1

save_as-Grown :
    (o : Option Element) (name : Bytes) (midas_time : ℕ) (p : Bytes) (w : Writer)
    → Ensures (Grown w) (save_as o name midas_time p w)
unfolding save_as
save_as-Grown none name midas_time p w = Grows-refl w.trees
save_as-Grown (some file) name midas_time p w =
    then_Ensures (Grown w) (defined (read_header 10 (get_data_entry p 0).1 no_header)) _
      (λ h. save_file-Grown h name midas_time p w)
save_as-Grown (some double) name midas_time p w = save_element-Grown double name midas_time p w
save_as-Grown (some float) name midas_time p w = save_element-Grown float name midas_time p w
save_as-Grown (some bool) name midas_time p w = save_element-Grown bool name midas_time p w
save_as-Grown (some int32) name midas_time p w = save_element-Grown int32 name midas_time p w
save_as-Grown (some uint32) name midas_time p w = save_element-Grown uint32 name midas_time p w
save_as-Grown (some uint16) name midas_time p w = save_element-Grown uint16 name midas_time p w
save_as-Grown (some char) name midas_time p w = save_element-Grown char name midas_time p w

module _ (memory : Bytes) (midas_time : ℕ) where
  save_to_tree-Grown :
      (p : Bytes) (w : Writer) → Ensures (Grown w) (save_to_tree memory midas_time p w)
  unfolding save_to_tree
  save_to_tree-Grown p w = search (Ensures-if, then_Ensures, save_as-Grown)

  save_next-Grown :
      (p : Bytes) (w : Writer) (r : Run Writer)
      → Ensures (Grown w) r
      → Ensures (Grown w) (save_next memory midas_time p r)
  save_next-Grown p w r h =
      Ensures-bind (Grown w) (Grown w) r (save_to_tree memory midas_time p) h (λ v g.
        Ensures-weaken (Grown v) (Grown w) (save_to_tree memory midas_time p v)
          (save_to_tree-Grown p v) (λ u k. Grows-trans w.trees v.trees u.trees g k))

  walk-Grown :
      (n : ℕ) (p : Bytes) (w : Writer) (r : Run Writer)
      → Ensures (Grown w) r
      → Ensures (Grown w) (walk (save_next memory midas_time) n p r)
  unfolding walk
  walk-Grown zero p w r h = h
  walk-Grown (suc n) p w r h =
      walk-Grown n (drop (get_total_size (gem_bank_at p)) p) w (save_next memory midas_time p r)
        (save_next-Grown p w r h)

  analyze_as-Grown :
      (a : Analysis) (p : Bytes) (w : Writer)
      → Ensures (Grown w) (analyze_as memory midas_time a p w)
  unfolding analyze_as save_array
  analyze_as-Grown bank_flow p w = save_to_tree-Grown p w
  analyze_as-Grown array_flow p w =
      Ensures-if (Grown w) (get_array_total_size (gem_bank_array_at p) == length p) _ aborted
        (walk-Grown (gem_bank_array_at p).number_of_entries (drop get_array_header_size p) w (ok w)
          (Grows-refl w.trees))
        tt
  analyze_as-Grown untouched p w = Grows-refl w.trees
  analyze_as-Grown exits p w = tt

  analyze_event-Grown :
      (p : Bytes) (w : Writer) → Ensures (Grown w) (analyze_event memory midas_time p w)
  unfolding analyze_event
  analyze_event-Grown p w = analyze_as-Grown (analyze p) p w

-- The events that are analyzed one after the other: what the analyzer holds now and what it holds
-- then.
pub data Later (memory : Bytes) : Writer → Writer → Type 0 where
  now : (w : Writer) → Later memory w w
  event :
      (u v w : Writer) (midas_time : ℕ) (gem_bank_data : Bytes)
      → analyze_event memory midas_time gem_bank_data u ≡ ok v
      → Later memory v w
      → Later memory u w

Later-Grown : (memory : Bytes) (u w : Writer) → Later memory u w → Grown u w
Later-Grown memory u w (now v) = Grows-refl u.trees
Later-Grown memory u w (event u' v w' midas_time gem_bank_data e l) =
    Grows-trans u.trees v.trees w.trees
      (subst (Ensures (Grown u)) e (analyze_event-Grown memory midas_time gem_bank_data u))
      (Later-Grown memory v w l)

-- Whatever events are analyzed between two requests for a tree, the two get the same tree exactly
-- when their names are equal, byte for byte; and that tree keeps the branch that its first request
-- gave it, also where the second is for another type of elements.
pub find_or_create_tree-Later :
    (memory name name' : Bytes) (element element' : Element) (u w : Writer)
    → Later memory (with_trees (find_or_create_tree name element u.trees).1 u) w
    → let (i, t) = find_or_create_tree name element u.trees in
      let (i', t') = find_or_create_tree name' element' w.trees in
      (i ≡ i' → name ≡ name') × (name ≡ name' → i ≡ i') × (get_elem? t' i ≡ get_elem? t i)
find_or_create_tree-Later memory name name' element element' u w l =
    let t = (find_or_create_tree name element u.trees).1 in
    let i = (find_or_create_tree name element u.trees).0 in
    let (found, grown) = find_or_create_tree-found name element u.trees in
    let (more, e) = Later-Grown memory (with_trees t u) w l in
    let (found', (more', e')) = find_or_create_tree-found name' element' w.trees in
    let (branch, at) = find_tree-get_elem t name i found in
    let (branch', at') =
      find_tree-get_elem (find_or_create_tree name' element' w.trees).1 name'
        (find_or_create_tree name' element' w.trees).0 found' in
    let kept : get_elem? (find_or_create_tree name' element' w.trees).1 i ≡ some (name, branch) =
      subst (λ v. get_elem? v i ≡ some (name, branch)) (sym e')
        (subst (λ v. get_elem? (v ++ more') i ≡ some (name, branch)) (sym e)
          (get_elem-append (t ++ more) more' i (name, branch)
            (get_elem-append t more i (name, branch) at))) in
    let still : find_tree w.trees name 0 ≡ some i =
      subst (λ v. find_tree v name 0 ≡ some i) (sym e) (find_tree-append t more name 0 i found) in
    (
      λ same. first_name (sym kept ∙ ap (get_elem? _) same ∙ at'),
      λ same. sym (
          ap (λ r. r.0)
            (find_or_create_tree-again name' element' w.trees i
              (subst (λ n. find_tree w.trees n 0 ≡ some i) same still))),
      kept ∙ sym at,
    )
  where
    first_name :
        {n n' b b' : Bytes}
        → ◌≡◌ {A = Option (Bytes × Bytes)} (some (n, b)) (some (n', b'))
        → n ≡ n'
    first_name e = cc
