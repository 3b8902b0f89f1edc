-- ===== src/Analyzer/Rows.antt =====
-- What libGEM/src/feGEM_module.cxx fills into a tree for a bank of numbers or of text.
use fe_gem.Common.{
  true, ℕ, zero, suc, ◌+◌, ◌-◌, ◌*◌, ◌^◌, ◌≤◌, ◌<◌, ◌≡◌, ◌≢◌, refl, sym, ap, ◌∙◌, some, List, [],
  ◌∷◌, ◌++◌, append-nil, append_assoc, map, arith, Bytes, length, take, ge→ltb,
}
use fe_gem.Bank.Time.{get_unix_timestamp, get_labview_fine_time}
use fe_gem.Bank.Layout.{
  gem_bank_at, get_header_size, get_data_entry, get_entries, get_combined_name,
}
use fe_gem.Server.State.{ok, ◌>>=◌}
use fe_gem.Analyzer.Dispatch.{
  Element, double, float, bool, int32, uint32, uint16, char, file, find_or_create_tree, element_of,
  analyze, bank_flow,
}
use fe_gem.Analyzer.Store.{size_of, are_values, Stored, concat, set_data_kept, value_row}
use fe_gem.Analyzer.Writer.{
  Fill, Writer, with_trees, fill, context_of, set_entry, branch_tree_from_data, save_as,
  save_to_tree, analyze_as, analyze_event,
}

-- The entry i of a bank does not end the analyzer: its timestamp and its elements are in memory, its
-- fraction rounds below 1, and its elements are values of their type and fewer than 2^31.
abbrev pub Keepable : Element → Bytes → ℕ → Type 0
Keepable element p i =
    let b = gem_bank_at p in
    let n = get_entries (size_of element) b.block_size in
    (length (get_data_entry p i).0.seconds ≡ 8)
    × (length (get_data_entry p i).0.sub_second_fraction ≡ 8)
    × (get_labview_fine_time (get_data_entry p i).0 b.timestamp_endianness < 2 ^ 64 - 2 ^ 10)
    × (n < 2 ^ 31)
    × (n * size_of element ≤ length (get_data_entry p i).1)
    × (are_values element (take (n * size_of element) (get_data_entry p i).1) ≡ true)

-- What was stored is the entry i of the bank: its time, and the bytes of its elements.
abbrev pub IsEntry : ℕ → Bytes → ℕ → Stored → Type 0
IsEntry element_size p i s =
    let b = gem_bank_at p in
    let n = get_entries element_size b.block_size in
    (s.unix_seconds ≡ get_unix_timestamp (get_data_entry p i).0 b.timestamp_endianness)
    × (length s.elements ≡ n)
    × (concat s.elements ≡ take (n * element_size) (get_data_entry p i).1)

-- The rows are the entries from i on, in order.
abbrev pub AreEntries : ℕ → Bytes → ℕ → List Stored → Type 0
AreEntries element_size p i [] = Unit
AreEntries element_size p i (s ∷ rows) =
    IsEntry element_size p i s × AreEntries element_size p (i + 1) rows

abbrev pub filled : ℕ → Element → List Stored → Writer → Writer
filled tree element rows w = record w {
  fills = w.fills ++ map (λ s. record { tree = tree; element = element; row = value_row s }) rows;
}

set_entry-IsEntry :
    (element : Element) (midas_time : ℕ) (p : Bytes) (w : Writer) (i : ℕ)
    → Keepable element p i
    → (s : Stored) × (set_entry element midas_time p w i ≡ ok s) × IsEntry (size_of element) p i s
unfolding set_entry
set_entry-IsEntry element midas_time p w i (whole, parts, small, few, inside, valid) =
    let b = gem_bank_at p in
    let (s, e, time, count, values) =
      (set_data_kept element b.block_size b.timestamp_endianness b.data_endianness
          (get_data_entry p i).0 (get_data_entry p i).1 (context_of midas_time w) whole parts).0
        small few inside valid in
    (s, e, (time, count, values))

branch_tree_from_data-AreEntries :
    (n i tree : ℕ) (element : Element) (midas_time : ℕ) (p : Bytes) (w : Writer)
    → ((j : ℕ) → i ≤ j → j < i + n → Keepable element p j)
    → (rows : List Stored) × (branch_tree_from_data n i tree element midas_time p w
        ≡ ok (filled tree element rows w))
      × (length rows ≡ n)
      × AreEntries (size_of element) p i rows
unfolding branch_tree_from_data
branch_tree_from_data-AreEntries zero i tree element midas_time p w h =
    ([], ap (λ f. ok (record w { fills = f })) (sym (append-nil w.fills)), refl, tt)
branch_tree_from_data-AreEntries (suc n) i tree element midas_time p w h =
    let (s, e, is) = set_entry-IsEntry element midas_time p w i (h i (omega arith) (omega arith)) in
    let f : Fill = record { tree = tree; element = element; row = value_row s } in
    let (rows, e', l, are) =
      branch_tree_from_data-AreEntries n (i + 1) tree element midas_time p
        (record w { fills = w.fills ++ f ∷ [] })
        (λ j low high. h j (omega (arith, low)) (omega (arith, high))) in
    (
      s ∷ rows,
      ap
            (λ r. r >>= (λ t.
              branch_tree_from_data n (i + 1) tree element midas_time p
                (fill (record { tree = tree; element = element; row = value_row t }) w)))
            e
          ∙ e'
          ∙ ap (λ g. ok (record w { fills = g })) (append_assoc w.fills (f ∷ []) (map _ rows)),
      ap suc l,
      (is, are),
    )

save_as-element :
    (element : Element) (name : Bytes) (midas_time : ℕ) (p : Bytes) (w : Writer)
    → element ≢ file
    → save_as (some element) name midas_time p w
      ≡ branch_tree_from_data
          (gem_bank_at p).number_of_entries
          0
          (find_or_create_tree name element w.trees).0
          element
          midas_time
          p
          (with_trees (find_or_create_tree name element w.trees).1 w)
unfolding save_as
save_as-element double name midas_time p w h = refl
save_as-element float name midas_time p w h = refl
save_as-element bool name midas_time p w h = refl
save_as-element int32 name midas_time p w h = refl
save_as-element uint32 name midas_time p w h = refl
save_as-element uint16 name midas_time p w h = refl
save_as-element char name midas_time p w h = refl
save_as-element file name midas_time p w h = absurd (h refl)

-- A MIDAS bank that holds a bank of version 1, whose names end in memory, with a DATATYPE of numbers or
-- of text, is analyzed without fail if every one of its entries can be kept, its timestamp and elements
-- in memory: the tree of its name gets one row for each entry, in their order, with the time of the
-- entry and the bytes of its elements, and nothing else changes but that the tree is made where it was
-- missing.
pub analyze_event-AreEntries :
    (memory : Bytes) (midas_time : ℕ) (p name : Bytes) (element : Element) (w : Writer)
    → analyze p ≡ bank_flow
    → get_header_size ≤ length p
    → get_combined_name memory p ≡ some name
    → element_of (gem_bank_at p).name.datatype ≡ some element
    → element ≢ file
    → ((i : ℕ) → i < (gem_bank_at p).number_of_entries → Keepable element p i)
    → (rows : List Stored) × (analyze_event memory midas_time p w ≡ (
        let (tree, trees) = find_or_create_tree name element w.trees in
        ok (filled tree element rows (with_trees trees w))))
      × (length rows ≡ (gem_bank_at p).number_of_entries)
      × AreEntries (size_of element) p 0 rows
unfolding analyze_event analyze_as save_to_tree
analyze_event-AreEntries memory midas_time p name element w flow inside named typed plain keepable =
    let (tree, trees) = find_or_create_tree name element w.trees in
    let n = (gem_bank_at p).number_of_entries in
    let z : 0 + n ≡ n = omega arith in
    let (rows, e, l, are) =
      branch_tree_from_data-AreEntries n 0 tree element midas_time p (with_trees trees w)
        (λ j low high. keepable j (omega (arith, high))) in
    (
      rows,
      rw (flow, analyze_as, ge→ltb (length p) get_header_size inside, named, typed)
          (save_as-element element name midas_time p w plain ∙ e),
      l,
      are,
    )
