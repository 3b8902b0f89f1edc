-- ===== src/Analyzer/Tests.antt =====
-- The analyzer on concrete banks.
use fe_gem.Common.{
  ◌≡◌, ◌≢◌, ◌≤◌, ◌<◌, ℕ, zero, suc, refl, some, none, [], ◌∷◌, ◌++◌, arith, codes, true, Bytes,
  List, length, replicate, get_elem?,
}
use fe_gem.Bank.Endian.{change_endian}
use fe_gem.Bank.Time.{le_value, get_labview_fine_time}
use fe_gem.Bank.Layout.{
  gem_bank_at, get_combined_name, get_data_entry, get_entries, get_header_size, field, gem_bank,
}
use fe_gem.Server.State.{ok}
use fe_gem.Analyzer.Dispatch.{Element, element_of, find_or_create_tree, Analysis, analyze}
use fe_gem.Analyzer.Store.{Stored, are_values}
use fe_gem.Analyzer.Writer.{Writer, begin_run, with_trees, analyze_event, init_flags}
use fe_gem.Analyzer.Filing.{Later, find_or_create_tree-Later}
use fe_gem.Analyzer.Rows.{Keepable, AreEntries, filled, analyze_event-AreEntries}
use fe_gem.Analyzer.FileHeader.{no_header, read_header, header_of, read_header-header_of}

read_header-header_of_example :
    read_header 10
      (header_of (codes "a.txt") (codes "/tmp") (codes "d41d") (0 ∷ 255 ∷ []))
      no_header
    ≡ some (record {
      filename = codes "a.txt";
      filepath = codes "/tmp";
      file_md5 = codes "d41d";
      file = some (0 ∷ 255 ∷ []);
    })
read_header-header_of_example =
    read_header-header_of (codes "a.txt") (codes "/tmp") (codes "d41d") (0 ∷ 255 ∷ [])
      (refl, (refl, (refl, (refl, (refl, tt))))) (refl, (refl, (refl, (refl, tt))))
      (refl, (refl, (refl, (refl, tt)))) (omega arith) (omega arith) (omega arith)

-- U32 is compared with its NUL, STRA before STR.
element_runs :
    (element_of (codes "U32" ++ 0 ∷ []) ≡ some Element.uint32)
    × (element_of (codes "STRA") ≡ some Element.char)
    × (element_of (codes "I64" ++ 0 ∷ []) ≡ none)
unfolding element_of
element_runs = (refl, refl, refl)

tree_runs :
    (find_or_create_tree (codes "Magnet\\Current") Element.double []
      ≡ (0, (codes "Magnet\\Current", codes "TStoreGEMData<double>") ∷ []))
    × ((find_or_create_tree (codes "b") Element.char ((codes "a", []) ∷ (codes "b", []) ∷ [])).0
        ≡ 1)
unfolding find_or_create_tree
tree_runs = (refl, refl)

analyze_runs :
    (analyze (codes "GEB1...") ≡ Analysis.bank_flow)
    × (analyze (codes "GEA2...") ≡ Analysis.exits)
    × (analyze (codes "LVB1...") ≡ Analysis.untouched)
unfolding analyze
analyze_runs = (refl, refl, refl)

-- One entry of one number, at the time 0.
abbrev voltage_bank : Bytes
voltage_bank =
    codes "GEB1DBL"
    ++ (0 ∷ codes "Trap"
        ++ (replicate 12 0
            ++ (codes "Volts"
                ++ (replicate 11 0
                    ++ (codes "my pc"
                        ++ (replicate 27 0
                            ++ (replicate 8 0
                                ++ (24 ∷ 0 ∷ 0 ∷ 0 ∷ 1 ∷ 0 ∷ 0 ∷ 0 ∷ replicate 24 0))))))))

abbrev scratch : Bytes
scratch = replicate 40 0

voltage_name : get_combined_name scratch voltage_bank ≡ some (codes "Trap\\Volts")
unfolding get_combined_name gem_bank_at gem_bank field
voltage_name = refl

voltage_flow : analyze voltage_bank ≡ Analysis.bank_flow
unfolding analyze
voltage_flow = refl

voltage_element : element_of (gem_bank_at voltage_bank).name.datatype ≡ some Element.double
unfolding element_of gem_bank_at gem_bank field
voltage_element = refl

voltage_Keepable :
    (i : ℕ)
    → i < (gem_bank_at voltage_bank).number_of_entries
    → Keepable Element.double voltage_bank i
unfolding gem_bank_at gem_bank field get_data_entry get_entries get_labview_fine_time le_value
    change_endian are_values
voltage_Keepable zero h = (omega arith, omega arith, omega arith, omega arith, omega arith, refl)
voltage_Keepable (suc i) h = absurd (omega (arith, h))

voltage_whole : get_header_size ≤ length voltage_bank
voltage_whole = omega arith

voltage_plain : Element.double ≢ Element.file
voltage_plain e = cc

analyze_event-AreEntries_example :
    (rows : List Stored) × (analyze_event scratch 7 voltage_bank (begin_run 5 3) ≡ (
      let (tree, trees) =
        find_or_create_tree (codes "Trap\\Volts") Element.double (begin_run 5 3).trees in
      ok (filled tree Element.double rows (with_trees trees (begin_run 5 3)))))
    × (length rows ≡ (gem_bank_at voltage_bank).number_of_entries)
    × AreEntries 8 voltage_bank 0 rows
analyze_event-AreEntries_example =
    analyze_event-AreEntries scratch 7 voltage_bank (codes "Trap\\Volts") Element.double
      (begin_run 5 3) voltage_flow voltage_whole voltage_name voltage_element voltage_plain
      voltage_Keepable

abbrev volts : Bytes
volts = codes "Trap\\Volts"

-- The writer that has made the tree for the bank.
abbrev requested : Writer
requested =
    with_trees (find_or_create_tree volts Element.double (begin_run 5 3).trees).1 (begin_run 5 3)

-- An event is analyzed, then a tree is asked for under the name of another type of elements.
find_or_create_tree-Later_example :
    (w : Writer) × (analyze_event scratch 7 voltage_bank requested ≡ ok w)
    × (let (i, t) = find_or_create_tree volts Element.double (begin_run 5 3).trees in
        let (i', t') = find_or_create_tree volts Element.float w.trees in
        (i ≡ i' → volts ≡ volts) × (volts ≡ volts → i ≡ i') × (get_elem? t' i ≡ get_elem? t i))
find_or_create_tree-Later_example =
    let filed =
      analyze_event-AreEntries scratch 7 voltage_bank volts Element.double requested voltage_flow
        voltage_whole voltage_name voltage_element voltage_plain voltage_Keepable in
    let w : Writer =
      (let (tree, trees) = find_or_create_tree volts Element.double requested.trees in
        filled tree Element.double filed.0 (with_trees trees requested)) in
    (
      w,
      filed.1,
      find_or_create_tree-Later scratch volts volts Element.double Element.float (begin_run 5 3) w
          (Later.event requested w w 7 voltage_bank filed.1 (Later.now w)),
    )

init_flags_runs : (init_flags (codes "-v" ∷ codes "--print" ∷ []) ≡ true)
unfolding init_flags
init_flags_runs = refl
