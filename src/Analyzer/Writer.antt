-- ===== src/Analyzer/Writer.antt =====
-- feGEMModuleWriter and the run object feGEMModule of libGEM/src/feGEM_module.cxx, with the copies
-- that libGEM/include/GEM_BANK_flow.h makes of a MIDAS bank. ROOT's trees are the lists of their
-- names and of what Fill puts into them.
use fe_gem.Common.{
  ℕ, zero, suc, ◌+◌, Bool, true, false, Option, none, some, List, [], ◌∷◌, ◌++◌, Bytes, codes, ltb,
  ◌==◌, if◌then◌else◌, length, drop, bytes_eq,
}
use fe_gem.Bank.Layout.{
  gem_bank_at, gem_bank_array_at, get_header_size, get_array_header_size, get_array_total_size,
  get_data_entry, get_combined_name,
}
use fe_gem.Bank.Walk.{walk}
use fe_gem.Server.State.{Run, ok, aborted, undefined, exited, ◌>>=◌, defined}
use fe_gem.Analyzer.Dispatch.{
  Element, char, file, Trees, find_or_create_tree, element_of, analyze, Analysis, bank_flow,
  array_flow, untouched, exits,
}
use fe_gem.Analyzer.FileHeader.{FileHeader, no_header, read_header}
use fe_gem.Analyzer.Store.{Stored, Context, set_data, Row, value_row, file_row}

-- A call of Fill: the place of the tree, the type of the object that its branch was pointed at, and
-- what the object held.
pub record Fill : Type 0 where
  pub tree : ℕ
  pub element : Element
  pub row : Row

pub record Writer : Type 0 where
  pub trees : Trees
  pub fills : List Fill
  pub run_time_offset : ℕ
  pub run_number : ℕ

-- The writer of the constructor, after BeginRun.
unfoldable pub begin_run : ℕ → ℕ → Writer
begin_run start run_number = record {
  trees = [];
  fills = [];
  run_time_offset = start;
  run_number = run_number;
}

abbrev pub context_of : ℕ → Writer → Context
context_of midas_time w = record {
  context_midas_time = midas_time;
  context_offset = w.run_time_offset;
  context_run_number = w.run_number;
}

abbrev pub fill : Fill → Writer → Writer
fill f w = record w { fills = w.fills ++ f ∷ [] }

abbrev pub with_trees : Trees → Writer → Writer
with_trees trees w = record w { trees = trees }

-- Set on the entry i of the bank at p.
unfoldable pub set_entry : Element → ℕ → Bytes → Writer → ℕ → Run Stored
unfolding set_data
set_entry element midas_time p w i =
    let b = gem_bank_at p in
    set_data element (get_data_entry p i) b.block_size b.timestamp_endianness b.data_endianness
      (context_of midas_time w)

-- The loop of BranchTreeFromData, n entries from the entry i on.
unfoldable pub branch_tree_from_data : ℕ → ℕ → ℕ → Element → ℕ → Bytes → Writer → Run Writer
unfolding set_entry
branch_tree_from_data zero i tree element midas_time p w = ok w
branch_tree_from_data (suc n) i tree element midas_time p w = do
  s ← set_entry element midas_time p w i
  branch_tree_from_data n (i + 1) tree element midas_time p
      (fill (record { tree = tree; element = element; row = value_row s }) w)

-- BranchTreeFromFile, whose loop runs once behind its assert.
unfoldable pub branch_tree_from_file : ℕ → FileHeader → ℕ → Bytes → Writer → Run Writer
unfolding set_entry
branch_tree_from_file tree h midas_time p w =
    if (gem_bank_at p).number_of_entries == 1
    then (do
      s ← set_entry char midas_time p w 0
      ok (
          fill
            (record {
              tree = tree;
              element = file;
              row = file_row s h.filename h.filepath h.file_md5;
            })
            w))
    else aborted

unfoldable pub save_file : FileHeader → Bytes → ℕ → Bytes → Writer → Run Writer
unfolding find_or_create_tree branch_tree_from_file
save_file h name midas_time p w =
    let combined_name = codes "FILE:" ++ (name ++ b'\\' ∷ h.filename) in
    let (tree, trees) = find_or_create_tree combined_name char w.trees in
    branch_tree_from_file tree h midas_time p (with_trees trees w)

-- The branches of SaveToTree by element type. An unknown one only prints.
unfoldable pub save_as : Option Element → Bytes → ℕ → Bytes → Writer → Run Writer
unfolding find_or_create_tree branch_tree_from_data save_file read_header
save_as none name midas_time p w = ok w
save_as (some file) name midas_time p w = do
  h ← defined (read_header 10 (get_data_entry p 0).1 no_header)
  save_file h name midas_time p w
save_as (some element) name midas_time p w =
    let (tree, trees) = find_or_create_tree name element w.trees in
    branch_tree_from_data (gem_bank_at p).number_of_entries 0 tree element midas_time p
      (with_trees trees w)

module _ (memory : Bytes) (midas_time : ℕ) where
  -- The bank is what memory there is from its header on.
  unfoldable pub save_to_tree : Bytes → Writer → Run Writer
  unfolding save_as get_combined_name element_of
  save_to_tree p w = if ltb (length p) get_header_size then undefined else (do
    name ← defined (get_combined_name memory p)
    save_as (element_of (gem_bank_at p).name.datatype) name midas_time p w)

  abbrev pub save_next : Bytes → Run Writer → Run Writer
  save_next p r = r >>= save_to_tree p

  -- The loop of AnalyzeFlowEvent over the copy of an array.
  unfoldable pub save_array : Bytes → Writer → Run Writer
  unfolding save_to_tree walk
  save_array p w =
      walk save_next (gem_bank_array_at p).number_of_entries (drop get_array_header_size p) (ok w)

  -- Analyze and AnalyzeFlowEvent on the MIDAS bank GEM1 of an event; an array is copied only if its
  -- total size is the length of the MIDAS bank.
  unfoldable pub analyze_as : Analysis → Bytes → Writer → Run Writer
  unfolding save_to_tree save_array
  analyze_as bank_flow gem_bank_data w = save_to_tree gem_bank_data w
  analyze_as array_flow gem_bank_data w =
      if get_array_total_size (gem_bank_array_at gem_bank_data) == length gem_bank_data
      then save_array gem_bank_data w
      else aborted
  analyze_as untouched gem_bank_data w = ok w
  analyze_as exits gem_bank_data w = exited

  unfoldable pub analyze_event : Bytes → Writer → Run Writer
  unfolding analyze_as analyze
  analyze_event gem_bank_data w = analyze_as (analyze gem_bank_data) gem_bank_data w

-- feGEMModuleFactory::Init
unfoldable pub init_flags : List Bytes → Bool
init_flags [] = false
init_flags (argument ∷ arguments) =
    let rest = init_flags arguments in if bytes_eq argument (codes "--print") then true else rest
