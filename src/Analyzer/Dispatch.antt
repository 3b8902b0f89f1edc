-- ===== src/Analyzer/Dispatch.antt =====
-- Which tree and which branch of libGEM/src/feGEM_module.cxx a bank goes to, and the version check of
-- Analyze.
use fe_gem.Common.{
  ℕ, ◌+◌, Option, none, some, List, [], ◌∷◌, ◌++◌, Bytes, codes, ◌==◌, if◌then◌else◌, length,
  get_or, strncmp_eq, bytes_eq,
}

-- The element type that SaveToTree casts a bank to.
pub data Element : Type 0 where
  double float bool int32 uint32 uint16 char file : Element

-- The tests on DATATYPE, in the order of the source; `none` prints an unknown bank.
unfoldable pub element_of : Bytes → Option Element
element_of datatype =
    if strncmp_eq 3 datatype (codes "DBL")
    then some double
    else if strncmp_eq 3 datatype (codes "FLT")
    then some float
    else if strncmp_eq 4 datatype (codes "BOOL")
    then some bool
    else if strncmp_eq 3 datatype (codes "I32")
    then some int32
    else if strncmp_eq 4 datatype (codes "U32")
    then some uint32
    else if strncmp_eq 3 datatype (codes "U16")
    then some uint16
    else if strncmp_eq 4 datatype (codes "STRA")
    then some char
    else if strncmp_eq 3 datatype (codes "STR")
    then some char
    else if strncmp_eq 4 datatype (codes "FILE")
    then some file
    else none

-- The branch of a tree, by its name and the type of its elements.
unfoldable pub branch_name : Bytes → Element → Bytes
branch_name combined_name element =
    if strncmp_eq 5 combined_name (codes "FILE:")
    then codes "TStoreGEMFile<char>"
    else elim element [
      | double ↦ codes "TStoreGEMData<double>"
      | float ↦ codes "TStoreGEMData<float>"
      | bool ↦ codes "TStoreGEMData<bool>"
      | int32 ↦ codes "TStoreGEMData<int32_t>"
      | uint32 ↦ codes "TStoreGEMData<uint32_t>"
      | uint16 ↦ codes "TStoreGEMData<uint16_t>"
      | char ↦ codes "TStoreGEMData<char>"
      | file ↦ codes "TStoreGEMData<char>"
    ]

-- datatrees and their branches, by name.
abbrev pub Trees : Type 0
Trees = List (Bytes × Bytes)

unfoldable pub find_tree : Trees → Bytes → ℕ → Option ℕ
find_tree [] name i = none
find_tree ((tree, branch) ∷ trees) name i =
    let rest = find_tree trees name (i + 1) in if bytes_eq tree name then some i else rest

-- The place of the tree, and the trees.
unfoldable pub find_or_create_tree : Bytes → Element → Trees → ℕ × Trees
unfolding find_tree branch_name
find_or_create_tree name element trees = elim (find_tree trees name 0) [
  | some i ↦ (i, trees)
  | none ↦ (length trees, trees ++ (name, branch_name name element) ∷ [])
]

-- What Analyze makes of a MIDAS bank GEM1.
pub data Analysis : Type 0 where
  bank_flow array_flow untouched : Analysis
  -- exit(123)
  exits : Analysis

unfoldable pub analyze : Bytes → Analysis
analyze gem_bank_data =
    let version = get_or gem_bank_data 3 0 in
    if strncmp_eq 3 gem_bank_data (codes "GEB")
    then if version == b'1' then bank_flow else exits
    else if strncmp_eq 3 gem_bank_data (codes "GEA")
    then if version == b'1' then array_flow else exits
    else untouched
