-- ===== src/Analyzer/Store.antt =====
-- What libGEM/src/TStoreGEMEvent.cxx and its header keep of a bank. Numbers that are doubles in the
-- source stay exact: the seconds and the fraction of a time apart.
use fe_gem.Common.{
  Bool, ◌||◌, ◌&&◌, take-nil, true, false, ℕ, zero, suc, ◌+◌, ◌-◌, ◌*◌, ◌^◌, ◌≤◌, ◌<◌, ◌≡◌, refl,
  sym, ap, ◌∙◌, Option, some, List, [], ◌∷◌, ◌++◌, arith, Bytes, ltb, leb, if◌then◌else◌, length,
  take, drop, ge→ltb,
}
use fe_gem.Bank.Layout.{
  gem_bank_at, get_bank, get_type, get_entries, get_category_name, get_variable_name,
  get_equipment_type,
}
use fe_gem.Bank.Time.{LvTimestamp, get_unix_timestamp, get_labview_fine_time}
use fe_gem.Bank.Title.{◌>>=◌}
use fe_gem.Analyzer.Dispatch.{Element, double, float, bool, int32, uint32, uint16, char, file}
use fe_gem.Server.State.{Run, ok, aborted, undefined}

-- TStoreGEMEventHeader; BlockSize and NumberOfEntries are never set.
pub record EventHeader : Type 0 where
  pub bank : Bytes
  pub datatype : Bytes
  pub varcategory : Bytes
  pub varname : Bytes
  pub equipment_type : Bytes
  pub history_settings : ℕ
  pub history_period : ℕ
  pub timestamp_endianness : ℕ
  pub data_endianness : ℕ

unfoldable pub event_header : Bytes → Bytes → Option EventHeader
unfolding get_bank get_type
event_header memory p =
    let b = gem_bank_at p in
    do
      bank ← get_bank memory p
      datatype ← get_type memory p
      varcategory ← get_category_name memory p
      varname ← get_variable_name memory p
      equipment_type ← get_equipment_type memory p
      some (record {
        bank = bank;
        datatype = datatype;
        varcategory = varcategory;
        varname = varname;
        equipment_type = equipment_type;
        history_settings = b.history_settings;
        history_period = b.history_period;
        timestamp_endianness = b.timestamp_endianness;
        data_endianness = b.data_endianness;
      })

-- TStoreGEMData
pub record Stored : Type 0 where
  pub raw_lab_view_timestamp : LvTimestamp
  -- RawLabVIEWAsUNIXTime: the bit pattern of the seconds, and the fraction in units of 2^-64
  pub unix_seconds : ℕ
  pub fraction : ℕ
  pub timestamp_endianness : ℕ
  pub data_endianness : ℕ
  pub midas_time : ℕ
  pub run_number : ℕ
  -- RunTime is the time above less this
  pub run_time_offset : ℕ
  -- the elements as they stand in memory
  pub elements : List Bytes

-- The loop of push_back over n elements.
unfoldable pub elements_of : ℕ → ℕ → Bytes → List Bytes
elements_of element_size zero p = []
elements_of element_size (suc n) p =
    take element_size p ∷ elements_of element_size n (drop element_size p)

-- What BranchTreeFromData passes beside the entry.
pub record Context : Type 0 where
  pub context_midas_time : ℕ
  pub context_offset : ℕ
  pub context_run_number : ℕ

-- sizeof(T)
abbrev pub size_of : Element → ℕ
size_of double = 8
size_of float = 4
size_of bool = 1
size_of int32 = 4
size_of uint32 = 4
size_of uint16 = 2
size_of char = 1
size_of file = 1

-- Whether bytes are values of the type: a bool other than 0 and 1 is undefined when it is read.
unfoldable pub are_bits : Bytes → Bool
are_bits [] = true
are_bits (c ∷ cs) = leb c 1 && are_bits cs

unfoldable pub are_values : Element → Bytes → Bool
unfolding are_bits
are_values double p = true
are_values float p = true
are_values bool p = are_bits p
are_values int32 p = true
are_values uint32 p = true
are_values uint16 p = true
are_values char p = true
are_values file p = true

-- Set, on a timestamp and the memory of the DATA. As doubles a fraction is below 1 when it is below
-- 2^64 - 2^10, where rounding begins to give 1; a negative int of entries makes reserve throw.
unfoldable pub set_data : Element → LvTimestamp × Bytes → ℕ → ℕ → ℕ → Context → Run Stored
unfolding elements_of are_values
set_data element (timestamp, memory) block_size timestamp_endianness data_endianness context =
    let fine = get_labview_fine_time timestamp timestamp_endianness in
    let entries = get_entries (size_of element) block_size in
    if ltb (length timestamp.seconds) 8 || ltb (length timestamp.sub_second_fraction) 8
    then undefined
    else if leb (2 ^ 64 - 2 ^ 10) fine
    then aborted
    else if leb (2 ^ 31) entries
    then aborted
    else if ltb (length memory) (entries * size_of element)
    then undefined
    else if are_values element (take (entries * size_of element) memory)
    then ok (record {
      raw_lab_view_timestamp = timestamp;
      unix_seconds = get_unix_timestamp timestamp timestamp_endianness;
      fraction = fine;
      timestamp_endianness = timestamp_endianness;
      data_endianness = data_endianness;
      midas_time = context.context_midas_time;
      run_number = context.context_run_number;
      run_time_offset = context.context_offset;
      elements = elements_of (size_of element) entries memory;
    })
    else undefined

-- TStoreGEMData, and TStoreGEMFile with what SetFileName puts into it.
pub data Row : Type 0 where
  value_row : Stored → Row
  file_row : Stored → Bytes → Bytes → Bytes → Row

gt→leb : (a b : ℕ) → b < a → leb a b ≡ false
gt→leb a b h = ground arith

le→leb : (a b : ℕ) → a ≤ b → leb a b ≡ true
le→leb a b h = ground arith

abbrev pub concat : List Bytes → Bytes
concat [] = []
concat (x ∷ xs) = x ++ concat xs

take-plus : (a b : ℕ) (p : Bytes) → take (a + b) p ≡ take a p ++ take b (drop a p)
take-plus zero b p = ap (λ n. take n p) zero_plus
  where
    zero_plus : 0 + b ≡ b
    zero_plus = omega arith
take-plus (suc a) b [] = take-nil (suc a + b) ∙ sym (take-nil b)
take-plus (suc a) b (x ∷ p) =
    let e : suc a + b ≡ suc (a + b) = omega arith in
    ap (λ n. take n (x ∷ p)) e ∙ ap (◌∷◌ x) (take-plus a b p)

concat-elements_of :
    (element_size n : ℕ) (p : Bytes)
    → concat (elements_of element_size n p) ≡ take (n * element_size) p
unfolding elements_of
concat-elements_of element_size zero p = ap (λ k. take k p) none_of
  where
    none_of : 0 ≡ 0 * element_size
    none_of = omega arith
concat-elements_of element_size (suc n) p =
    let e : element_size + n * element_size ≡ suc n * element_size = omega arith in
    ap (λ t. take element_size p ++ t) (concat-elements_of element_size n (drop element_size p))
    ∙ sym (take-plus element_size (n * element_size) p)
    ∙ ap (λ k. take k p) e

length-elements_of : (element_size n : ℕ) (p : Bytes) → length (elements_of element_size n p) ≡ n
unfolding elements_of
length-elements_of element_size zero p = refl
length-elements_of element_size (suc n) p =
    ap suc (length-elements_of element_size n (drop element_size p))

-- An entry whose timestamp and elements stand in memory, with a fraction below 2^64 - 2^10 and values
-- of its type, is kept with its time and the bytes of its elements, in order; one with a larger
-- fraction makes an assert fail, which ends the analyzer.
pub set_data_kept :
    (element : Element) (block_size times values : ℕ) (timestamp : LvTimestamp) (memory : Bytes)
    (context : Context)
    → length timestamp.seconds ≡ 8
    → length timestamp.sub_second_fraction ≡ 8
    → (get_labview_fine_time timestamp times < 2 ^ 64 - 2 ^ 10
        → get_entries (size_of element) block_size < 2 ^ 31
        → get_entries (size_of element) block_size * size_of element ≤ length memory
        → are_values element
            (take (get_entries (size_of element) block_size * size_of element) memory)
          ≡ true
        → (s : Stored) × (set_data element (timestamp, memory) block_size times values context
            ≡ ok s)
          × (s.unix_seconds ≡ get_unix_timestamp timestamp times)
          × (length s.elements ≡ get_entries (size_of element) block_size)
          × (concat s.elements
              ≡ take (get_entries (size_of element) block_size * size_of element) memory))
      × (2 ^ 64 - 2 ^ 10 ≤ get_labview_fine_time timestamp times
          → set_data element (timestamp, memory) block_size times values context ≡ aborted)
unfolding set_data
set_data_kept element block_size times values timestamp memory context whole parts =
    let n = get_entries (size_of element) block_size in
    let fine = get_labview_fine_time timestamp times in
    let in_memory : (ltb (length timestamp.seconds) 8
          || ltb (length timestamp.sub_second_fraction) 8)
        ≡ false =
      ground (arith, whole, parts) in
    (
      λ small few inside valid. (
        record {
          raw_lab_view_timestamp = timestamp;
          unix_seconds = get_unix_timestamp timestamp times;
          fraction = fine;
          timestamp_endianness = times;
          data_endianness = values;
          midas_time = context.context_midas_time;
          run_number = context.context_run_number;
          run_time_offset = context.context_offset;
          elements = elements_of (size_of element) n memory;
        },
        rw
            (
              set_data,
              in_memory,
              gt→leb (2 ^ 64 - 2 ^ 10) fine small,
              gt→leb (2 ^ 31) n few,
              ge→ltb (length memory) (n * size_of element) inside,
              valid,
            )
            refl,
        refl,
        length-elements_of (size_of element) n memory,
        concat-elements_of (size_of element) n memory,
      ),
      λ large. rw (set_data, in_memory, le→leb (2 ^ 64 - 2 ^ 10) fine large) refl,
    )
