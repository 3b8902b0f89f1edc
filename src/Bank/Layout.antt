-- ===== src/Bank/Layout.antt =====
-- BANK_TITLE, GEMBANK, GEMDATA and GEMBANKARRAY of libGEM/include/GEM_BANK.h: the structs that a
-- pointer into received memory is cast to, and their sizes in the 32-bit arithmetic of the source.
use fe_gem.Common.{
  ℕ, ◌+◌, ◌-◌, ◌*◌, ◌/◌, ◌%◌, ◌^◌, Option, some, ◌∷◌, ◌++◌, Bytes, if◌then◌else◌, take, drop, codes,
  strncmp_eq, set, replicate,
}
use fe_gem.Bank.Time.{LvTimestamp, le_value, get_unix_timestamp}
use fe_gem.Bank.Title.{◌>>=◌, sanitise_bank_string, c_string}

pub record BankTitle : Type 0 where
  pub bank : Bytes
  pub datatype : Bytes
  pub varcategory : Bytes
  pub varname : Bytes
  pub equipment_type : Bytes

pub record GemBank : Type 0 where
  pub name : BankTitle
  pub history_settings : ℕ
  pub history_period : ℕ
  pub timestamp_endianness : ℕ
  pub data_endianness : ℕ
  pub block_size : ℕ
  pub number_of_entries : ℕ

-- The field of n bytes at an offset of a struct.
unfoldable pub field : ℕ → ℕ → Bytes → Bytes
field offset n p = take n (drop offset p)

unfoldable pub gem_bank : Bytes → Bytes → Bytes → Bytes → Bytes → ℕ → ℕ → ℕ → ℕ → ℕ → ℕ → GemBank
gem_bank bank datatype varcategory varname equipment_type settings period times values size
      entries =
    record {
      name = record {
        bank = bank;
        datatype = datatype;
        varcategory = varcategory;
        varname = varname;
        equipment_type = equipment_type;
      };
      history_settings = settings;
      history_period = period;
      timestamp_endianness = times;
      data_endianness = values;
      block_size = size;
      number_of_entries = entries;
    }

-- (GEMBANK<T>*)ptr
unfoldable pub gem_bank_at : Bytes → GemBank
gem_bank_at p =
    gem_bank (field 0 4 p) (field 4 4 p) (field 8 16 p) (field 24 16 p) (field 40 32 p)
      (le_value (field 72 2 p)) (le_value (field 74 2 p)) (le_value (field 76 2 p))
      (le_value (field 78 2 p)) (le_value (field 80 4 p)) (le_value (field 84 4 p))

pub record GemBankArray : Type 0 where
  pub bank : Bytes
  pub bank_array_id : ℕ
  pub block_size : ℕ
  pub number_of_entries : ℕ

-- (GEMBANKARRAY*)ptr
unfoldable pub gem_bank_array_at : Bytes → GemBankArray
gem_bank_array_at p = record {
  bank = field 0 4 p;
  bank_array_id = le_value (field 4 4 p);
  block_size = le_value (field 8 4 p);
  number_of_entries = le_value (field 12 4 p);
}

-- The values of an unsigned integer of 32 bits.
abbrev pub u32 : ℕ → ℕ
u32 n = n % 2 ^ 32

-- a - b on such integers
abbrev pub sub_u32 : ℕ → ℕ → ℕ
sub_u32 a b = (a + 2 ^ 32 - b) % 2 ^ 32

-- GEMBANK::GetHeaderSize and GEMBANKARRAY::GetHeaderSize: the sums of the field sizes.
abbrev pub get_header_size : ℕ
get_header_size = 72 + 2 + 2 + 2 + 2 + 4 + 4

abbrev pub get_array_header_size : ℕ
get_array_header_size = 4 + 4 + 4 + 4

unfoldable pub get_total_size : GemBank → ℕ
get_total_size b = u32 (get_header_size + u32 (b.block_size * b.number_of_entries))

unfoldable pub get_array_total_size : GemBankArray → ℕ
get_array_total_size a = u32 (get_array_header_size + a.block_size)

-- GEMDATA::GetEntries for elements of `element_size` bytes.
unfoldable pub get_entries : ℕ → ℕ → ℕ
get_entries element_size size = sub_u32 size 16 / element_size

-- The GEMDATA that GetDataEntry points to, as its timestamp and the memory of its DATA.
unfoldable pub get_data_entry : Bytes → ℕ → LvTimestamp × Bytes
unfolding gem_bank_at
get_data_entry p i =
    let entry = drop (get_header_size + u32 ((gem_bank_at p).block_size * i)) p in
    (record { seconds = take 8 entry; sub_second_fraction = take 8 (drop 8 entry) }, drop 16 entry)

-- GetLastDataEntry
unfoldable pub get_last_data_entry : Bytes → LvTimestamp × Bytes
unfolding get_data_entry gem_bank_at
get_last_data_entry p = get_data_entry p (sub_u32 (gem_bank_at p).number_of_entries 1)

-- GetFirstDataEntry, GetSizeOfDataArray, GetFirstUnixTimestamp and GetLastUnixTimestamp
unfoldable pub get_first_data_entry : Bytes → LvTimestamp × Bytes
get_first_data_entry p =
    let entry = drop get_header_size p in
    (record { seconds = take 8 entry; sub_second_fraction = take 8 (drop 8 entry) }, drop 16 entry)

unfoldable pub get_size_of_data_array : ℕ → Bytes → ℕ
unfolding get_entries gem_bank_at
get_size_of_data_array element_size p = get_entries element_size (gem_bank_at p).block_size

unfoldable pub get_first_unix_timestamp : Bytes → ℕ
unfolding get_first_data_entry gem_bank_at get_unix_timestamp
get_first_unix_timestamp p =
    get_unix_timestamp (get_first_data_entry p).0 (gem_bank_at p).timestamp_endianness

unfoldable pub get_last_unix_timestamp : Bytes → ℕ
unfolding get_last_data_entry gem_bank_at get_unix_timestamp
get_last_unix_timestamp p =
    get_unix_timestamp (get_last_data_entry p).0 (gem_bank_at p).timestamp_endianness

-- ClearHeader of the two structs; -1 is the largest value of an unsigned field.
unfoldable pub clear_header : GemBank → GemBank
clear_header b = record {
  name = record {
    bank = set b.name.bank 0 0;
    datatype = set b.name.datatype 0 0;
    varcategory = set b.name.varcategory 0 0;
    varname = set b.name.varname 0 0;
    equipment_type = set b.name.equipment_type 0 0;
  };
  history_settings = 0;
  history_period = 0;
  timestamp_endianness = 2 ^ 16 - 1;
  data_endianness = 2 ^ 16 - 1;
  block_size = 2 ^ 32 - 1;
  number_of_entries = 2 ^ 32 - 1;
}

unfoldable pub clear_array_header : GemBankArray → GemBankArray
clear_array_header a = record {
  bank = replicate 4 0;
  bank_array_id = 2 ^ 32 - 1;
  block_size = 2 ^ 32 - 1;
  number_of_entries = 2 ^ 32 - 1;
}

-- The names of the bank at a pointer, from the piece of memory that a call of SanitiseBankString can
-- write. A field without a NUL goes on in the bytes behind it.
module _ (memory : Bytes) where
  unfoldable pub get_bank : Bytes → Option Bytes
  unfolding sanitise_bank_string c_string
  get_bank p = do text ← c_string p; sanitise_bank_string memory 4 text

  unfoldable pub get_type : Bytes → Option Bytes
  unfolding sanitise_bank_string c_string
  get_type p = do text ← c_string (drop 4 p); sanitise_bank_string memory 4 text

  unfoldable pub get_category_name : Bytes → Option Bytes
  unfolding sanitise_bank_string c_string
  get_category_name p = do text ← c_string (drop 8 p); sanitise_bank_string memory 16 text

  unfoldable pub get_variable_name : Bytes → Option Bytes
  unfolding sanitise_bank_string c_string
  get_variable_name p = do text ← c_string (drop 24 p); sanitise_bank_string memory 16 text

  unfoldable pub get_equipment_type : Bytes → Option Bytes
  unfolding sanitise_bank_string c_string
  get_equipment_type p = do text ← c_string (drop 40 p); sanitise_bank_string memory 32 text

  unfoldable pub get_combined_name : Bytes → Option Bytes
  unfolding get_category_name get_variable_name get_equipment_type
  get_combined_name p =
      let own = strncmp_eq 8 (drop 8 p) (codes "THISHOST") in
      do
        first ← (if own then get_equipment_type p else get_category_name p)
        second ← get_variable_name p
        some (first ++ b'\\' ∷ second)
