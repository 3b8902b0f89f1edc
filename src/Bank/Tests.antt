-- ===== src/Bank/Tests.antt =====
-- Runs of the bank code on concrete input.
use mathlib.Core.List.{}
use fe_gem.Common.{
  c_str, ℕ, ◌+◌, ◌≡◌, refl, some, List, [], ◌∷◌, ◌++◌, arith, Bytes, codes, replicate, drop,
}
use fe_gem.Bank.Time.{
  LvTimestamp, get_unix_timestamp, get_labview_fine_time, get_labview_coarse_time, le_value,
  timestamp_round_trip, be_bytes, le_bytes, little_endian, unix_offset,
}
use fe_gem.Bank.Title.{is_kept, sanitise_bank_string}
use fe_gem.Bank.Sanitise.{sanitise_bank_string_lands}
use fe_gem.Bank.Layout.{
  gem_bank, field, gem_bank_array_at, get_array_total_size, clear_header, clear_array_header,
  get_first_unix_timestamp, get_last_unix_timestamp, get_size_of_data_array, GemBank, field,
  gem_bank, gem_bank_at, gem_bank_array_at, get_total_size, get_array_total_size, get_entries,
  get_header_size, get_combined_name, get_last_data_entry,
}
use fe_gem.Bank.Header.{encode, gem_bank_at-encode}
use fe_gem.Bank.Walk.{Packet, walk, pack_all, packet_at, walk-packets}

abbrev big_endian : LvTimestamp
big_endian = record {
  seconds = be_bytes 8 (1_600_000_000 + unix_offset);
  sub_second_fraction = be_bytes 8 7;
}

abbrev native : LvTimestamp
native = record {
  seconds = le_bytes 8 (1_600_000_000 + unix_offset);
  sub_second_fraction = le_bytes 8 7;
}

timestamp_round_trip_example :
    (get_unix_timestamp big_endian 0 ≡ 1_600_000_000)
    × (get_labview_fine_time big_endian 0 ≡ 7)
    × (get_unix_timestamp native little_endian ≡ 1_600_000_000)
    × (get_labview_fine_time native little_endian ≡ 7)
timestamp_round_trip_example =
    timestamp_round_trip 1_600_000_000 7 0 (omega arith) (omega arith) (omega arith)

coarse_time_test : get_labview_coarse_time big_endian 0 ≡ 1_600_000_000 + unix_offset
unfolding get_labview_coarse_time be_bytes
coarse_time_test = refl

-- "V 1-a" in the sixteen bytes of a variable name.
abbrev spaced : Bytes
spaced = codes "V 1-a"

sanitise_bank_string_lands_example :
    sanitise_bank_string (replicate 20 9) 16 spaced ≡ some (codes "V1-a")
unfolding is_kept
sanitise_bank_string_lands_example =
    sanitise_bank_string_lands (replicate 20 9) 16 spaced (omega arith) (omega arith)

abbrev bank_of : Bytes → ℕ → GemBank
bank_of name entries = record {
  name = record {
    bank = codes "GEB1";
    datatype = codes "DBL" ++ 0 ∷ [];
    varcategory = codes "THISHOST" ++ replicate 8 0;
    varname = name ++ replicate 13 0;
    equipment_type = codes "my pc" ++ replicate 27 0;
  };
  history_settings = 0;
  history_period = 10;
  timestamp_endianness = 0;
  data_endianness = 0;
  block_size = 24;
  number_of_entries = entries;
}

abbrev two_packets : List Packet
two_packets =
    (bank_of (codes "CPU") 1, replicate 24 5) ∷ (bank_of (codes "MEM") 2, replicate 48 6) ∷ []

walk-packets_example :
    walk (λ p s. s ++ packet_at p ∷ []) 2 (pack_all two_packets (7 ∷ [])) [] ≡ two_packets
walk-packets_example = walk-packets two_packets (7 ∷ []) (
  (
    (
      refl,
      refl,
      refl,
      refl,
      refl,
      omega arith,
      omega arith,
      omega arith,
      omega arith,
      omega arith,
      omega arith,
    ),
    refl,
    omega arith,
  ),
  (
    (
      (
        refl,
        refl,
        refl,
        refl,
        refl,
        omega arith,
        omega arith,
        omega arith,
        omega arith,
        omega arith,
        omega arith,
      ),
      refl,
      omega arith,
    ),
    tt,
  ),
)

gem_bank_at-encode_example :
    (gem_bank_at (encode (bank_of (codes "CPU") 1) (7 ∷ [])) ≡ bank_of (codes "CPU") 1)
    × (drop get_header_size (encode (bank_of (codes "CPU") 1) (7 ∷ [])) ≡ 7 ∷ [])
gem_bank_at-encode_example = gem_bank_at-encode (bank_of (codes "CPU") 1) (7 ∷ []) (
  refl,
  refl,
  refl,
  refl,
  refl,
  omega arith,
  omega arith,
  omega arith,
  omega arith,
  omega arith,
  omega arith,
)

-- The sizes are those of 32 bits: a bank of 2 ^ 16 blocks of 2 ^ 16 bytes counts as its header.
get_total_size_test :
    get_total_size (record (bank_of (codes "CPU") 65_536) { block_size = 65_536 }) ≡ 88
unfolding get_total_size
get_total_size_test = refl

get_entries_test : get_entries 8 24 ≡ 1
unfolding get_entries
get_entries_test = refl

array_test :
    get_array_total_size
      (gem_bank_array_at (codes "GEA1" ++ 1 ∷ 0 ∷ 0 ∷ 0 ∷ 44 ∷ 1 ∷ 0 ∷ 0 ∷ replicate 4 0))
    ≡ 316
unfolding get_array_total_size gem_bank_array_at le_value field
array_test = refl

combined_name_test :
    get_combined_name (replicate 40 0) (encode (bank_of (codes "CPU") 1) [])
    ≡ some (codes "mypc\\CPU")
unfolding get_combined_name encode le_bytes
combined_name_test = refl

last_entry_test : (get_last_data_entry (pack_all two_packets [])).0.seconds ≡ replicate 8 5
unfolding get_last_data_entry gem_bank le_value field encode le_bytes
last_entry_test = refl

-- A cleared bank still counts as one of 89 bytes, since -1 times -1 is 1.
cleared_runs :
    (get_total_size (clear_header (bank_of (codes "CPU") 1)) ≡ 89)
    × (c_str (clear_header (bank_of (codes "CPU") 1)).name.varname ≡ [])
    × (get_array_total_size (clear_array_header (gem_bank_array_at (codes "GEA1"))) ≡ 15)
unfolding get_total_size clear_header clear_array_header get_array_total_size
cleared_runs = (refl, refl, refl)

first_and_last_runs :
    let p =
      replicate 72 1
      ++ (replicate 8 0
          ++ (24 ∷ 0 ∷ 0 ∷ 0 ∷ 2 ∷ 0 ∷ 0 ∷ 0 ∷ be_bytes 8 (unix_offset + 5)
              ++ (replicate 16 0 ++ be_bytes 8 (unix_offset + 9)))) in
    (get_first_unix_timestamp p ≡ 5)
    × (get_last_unix_timestamp p ≡ 9)
    × (get_size_of_data_array 4 p ≡ 2)
unfolding get_first_unix_timestamp get_last_unix_timestamp get_size_of_data_array be_bytes gem_bank
    field
first_and_last_runs = (refl, refl, refl)
