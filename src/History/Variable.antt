-- ===== src/History/Variable.antt =====
-- Class HistoryVariable of src/HistoryLogger.cxx and include/HistoryLogger.h. A bank is the memory
-- from its header on; `memory` is the piece of memory that a call of SanitiseBankString can write.
-- `none` is undefined behaviour or a failed assert.
use fe_gem.Common.{
  not, length, leb, ltb, ◌*◌, Bool, ℕ, ◌+◌, ◌-◌, ◌*◌, ◌%◌, ◌^◌, Bool, false, ◌&&◌, ◌||◌, Option,
  none, some, List, [], ◌∷◌, ◌++◌, Bytes, codes, ltb, leb, ◌==◌, if◌then◌else◌, length, take, drop,
  c_str, strncmp_eq, bytes_eq,
}
use fe_gem.Bank.Layout.{
  gem_bank_at, get_category_name, get_variable_name, get_last_data_entry, get_entries,
}
use fe_gem.Bank.Time.{LvTimestamp, get_unix_timestamp}
use fe_gem.Bank.Title.{◌>>=◌}
use fe_gem.History.Plot.{PlotWrite, build_cpumem_history_plot}

pub record HistoryVariable : Type 0 where
  pub category : Bytes
  pub var_name : Bytes
  -- the bit pattern of int64_t fLastUpdate
  pub last_update : ℕ
  pub update_frequency : ℕ
  -- the path of fOdbEqVariables
  pub odb_path : Bytes
  pub add_hostname_to_description : Bool
  pub host_name : Bytes

abbrev pub variable_of : Bytes → Bytes → ℕ → Bytes → Bool → Bytes → HistoryVariable
variable_of category name frequency path own host = record {
  category = category;
  var_name = name;
  last_update = 0;
  update_frequency = frequency;
  odb_path = path;
  add_hostname_to_description = own;
  host_name = host;
}

-- Writes to the ODB and to the control room.
pub data LogCall : Type 0 where
  -- fOdbEqVariables->W?A(name, data), with the path
  write_values : Bytes → Bytes → Bytes → LogCall
  plot : Bytes → List PlotWrite → LogCall
  fe_variables : ℕ → Bytes → LogCall
  date_added : ℕ → ℕ → LogCall
  announce : Bytes → Bytes → LogCall

abbrev pub is_this_host : Bytes → Bool
is_this_host category = strncmp_eq 8 category (codes "THISHOST")

-- The constructor. `host_memory` is the memory from fFullHostName.c_str() on: 31 bytes are copied.
-- A variable that is never updated keeps fLastUpdate and its path unset; they are not read.
unfoldable pub new_variable :
    Bytes → ℕ → Bytes → Bytes → ℕ → Bytes → Option (HistoryVariable × List LogCall)
new_variable memory default_period host_memory eq_name element_size p =
    let b = gem_bank_at p in
    let frequency = if b.history_period == 65_535 then default_period else b.history_period in
    if ltb (length host_memory) 31 then none else do
      category ← get_category_name memory p
      name ← get_variable_name memory p
      let own = is_this_host category
      let home = if own then eq_name else category
      let nvars = get_entries element_size b.block_size
      let calls =
          if own && strncmp_eq 6 name (codes "CPUMEM")
          then plot eq_name (build_cpumem_history_plot eq_name nvars) ∷ []
          else []
      let path = codes "Equipment/" ++ home ++ codes "/Variables"
      (if frequency == 0
          then some (variable_of category name 0 [] false (take 31 host_memory), [])
          else some (variable_of category name frequency path own (take 31 host_memory), calls))

unfoldable pub is_match : Bytes → HistoryVariable → Bytes → Option Bool
is_match memory v p = do
  category ← get_category_name memory p
  name ← get_variable_name memory p
  some (bytes_eq v.category category && bytes_eq v.var_name name)

-- strcpy into NAME.EquipmentType, which stands at byte 40 of the header.
unfoldable pub set_equipment_type : Bytes → Bytes → Bytes
set_equipment_type p text = take 40 p ++ text ++ 0 ∷ drop (40 + length text + 1) p

-- TimeSinceLastUpdate < UpdateFrequency, where the difference is cut to an int.
unfoldable pub is_too_early : ℕ → ℕ → ℕ → Bool
is_too_early bank_time_stamp last_update frequency =
    let since = (bank_time_stamp + 2 ^ 64 - last_update) % 2 ^ 64 % 2 ^ 32 in
    leb (2 ^ 31) since || ltb since frequency

-- The bank as Update changes it: THISHOST banks get the name of their host as description.
unfoldable pub described : HistoryVariable → Bytes → Bytes
unfolding set_equipment_type
described v p =
    if v.add_hostname_to_description then set_equipment_type p (c_str v.host_name) else p

-- The time of the last entry of a bank.
unfoldable pub last_time : Bytes → ℕ
last_time p = get_unix_timestamp (get_last_data_entry p).0 (gem_bank_at p).timestamp_endianness

-- Whether the timestamp and n bytes behind it are in memory.
unfoldable pub has_time : LvTimestamp × Bytes → Bool
has_time (timestamp, memory) = leb 8 (length timestamp.seconds)

unfoldable pub has_values : ℕ → LvTimestamp × Bytes → Bool
has_values n (timestamp, memory) = leb n (length memory)

-- The bank behind the call, the variable, and what was written. `none` is a read outside of the
-- memory, or a number of entries that is no int, for which no array can be made.
unfoldable pub update_variable :
    ℕ → HistoryVariable → Bytes → Option (Bytes × HistoryVariable × List LogCall)
unfolding has_time has_values
update_variable element_size v p =
    let p = described v p in
    let entry = get_last_data_entry p in
    let bank_time_stamp = last_time p in
    let entries = get_entries element_size (gem_bank_at p).block_size in
    if v.update_frequency == 0
    then some (p, v, [])
    else if not (has_time entry)
    then none
    else if is_too_early bank_time_stamp v.last_update v.update_frequency
    then some (p, v, [])
    else if not (has_values (entries * element_size) entry && ltb entries (2 ^ 31))
    then none
    else some (
      p,
      record v { last_update = bank_time_stamp },
      write_values v.odb_path v.var_name (take (entries * element_size) entry.1) ∷ [],
    )
