-- ===== src/Passage/Filed.antt =====
-- A client's bank of numbers from ServeHost (src/feGEMClass.cxx) to the rows of a tree
-- (libGEM/src/feGEM_module.cxx).
use fe_gem.Common.{ℕ, ◌-◌, ◌*◌, ◌^◌, ◌<◌, ◌≡◌, true, Bytes, take}
use fe_gem.Bank.Time.{get_labview_fine_time}
use fe_gem.Bank.Layout.{gem_bank_at, get_data_entry, get_entries}
use fe_gem.Frontend.State.{Frontend}
use fe_gem.Analyzer.Dispatch.{Element}
use fe_gem.Analyzer.Store.{size_of, are_values}
use fe_gem.Analyzer.Writer.{Writer}

-- What an entry in memory must hold to be stored: a time whose fraction rounds below 1, and elements
-- that are values of their type.
abbrev pub Storable : Element → Bytes → ℕ → Type 0
Storable e p i =
    let b = gem_bank_at p in
    let k = get_entries (size_of e) b.block_size * size_of e in
    (get_labview_fine_time (get_data_entry p i).0 b.timestamp_endianness < 2 ^ 64 - 2 ^ 10)
    × (are_values e (take k (get_data_entry p i).1) ≡ true)
