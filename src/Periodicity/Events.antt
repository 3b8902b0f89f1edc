-- ===== src/Periodicity/Events.antt =====
-- What reaches a PeriodicityManager of src/PeriodicityManager.cxx, and its counters below their limit.
use fe_gem.Common.{
  ℕ, ◌+◌, ◌^◌, ◌<◌, ◌≡◌, ◌≢◌, refl, Option, none, some, List, [], ◌∷◌, Bytes, arith, lt→ltb,
}
use fe_gem.Bank.Layout.{sub_u32}
use fe_gem.Periodicity.Manager.{
  PeriodicityManager, process_message, add_banks_processed, next_int, add_ints,
  log_periodic_with_data, log_periodic_without_data,
}

pub data Event : Type 0 where
  -- ProcessMessage with the BlockSize of the bank and the memory of its text
  message : ℕ → Bytes → Event
  -- LogPeriodicWithData at two clock readings
  with_data : ℕ → ℕ → Event
  without_data : Event
  banks : ℕ → Event

unfoldable pub handle : Event → PeriodicityManager → Option PeriodicityManager
handle (message block_size text) s = process_message block_size text s
handle (with_data now time) s = log_periodic_with_data now time s
handle without_data s = log_periodic_without_data s
handle (banks n) s = add_banks_processed n s

unfoldable pub handle_all : List Event → PeriodicityManager → Option PeriodicityManager
handle_all [] s = some s
handle_all (e ∷ es) s = elim (handle e s) [ none ↦ none | some s' ↦ handle_all es s' ]

-- The text of the bank has at least one byte behind the timestamp.
abbrev pub HasText : Event → Type 0
HasText (message block_size text) = sub_u32 block_size 16 ≢ 0
HasText (with_data now time) = Unit
HasText without_data = Unit
HasText (banks n) = Unit

-- The banks of the events.
abbrev pub banks_of : Event → ℕ
banks_of (message block_size text) = 0
banks_of (with_data now time) = 0
banks_of without_data = 0
banks_of (banks n) = n

abbrev pub banks_in : List Event → ℕ
banks_in [] = 0
banks_in (e ∷ es) = banks_of e + banks_in es

pub next_int-small : (n : ℕ) → n + 1 < 2 ^ 31 → next_int n ≡ some (n + 1)
unfolding next_int
next_int-small n h = rw (lt→ltb (n + 1) (2 ^ 31) h) refl

pub add_ints-small : (a b : ℕ) → a + b < 2 ^ 31 → add_ints a b ≡ some (a + b)
unfolding add_ints
add_ints-small a b h = ground arith
