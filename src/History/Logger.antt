-- ===== src/History/Logger.antt =====
-- Class HistoryLogger of src/HistoryLogger.cxx and include/HistoryLogger.h.
use fe_gem.Common.{
  not, ℕ, ◌+◌, Option, none, some, List, [], codes, ◌∷◌, ◌++◌, Bytes, ltb, if◌then◌else◌, length,
  get_elem?, set,
}
use fe_gem.Bank.Layout.{gem_bank_at, get_category_name, get_variable_name, get_data_entry, u32}
use fe_gem.Bank.Time.{get_unix_timestamp}
use fe_gem.Bank.Title.{◌>>=◌}
use fe_gem.History.Variable.{
  has_time, HistoryVariable, LogCall, fe_variables, date_added, announce, new_variable, is_match,
  update_variable,
}

pub record HistoryLogger : Type 0 where
  pub eq_name : Bytes
  -- the memory from fFullHostName.c_str() on
  pub host_memory : Bytes
  pub variables : List HistoryVariable
  pub calls : List LogCall

-- The constructor, with the memory behind its "NotExclusive".
unfoldable pub new_logger : Bytes → Bytes → HistoryLogger
new_logger eq_name behind = record {
  eq_name = eq_name;
  host_memory = codes "NotExclusive" ++ 0 ∷ behind;
  variables = [];
  calls = [];
}

-- SetClientHostname, with the memory behind the new string.
unfoldable pub set_client_hostname : Bytes → Bytes → HistoryLogger → HistoryLogger
set_client_hostname hostname behind s = record s { host_memory = hostname ++ 0 ∷ behind }

module _ (memory : Bytes) (default_period element_size : ℕ) where
  -- sprintf into VarAndCategory[32]
  unfoldable pub var_and_category : Bytes → Bytes → Option Bytes
  var_and_category category name =
      let text = category ++ b'/' ∷ name in if ltb (length text) 32 then some text else none

  unfoldable pub add_new_variable : Bytes → HistoryLogger → Option (HistoryLogger × ℕ)
  unfolding var_and_category has_time
  add_new_variable p s =
      let b = gem_bank_at p in
      let i = length s.variables in
      let first = get_unix_timestamp (get_data_entry p 0).0 b.timestamp_endianness in
      if not (has_time (get_data_entry p 0)) then none else do
        category ← get_category_name memory p
        name ← get_variable_name memory p
        text ← var_and_category category name
        (variable, plots) ←
            new_variable memory default_period s.host_memory s.eq_name element_size p
        some (
          record s {
            variables = s.variables ++ variable ∷ [];
            calls =
                s.calls
                ++ fe_variables i text ∷ date_added i (u32 first) ∷ plots
                ++ announce category name ∷ [];
          },
          i,
        )

  -- The place of the first variable from place `i` on that matches.
  unfoldable pub find_variable : List HistoryVariable → Bytes → ℕ → Option (Option ℕ)
  find_variable [] p i = some none
  find_variable (v ∷ vs) p i =
      let rest = find_variable vs p (i + 1) in
      do found ← is_match memory v p; if found then some (some i) else rest

  unfoldable pub find : Bytes → HistoryLogger → Option (HistoryLogger × ℕ)
  unfolding add_new_variable find_variable
  find p s = do
    found ← find_variable s.variables p 0
    elim found [ some i ↦ some (s, i) | none ↦ add_new_variable p s ]

  -- HistoryLogger::Update, with the bank as it is behind the call.
  unfoldable pub update : Bytes → HistoryLogger → Option (HistoryLogger × Bytes)
  unfolding find
  update p s = do
    (s, i) ← find p s
    v ← get_elem? s.variables i
    r ← update_variable element_size v p
    some (record s { variables = set s.variables i r.1; calls = s.calls ++ r.2 }, r.0)
