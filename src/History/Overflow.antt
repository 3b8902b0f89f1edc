-- ===== src/History/Overflow.antt =====
-- The array VarAndCategory[32] of AddNewVariable, against the names that banks can have.
use fe_gem.Common.{drop, ℕ, ◌+◌, ◌<◌, ◌≡◌, some, Bytes, length, take, select}
use fe_gem.Bank.Title.{c_string, is_kept}
use fe_gem.History.Logger.{HistoryLogger}

-- The first sixteen of the characters that a name keeps.
abbrev pub clean : Bytes → Bytes
clean text = take 16 (select is_kept text)

module _ (memory : Bytes) (room : 17 < length memory) (p category name : Bytes)
    (at_category : c_string (drop 8 p) ≡ some category)
    (at_name : c_string (drop 24 p) ≡ some name) where
  module _ (default_period element_size : ℕ) (s : HistoryLogger) where
    total : ℕ
    total = length (clean category) + length (clean name)
