-- ===== src/Passage/Tests.antt =====
-- One bank of one number on its way from a client to a tree.
use fe_gem.Common.{none, some, drop, ◌∷◌, ◌++◌, Bytes, codes, replicate}
use fe_gem.Bank.Layout.{get_array_header_size}
use fe_gem.Bank.Walk.{walk}
use fe_gem.History.Logger.{HistoryLogger}
use fe_gem.Frontend.State.{Frontend}
use fe_gem.Frontend.Samples.{logger, magnet, world}
use fe_gem.Passage.Walked.{log_next}

abbrev current : Bytes
current = codes "Magnet\\Current"

abbrev scratch : Bytes
scratch = replicate 40 0

-- Two banks in one array.
abbrev magnets : Bytes
magnets = codes "GEA1" ++ (0 ∷ 0 ∷ 0 ∷ 0 ∷ 224 ∷ 0 ∷ 0 ∷ 0 ∷ 2 ∷ 0 ∷ 0 ∷ 0 ∷ magnet ++ magnet)

abbrev first_bank : Bytes
first_bank = drop get_array_header_size magnets

abbrev walked : HistoryLogger
walked = elim (walk (log_next world) 2 first_bank (some logger)) [ none ↦ logger | some r ↦ r ]
