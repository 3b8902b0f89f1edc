-- ===== src/Launch/SettingsPath.antt =====
-- The path that Init of src/feGEMWorker.cxx proposes for the settings files, made from the name of the
-- program.
use fe_gem.Common.{
  ℕ, zero, suc, Option, none, some, ◌++◌, Bytes, codes, ltb, ◌==◌, if◌then◌else◌, length, get_or,
  set,
}
use fe_gem.Bank.Title.{c_string}

-- The loop from i down to 1 over the memory of char buf[200].
unfoldable pub cut_program : ℕ → Bytes → Bytes
cut_program zero buf = buf
cut_program (suc i) buf =
    let rest = cut_program i buf in if get_or buf (suc i) 0 == b'/' then set buf (suc i) 0 else rest

-- SettingsFileDatabasePath, from what readlink left in buf and the memory behind it: the loop begins
-- with buf[200], one byte behind the array, and is undefined where that is no memory, or no NUL ends the
-- path there.
unfoldable pub settings_path : Bytes → Option Bytes
unfolding cut_program c_string
settings_path buf =
    if ltb 200 (length buf)
    then elim (c_string (cut_program 200 buf)) [
      | none ↦ none
      | some path ↦ some (path ++ codes "/SettingsDatabase")
    ]
    else none
