-- ===== src/Frontend/Strings.antt =====
-- HandleStrBank of src/feGEMClass.cxx: commands, messages to the control room, entries of the
-- settings, elogs, settings files, and texts that are logged.
use fe_gem.Common.{
  ℕ, zero, suc, ◌+◌, ◌^◌, Bool, ◌&&◌, ◌++◌, Bytes, codes, ltb, ◌==◌, if◌then◌else◌, map, take, drop,
  get_or, c_str, strncmp_eq,
}
use fe_gem.Bank.Layout.{gem_bank_at, get_data_entry, get_total_size, sub_u32}
use fe_gem.History.Logger.{update}
use fe_gem.Message.Queue.{formatted}
use fe_gem.Periodicity.Manager.{process_message}
use fe_gem.Server.State.{defined, Server, Run, ok, ◌>>=◌}
use fe_gem.Server.Commands.{handle_command_bank, atoi}
use fe_gem.Settings.Files.{save_settings_file, load_settings_file}
use fe_gem.Frontend.State.{Frontend, World, talk, file, write_string, call, filed, with_message}
use fe_gem.Frontend.Lines.{varname_text}
use fe_gem.Frontend.Elog.{post_elog}

-- The text of the first entry.
abbrev pub first_data : Bytes → Bytes
first_data p = (get_data_entry p 0).1

-- A frontend, and the bank as it is behind the call.
abbrev pub Handled : Type 0
Handled = Frontend × Bytes

-- bank->NAME.VARNAME[4], and the number from there on.
unfoldable pub revision_offset : Bytes → Run ℕ
revision_offset p = if get_or p 28 0 == 0 then ok 0 else atoi (c_str (drop 28 p))

unfoldable pub handle_talk : Bytes → Frontend → Run Frontend
unfolding formatted
handle_talk p s = do
  text ← defined (formatted (c_str (first_data p)))
  m ← defined (process_message (gem_bank_at p).block_size (first_data p) s.periodicity)
  ok (call (talk s.logger.eq_name text) (record s { periodicity = m }))

-- (int)bank->GetTotalSize() > fMaxElogPostSize
unfoldable pub is_too_large : Bytes → ℕ → Bool
is_too_large p limit =
    let size = get_total_size (gem_bank_at p) in ltb size (2 ^ 31) && ltb limit size

unfoldable pub handle_elog : Bytes → Frontend → Run Frontend
unfolding is_too_large
handle_elog p s = do
  limit ← defined s.max_elog_post_size
  (if is_too_large p limit
      then ok (
          call (talk (codes "feGEM:elog") (codes "ELOG post too large, increase hard limit in ODB"))
            s)
      else post_elog (first_data p) s)

-- A handler that leaves the bank as it is.
abbrev pub unchanged : Bytes → Run Frontend → Run Handled
unchanged p r = do s ← r; ok (s, p)

module _ (w : World) where
  -- logger.Update
  unfoldable pub log_values : ℕ → Bytes → Frontend → Run Handled
  log_values element_size p s = do
    (logger, p) ← defined (update w.memory w.default_period element_size p s.logger)
    ok (record s { logger = logger }, p)

  -- The loop over the n entries from entry i on.
  unfoldable pub run_commands : ℕ → ℕ → Bytes → Bytes → Server → Run Server
  run_commands zero i p hostname s = ok s
  run_commands (suc n) i p hostname s =
      handle_command_bank w.odb (gem_bank_at p).name.equipment_type (c_str (get_data_entry p i).1)
        hostname (w.now i) (w.time i) s
      >>= run_commands n (i + 1) p hostname

  unfoldable pub handle_settings_bank : Bytes → Frontend → Run Handled
  unfolding revision_offset log_values
  handle_settings_bank p s =
      let b = gem_bank_at p in
      let block = take (sub_u32 b.block_size 16) (first_data p) in
      if strncmp_eq 4 b.name.varname (codes "SAVE")
      then (do
        database ← defined s.settings_database
        calls ← filed (save_settings_file w.md5 database b.number_of_entries block w.unixtime)
        ok (record s { calls = s.calls ++ map file calls }, p))
      else if strncmp_eq 4 b.name.varname (codes "LOAD")
      then (do
        offset ← revision_offset p
        database ← defined s.settings_database
        m ← filed (
            load_settings_file w.md5 w.disk database b.number_of_entries block offset
              s.server.message)
        ok (with_message m s, p))
      else if strncmp_eq 4 b.name.varname (codes "LIST")
      then (do database ← defined s.settings_database; ok (s, p))
      else log_values 1 p s

  unfoldable pub handle_str_bank : Bytes → Bytes → Frontend → Run Handled
  unfolding run_commands handle_talk handle_elog handle_settings_bank log_values
  handle_str_bank p hostname s =
      let b = gem_bank_at p in
      if strncmp_eq 7 b.name.varname (codes "COMMAND")
      then (do
        server ← run_commands b.number_of_entries 0 p hostname s.server
        ok (record s { server = server }, p))
      else if strncmp_eq 4 b.name.varname (codes "TALK")
      then unchanged p (handle_talk p s)
      else if strncmp_eq 14 b.name.varcategory (codes "CLIENT_INFO")
      then ok (call (write_string (varname_text p) (c_str (first_data p))) s, p)
      else if strncmp_eq 4 b.name.varcategory (codes "ELOG")
      then unchanged p (handle_elog p s)
      else if strncmp_eq 13 b.name.varcategory (codes "SETTINGS_FILE")
      then handle_settings_bank p s
      else log_values 1 p s
