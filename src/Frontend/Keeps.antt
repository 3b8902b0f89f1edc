-- ===== src/Frontend/Keeps.antt =====
-- What the handlers of src/feGEMClass.cxx never change, whatever a client sends: the event buffer and
-- the error queue; and the event size never shrinks.
use fe_gem.Common.{
  ℕ, zero, suc, ◌+◌, refl, Option, none, some, Bytes, arith, ltb, ◌==◌, length, c_str,
}
use fe_gem.Bank.Layout.{
  gem_bank_at, gem_bank_array_at, get_total_size, get_array_total_size, get_header_size,
  get_data_entry, u32,
}
use fe_gem.Message.Queue.{queue_message}
use fe_gem.Server.State.{Server, ok, undefined, ◌>>=◌}
use fe_gem.Server.Commands.{handle_command_bank}
use fe_gem.Server.Settled.{
  Ensures, Ensures-bind, Ensures-if, Ensures-weaken, SameErrors, Settled, Settled-refl,
  Settled-trans, handle_command_bank-Settled,
}
use fe_gem.Settings.Files.{load_settings_file}
use fe_gem.Frontend.State.{Frontend, World, queued, filed, with_message}
use fe_gem.Frontend.Kinds.{
  Kind, double, float, bool, int32, uint32, uint16, string_array, string, file, kind_of,
  element_size,
}
use fe_gem.Frontend.Lines.{handle_str_array_bank}
use fe_gem.Frontend.Strings.{
  Handled, run_commands, handle_settings_bank, handle_str_bank, log_values,
}
use fe_gem.Frontend.Banks.{
  debug_note, debug_text, report_size, log_kind, log_bank, handle_bank, handle_banks,
  handle_bank_array, add_int,
}
use fe_gem.Frontend.Handlers.{
  Kept, Kept-refl, Kept-trans, KeptBy, handle_elog-Kept, handle_str_array_bank-Kept,
  handle_talk-Kept, load_settings_file-SameErrors, queue_error-SameErrors, queue_message-SameErrors,
  then_Ensures, unchanged-Kept,
}

module _ (w : World) where
  log_values-Kept :
      (element_size : ℕ) (p : Bytes) (s : Frontend)
      → Ensures (KeptBy s) (log_values w element_size p s)
  unfolding log_values
  log_values-Kept element_size p s = search (then_Ensures, Kept-refl s)

  run_commands-Settled :
      (n i : ℕ) (p hostname : Bytes) (s : Server)
      → Ensures (Settled s) (run_commands w n i p hostname s)
  unfolding run_commands
  run_commands-Settled zero i p hostname s = Settled-refl s
  run_commands-Settled (suc n) i p hostname s =
      Ensures-bind (Settled s) (Settled s)
        (handle_command_bank w.odb (gem_bank_at p).name.equipment_type
          (c_str (get_data_entry p i).1) hostname (w.now i) (w.time i) s)
        (run_commands w n (i + 1) p hostname) (handle_command_bank-Settled w.odb _ _ hostname _ _ s)
        (λ t h.
          Ensures-weaken (Settled t) (Settled s) (run_commands w n (i + 1) p hostname t)
            (run_commands-Settled n (i + 1) p hostname t) (λ u g. Settled-trans s t u h g))

  load-Kept :
      (p database block : Bytes) (n offset : ℕ) (s : Frontend)
      → Ensures (KeptBy s) (do
        m ← filed (load_settings_file w.md5 w.disk database n block offset s.server.message)
        ok (with_message m s, p))
  load-Kept p database block n offset s =
      Ensures-bind (SameErrors s.server.message) (KeptBy s)
        (filed (load_settings_file w.md5 w.disk database n block offset s.server.message))
        (λ m. ok (with_message m s, p))
        (load_settings_file-SameErrors w.md5 w.disk database n block offset s.server.message)
        (λ m e. ((omega arith, e), refl, refl))

  handle_settings_bank-Kept :
      (p : Bytes) (s : Frontend) → Ensures (KeptBy s) (handle_settings_bank w p s)
  unfolding handle_settings_bank
  handle_settings_bank-Kept p s =
      search (Ensures-if, then_Ensures, load-Kept, log_values-Kept, Kept-refl s)

  commands-Kept :
      (n : ℕ) (p hostname : Bytes) (s : Frontend)
      → Ensures
          (KeptBy s)
          (do server ← run_commands w n 0 p hostname s.server; ok (record s { server = server }, p))
  commands-Kept n p hostname s =
      Ensures-bind (Settled s.server) (KeptBy s) (run_commands w n 0 p hostname s.server)
        (λ server. ok (record s { server = server }, p))
        (run_commands-Settled n 0 p hostname s.server) (λ t h. (h, refl, refl))

  handle_str_bank-Kept :
      (p hostname : Bytes) (s : Frontend) → Ensures (KeptBy s) (handle_str_bank w p hostname s)
  unfolding handle_str_bank
  handle_str_bank-Kept p hostname s =
      search
        (
          Ensures-if,
          commands-Kept,
          unchanged-Kept,
          handle_talk-Kept,
          handle_elog-Kept,
          handle_settings_bank-Kept,
          log_values-Kept,
          Kept-refl s,
        )
        depth 9

debug_note-Kept : (p : Bytes) (s : Frontend) → Ensures (Kept s) (debug_note p s)
unfolding debug_note
debug_note-Kept p s =
    Ensures-if (Kept s) (s.server.debug_mode == 0) (ok s)
      (do m ← queued (queue_message s.server.message (debug_text p)); ok (with_message m s))
      (Kept-refl s) (search (Ensures-bind, queue_message-SameErrors, arith))

report_size-Kept : (sent : ℕ) (s : Frontend) → Ensures (Kept s) (report_size sent s)
unfolding report_size
report_size-Kept sent s = search (Ensures-if, Ensures-bind, queue_error-SameErrors, arith)

-- The int of a bank or of an array comes first.
abbrev pub KeptWith : Frontend → ℕ × Handled → Type 0
KeptWith s r = Kept s r.1.0

abbrev pub KeptAfter : Frontend → ℕ × Frontend → Type 0
KeptAfter s r = Kept s r.1

module _ (w : World) (hostname : Bytes) where
  log_kind-Kept :
      (k : Option Kind) (p : Bytes) (s : Frontend) → Ensures (KeptBy s) (log_kind w hostname k p s)
  unfolding log_kind
  log_kind-Kept none p s = tt
  log_kind-Kept (some string_array) p s =
      unchanged-Kept p s (handle_str_array_bank p s) (handle_str_array_bank-Kept p s)
  log_kind-Kept (some string) p s = handle_str_bank-Kept w p hostname s
  log_kind-Kept (some file) p s = Kept-refl s
  log_kind-Kept (some double) p s = log_values-Kept w (element_size double) p s
  log_kind-Kept (some float) p s = log_values-Kept w (element_size float) p s
  log_kind-Kept (some bool) p s = log_values-Kept w (element_size bool) p s
  log_kind-Kept (some int32) p s = log_values-Kept w (element_size int32) p s
  log_kind-Kept (some uint32) p s = log_values-Kept w (element_size uint32) p s
  log_kind-Kept (some uint16) p s = log_values-Kept w (element_size uint16) p s

  log_bank-Kept : (p : Bytes) (s : Frontend) → Ensures (KeptBy s) (log_bank w hostname p s)
  unfolding log_bank
  log_bank-Kept p s =
      let kind = kind_of (gem_bank_at p).name.datatype in
      Ensures-bind (Kept s) (KeptBy s) (debug_note p s) (log_kind w hostname kind p)
        (debug_note-Kept p s)
        (λ t h.
          Ensures-weaken (KeptBy t) (KeptBy s) (log_kind w hostname kind p t)
            (log_kind-Kept kind p t) (λ u g. Kept-trans s t u.0 h g))

  pub handle_bank-Kept :
      (p : Bytes) (s : Frontend) → Ensures (KeptWith s) (handle_bank w hostname p s)
  unfolding handle_bank
  handle_bank-Kept p s = Ensures-if (KeptWith s) (ltb (length p) get_header_size) undefined _ tt (
      Ensures-if (KeptWith s)
        (ltb s.server.event_size (u32 ((gem_bank_at p).block_size + get_header_size))) _ _
        (Ensures-bind (Kept s) (KeptWith s) (report_size (get_total_size (gem_bank_at p)) s) _
          (report_size-Kept _ s) (λ t h. h))
        (Ensures-bind (KeptBy s) (KeptWith s) (log_bank w hostname p s) _ (log_bank-Kept p s)
          (λ t h. h)))

  handle_banks-Kept :
      (n banks : ℕ) (p : Bytes) (s : Frontend)
      → Ensures (KeptAfter s) (handle_banks w hostname n banks p s)
  unfolding handle_banks
  handle_banks-Kept zero banks p s = Kept-refl s
  handle_banks-Kept (suc n) banks p s =
      Ensures-bind (KeptWith s) (KeptAfter s) (handle_bank w hostname p s) _ (handle_bank-Kept p s)
        (λ (count, (t, q)) h. then_Ensures (KeptAfter s) (add_int banks count) _ (λ total.
          Ensures-weaken (KeptAfter t) (KeptAfter s) _ (handle_banks-Kept n total _ t)
            (λ u g. Kept-trans s t u.1 h g)))

  pub handle_bank_array-Kept :
      (p : Bytes) (s : Frontend) → Ensures (KeptAfter s) (handle_bank_array w hostname p s)
  unfolding handle_bank_array
  handle_bank_array-Kept p s =
      let a = gem_bank_array_at p in
      Ensures-if (KeptAfter s) (ltb s.server.event_size (get_array_total_size a)) _ _
        (Ensures-bind (Kept s) (KeptAfter s) (report_size (get_array_total_size a) s) _
          (report_size-Kept (get_array_total_size a) s) (λ t h. h))
        (handle_banks-Kept a.number_of_entries 0 _ s)
