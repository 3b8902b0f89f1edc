-- ===== src/Frontend/Values.antt =====
-- What HandleBank of src/feGEMClass.cxx makes of a bank of numbers, and the message that is queued for it.
use fe_gem.Common.{
  ◌+◌, ◌≤◌, ◌<◌, ◌≡◌, refl, true, false, some, [], ◌∷◌, Bytes, codes, arith, ◌==◌, length, ge→ltb,
}
use fe_gem.Bank.Layout.{gem_bank_at, get_header_size, u32}
use fe_gem.History.Logger.{HistoryLogger, update}
use fe_gem.Message.Queue
use fe_gem.Message.Queue.{MessageHandler, queue_message, have_errors, read_message_queue}
use fe_gem.Message.Json.{read_object}
use fe_gem.Message.Reply.{message, handle_all, reply_fields, have_errors-handle_all}
use fe_gem.Message.Fields.{Plain}
use fe_gem.Server.State.{ok}
use fe_gem.Frontend.State.{Frontend, World}
use fe_gem.Frontend.Kinds.{
  Kind, double, float, bool, int32, uint32, uint16, string_array, string, file, kind_of,
  element_size,
}
use fe_gem.Frontend.Strings.{log_values}
use fe_gem.Frontend.Banks.{debug_note, log_kind, log_bank, handle_bank}

-- The kinds whose banks hold numbers.
abbrev pub IsNumeric : Kind → Type 0
IsNumeric double = Unit
IsNumeric float = Unit
IsNumeric bool = Unit
IsNumeric int32 = Unit
IsNumeric uint32 = Unit
IsNumeric uint16 = Unit
IsNumeric string_array = 0 < 0
IsNumeric string = 0 < 0
IsNumeric file = 0 < 0

pub log_kind-numeric :
    (w : World) (hostname : Bytes) (k : Kind) (p : Bytes) (s : Frontend)
    → IsNumeric k
    → log_kind w hostname (some k) p s ≡ log_values w (element_size k) p s
unfolding log_kind
log_kind-numeric w hostname double p s n = refl
log_kind-numeric w hostname float p s n = refl
log_kind-numeric w hostname bool p s n = refl
log_kind-numeric w hostname int32 p s n = refl
log_kind-numeric w hostname uint32 p s n = refl
log_kind-numeric w hostname uint16 p s n = refl
log_kind-numeric w hostname string_array p s n = absurd (omega arith)
log_kind-numeric w hostname string p s n = absurd (omega arith)
log_kind-numeric w hostname file p s n = absurd (omega arith)

queued_one :
    (o : Queue.Outcome) (m : MessageHandler)
    → elim o [
      | Queue.ok s ↦ handle_all s []
      | Queue.aborted ↦ Queue.aborted
      | Queue.undefined ↦ Queue.undefined
    ]
      ≡ Queue.ok m
    → o ≡ Queue.ok m
unfolding handle_all
queued_one (Queue.ok s) m e = e
queued_one Queue.aborted m e = e
queued_one Queue.undefined m e = e

-- A message that is queued alone is what the client reads.
pub one_message :
    (m : MessageHandler) (text time : Bytes)
    → m.json_message_queue ≡ []
    → m.json_error_queue ≡ []
    → Plain text
    → Plain time
    → (m' : MessageHandler) × (queue_message m text ≡ Queue.ok m')
      × (have_errors m' ≡ false)
      × (read_object 2 (read_message_queue m' time).1
          ≡ some ((codes "MIDASTime", time) ∷ (codes "msg", text) ∷ []))
unfolding handle_all have_errors
one_message m text time e f p q =
    let (m', ran, read, rest, errors) =
      reply_fields m (message text) [] time 2 e f (p, tt) q (omega arith) in
    let clean : have_errors m ≡ false = rw f refl in
    (
      m',
      queued_one (queue_message m text) m' ran,
      have_errors-handle_all m m' (message text ∷ []) clean ran,
      read,
    )

pub handle_bank_values :
    (w : World) (hostname : Bytes) (k : Kind) (p q : Bytes) (s : Frontend) (l : HistoryLogger)
    → get_header_size ≤ length p
    → u32 ((gem_bank_at p).block_size + get_header_size) ≤ s.server.event_size
    → s.server.debug_mode ≡ 0
    → kind_of (gem_bank_at p).name.datatype ≡ some k
    → IsNumeric k
    → update w.memory w.default_period (element_size k) p s.logger ≡ some (l, q)
    → handle_bank w hostname p s
      ≡ ok ((gem_bank_at q).number_of_entries, (record s { logger = l }, q))
unfolding handle_bank log_bank debug_note log_values
handle_bank_values w hostname k p q s l header size quiet kind numeric logged =
    let silent : (s.server.debug_mode == 0) ≡ true = ground (arith, quiet) in
    rw
      (
        handle_bank,
        ge→ltb (length p) get_header_size header,
        ge→ltb s.server.event_size (u32 ((gem_bank_at p).block_size + get_header_size)) size,
        log_bank,
        debug_note,
        silent,
        kind,
        log_kind-numeric w hostname k p s numeric,
        log_values,
        logged,
      )
      refl
