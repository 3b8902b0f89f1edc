-- ===== src/Frontend/Refusals.antt =====
-- Texts in banks that end the frontend in the handlers of src/feGEMClass.cxx.
use fe_gem.Common.{
  ℕ, ◌≡◌, ◌≢◌, refl, sym, ap, ◌∙◌, false, Option, none, some, List, [], ◌∷◌, ◌++◌, append_assoc,
  Bytes, codes, arith, ◌==◌, All, c_str, ne→==,
}
use fe_gem.Bank.Layout.{gem_bank_at}
use fe_gem.Message.Queue.{queue_message, quotes_escaped}
use fe_gem.Message.Reply.{formatted_plain}
use fe_gem.Message.Fields.{NoBackslash}
use fe_gem.Server.State.{defined, Run, ok, aborted, undefined, exited, ◌>>=◌}
use fe_gem.Frontend.State.{Frontend, World, call, talk, Call}
use fe_gem.Periodicity.Manager.{PeriodicityManager, process_message}
use fe_gem.Frontend.Strings.{handle_talk, first_data}
use fe_gem.Frontend.Banks.{debug_text, debug_note, log_bank}
use fe_gem.Frontend.Messages.{NoBackslash-append, formatted_directive, quotes_escaped_bare}

quoted_text :
    (category name before after rest : Bytes)
    → category ++ b'/' ∷ name ≡ before ++ b'"' ∷ after
    → NoBackslash before
    → quotes_escaped (codes "Received: " ++ (category ++ b'/' ∷ (name ++ rest))) ≡ false
quoted_text category name before after rest e h =
    let moved : category ++ b'/' ∷ (name ++ rest) ≡ before ++ b'"' ∷ (after ++ rest) =
      sym (append_assoc category (b'/' ∷ name) rest)
      ∙ ap (λ t. t ++ rest) e
      ∙ append_assoc before (b'"' ∷ after) rest in
    let plain : NoBackslash (codes "Received: ") = omega arith in
    ap (λ t. quotes_escaped (codes "Received: " ++ t)) moved
    ∙ quotes_escaped_bare b'R' (codes "eceived: " ++ before) (after ++ rest)
        (plain.0, NoBackslash-append (codes "eceived: ") before plain.1 h)

-- In debug mode a bank whose category or whose name holds a quote makes the assert of QueueMessage
-- fail, which ends the frontend, whatever else it holds.
pub log_bank_quoted :
    (w : World) (hostname p before after : Bytes) (s : Frontend)
    → s.server.debug_mode ≢ 0
    → c_str (gem_bank_at p).name.varcategory ++ (b'/' ∷ c_str (gem_bank_at p).name.varname)
      ≡ before ++ b'"' ∷ after
    → NoBackslash before
    → log_bank w hostname p s ≡ aborted
unfolding log_bank debug_note queue_message debug_text
log_bank_quoted w hostname p before after s debug e h =
    let loud : (s.server.debug_mode == 0) ≡ false = ne→== s.server.debug_mode 0 debug in
    let bare : quotes_escaped (debug_text p) ≡ false =
      quoted_text (c_str (gem_bank_at p).name.varcategory) (c_str (gem_bank_at p).name.varname)
        before after _ e h in
    rw (log_bank, debug_note, loud, queue_message, bare) refl

abbrev calls_of : Run Frontend → List Call
calls_of (ok s) = s.calls
calls_of aborted = []
calls_of undefined = []
calls_of exited = []

talked :
    (text : Bytes) (o : Option PeriodicityManager) (s t : Frontend)
    → (defined o >>= λ m. ok (call (talk s.logger.eq_name text) (record s { periodicity = m })))
      ≡ ok t
    → t.calls ≡ s.calls ++ talk s.logger.eq_name text ∷ []
talked text none s t e = cc
talked text (some m) s t e = ap calls_of (sym e)

handle_talk_plain :
    (p : Bytes) (s : Frontend)
    → All (λ c. (c == b'%') ≡ false) (c_str (first_data p))
    → handle_talk p s ≡ (
        defined (process_message (gem_bank_at p).block_size (first_data p) s.periodicity) >>= λ m.
        ok (call (talk s.logger.eq_name (c_str (first_data p))) (record s { periodicity = m })))
unfolding handle_talk
handle_talk_plain p s h = rw (handle_talk, formatted_plain (c_str (first_data p)) h) refl

-- A text for the control room with a percent sign that is not doubled is undefined behaviour; one
-- without any is sent as it is.
pub handle_talk_format :
    (p : Bytes) (s : Frontend)
    → ((before after : Bytes) (d : ℕ)
        → c_str (first_data p) ≡ before ++ b'%' ∷ d ∷ after
        → All (λ c. (c == b'%') ≡ false) before
        → (d == b'%') ≡ false
        → handle_talk p s ≡ undefined)
      × ((t : Frontend)
          → All (λ c. (c == b'%') ≡ false) (c_str (first_data p))
          → handle_talk p s ≡ ok t
          → t.calls ≡ s.calls ++ talk s.logger.eq_name (c_str (first_data p)) ∷ [])
unfolding handle_talk
handle_talk_format p s = (
  λ before after d e h n. rw (handle_talk, e, formatted_directive before after d h n) refl,
  λ t h r.
      talked (c_str (first_data p))
        (process_message (gem_bank_at p).block_size (first_data p) s.periodicity) s t
        (sym (handle_talk_plain p s h) ∙ r),
)
