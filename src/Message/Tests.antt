-- ===== src/Message/Tests.antt =====
-- Replies on which the queue runs, and the theorems at such inputs.
use fe_gem.Common.{◌≡◌, refl, false, List, [], ◌∷◌, codes}
use fe_gem.Message.Queue.{
  MessageHandler, aborted, have_errors, queue_data, queue_object, queue_message, queue_error,
  formatted, read_message_queue,
}
use fe_gem.Message.Reply.{Request, value, message, error, handle_all, have_errors-handle_all}

abbrev fresh : MessageHandler
fresh = record { json_message_queue = []; json_error_queue = []; total_text = 0; alarms = [] }

object_runs :
    let s =
      queue_object fresh (codes "File") ((codes "a", codes "1") ∷ (codes "b", codes "2") ∷ []) in
    s.json_message_queue ≡ codes "\"File\":{\"a\":\"1\",\"b\":\"2\"}" ∷ []
unfolding queue_object
object_runs = refl

reply_runs :
    (read_message_queue (queue_data fresh (codes "EventSize") (codes "10000")) (codes "1.5")).1
    ≡ codes "{\"MIDASTime\":\"1.5\",\"EventSize\":\"10000\"}"
unfolding read_message_queue queue_data
reply_runs = refl

-- A quote behind another byte than a backslash stops the program.
unescaped_aborts : queue_message fresh (codes "a\"b") ≡ aborted
unfolding queue_message
unescaped_aborts = refl

abbrev requests : List Request
requests = message (codes "DATA OK") ∷ error (codes "feGEM") (codes "too big") ∷ []

abbrev quoted : Request
quoted = value (codes "RunStatus") (codes "say \"RUNNING\"")

abbrev after_error : MessageHandler
after_error = record {
  json_message_queue = codes "\"err\":\"too big\"" ∷ [];
  json_error_queue = [];
  total_text = 15;
  alarms = (codes "feGEM", codes "too big") ∷ [];
}

have_errors-handle_all_example : have_errors after_error ≡ false
unfolding handle_all queue_data queue_error formatted have_errors
have_errors-handle_all_example =
    have_errors-handle_all fresh after_error (error (codes "feGEM") (codes "too big") ∷ []) refl
      refl
