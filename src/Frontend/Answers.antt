-- ===== src/Frontend/Answers.antt =====
-- That a client which sends values is answered (ServeHost of src/feGEMClass.cxx).
use fe_gem.Common.{ℕ, ◌+◌, ◌≤◌, ◌≡◌, refl, some, List, [], ◌∷◌, ◌++◌, Bytes, codes, arith, length}
use fe_gem.Bank.Layout.{gem_bank_at, get_header_size, u32}
use fe_gem.History.Logger.{HistoryLogger, update}
use fe_gem.Hosts.Registry
use fe_gem.Message.Queue.{MessageHandler, read_message_queue}
use fe_gem.Message.Json.{read_object}
use fe_gem.Message.Fields.{Plain}
use fe_gem.Server.State.{ok}
use fe_gem.Server.Reading.{Arriving, bank_received}
use fe_gem.Frontend.State.{Call, Frontend, World, with_message, call, send_event}
use fe_gem.Periodicity.Manager.{PeriodicityManager, add_banks_processed, log_periodic_with_data}
use fe_gem.Frontend.Kinds.{Kind, kind_of, element_size}
use fe_gem.Frontend.Serve.{Visit, replied, with_data, answer, answer_with, handle_received}
use fe_gem.Frontend.Connections.{IsClean}
use fe_gem.Frontend.Values.{IsNumeric, handle_bank_values, one_message}

answer_clean :
    (v : Visit) (size nbanks : ℕ) (s : Frontend) (b : PeriodicityManager)
    → IsClean s
    → Plain v.handling_time
    → add_banks_processed nbanks s.periodicity ≡ some b
    → (reply : Bytes) × (m : MessageHandler) × (answer v size nbanks s
        ≡ ok
            (replied reply, with_message m (call (send_event size) (record s { periodicity = b }))))
      × (read_object 2 reply
          ≡ some ((codes "MIDASTime", v.handling_time) ∷ (codes "msg", codes "DATA OK") ∷ []))
unfolding answer answer_with
answer_clean v size nbanks s b (e, f) plain counts =
    let (m, sent, calm, read) =
      one_message s.server.message (codes "DATA OK") v.handling_time e f (omega arith) plain in
    (
      (read_message_queue m v.handling_time).1,
      (read_message_queue m v.handling_time).0,
      rw (answer, counts, sent, answer_with, calm) refl,
      read,
    )

module _ (w : World) (v : Visit) (hostname p q : Bytes) (k : Kind) (l : HistoryLogger) (size : ℕ)
    (arriving : List Arriving) (looks banks : PeriodicityManager) where
  pub handle_received_values :
      (s : Frontend)
      → IsClean s
      → Plain v.handling_time
      → get_header_size ≤ length p
      → u32 ((gem_bank_at p).block_size + get_header_size) ≤ s.server.event_size
      → s.server.debug_mode ≡ 0
      → kind_of (gem_bank_at p).name.datatype ≡ some k
      → IsNumeric k
      → update w.memory w.default_period (element_size k) p s.logger ≡ some (l, q)
      → log_periodic_with_data v.data_time v.statistics_time s.periodicity ≡ some looks
      → add_banks_processed (gem_bank_at q).number_of_entries looks ≡ some banks
      → (reply : Bytes) × (t : Frontend) × (handle_received w v hostname p (bank_received size) s
          ≡ ok (replied reply, t))
        × (t.logger ≡ l)
        × ((before : List Call) × (t.calls ≡ before ++ send_event size ∷ []))
        × (read_object 2 reply
            ≡ some ((codes "MIDASTime", v.handling_time) ∷ (codes "msg", codes "DATA OK") ∷ []))
  unfolding handle_received with_data
  handle_received_values s clean plain header bounded quiet kind numeric logged looked added =
      let x : Frontend = record s { periodicity = looks } in
      let y : Frontend = record x { logger = l } in
      let handled =
        handle_bank_values w hostname k p q x l header bounded quiet kind numeric logged in
      let (reply, m, sent, read) =
        answer_clean v size (gem_bank_at q).number_of_entries y banks clean plain added in
      (
        reply,
        with_message m (call (send_event size) (record y { periodicity = banks })),
        rw (handle_received, with_data, looked, handled) sent,
        refl,
        (y.calls, refl),
        read,
      )
