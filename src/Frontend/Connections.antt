-- ===== src/Frontend/Connections.antt =====
-- What holds between the connections of a frontend thread (ServeHost of src/feGEMClass.cxx) and the
-- transitions of runs, in whatever order they come.
use fe_gem.Common.{
  ℕ, ◌-◌, ◌≤◌, ◌≡◌, refl, sym, subst, ◌∙◌, Bool, true, false, Option, none, some, List, [], Bytes,
  codes, arith, ltb, ◌⊎◌, ne→==, ==_ne, ◌≢◌, ◌==◌, Bool-cases, inl, inr,
}
use fe_gem.Hosts.Registry
use fe_gem.Hosts.Registry.{AllowedHosts, is_allowed}
use fe_gem.Message.Queue.{MessageHandler, queue_message, have_errors, read_message_queue}
use fe_gem.Server.State.{Run, ◌>>=◌, ok, exited, set_fe_status, handle_begin_run, handle_end_run}
use fe_gem.Server.EventSize.{class_type-cases}
use fe_gem.Server.Reading
use fe_gem.Server.Reading.{
  Arriving, Received, no_data, header_timeout, malformed, body_timeout, bank_received,
  array_received, receive,
}
use fe_gem.Server.Settled.{Ensures, Ensures-bind, Ensures-if, Ensures-weaken}
use fe_gem.Frontend.State.{Frontend, World, queued}
use fe_gem.Periodicity.Manager.{
  PeriodicityManager, add_banks_processed, log_periodic_with_data, log_periodic_without_data,
}
use fe_gem.Frontend.Banks.{handle_bank, handle_bank_array}
use fe_gem.Frontend.Serve.{
  Incoming, listen_error, no_connection, unnamed, connection, Visit, Answer, resize_buffer,
  update_status, counted, idle, with_data, with_hosts, reject, black_list, answer, answer_with,
  handle_received, admit, serve_incoming, serve_host,
}
use fe_gem.Frontend.Keeps.{KeptWith, KeptAfter, handle_bank-Kept, handle_bank_array-Kept}
use fe_gem.Frontend.Handlers.{Kept, then_Ensures}

-- One thing that happens to a thread: a look at its socket, or a transition of the run.
pub data Step (s : Frontend) : Frontend → Type 1 where
  served :
      (w : World) (v : Visit) (a : Answer) (t : Frontend) → serve_host w v s ≡ ok (a, t) → Step s t
  begun : (runno start : ℕ) → Step s (record s { server = handle_begin_run runno start s.server })
  ended :
      (runno start stop : ℕ)
      → Step s (record s { server = handle_end_run runno start stop s.server })

pub data Reach (s : Frontend) : Frontend → Type 1 where
  here : Reach s s
  next : {t u : Frontend} → Reach s t → Step t u → Reach s u

-- Nothing is queued for a client.
abbrev pub IsClean : Frontend → Type 0
IsClean s = (s.server.message.json_message_queue ≡ []) × (s.server.message.json_error_queue ≡ [])

-- fEventBuf has fEventSize bytes, or fewer and ServeHost sees that the size has changed.
abbrev pub IsSized : Frontend → Type 0
IsSized s =
    (s.buffer_size ≤ s.server.event_size)
    × ((s.buffer_size ≡ s.server.event_size) ⊎ (s.last_event_size ≢ s.server.event_size))

abbrev pub IsReady : Frontend → Type 0
IsReady s = IsClean s × IsSized s

-- A ready thread, with no smaller an event size.
abbrev Moved : Frontend → Frontend → Type 0
Moved s t =
    (s.server.event_size ≤ t.server.event_size)
    × IsClean t
    × (t.buffer_size ≡ s.buffer_size)
    × (t.last_event_size ≡ s.last_event_size)

abbrev MovedTo : Frontend → Answer × Frontend → Type 0
MovedTo s r = Moved s r.1

Moved-still : (s : Frontend) → IsClean s → Moved s s
Moved-still s c = (omega arith, c, refl, refl)

Moved-after : (s t u : Frontend) → Kept s t → Moved t u → Moved s u
Moved-after s t u ((a, e), b, l) (a', c, b', l') = (omega (arith, a, a'), c, b' ∙ b, l' ∙ l)

counted-Ensures :
    {A : Type 0} (o : Option PeriodicityManager) (s : Frontend) (Q : A → Type 0)
    (f : Frontend → Run A)
    → ((m : PeriodicityManager) → Ensures Q (f (record s { periodicity = m })))
    → Ensures Q (counted o s >>= f)
counted-Ensures none s Q f h = tt
counted-Ensures (some m) s Q f h = h m

answered-Moved :
    (v : Visit) (size : ℕ) (s : Frontend) (m : MessageHandler)
    → Ensures (MovedTo s) (answer_with v size s m)
unfolding answer_with read_message_queue
answered-Moved v size s m =
    Ensures-if (MovedTo s) (have_errors m) exited _ tt (omega arith, (refl, refl), refl, refl)

answer-Moved :
    (v : Visit) (size nbanks : ℕ) (s : Frontend) → Ensures (MovedTo s) (answer v size nbanks s)
unfolding answer
answer-Moved v size nbanks s =
    counted-Ensures (add_banks_processed nbanks s.periodicity) s (MovedTo s) _ (λ b.
      let t : Frontend = record s { periodicity = b } in
      then_Ensures (MovedTo s) (queued (queue_message t.server.message (codes "DATA OK"))) _
        (λ m. answered-Moved v size t m))

module _ (w : World) (v : Visit) (hostname p : Bytes) where
  handle_received-Moved :
      (r : Received) (s : Frontend)
      → IsClean s
      → Ensures (MovedTo s) (handle_received w v hostname p r s)
  unfolding handle_received idle with_data black_list
  handle_received-Moved no_data s c =
      counted-Ensures (log_periodic_without_data s.periodicity) s (MovedTo s) _
        (λ m. Moved-still s c)
  handle_received-Moved header_timeout s c = Moved-still s c
  handle_received-Moved malformed s c =
      counted-Ensures (log_periodic_with_data v.data_time v.statistics_time s.periodicity) s
        (MovedTo s) _ (λ m. Moved-still s c)
  handle_received-Moved body_timeout s c =
      counted-Ensures (log_periodic_with_data v.data_time v.statistics_time s.periodicity) s
        (MovedTo s) _ (λ m. Moved-still s c)
  handle_received-Moved (bank_received size) s c =
      counted-Ensures (log_periodic_with_data v.data_time v.statistics_time s.periodicity) s
        (MovedTo s) _
        (λ m.
          let t : Frontend = record s { periodicity = m } in
          Ensures-bind (KeptWith t) (MovedTo s) (handle_bank w hostname p t) _
            (handle_bank-Kept w hostname p t)
            (λ (nbanks, (u, q)) k.
              Ensures-weaken (MovedTo u) (MovedTo s) (answer v size nbanks u)
                (answer-Moved v size nbanks u) (λ r m. Moved-after s u r.1 k m)))
  handle_received-Moved (array_received size) s c =
      counted-Ensures (log_periodic_with_data v.data_time v.statistics_time s.periodicity) s
        (MovedTo s) _
        (λ m.
          let t : Frontend = record s { periodicity = m } in
          Ensures-bind (KeptAfter t) (MovedTo s) (handle_bank_array w hostname p t) _
            (handle_bank_array-Kept w hostname p t)
            (λ (nbanks, u) k.
              Ensures-weaken (MovedTo u) (MovedTo s) (answer v size nbanks u)
                (answer-Moved v size nbanks u) (λ r m. Moved-after s u r.1 k m)))
  handle_received-Moved Reading.aborted s c = tt
  handle_received-Moved Reading.undefined s c = tt

  admit-Moved :
      (allowed : Registry.Result (Bool × AllowedHosts)) (arriving : List Arriving) (s : Frontend)
      → IsClean s
      → Ensures (MovedTo s) (admit w v allowed hostname p arriving s)
  unfolding admit reject
  admit-Moved Registry.use_after_free arriving s c = tt
  admit-Moved (Registry.ok (true, hosts)) arriving s c =
      handle_received-Moved (receive (s.buffer_size - v.offset) s.server.event_size p arriving)
        (with_hosts hosts s) c
  admit-Moved (Registry.ok (false, hosts)) arriving s c = Moved-still s c

serve_incoming-Moved :
    (w : World) (v : Visit) (i : Incoming) (s : Frontend)
    → IsClean s
    → Ensures (MovedTo s) (serve_incoming w v i s)
unfolding serve_incoming idle
serve_incoming-Moved w v listen_error s c = tt
serve_incoming-Moved w v no_connection s c =
    counted-Ensures (log_periodic_without_data s.periodicity) s (MovedTo s) _ (λ m. Moved-still s c)
serve_incoming-Moved w v unnamed s c = Moved-still s c
serve_incoming-Moved w v (connection hostname p arriving) s c =
    admit-Moved w v hostname p (is_allowed s.server.allowed hostname v.contact) arriving s c

-- The status line touches neither the messages nor the event buffer.
update_status-Moved : (now : ℕ) (s : Frontend) → IsClean s → Moved s (update_status now s)
unfolding update_status set_fe_status
update_status-Moved now s c = elim (class_type-cases s.server.class_type) [
  | inl e ↦ rw e (Moved-still s c)
  | inr e ↦ elim (Bool-cases (ltb 30_000_000 (now - s.last_status_update))) [
    | inl t ↦ rw (e, t) (Moved-still s c)
    | inr f ↦ rw (e, f) (Moved-still s c)
  ]
]

-- The event buffer of a ready thread is brought to the event size.
pub resize_buffer_size :
    (s : Frontend) → IsSized s → (resize_buffer s).buffer_size ≡ s.server.event_size
unfolding resize_buffer
resize_buffer_size s (b, inl same) = ground (arith, same)
resize_buffer_size s (b, inr changed) =
    rw (ne→== s.last_event_size s.server.event_size changed) refl

-- A buffer of the size of the last look fits any event size that has come after it.
resized-IsSized :
    (s t : Frontend)
    → t.buffer_size ≡ s.server.event_size
    → t.last_event_size ≡ s.server.event_size
    → s.server.event_size ≤ t.server.event_size
    → IsSized t
resized-IsSized s t b l grows = elim (Bool-cases (s.server.event_size == t.server.event_size)) [
  | inl same ↦ (omega (arith, b, grows), inl (ground (arith, b, same)))
  | inr other ↦
      let apart = ==_ne s.server.event_size t.server.event_size other in
      (omega (arith, b, grows), inr (λ e. apart (sym l ∙ e)))
]

serve_host-Ready :
    (w : World) (v : Visit) (s : Frontend)
    → IsReady s
    → Ensures (λ r. IsReady r.1 × (s.server.event_size ≤ r.1.server.event_size)) (serve_host w v s)
unfolding serve_host resize_buffer
serve_host-Ready w v s (c, sized) =
    let t = resize_buffer s in
    let u = update_status v.timer_start t in
    let (grows, clean, buffer, last) = update_status-Moved v.timer_start t c in
    Ensures-weaken (MovedTo u) (λ r. IsReady r.1 × (s.server.event_size ≤ r.1.server.event_size))
      (serve_incoming w v v.incoming u) (serve_incoming-Moved w v v.incoming u clean)
      (λ (a, x) (grows', clean', buffer', last').
        let more : s.server.event_size ≤ x.server.event_size = omega (arith, grows, grows') in
        (
          (
            clean',
            resized-IsSized s x (buffer' ∙ buffer ∙ resize_buffer_size s sized) (last' ∙ last) more,
          ),
          more,
        ))

Step-IsReady :
    {s t : Frontend}
    → Step s t
    → IsReady s
    → IsReady t × (s.server.event_size ≤ t.server.event_size)
unfolding handle_begin_run handle_end_run
Step-IsReady {s = s} (served w v a t e) ready =
    subst (Ensures (λ r. IsReady r.1 × (s.server.event_size ≤ r.1.server.event_size))) e
      (serve_host-Ready w v s ready)
Step-IsReady (begun runno start) ready = (ready, omega arith)
Step-IsReady (ended runno start stop) ready = (ready, omega arith)

-- Between connections nothing is queued for a client, so that no client ever gets what was meant for
-- another; the event buffer has the event size, or
-- the next look at the socket brings it there; and the event size never shrinks.
pub Reach-IsReady :
    {s t : Frontend}
    → IsReady s
    → Reach s t
    → IsReady t × (s.server.event_size ≤ t.server.event_size)
Reach-IsReady ready here = (ready, omega arith)
Reach-IsReady ready (next r step) =
    let (before, grows) = Reach-IsReady ready r in
    let (after, grows') = Step-IsReady step before in (after, omega (arith, grows, grows'))
