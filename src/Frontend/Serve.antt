-- ===== src/Frontend/Serve.antt =====
-- ServeHost of src/feGEMClass.cxx: one look at the socket, from the clock's reading to the answer.
use fe_gem.Common.{
  ℕ, ◌-◌, ◌/◌, Bool, true, false, Option, none, some, List, ◌++◌, Bytes, codes, ltb, ◌==◌,
  if◌then◌else◌, map,
}
use fe_gem.Hosts.Registry
use fe_gem.Hosts.Registry.{AllowedHosts, is_allowed, ban_host, print_rejection}
use fe_gem.Message.Queue.{MessageHandler, queue_message, have_errors, read_message_queue}
use fe_gem.Periodicity.Manager.{
  PeriodicityManager, add_banks_processed, log_periodic_with_data, log_periodic_without_data,
}
use fe_gem.Server.State.{
  supervisor, worker, Run, defined, ok, aborted, undefined, exited, ◌>>=◌, set_fe_status,
}
use fe_gem.Server.Reading
use fe_gem.Server.Reading.{
  Arriving, Received, no_data, header_timeout, malformed, body_timeout, bank_received,
  array_received, receive,
}
use fe_gem.Frontend.State.{Frontend, World, talk, rejection, send_event, call, queued, with_message}
use fe_gem.Frontend.Banks.{handle_bank, handle_bank_array}

-- What the socket answers. A connection is the host's name, what stands at ptr when the message is
-- in, and the reads.
pub data Incoming : Type 0 where
  listen_error no_connection unnamed : Incoming
  connection : Bytes → Bytes → List Arriving → Incoming

-- One call of ServeHost: the clock at its start (in microseconds), for the lists of hosts (in
-- nanoseconds) and for the statistics, how long the handling takes as it is printed, and where in
-- fEventBuf the data of the bank begins.
pub record Visit : Type 0 where
  pub timer_start : ℕ
  pub contact : ℕ
  pub data_time : ℕ
  pub statistics_time : ℕ
  pub handling_time : Bytes
  pub offset : ℕ
  pub incoming : Incoming

pub data Answer : Type 0 where
  -- left open, without a word
  silent : Answer
  closed : Answer
  replied : Bytes → Answer

-- (int)SecondsSinceData(); `none` is a negative number.
unfoldable pub seconds_since_data : ℕ → ℕ → Option ℕ
seconds_since_data now last =
    if ltb now last
    then if ltb (last - now) 1_000_000 then some 0 else none
    else some ((now - last) / 1_000_000)

unfoldable pub resize_buffer : Frontend → Frontend
resize_buffer s =
    let size = s.server.event_size in
    record s {
      buffer_size = if s.last_event_size == size then s.buffer_size else size;
      last_event_size = size;
    }

unfoldable pub update_status : ℕ → Frontend → Frontend
unfolding seconds_since_data
update_status now s = elim s.server.class_type [
  | supervisor ↦ s
  | worker ↦
      (if ltb 30_000_000 (now - s.last_status_update)
        then record s {
          server = set_fe_status (seconds_since_data now s.periodicity.time_of_last_data) s.server;
          last_status_update = now;
        }
        else s)
]

-- The periodicity manager behind a call; an overflow of its counters is undefined.
abbrev pub counted : Option PeriodicityManager → Frontend → Run Frontend
counted o s = defined o >>= λ m. ok (record s { periodicity = m })

unfoldable pub idle : Frontend → Run Frontend
idle s = counted (log_periodic_without_data s.periodicity) s

unfoldable pub with_data : Visit → Frontend → Run Frontend
with_data v s = counted (log_periodic_with_data v.data_time v.statistics_time s.periodicity) s

abbrev pub with_hosts : AllowedHosts → Frontend → Frontend
with_hosts hosts s = record s { server = record s.server { allowed = hosts } }

unfoldable pub reject : Bytes → Frontend → Frontend
reject hostname s =
    let hosts = s.server.allowed in
    let (banned, notices) = print_rejection hosts.banned_hosts hostname in
    record (with_hosts (record hosts { banned_hosts = banned }) s) {
      calls = s.calls ++ map rejection notices;
    }

unfoldable pub black_list : Bytes → ℕ → Frontend → Frontend
black_list hostname now s =
    call
      (talk (codes "feGEM")
        (codes "Host " ++ (hostname ++ codes " is sending malformed data... black listing...")))
      (with_hosts (ban_host s.server.allowed hostname now).0 s)

-- The answer; `m` is the message handler with its last message.
unfoldable pub answer_with : Visit → ℕ → Frontend → MessageHandler → Run (Answer × Frontend)
answer_with v size s m =
    let (after, reply) = read_message_queue m v.handling_time in
    if have_errors m
    then exited
    else ok (replied reply, with_message after (call (send_event size) s))

-- What follows the handlers: the event, the statistics, and the answer.
unfoldable pub answer : Visit → ℕ → ℕ → Frontend → Run (Answer × Frontend)
unfolding answer_with
answer v size nbanks s = do
  s ← counted (add_banks_processed nbanks s.periodicity) s
  m ← queued (queue_message s.server.message (codes "DATA OK"))
  answer_with v size s m

module _ (w : World) (v : Visit) where
  -- A message of `size` bytes that is in.
  unfoldable pub handle_received : Bytes → Bytes → Received → Frontend → Run (Answer × Frontend)
  unfolding idle with_data black_list answer
  handle_received hostname p no_data s = idle s >>= λ s. ok (silent, s)
  handle_received hostname p header_timeout s =
      ok (silent, call (talk (codes "feGEM") (codes "TCP Read timeout getting bank header")) s)
  handle_received hostname p malformed s =
      with_data v s >>= λ s. ok (closed, black_list hostname v.contact s)
  -- the message without its two numbers
  handle_received hostname p body_timeout s = with_data v s >>= λ s.
      ok (silent, call (talk (codes "feGEM") (codes "TCP Read timeout getting GEMBANKARRAY")) s)
  handle_received hostname p (bank_received size) s = do
    s ← with_data v s
    (nbanks, (s, q)) ← handle_bank w hostname p s
    answer v size nbanks s
  handle_received hostname p (array_received size) s = do
    s ← with_data v s
    (nbanks, s) ← handle_bank_array w hostname p s
    answer v size nbanks s
  handle_received hostname p Reading.aborted s = aborted
  handle_received hostname p Reading.undefined s = undefined

  -- Behind the question whether the host is allowed.
  unfoldable pub admit :
      Registry.Result (Bool × AllowedHosts)
      → Bytes
      → Bytes
      → List Arriving
      → Frontend
      → Run (Answer × Frontend)
  unfolding handle_received reject
  admit Registry.use_after_free hostname p arriving s = undefined
  admit (Registry.ok (true, hosts)) hostname p arriving s =
      handle_received hostname p (receive (s.buffer_size - v.offset) s.server.event_size p arriving)
        (with_hosts hosts s)
  admit (Registry.ok (false, hosts)) hostname p arriving s =
      ok (closed, reject hostname (with_hosts hosts s))

  unfoldable pub serve_incoming : Incoming → Frontend → Run (Answer × Frontend)
  unfolding admit idle
  serve_incoming listen_error s = exited
  serve_incoming no_connection s = idle s >>= λ s. ok (silent, s)
  serve_incoming unnamed s = ok (silent, s)
  serve_incoming (connection hostname p arriving) s =
      admit (is_allowed s.server.allowed hostname v.contact) hostname p arriving s

  unfoldable pub serve_host : Frontend → Run (Answer × Frontend)
  unfolding serve_incoming resize_buffer update_status
  serve_host s = serve_incoming v.incoming (update_status v.timer_start (resize_buffer s))
