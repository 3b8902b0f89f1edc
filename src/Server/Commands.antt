-- ===== src/Server/Commands.antt =====
-- HandleCommandBank of src/feGEMClass.cxx.
use fe_gem.Common.{
  ◌%◌, ℕ, ◌+◌, ◌-◌, ◌*◌, ◌^◌, Bool, ◌&&◌, ◌||◌, not, Option, none, some, List, [], ◌∷◌, Bytes,
  codes, ltb, leb, ◌==◌, if◌then◌else◌, strncmp_eq, bytes_eq, to_string,
}
use fe_gem.Hosts.Registry.{add_host}
use fe_gem.Message.Queue.{queue_data}
use fe_gem.Server.State.{
  supervisor, worker, RunStatus, unknown, running, stopped, info, talk, write_event_size, Server,
  Run, ok, undefined, ◌>>=◌, ◌>>◌, effect, assert_class, set_fe_status,
}
use fe_gem.Supervisor.Workers.{WorkerList, give_me_port, add_new_client}

pub data Command : Type 0 where
  start_frontend allow_host give_me_address give_port allow_ssh_tunnel check_time_sync : Command
  enable_debug_mode disable_debug_mode get_event_size get_runno get_run_start_t : Command
  get_run_stop_t get_status set_event_size : Command

-- strncmp(command, text, n): how many characters are compared, and with what.
pub record Test : Type 0 where
  pub count : ℕ
  pub text : Bytes
  pub command : Command

abbrev test : ℕ → Bytes → Command → Test
test n text c = record { count = n; text = text; command = c }

-- The tests in the order of the source.
unfoldable pub tests : List Test
tests =
    test 14 (codes "START_FRONTEND") start_frontend
    ∷ test 14 (codes "ALLOW_HOST") allow_host
    ∷ test 15 (codes "GIVE_ME_ADDRESS") give_me_address
    ∷ test 12 (codes "GIVE_ME_PORT") give_port
    ∷ test 16 (codes "ALLOW_SSH_TUNNEL") allow_ssh_tunnel
    ∷ test 15 (codes "CHECK_TIME_SYNC") check_time_sync
    ∷ test 17 (codes "ENABLE_DEBUG_MODE") enable_debug_mode
    ∷ test 18 (codes "DISABLE_DEBUG_MODE") disable_debug_mode
    ∷ test 14 (codes "GET_EVENT_SIZE") get_event_size
    ∷ test 9 (codes "GET_RUNNO") get_runno
    ∷ test 15 (codes "GET_RUN_START_T") get_run_start_t
    ∷ test 14 (codes "GET_RUN_STOP_T") get_run_stop_t
    ∷ test 10 (codes "GET_STATUS") get_status
    ∷ test 14 (codes "SET_EVENT_SIZE") set_event_size
    ∷ []

unfoldable pub is_command : Bytes → Test → Bool
is_command text t = strncmp_eq t.count text t.text

unfoldable pub first_match : Bytes → List Test → Option Command
unfolding is_command
first_match text [] = none
first_match text (t ∷ ts) =
    let rest = first_match text ts in if is_command text t then some t.command else rest

-- atoi of a text: blanks, a sign, digits, as the bit pattern of the int; a number that is no int is
-- undefined.
abbrev skip_blanks : Bytes → Bytes
skip_blanks [] = []
skip_blanks (c ∷ cs) =
    let rest = skip_blanks cs in if c == 32 || leb 9 c && leb c 13 then rest else c ∷ cs

abbrev digits_value : ℕ → Bytes → ℕ
digits_value n [] = n
digits_value n (c ∷ cs) =
    let rest = digits_value (10 * n + (c - b'0')) cs in if leb b'0' c && leb c b'9' then rest else n

abbrev in_int : ℕ → Run ℕ
in_int n = if ltb n (2 ^ 31) then ok n else undefined

abbrev negative : ℕ → Run ℕ
negative n = if leb n (2 ^ 31) then ok ((2 ^ 32 - n) % 2 ^ 32) else undefined

abbrev signed_value : Bytes → Run ℕ
signed_value [] = ok 0
signed_value (c ∷ cs) =
    if c == b'-'
    then negative (digits_value 0 cs)
    else if c == b'+'
    then in_int (digits_value 0 cs)
    else in_int (digits_value 0 (c ∷ cs))

unfoldable pub atoi : Bytes → Run ℕ
atoi text = signed_value (skip_blanks text)

abbrev reply : Bytes → Bytes → Server → Server
reply name text s = record s { message = queue_data s.message name text }

unfoldable pub run_text : RunStatus → Bytes
run_text unknown = codes "UNKNOWN"
run_text running = codes "RUNNING"
run_text stopped = codes "STOPPED"

-- A negative int counts as 0 where it is compared with a size.
unfoldable pub positive : ℕ → ℕ
positive n = if ltb n (2 ^ 31) then n else 0

-- SET_EVENT_SIZE with a number
unfoldable pub resize : ℕ → Server → Server
unfolding set_fe_status
resize new_size s =
    let size = if ltb s.event_size new_size then new_size else s.event_size in
    let small = ltb size 10_000 in
    let s = record s { event_size = if small then 10_000 else size } in
    let s =
      if small
      then effect (talk (codes "Minimum event size can not be less that 10 kilo bytes")) s
      else s in
    set_fe_status (some 0) (effect (write_event_size s.event_size) s)

module _ (odb : WorkerList) where
  -- `text` is the C string of the bank's DATA, `now` the clock, `time` the LabVIEW time as it is
  -- printed.
  unfoldable pub run_command : Option Command → Bytes → Bytes → ℕ → Bytes → Server → Run Server
  unfolding resize run_text atoi positive
  run_command none text hostname now time s = ok s
  run_command (some start_frontend) text hostname now time s = do
    assert_class supervisor s
    let r = add_new_client odb text now s.workers
    ok (reply (codes "FrontendStatus") r.0 (record s { workers = r.1 }))
  run_command (some allow_host) text hostname now time s =
      if not s.allowed.allow_self_registration
      then ok (effect (info hostname) s)
      else let s =
          if bytes_eq text hostname
          then s
          else effect (talk text) (record s { allowed = (add_host s.allowed hostname now).0 }) in
        ok (record s { allowed = (add_host s.allowed text now).0 })
  run_command (some give_me_address) text hostname now time s = do
    assert_class supervisor s
    ok (reply (codes "SendToAddress") s.this_hostname s)
  run_command (some give_port) text hostname now time s = do
    assert_class supervisor s
    let r = give_me_port odb text now s.workers
    ok (reply (codes "SendToPort") (to_string r.1) (record s { workers = r.2 }))
  run_command (some allow_ssh_tunnel) text hostname now time s =
      if not s.allowed.allow_self_registration
      then ok (effect (info hostname) s)
      else ok (record s { allowed = (add_host s.allowed hostname now).0 })
  run_command (some check_time_sync) text hostname now time s =
      ok (reply (codes "LV_TIME_NOW") time s)
  run_command (some enable_debug_mode) text hostname now time s = do
    assert_class worker s
    ok (record s { debug_mode = 1 })
  run_command (some disable_debug_mode) text hostname now time s = do
    assert_class worker s
    ok (record s { debug_mode = 0 })
  run_command (some get_event_size) text hostname now time s =
      ok (reply (codes "EventSize") (to_string s.event_size) s)
  run_command (some get_runno) text hostname now time s =
      ok (reply (codes "RunNumber") (to_string s.runno) s)
  run_command (some get_run_start_t) text hostname now time s =
      ok (reply (codes "RunStartTime") (to_string s.run_start_t) s)
  run_command (some get_run_stop_t) text hostname now time s =
      ok (reply (codes "RunStopTime") (to_string s.run_stop_t) s)
  run_command (some get_status) text hostname now time s =
      ok (reply (codes "RunStatus") (run_text s.run_status) s)
  run_command (some set_event_size) text hostname now time s = do
    assert_class worker s
    new_size ← atoi text
    ok (resize (positive new_size) s)

  -- `command` is the bank's EquipmentType.
  unfoldable pub handle_command_bank : Bytes → Bytes → Bytes → ℕ → Bytes → Server → Run Server
  unfolding run_command first_match tests
  handle_command_bank command text hostname now time s =
      run_command (first_match command tests) text hostname now time s
