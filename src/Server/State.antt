-- ===== src/Server/State.antt =====
-- The state of class feGEMClass, src/feGEMClass.cxx and include/feGEMClass.h, as far as the commands
-- of clients use it.
use fe_gem.Common.{
  ℕ, ◌/◌, Option, none, some, List, [], ◌∷◌, ◌++◌, Bytes, codes, ltb, if◌then◌else◌, to_string,
}
use fe_gem.Hosts.Registry.{AllowedHosts}
use fe_gem.Message.Queue.{MessageHandler}
use fe_gem.Supervisor.Workers.{Supervisor}

-- feGEMClassEnum
pub data ClassType : Type 0 where
  supervisor worker : ClassType

-- RunStatusType
pub data RunStatus : Type 0 where
  unknown running stopped : RunStatus

-- Messages to the control room, and writes to the ODB and to the equipment's status.
pub data Effect : Type 0 where
  info talk : Bytes → Effect
  write_event_size : ℕ → Effect
  set_status : Bytes → Bytes → Effect

pub record Server : Type 0 where
  pub class_type : ClassType
  pub event_size : ℕ
  pub debug_mode : ℕ
  pub this_hostname : Bytes
  pub run_status : RunStatus
  pub runno : ℕ
  pub run_start_t : ℕ
  pub run_stop_t : ℕ
  pub allowed : AllowedHosts
  pub message : MessageHandler
  pub workers : Supervisor
  pub effects : List Effect

-- `aborted` is a failed assert, `undefined` what C++ leaves open, `exited` a call of exit.
pub data Run {ℓ} (A : Type ℓ) : Type ℓ where
  ok : A → Run A
  aborted undefined exited : Run A

-- `none` is undefined behaviour.
abbrev pub defined {ℓ} : {A : Type ℓ} → Option A → Run A
defined none = undefined
defined (some a) = ok a

infixl 5 ◌>>=◌
abbrev pub ◌>>=◌ : {A B : Type 0} → Run A → (A → Run B) → Run B
ok a >>= f = f a
aborted >>= f = aborted
undefined >>= f = undefined
exited >>= f = exited

infixl 5 ◌>>◌
abbrev pub ◌>>◌ : {B : Type 0} → Run (Unit {0}) → Run B → Run B
ok u >> r = r
aborted >> r = aborted
undefined >> r = undefined
exited >> r = exited

abbrev pub effect : Effect → Server → Server
effect e s = record s { effects = s.effects ++ e ∷ [] }

abbrev pub assert_class : ClassType → Server → Run (Unit {0})
assert_class supervisor s = elim s.class_type [ supervisor ↦ ok tt | worker ↦ aborted ]
assert_class worker s = elim s.class_type [ supervisor ↦ aborted | worker ↦ ok tt ]

-- SetFEStatus: the text and the colour. `none` is a negative number of seconds.
unfoldable pub fe_status : ℕ → Option ℕ → Bytes × Bytes
unfolding to_string
fe_status event_size none = (codes "feGEM thread stopped", codes "mgray")
fe_status event_size (some seconds) =
    let status = codes "Rate limit set: " ++ to_string (event_size / 1000) ++ codes "KiB/s" in
    let ago = λ (n : ℕ) (unit : Bytes). status ++ codes " [No data for ~" ++ to_string n ++ unit in
    if ltb seconds 100
    then (status, codes "greenLight")
    else if ltb seconds 300
    then (ago seconds (codes " s]"), codes "greenLight")
    else if ltb seconds 3600
    then (ago (seconds / 60) (codes " mins]"), codes "yellowLight")
    else (ago (seconds / 3600) (codes " hours]"), codes "redLight")

unfoldable pub set_fe_status : Option ℕ → Server → Server
unfolding fe_status
set_fe_status seconds s =
    let (text, colour) = fe_status s.event_size seconds in effect (set_status text colour) s

-- HandleBeginRun and HandleEndRun, with what the ODB says of the run.
unfoldable pub handle_begin_run : ℕ → ℕ → Server → Server
handle_begin_run runno start s =
    effect (info (codes "Begin run!"))
      (record s { runno = runno; run_start_t = start; run_status = running })

unfoldable pub handle_end_run : ℕ → ℕ → ℕ → Server → Server
handle_end_run runno start stop s =
    effect (info (codes "End run!"))
      (record s { runno = runno; run_start_t = start; run_stop_t = stop; run_status = stopped })
