-- ===== src/Frontend/State.antt =====
-- A thread of src/feGEMClass.cxx with the objects that it owns (include/feGEMClass.h), and what it
-- finds around it.
use fe_gem.Common.{ℕ, Option, List, [], ◌∷◌, ◌++◌, Bytes}
use fe_gem.Hosts.Registry.{Notice}
use fe_gem.Message.Queue
use fe_gem.Message.Queue.{MessageHandler}
use fe_gem.History.Logger.{HistoryLogger}
use fe_gem.Periodicity.Manager.{PeriodicityManager}
use fe_gem.Server.State.{Server, Run, ok, aborted, undefined}
use fe_gem.Settings.Files
use fe_gem.Settings.Files.{FileCall, Disk}
use fe_gem.Supervisor.Workers.{WorkerList}

-- What the thread does to the equipment's settings, to other programs and to files.
pub data Call : Type 0 where
  -- fOdbEqSettings->WS(name, text)
  write_string : Bytes → Bytes → Call
  -- fOdbEqSettings->WSA(name, texts, width)
  write_strings : Bytes → List Bytes → ℕ → Call
  -- fMfe->Msg(MTALK, facility, text)
  talk : Bytes → Bytes → Call
  -- fOdbEqSettings->WU32(name, number)
  write_number : Bytes → ℕ → Call
  -- popen of a command, and what is written to it
  pipe : Bytes → Bytes → Call
  file : FileCall → Call
  -- a message about a rejected host
  rejection : Notice → Call
  -- an event of MIDAS with a bank of this size
  send_event : ℕ → Call

pub record Frontend : Type 0 where
  pub server : Server
  pub logger : HistoryLogger
  pub periodicity : PeriodicityManager
  pub elog_host : Bytes
  -- none if the class never sets it
  pub max_elog_post_size : Option ℕ
  -- the path of SettingsDataBase; none is its NULL
  pub settings_database : Option Bytes
  -- lastEventSize, and the bytes of fEventBuf
  pub last_event_size : ℕ
  pub buffer_size : ℕ
  -- in microseconds
  pub last_status_update : ℕ
  pub calls : List Call

-- What the code takes from elsewhere while it handles one message.
pub record World : Type 1 where
  pub odb : WorkerList
  -- the memory that a call of SanitiseBankString can write
  pub memory : Bytes
  pub default_period : ℕ
  pub md5 : Bytes → Bytes
  pub disk : Disk
  pub unixtime : Bytes
  -- the clock, and the LabVIEW time as it is printed, when the command in entry i is run
  pub now : ℕ → ℕ
  pub time : ℕ → Bytes

abbrev pub call : Call → Frontend → Frontend
call c s = record s { calls = s.calls ++ c ∷ [] }

abbrev pub queued : Queue.Outcome → Run MessageHandler
queued (Queue.ok m) = ok m
queued Queue.aborted = aborted
queued Queue.undefined = undefined

abbrev pub filed {ℓ} : {A : Type ℓ} → Files.Outcome A → Run A
filed (Files.ok a) = ok a
filed Files.undefined = undefined
filed Files.aborted = aborted

abbrev pub with_message : MessageHandler → Frontend → Frontend
with_message m s = record s { server = record s.server { message = m } }
