-- ===== src/Launch/Ready.antt =====
-- What holds of a thread from its start on (src/feGEMWorker.cxx, src/feGEMSupervisor.cxx and ServeHost of
-- src/feGEMClass.cxx).
use fe_gem.Common.{ℕ, ◌≤◌, ◌≡◌, refl, subst, Bool, Option, List, Bytes, arith, ◌==◌, inl}
use fe_gem.Hosts.Registry.{AllowedHosts}
use fe_gem.Message.Queue.{empty_handler}
use fe_gem.Server.State.{ok, aborted, exited}
use fe_gem.Server.Settled.{Ensures, Ensures-if}
use fe_gem.Supervisor.Workers.{Supervisor}
use fe_gem.Frontend.State.{Frontend}
use fe_gem.Frontend.Connections.{IsReady, Reach, Reach-IsReady}
use fe_gem.Launch.Worker.{
  RunInfo, Settings, new_worker, init_worker, allocated-Ensures, or_default, init_worker-IsReady,
  new_worker-IsClean,
}
use fe_gem.Launch.Status.{Unset, new_supervisor, init_supervisor}

-- A thread behind its Init.
pub data Launched (s : Frontend) : Type 0 where
  worker_launched :
      (eq_name : Bytes) (hosts : AllowedHosts) (this_hostname client_hostname behind : Bytes)
      (debug_mode : ℕ) (run : RunInfo) (idle_workers : Supervisor) (garbage : ℕ) (exe : Bytes)
      (settings : Settings) (port : ℕ) (bound : Bool)
      → init_worker exe settings port bound (
          new_worker eq_name hosts this_hostname client_hostname behind debug_mode run idle_workers
            garbage)
        ≡ ok s
      → Launched s
  supervisor_launched :
      (eq_name : Bytes) (hosts : AllowedHosts) (this_hostname : Bytes) (workers : Supervisor)
      (unset : Unset) (event_size : Option ℕ) (bound : Bool) (writes : List (Bytes × Bytes))
      → init_supervisor event_size bound (new_supervisor eq_name hosts this_hostname workers unset)
        ≡ ok (s, writes)
      → Launched s

init_supervisor-IsReady :
    (event_size : Option ℕ) (bound : Bool) (eq_name : Bytes) (hosts : AllowedHosts)
    (this_hostname : Bytes) (workers : Supervisor) (unset : Unset)
    → Ensures
        (λ r. IsReady r.0)
        (init_supervisor event_size bound
          (new_supervisor eq_name hosts this_hostname workers unset))
unfolding init_supervisor new_supervisor empty_handler
init_supervisor-IsReady event_size bound eq_name hosts this_hostname workers unset =
    Ensures-if (λ r. IsReady r.0) (workers.f_port == 0) aborted _ tt
      (Ensures-if (λ r. IsReady r.0) bound _ exited
        (allocated-Ensures (λ r. IsReady r.0) (or_default event_size 10_000) _
          ((refl, refl), (omega arith, inl refl)))
        tt)

Launched-IsReady : {s : Frontend} → Launched s → IsReady s
Launched-IsReady
      (worker_launched eq_name hosts this_hostname client_hostname behind debug_mode run
        idle_workers garbage exe settings port bound e) =
    subst (Ensures IsReady) e (
      init_worker-IsReady exe settings port bound _ (
        new_worker-IsClean eq_name hosts this_hostname client_hostname behind debug_mode run
          idle_workers garbage))
Launched-IsReady
      (supervisor_launched eq_name hosts this_hostname workers unset event_size bound writes e) =
    subst (Ensures (λ r. IsReady r.0)) e
      (init_supervisor-IsReady event_size bound eq_name hosts this_hostname workers unset)

-- From its start on, through any sequence of looks at the socket and transitions of runs, a worker or
-- a supervisor has nothing queued for a client between two of them, so that no client gets what was
-- meant for another; its event buffer has the event size, or the next look brings it there; and the
-- event size never shrinks.
pub Reach-IsReady_started :
    {s t : Frontend}
    → Launched s
    → Reach s t
    → IsReady t × (s.server.event_size ≤ t.server.event_size)
Reach-IsReady_started start reach = Reach-IsReady (Launched-IsReady start) reach
