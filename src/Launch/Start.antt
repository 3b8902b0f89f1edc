-- ===== src/Launch/Start.antt =====
-- main of src/feGEMmain.cxx behind the arguments: which thread is made, and with what.
use fe_gem.Common.{
  subst, ℕ, ◌≤◌, ◌≡◌, ◌≢◌, refl, sym, ap, ◌∙◌, ◌⊎◌, Bool, true, false, Option, none, some, List,
  Bytes, arith, ◌==◌, if◌then◌else◌, Bool-cases, inl, inr,
}
use fe_gem.Hosts.Registry.{AllowedHosts}
use fe_gem.Server.State.{Run, ok, aborted, undefined, exited, ◌>>=◌}
use fe_gem.Server.Settled.{Ensures, Ensures-bind, Ensures-if}
use fe_gem.Supervisor.Workers.{Supervisor}
use fe_gem.Frontend.State.{Frontend}
use fe_gem.Frontend.Connections.{IsReady, Reach}
use fe_gem.Launch.Arguments.{Options, parse_arguments, frontend_name, event_size_write}
use fe_gem.Launch.Worker.{
  RunInfo, Settings, or_default, new_worker, init_worker, init_worker-sized, allocated-Ensures,
}
use fe_gem.Launch.Status.{Unset, new_supervisor, init_supervisor}
use fe_gem.Launch.Ready.{Launched, worker_launched, supervisor_launched, Reach-IsReady_started}

-- What the program meets: the ODB, the lists of hosts, the name of the machine, memory that is not
-- set, and whether the port can be bound.
pub record Environment : Type 0 where
  pub supervisor_port : Option ℕ
  pub settings : Settings
  pub run : RunInfo
  pub hosts : AllowedHosts
  pub workers : Supervisor
  pub this_hostname : Bytes
  pub exe : Bytes
  pub behind : Bytes
  pub garbage : ℕ
  pub unset : Unset
  pub bound : Bool

-- The event size of the command line is written to the ODB, where Init reads it.
unfoldable pub event_size_setting : Options → Settings → Option ℕ
unfolding event_size_write
event_size_setting o settings = elim (event_size_write o) [
  | none ↦ settings.odb_event_size
  | some n ↦ some n
]

unfoldable pub start_supervisor : Options → Environment → Run Frontend
unfolding event_size_setting frontend_name new_supervisor init_supervisor
start_supervisor o e =
    let port = or_default e.supervisor_port 12_345 in
    init_supervisor (event_size_setting o e.settings) e.bound (
      new_supervisor (frontend_name o) e.hosts e.this_hostname (record e.workers { f_port = port })
        e.unset)
    >>= (λ r. ok r.0)

unfoldable pub start_worker : Options → Environment → Run Frontend
unfolding event_size_setting frontend_name new_worker init_worker
start_worker o e =
    init_worker e.exe (record e.settings { odb_event_size = event_size_setting o e.settings })
      (or_default e.supervisor_port 12_345) e.bound
      (new_worker (frontend_name o) e.hosts e.this_hostname o.client e.behind 0 e.run e.workers
        e.garbage)

unfoldable pub start : Options → Environment → Run Frontend
unfolding start_supervisor start_worker
start o e = if o.supervisor_mode then start_supervisor o e else start_worker o e

-- The program from its arguments to its thread.
unfoldable pub run_main : Bytes → List Bytes → Environment → Run Frontend
unfolding start parse_arguments
run_main program args e = do o ← parse_arguments program args; start o e

first_ok :
    {A B : Type 0} (r : Run (A × B)) (a : A)
    → (r >>= (λ x. ok x.0)) ≡ ok a
    → (b : B) × (r ≡ ok (a, b))
first_ok (ok (x, y)) a e = let q : x ≡ a = cc in (y, ap (λ z. ok (z, y)) q)
first_ok aborted a e = cc
first_ok undefined a e = cc
first_ok exited a e = cc

start-cases :
    (o : Options) (e : Environment)
    → (start o e ≡ start_supervisor o e) ⊎ (start o e ≡ start_worker o e)
unfolding start
start-cases o e = elim (Bool-cases o.supervisor_mode) [
  | inl mode ↦ inl (chosen o.supervisor_mode mode)
  | inr mode ↦ inr (other o.supervisor_mode mode)
]
  where
    chosen :
        (b : Bool)
        → b ≡ true
        → ◌≡◌ {A = Run Frontend}
            (if b then start_supervisor o e else start_worker o e)
            (start_supervisor o e)
    chosen b h = rw h refl

    other :
        (b : Bool)
        → b ≡ false
        → ◌≡◌ {A = Run Frontend}
            (if b then start_supervisor o e else start_worker o e)
            (start_worker o e)
    other b h = rw h refl

start-Launched : (o : Options) (e : Environment) (s : Frontend) → start o e ≡ ok s → Launched s
unfolding start_supervisor start_worker
start-Launched o e s started = elim (start-cases o e) [
  | inl mode ↦
      let workers = record e.workers { f_port = or_default e.supervisor_port 12_345 } in
      let (writes, f) =
        first_ok
          (init_supervisor (event_size_setting o e.settings) e.bound
            (new_supervisor (frontend_name o) e.hosts e.this_hostname workers e.unset))
          s (sym mode ∙ started) in
      supervisor_launched (frontend_name o) e.hosts e.this_hostname workers e.unset
        (event_size_setting o e.settings) e.bound writes f
  | inr mode ↦
      worker_launched (frontend_name o) e.hosts e.this_hostname o.client e.behind 0 e.run e.workers
        e.garbage e.exe (record e.settings { odb_event_size = event_size_setting o e.settings })
        (or_default e.supervisor_port 12_345) e.bound (sym mode ∙ started)
]

event_size_setting-some :
    (o : Options) (settings : Settings)
    → o.max_event_size ≢ 0
    → event_size_setting o settings ≡ some o.max_event_size
unfolding event_size_setting event_size_write
event_size_setting-some o settings h =
    let e : (o.max_event_size == 0) ≡ false = ground (arith, h) in
    rw (event_size_setting, event_size_write, e) refl

-- The event size is the one of the command line.
abbrev IsSizedBy : Options → Frontend → Type 0
IsSizedBy o s = s.server.event_size ≡ o.max_event_size

start_supervisor-IsSizedBy :
    (o : Options) (e : Environment)
    → o.max_event_size ≢ 0
    → Ensures (IsSizedBy o) (start_supervisor o e)
unfolding start_supervisor init_supervisor
start_supervisor-IsSizedBy o e h = rw (event_size_setting-some o e.settings h) (
    Ensures-bind (λ r. IsSizedBy o r.0) (IsSizedBy o) _ (λ r. ok r.0)
      (Ensures-if (λ r. IsSizedBy o r.0) (or_default e.supervisor_port 12_345 == 0) aborted _ tt
        (Ensures-if (λ r. IsSizedBy o r.0) e.bound _ exited
          (allocated-Ensures (λ r. IsSizedBy o r.0) o.max_event_size _ refl) tt))
      (λ r sized. sized))

start_worker-IsSizedBy :
    (o : Options) (e : Environment)
    → o.max_event_size ≢ 0
    → Ensures (IsSizedBy o) (start_worker o e)
unfolding start_worker
start_worker-IsSizedBy o e h =
    init_worker-sized e.exe (record e.settings { odb_event_size = event_size_setting o e.settings })
      (or_default e.supervisor_port 12_345) e.bound
      (new_worker (frontend_name o) e.hosts e.this_hostname o.client e.behind 0 e.run e.workers
        e.garbage)
      o.max_event_size (event_size_setting-some o e.settings h)

-- If the program comes to a thread, which with a negative event size, whose buffer cannot be allocated,
-- it does not, then from there on, through any sequence of looks at the socket and transitions of runs,
-- the thread has nothing queued for a client between two looks, so that no client gets what was meant
-- for another; its event buffer has the event size, or the next look brings it there; the event size
-- never shrinks, and it starts with the one of the command line, if that is given and not 0.
pub start-IsReady :
    {s t : Frontend} (o : Options) (e : Environment)
    → start o e ≡ ok s
    → Reach s t
    → IsReady t
      × (s.server.event_size ≤ t.server.event_size)
      × (o.max_event_size ≢ 0 → s.server.event_size ≡ o.max_event_size)
start-IsReady {s} o e started reach =
    let (ready, grows) = Reach-IsReady_started (start-Launched o e s started) reach in
    (
      ready,
      grows,
      λ given. elim (start-cases o e) [
        | inl mode ↦
            subst (Ensures (IsSizedBy o)) (sym mode ∙ started)
              (start_supervisor-IsSizedBy o e given)
        | inr mode ↦
            subst (Ensures (IsSizedBy o)) (sym mode ∙ started) (start_worker-IsSizedBy o e given)
      ],
    )
