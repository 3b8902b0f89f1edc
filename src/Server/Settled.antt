-- ===== src/Server/Settled.antt =====
-- What no command of a client changes in the state of class feGEMClass (src/feGEMClass.cxx): the error
-- queue; and the event size never shrinks. `Ensures` is what a run that comes to a result says of it.
use fe_gem.Common.{
  ℕ, ◌≤◌, ◌≡◌, refl, ◌∙◌, not, Bool, true, false, Option, none, some, Bytes, arith, ltb,
  if◌then◌else◌, Bool-cases, inl, inr, bytes_eq,
}
use fe_gem.Message.Queue.{MessageHandler, queue_data, push_message}
use fe_gem.Server.State.{
  ClassType, supervisor, worker, Server, Run, ok, aborted, undefined, exited, ◌>>=◌, ◌>>◌,
  assert_class, set_fe_status,
}
use fe_gem.Server.Commands
use fe_gem.Server.Commands.{
  Command, run_command, handle_command_bank, resize, positive, atoi, first_match, tests,
}
use fe_gem.Server.EventSize.{resize-Grows, assert_class-cases}
use fe_gem.Supervisor.Workers.{WorkerList}

abbrev pub Ensures {ℓ} : {A : Type ℓ} → (A → Type 0) → Run A → Type 0
Ensures P (ok a) = P a
Ensures P aborted = Unit
Ensures P undefined = Unit
Ensures P exited = Unit

pub Ensures-bind :
    {A B : Type 0} (P : A → Type 0) (Q : B → Type 0) (r : Run A) (f : A → Run B)
    → Ensures P r
    → ((a : A) → P a → Ensures Q (f a))
    → Ensures Q (r >>= f)
Ensures-bind P Q (ok a) f h g = g a h
Ensures-bind P Q aborted f h g = tt
Ensures-bind P Q undefined f h g = tt
Ensures-bind P Q exited f h g = tt

pub Ensures-any : {A : Type 0} (r : Run A) → Ensures (λ a. Unit) r
Ensures-any (ok a) = tt
Ensures-any aborted = tt
Ensures-any undefined = tt
Ensures-any exited = tt

-- The error queue of a message handler stays as it is.
abbrev pub SameErrors : MessageHandler → MessageHandler → Type 0
SameErrors m m' = m'.json_error_queue ≡ m.json_error_queue

abbrev pub Settled : Server → Server → Type 0
Settled s s' = (s.event_size ≤ s'.event_size) × SameErrors s.message s'.message

pub Settled-refl : (s : Server) → Settled s s
Settled-refl s = (omega arith, refl)

Settled-assert :
    (c : ClassType) (s : Server) (r : Run Server)
    → Ensures (Settled s) r
    → Ensures (Settled s) (assert_class c s >> r)
Settled-assert c s r h = elim (assert_class-cases c s) [
  | inl passed ↦ rw passed h
  | inr failed ↦ rw failed tt
]

resize-SameErrors : (n : ℕ) (s : Server) → SameErrors s.message (resize n s).message
unfolding resize set_fe_status
resize-SameErrors n s =
    elim (Bool-cases (ltb (if ltb s.event_size n then n else s.event_size) 10_000)) [
      | inl small ↦ rw small refl
      | inr big ↦ rw big refl
    ]

resize-Settled : (n : ℕ) (s : Server) → Settled s (resize n s)
resize-Settled n s = (
  elim (resize-Grows n s) [ inl same ↦ omega (arith, same) | inr (more, big) ↦ more ],
  resize-SameErrors n s,
)

run_command-Settled :
    (odb : WorkerList) (c : Option Command) (text hostname : Bytes) (now : ℕ) (time : Bytes)
    (s : Server)
    → Ensures (Settled s) (run_command odb c text hostname now time s)
unfolding run_command queue_data push_message
run_command-Settled odb none text hostname now time s = Settled-refl s
run_command-Settled odb (some Commands.start_frontend) text hostname now time s =
    Settled-assert supervisor s _ (Settled-refl s)
run_command-Settled odb (some Commands.allow_host) text hostname now time s =
    elim (Bool-cases (not s.allowed.allow_self_registration)) [
      | inl t ↦ rw t (Settled-refl s)
      | inr n ↦ elim (Bool-cases (bytes_eq text hostname)) [
        | inl t ↦ rw (n, t) (Settled-refl s)
        | inr m ↦ rw (n, m) (Settled-refl s)
      ]
    ]
run_command-Settled odb (some Commands.give_me_address) text hostname now time s =
    Settled-assert supervisor s _ (Settled-refl s)
run_command-Settled odb (some Commands.give_port) text hostname now time s =
    Settled-assert supervisor s _ (Settled-refl s)
run_command-Settled odb (some Commands.allow_ssh_tunnel) text hostname now time s =
    elim (Bool-cases (not s.allowed.allow_self_registration)) [
      | inl t ↦ rw t (Settled-refl s)
      | inr n ↦ rw n (Settled-refl s)
    ]
run_command-Settled odb (some Commands.check_time_sync) text hostname now time s = Settled-refl s
run_command-Settled odb (some Commands.enable_debug_mode) text hostname now time s =
    Settled-assert worker s _ (Settled-refl s)
run_command-Settled odb (some Commands.disable_debug_mode) text hostname now time s =
    Settled-assert worker s _ (Settled-refl s)
run_command-Settled odb (some Commands.get_event_size) text hostname now time s = Settled-refl s
run_command-Settled odb (some Commands.get_runno) text hostname now time s = Settled-refl s
run_command-Settled odb (some Commands.get_run_start_t) text hostname now time s = Settled-refl s
run_command-Settled odb (some Commands.get_run_stop_t) text hostname now time s = Settled-refl s
run_command-Settled odb (some Commands.get_status) text hostname now time s = Settled-refl s
run_command-Settled odb (some Commands.set_event_size) text hostname now time s =
    Settled-assert worker s _ (
      Ensures-bind (λ n. Unit) (Settled s) (atoi text) (λ n. ok (resize (positive n) s))
        (Ensures-any (atoi text)) (λ n u. resize-Settled (positive n) s))

pub Settled-trans : (s t u : Server) → Settled s t → Settled t u → Settled s u
Settled-trans s t u (a, b) (c, d) = (omega (arith, a, c), d ∙ b)

pub Ensures-if :
    {A : Type 0} (P : A → Type 0) (c : Bool) (a b : Run A)
    → Ensures P a
    → Ensures P b
    → Ensures P (if c then a else b)
Ensures-if P true a b h g = h
Ensures-if P false a b h g = g

pub Ensures-weaken :
    {A : Type 0} (P Q : A → Type 0) (r : Run A) → Ensures P r → ((a : A) → P a → Q a) → Ensures Q r
Ensures-weaken P Q (ok a) h f = f a h
Ensures-weaken P Q aborted h f = tt
Ensures-weaken P Q undefined h f = tt
Ensures-weaken P Q exited h f = tt

pub handle_command_bank-Settled :
    (odb : WorkerList) (command text hostname : Bytes) (now : ℕ) (time : Bytes) (s : Server)
    → Ensures (Settled s) (handle_command_bank odb command text hostname now time s)
unfolding handle_command_bank
handle_command_bank-Settled odb command text hostname now time s =
    run_command-Settled odb (first_match command tests) text hostname now time s
