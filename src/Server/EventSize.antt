-- ===== src/Server/EventSize.antt =====
-- The event size through the commands of clients.
use fe_gem.Common.{
  ℕ, ◌≤◌, ◌≡◌, refl, subst, not, Option, none, some, Bytes, arith, ltb, Bool-cases, inl, inr, ◌⊎◌,
  bytes_eq,
}
use fe_gem.Server.State.{
  ClassType, supervisor, worker, Server, Run, ok, aborted, undefined, exited, ◌>>=◌, ◌>>◌,
  assert_class, set_fe_status,
}
use fe_gem.Server.Commands
use fe_gem.Server.Commands.{
  Command, run_command, handle_command_bank, resize, positive, atoi, first_match, tests,
}
use fe_gem.Supervisor.Workers.{WorkerList}

-- The event size behind a run, or the one before it if it came to nothing.
abbrev size_behind : ℕ → Run Server → ℕ
size_behind n (ok s) = s.event_size
size_behind n aborted = n
size_behind n undefined = n
size_behind n exited = n

-- It stays, or grows to at least 10 000 bytes.
abbrev Grows : ℕ → ℕ → Type 0
Grows old new = (new ≡ old) ⊎ ((old ≤ new) × (10_000 ≤ new))

grown : (old new : ℕ) → old ≤ new → 10_000 ≤ new → Grows old new
grown old new h g = inr (h, g)

pub resize-Grows : (n : ℕ) (s : Server) → Grows s.event_size (resize n s).event_size
unfolding resize set_fe_status
resize-Grows n s = elim (Bool-cases (ltb s.event_size n)) [
  | inl more ↦ elim (Bool-cases (ltb n 10_000)) [
    | inl small ↦ rw (more, small) (grown s.event_size 10_000 (ground arith) (omega arith))
    | inr big ↦ rw (more, big) (grown s.event_size n (ground arith) (ground arith))
  ]
  | inr less ↦ elim (Bool-cases (ltb s.event_size 10_000)) [
    | inl small ↦ rw (less, small) (grown s.event_size 10_000 (ground arith) (omega arith))
    | inr big ↦ rw (less, big) (inl refl)
  ]
]

pub class_type-cases : (c : ClassType) → (c ≡ supervisor) ⊎ (c ≡ worker)
class_type-cases supervisor = inl refl
class_type-cases worker = inr refl

pub assert_class-cases :
    (c : ClassType) (s : Server) → (assert_class c s ≡ ok tt) ⊎ (assert_class c s ≡ aborted)
assert_class-cases supervisor s = elim (class_type-cases s.class_type) [
  | inl e ↦ rw e (inl refl)
  | inr e ↦ rw e (inr refl)
]
assert_class-cases worker s = elim (class_type-cases s.class_type) [
  | inl e ↦ rw e (inr refl)
  | inr e ↦ rw e (inl refl)
]

asserted :
    (c : ClassType) (s : Server) (r : Run Server)
    → Grows s.event_size (size_behind s.event_size r)
    → Grows s.event_size (size_behind s.event_size (assert_class c s >> r))
asserted c s r g = elim (assert_class-cases c s) [
  | inl passed ↦ rw passed g
  | inr failed ↦ rw failed (inl refl)
]

sized :
    (number : Run ℕ) (s : Server)
    → Grows s.event_size
        (size_behind s.event_size (number >>= λ new_size. ok (resize (positive new_size) s)))
sized (ok n) s = resize-Grows (positive n) s
sized aborted s = inl refl
sized undefined s = inl refl
sized exited s = inl refl

run_command-Grows :
    (odb : WorkerList) (c : Option Command) (text hostname : Bytes) (now : ℕ) (time : Bytes)
    (s : Server)
    → Grows s.event_size (size_behind s.event_size (run_command odb c text hostname now time s))
unfolding run_command
run_command-Grows odb none text hostname now time s = inl refl
run_command-Grows odb (some Commands.start_frontend) text hostname now time s =
    asserted supervisor s _ (inl refl)
run_command-Grows odb (some Commands.allow_host) text hostname now time s =
    elim (Bool-cases (not s.allowed.allow_self_registration)) [
      | inl t ↦ rw t (inl refl)
      | inr n ↦ elim (Bool-cases (bytes_eq text hostname)) [
        | inl t ↦ rw (n, t) (inl refl)
        | inr m ↦ rw (n, m) (inl refl)
      ]
    ]
run_command-Grows odb (some Commands.give_me_address) text hostname now time s =
    asserted supervisor s _ (inl refl)
run_command-Grows odb (some Commands.give_port) text hostname now time s =
    asserted supervisor s _ (inl refl)
run_command-Grows odb (some Commands.allow_ssh_tunnel) text hostname now time s =
    elim (Bool-cases (not s.allowed.allow_self_registration)) [
      | inl t ↦ rw t (inl refl)
      | inr n ↦ rw n (inl refl)
    ]
run_command-Grows odb (some Commands.check_time_sync) text hostname now time s = inl refl
run_command-Grows odb (some Commands.enable_debug_mode) text hostname now time s =
    asserted worker s _ (inl refl)
run_command-Grows odb (some Commands.disable_debug_mode) text hostname now time s =
    asserted worker s _ (inl refl)
run_command-Grows odb (some Commands.get_event_size) text hostname now time s = inl refl
run_command-Grows odb (some Commands.get_runno) text hostname now time s = inl refl
run_command-Grows odb (some Commands.get_run_start_t) text hostname now time s = inl refl
run_command-Grows odb (some Commands.get_run_stop_t) text hostname now time s = inl refl
run_command-Grows odb (some Commands.get_status) text hostname now time s = inl refl
run_command-Grows odb (some Commands.set_event_size) text hostname now time s =
    asserted worker s _ (sized (atoi text) s)

-- Whatever command a client sends, the event size stays what it is, or grows to at least 10 000
-- bytes; it never shrinks.
pub handle_command_bank-Grows :
    (odb : WorkerList) (command text hostname : Bytes) (now : ℕ) (time : Bytes) (s s' : Server)
    → handle_command_bank odb command text hostname now time s ≡ ok s'
    → (s'.event_size ≡ s.event_size) ⊎ ((s.event_size ≤ s'.event_size) × (10_000 ≤ s'.event_size))
unfolding handle_command_bank
handle_command_bank-Grows odb command text hostname now time s s' e =
    subst (λ r. Grows s.event_size (size_behind s.event_size r)) e
      (run_command-Grows odb (first_match command tests) text hostname now time s)
