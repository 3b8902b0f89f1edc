-- ===== src/Supervisor/Starts.antt =====
-- When the supervisor starts a worker, and the port that the first entry of its list gets.
use fe_gem.Common.{
  ℕ, ◌≡◌, ◌≢◌, refl, sym, ap, subst, ◌∙◌, true, false, none, some, List, [], ◌∷◌, ◌++◌,
  append_assoc, arith, Bytes, codes, ◌==◌, length, get_or, bytes_eq, bytes_eq→eq, Bool-cases, inl,
  inr, ==_self,
}
use fe_gem.Supervisor.Assignment.{
  given, find_new, find_old, assign_old, assign_new, give_chain, with_host, write_port-one,
}
use fe_gem.Supervisor.Places.{Sound, find_host-append, first_host}
use fe_gem.Supervisor.Ports.{
  Request, start_frontend, give_port, host_of, serve, serve_all, StorableHosts, serve_all-Later,
  fresh, add_running, add_started, after_start,
}
use fe_gem.Supervisor.Workers.{
  WorkerList, Supervisor, find_host, worker_port, worker_is_running, give_me_port, add_new_client,
}

worker_is_running-append :
    (ids more : List ℕ) (id : ℕ)
    → worker_is_running ids id ≡ true
    → worker_is_running (ids ++ more) id ≡ true
unfolding worker_is_running
worker_is_running-append [] more id e = cc
worker_is_running-append (x ∷ ids) more id e = elim (Bool-cases (x == id)) [
  | inl t ↦ rw t refl
  | inr n ↦ rw n (worker_is_running-append ids more id (rw n at e))
]

worker_is_running-end : (ids : List ℕ) (id : ℕ) → worker_is_running (ids ++ id ∷ []) id ≡ true
unfolding worker_is_running
worker_is_running-end [] id = rw (==_self id) refl
worker_is_running-end (x ∷ ids) id = elim (Bool-cases (x == id)) [
  | inl t ↦ rw t refl
  | inr n ↦ rw n (worker_is_running-end ids id)
]

some_nat : {m n : ℕ} → some m ≡ some n → m ≡ n
some_nat e = cc

module _ (odb : WorkerList) (f : ℕ) where
  -- After a start request for g, its worker is found and runs.
  abbrev Runs : Bytes → Supervisor → Type 0
  Runs g s =
      (worker : ℕ) × (find_host s.host_names g 0 ≡ some worker)
      × (worker_is_running s.running_workers worker ≡ true)

  start-Runs :
      (g : Bytes) (now : ℕ) (s : Supervisor)
      → Sound f s
      → odb.Storable g
      → Runs g (add_new_client odb g now s).1 × Sound f (add_new_client odb g now s).1
  start-Runs g now s sound fits =
      let (worker, p, s', e, sound', found, port, more, same, idle) =
        given odb f g now s sound fits in
      elim (Bool-cases (worker_is_running s'.running_workers worker)) [
        | inl t ↦
            subst (λ r. Runs g r.1 × Sound f r.1) (sym (add_running odb g now worker p s s' e t))
              ((worker, found, t), sound')
        | inr n ↦
            subst (λ r. Runs g r.1 × Sound f r.1) (sym (add_started odb g now worker p s s' e n))
              ((worker, found, worker_is_running-end s'.running_workers worker), sound')
      ]

  module _ (before between : List Request) (g : Bytes) (now later : ℕ) where
    -- The state after some requests, a start request for g, and some more requests.
    abbrev pub once_started : Supervisor
    once_started =
        serve_all odb between (add_new_client odb g now (serve_all odb before (fresh f))).1

    -- A second start request for the same host starts no thread, whatever came before and between,
    -- if the ODB can hold all names.
    pub start_frontend_once :
        StorableHosts odb before
        → odb.Storable g
        → StorableHosts odb between
        → ((add_new_client odb g later once_started).0 ≡ codes "Frontend already running")
          × ((add_new_client odb g later once_started).1.started ≡ once_started.started)
    start_frontend_once fits1 fit fits2 =
        let fresh_sound : Sound f (fresh f) =
          (refl, refl, inr (refl, refl), λ i pos b. absurd (omega arith)) in
        let (sound1, m1, i1) = serve_all-Later odb f before (fresh f) fresh_sound fits1 in
        let ((worker, found, runs), sound2) =
          start-Runs g now (serve_all odb before (fresh f)) sound1 fit in
        let s1 = (add_new_client odb g now (serve_all odb before (fresh f))).1 in
        let (sound3, (m3, names3), (i3, ids3)) = serve_all-Later odb f between s1 sound2 fits2 in
        let (w2, p2, s2, e2, sound4, found2, port2, (m4, names4), same4, idle4) =
          given odb f g later once_started sound3 fit in
        let names : s2.host_names ≡ s1.host_names ++ (m3 ++ m4) =
          names4 ∙ ap (λ q. q ++ m4) names3 ∙ append_assoc s1.host_names m3 m4 in
        let kept : find_host s2.host_names g 0 ≡ some worker =
          rw names (find_host-append s1.host_names (m3 ++ m4) g 0 worker found) in
        let w : w2 ≡ worker = some_nat (sym found2 ∙ kept) in
        let still : worker_is_running s2.running_workers w2 ≡ true =
          rw (w, same4, ids3) (worker_is_running-append s1.running_workers i3 worker runs) in
        let e = add_running odb g later w2 p2 once_started s2 e2 still in
        (ap (λ r. r.0) e, ap (λ r. r.1.started) e ∙ idle4)

  not_first : (h : Bytes) → h ≢ first_host → find_host (first_host ∷ []) h 0 ≡ none
  unfolding find_host
  not_first h other = elim (Bool-cases (bytes_eq first_host h)) [
    | inl t ↦ absurd (other (sym (bytes_eq→eq first_host h t)))
    | inr n ↦ rw n refl
  ]

  -- The state behind the first request for another host.
  abbrev after_first : Bytes → ℕ → Supervisor
  after_first h now = record (with_host odb h now (fresh f)) { ports = 0 ∷ worker_port f 1 ∷ [] }

  give_me_port-fresh :
      (h : Bytes) (now : ℕ)
      → odb.Storable h
      → h ≢ first_host
      → give_me_port odb h now (fresh f) ≡ (1, worker_port f 1, after_first h now)
  give_me_port-fresh h now fits other =
      give_chain odb h now 1 (worker_port f 1) (fresh f) (with_host odb h now (fresh f))
        (after_first h now) (find_new odb h now (fresh f) (not_first h other) fits)
        (assign_new odb 1 (with_host odb h now (fresh f)) (0 ∷ worker_port f 1 ∷ []) (omega arith)
          (write_port-one odb (worker_port f 1)))

  zero_port :
      (now p : ℕ) (s : Supervisor)
      → find_host s.host_names first_host 0 ≡ some 0
      → s.ports ≡ 0 ∷ p ∷ []
      → (give_me_port odb first_host now s).1 ≡ 0
  zero_port now p s found e =
      let two : length s.ports ≡ 2 = ap length e in
      ap (λ r. r.1)
        (give_chain odb first_host now 0 (get_or s.ports 0 0) s s s
          (find_old odb first_host now 0 s found) (assign_old odb 0 s (omega arith)))
      ∙ ap (λ q. get_or q 0 0) e

  found_first : (h : Bytes) → find_host (first_host ∷ h ∷ []) first_host 0 ≡ some 0
  unfolding find_host
  found_first h = refl

  -- Behind the first request of any other host, the first entry of the worker list, which the ODB is
  -- created with, is given port 0.
  pub first_host_port :
      (r : Request) (now : ℕ)
      → odb.Storable (host_of r)
      → host_of r ≢ first_host
      → (give_me_port odb first_host now (serve odb r (fresh f))).1 ≡ 0
  unfolding serve worker_is_running
  first_host_port (give_port h t) now fits other =
      subst (λ r. (give_me_port odb first_host now r.2).1 ≡ 0)
        (sym (give_me_port-fresh h t fits other))
        (zero_port now (worker_port f 1) (after_first h t) (found_first h) refl)
  first_host_port (start_frontend h t) now fits other =
      let e = give_me_port-fresh h t fits other in
      let idle : worker_is_running [] 1 ≡ false = refl in
      subst (λ r. (give_me_port odb first_host now r.1).1 ≡ 0)
        (sym (add_started odb h t 1 (worker_port f 1) (fresh f) (after_first h t) e idle))
        (zero_port now (worker_port f 1)
          (after_start odb h t 1 (worker_port f 1) (fresh f) (after_first h t) e) (found_first h)
          refl)
