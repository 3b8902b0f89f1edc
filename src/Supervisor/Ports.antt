-- ===== src/Supervisor/Ports.antt =====
-- The ports that the supervisor hands out: one for each host, the same at every contact.
use mathlib.Core.Path.{}
use native.Mathlib.Numerals.{}
use fe_gem.Common.{
  ℕ, ◌-◌, ◌^◌, ◌<◌, ◌≤◌, ◌≡◌, ◌≢◌, ◌↔◌, inl, inr, refl, sym, ap, subst, ◌∙◌, true, false, some,
  List, [], ◌∷◌, ◌++◌, append-nil, append_assoc, arith, Bytes, codes, length, get_elem?, All,
  Bool-cases,
}
use fe_gem.Supervisor.Assignment.{given}
use fe_gem.Supervisor.Places.{find_host_found, find_host-append, Sound, some_eq, first_host}
use fe_gem.Supervisor.Workers.{
  WorkerList, Supervisor, build_frontend_name, find_host, worker_port, worker_is_running,
  worker_started, give_me_port, add_new_client,
}

-- The requests that clients make of the supervisor, at the time `now`.
pub data Request : Type 0 where
  start_frontend : Bytes → ℕ → Request
  give_port : Bytes → ℕ → Request

abbrev pub host_of : Request → Bytes
host_of (start_frontend h now) = h
host_of (give_port h now) = h

module _ (odb : WorkerList) where
  unfoldable pub serve : Request → Supervisor → Supervisor
  serve (start_frontend h now) s = (add_new_client odb h now s).1
  serve (give_port h now) s = (give_me_port odb h now s).2

  unfoldable pub serve_all : List Request → Supervisor → Supervisor
  serve_all [] s = s
  serve_all (r ∷ rs) s = serve_all rs (serve r s)

  abbrev pub StorableHosts : List Request → Type 0
  StorableHosts = All (λ r. odb.Storable (host_of r))

  module _ (h : Bytes) (now worker p : ℕ) (s s' : Supervisor)
      (e : give_me_port odb h now s ≡ (worker, p, s')) where
    pub add_running :
        worker_is_running s'.running_workers worker ≡ true
        → add_new_client odb h now s ≡ (codes "Frontend already running", s')
    unfolding add_new_client
    add_running t = rw (add_new_client, e, t)

    -- The state after a worker was started.
    abbrev pub after_start : Supervisor
    after_start = record s' {
      running_workers = s'.running_workers ++ worker ∷ [];
      started =
          s'.started ++ (record { name = build_frontend_name h; port = p; hostname = h }) ∷ [];
    }

    pub add_started :
        worker_is_running s'.running_workers worker ≡ false
        → add_new_client odb h now s ≡ (codes "New Frontend started", after_start)
    unfolding add_new_client worker_started
    add_started t = rw (add_new_client, e, t)

  -- What later requests keep of a state.
  abbrev pub Later : ℕ → Supervisor → Supervisor → Type 0
  Later f s s' =
      Sound f s'
      × ((more : List Bytes) × (s'.host_names ≡ s.host_names ++ more))
      × ((ids : List ℕ) × (s'.running_workers ≡ s.running_workers ++ ids))

  pub serve-Later :
      (f : ℕ) (r : Request) (s : Supervisor)
      → Sound f s
      → odb.Storable (host_of r)
      → Later f s (serve r s)
  unfolding serve
  serve-Later f (give_port h now) s sound fits =
      let (worker, p, s', e, sound', found, port, more, same, idle) =
        given odb f h now s sound fits in
      let ids = same ∙ sym (append-nil s.running_workers) in
      subst (λ r. Later f s r.2) (sym e) (sound', more, ([], ids))
  serve-Later f (start_frontend h now) s sound fits =
      let (worker, p, s', e, sound', found, port, more, same, idle) =
        given odb f h now s sound fits in
      elim (Bool-cases (worker_is_running s'.running_workers worker)) [
        | inl t ↦
            let ids = same ∙ sym (append-nil s.running_workers) in
            subst (λ r. Later f s r.1) (sym (add_running h now worker p s s' e t))
              (sound', more, ([], ids))
        | inr n ↦
            subst (λ r. Later f s r.1) (sym (add_started h now worker p s s' e n))
              (sound', more, (worker ∷ [], ap (λ q. q ++ worker ∷ []) same))
      ]

  pub serve_all-Later :
      (f : ℕ) (rs : List Request) (s : Supervisor)
      → Sound f s
      → StorableHosts rs
      → Later f s (serve_all rs s)
  unfolding serve_all
  serve_all-Later f [] s sound fits =
      (sound, ([], sym (append-nil s.host_names)), ([], sym (append-nil s.running_workers)))
  serve_all-Later f (r ∷ rs) s sound (fit, fits) =
      let (sound1, (m1, e1), (i1, r1)) = serve-Later f r s sound fit in
      let (sound2, (m2, e2), (i2, r2)) = serve_all-Later f rs (serve r s) sound1 fits in
      (
        sound2,
        (m1 ++ m2, e2 ∙ ap (λ q. q ++ m2) e1 ∙ append_assoc s.host_names m1 m2),
        (i1 ++ i2, r2 ∙ ap (λ q. q ++ i2) r1 ∙ append_assoc s.running_workers i1 i2),
      )

-- The supervisor with the worker list that the ODB is created with.
abbrev pub fresh : ℕ → Supervisor
fresh f_port = record {
  f_port = f_port;
  host_names = first_host ∷ [];
  dates_added = [];
  ports = [];
  running_workers = [];
  started = [];
}

some_eq_nat : {m n : ℕ} → some m ≡ some n → m ≡ n
some_eq_nat e = cc

worker_port-inj : (f i j : ℕ) → i < 2 ^ 16 → j < 2 ^ 16 → worker_port f i ≡ worker_port f j → i ≡ j
unfolding worker_port
worker_port-inj f i j hi hj e = omega arith

module _ (odb : WorkerList) (f : ℕ) (before between : List Request) (g h : Bytes)
    (now later : ℕ) where
  -- A contact of g after some requests, and one of h after some more.
  abbrev pub first_contact : ℕ × ℕ × Supervisor
  first_contact = give_me_port odb g now (serve_all odb before (fresh f))

  abbrev pub second_contact : ℕ × ℕ × Supervisor
  second_contact = give_me_port odb h later (serve_all odb between first_contact.2)

  -- Whatever requests came before and between, two contacts are given the same port exactly when
  -- they are of the same host, if neither is the name that the ODB is created with, the ODB can
  -- hold all names, and at most 2 ^ 16 hosts are listed.
  pub port_iff_host :
      StorableHosts odb before
      → odb.Storable g
      → StorableHosts odb between
      → odb.Storable h
      → g ≢ first_host
      → h ≢ first_host
      → length second_contact.2.host_names ≤ 2 ^ 16
      → (first_contact.1 ≡ second_contact.1) ↔ (g ≡ h)
  port_iff_host fits1 fit2 fits3 fit4 other1 other2 few =
      let fresh_sound : Sound f (fresh f) =
        (refl, refl, inr (refl, refl), λ i pos b. absurd (omega arith)) in
      let (sound1, m1, i1) = serve_all-Later odb f before (fresh f) fresh_sound fits1 in
      let (n1, p1, s1, e1, sound2, found1, port1, m2, same2, idle2) =
        given odb f g now (serve_all odb before (fresh f)) sound1 fit2 in
      let (sound3, (m3, names3), i3) = serve_all-Later odb f between s1 sound2 fits3 in
      let (n2, p2, s2, e2, sound4, found2, port2, (m4, names4), same4, idle4) =
        given odb f h later (serve_all odb between s1) sound3 fit4 in
      let names : s2.host_names ≡ s1.host_names ++ (m3 ++ m4) =
        names4 ∙ ap (λ q. q ++ m4) names3 ∙ append_assoc s1.host_names m3 m4 in
      let kept : find_host s2.host_names g 0 ≡ some n1 =
        rw names (find_host-append s1.host_names (m3 ++ m4) g 0 n1 found1) in
      let contact2 : second_contact ≡ (n2, p2, s2) =
        ap (λ r. give_me_port odb h later (serve_all odb between r.2)) e1 ∙ e2 in
      let few2 : length s2.host_names ≤ 2 ^ 16 =
        subst (λ r. length r.2.host_names ≤ 2 ^ 16) contact2 few in
      let (lo1, hi1, at1) = find_host_found s2.host_names g 0 n1 kept in
      let (lo2, hi2, at2) = find_host_found s2.host_names h 0 n2 found2 in
      let eq1 : first_contact.1 ≡ worker_port f n1 = ap (λ r. r.1) e1 ∙ port1 other1 in
      let eq2 : second_contact.1 ≡ worker_port f n2 = ap (λ r. r.1) contact2 ∙ port2 other2 in
      (
        (λ same.
            let places : n1 ≡ n2 =
              worker_port-inj f n1 n2 (omega arith) (omega arith) (sym eq1 ∙ same ∙ eq2) in
            some_eq (sym at1 ∙ ap (λ n. get_elem? s2.host_names (n - 0)) places ∙ at2)),
        (λ same.
            let places : n1 ≡ n2 =
              some_eq_nat (sym kept ∙ ap (λ q. find_host s2.host_names q 0) same ∙ found2) in
            eq1 ∙ ap (worker_port f) places ∙ sym eq2),
      )
