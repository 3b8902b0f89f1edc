-- ===== src/Supervisor/Assignment.antt =====
-- One request for a port: what find, assign and both of them come to, and what they preserve.
use mathlib.Core.Path.{ap₂}
use native.Mathlib.Numerals.{unary_clauses}
use fe_gem.Common.{
  ℕ, ◌<◌, ◌≤◌, ◌≡◌, ◌≢◌, inl, inr, refl, sym, ap, subst, ◌∙◌, false, none, some, List, [], ◌∷◌,
  ◌++◌, append-nil, arith, Bytes, ltb, length, get_or, get_elem?, Option-cases, length-append,
  get_elem?-append_left,
}
use fe_gem.Supervisor.Workers.{
  WorkerList, Supervisor, find_host, worker_port, find_host_in_worker_list, assign_port_for_worker,
  give_me_port,
}
use fe_gem.Supervisor.Places.{
  Sound, Values, Values-append, Values-two, find_host-end, find_host_found, first_host, first_other,
  nonempty_of,
}

module _ (odb : WorkerList) where
  pub write_port-one : (p : ℕ) → odb.write_port [] 1 p ≡ 0 ∷ p ∷ []
  write_port-one p = odb.write_port-gap [] 1 p (omega arith) ∙ odb.write_port-end (0 ∷ []) p

  pub find_old :
      (h : Bytes) (now i : ℕ) (s : Supervisor)
      → find_host s.host_names h 0 ≡ some i
      → find_host_in_worker_list odb h now s ≡ (i, s)
  unfolding find_host_in_worker_list
  find_old h now i s e = rw (find_host_in_worker_list, e)

  abbrev pub with_host : Bytes → ℕ → Supervisor → Supervisor
  with_host h now s = record s {
    host_names = s.host_names ++ h ∷ [];
    dates_added = odb.write_date s.dates_added (length s.host_names) now;
  }

  pub find_new :
      (h : Bytes) (now : ℕ) (s : Supervisor)
      → find_host s.host_names h 0 ≡ none
      → odb.Storable h
      → find_host_in_worker_list odb h now s ≡ (length s.host_names, with_host h now s)
  unfolding find_host_in_worker_list
  find_new h now s e fits = rw (find_host_in_worker_list, e, odb.write_name-end s.host_names h fits)

  pub assign_old :
      (i : ℕ) (s : Supervisor)
      → i < length s.ports
      → assign_port_for_worker odb i s ≡ (get_or s.ports i 0, s)
  unfolding assign_port_for_worker
  assign_old i s h = ground arith

  pub assign_new :
      (i : ℕ) (s : Supervisor) (ports : List ℕ)
      → length s.ports ≤ i
      → odb.write_port s.ports i (worker_port s.f_port i) ≡ ports
      → assign_port_for_worker odb i s ≡ (worker_port s.f_port i, record s { ports = ports })
  unfolding assign_port_for_worker
  assign_new i s ports h e =
      let last : ltb i (length s.ports) ≡ false = ground arith in rw (last, e)

  pub give_chain :
      (h : Bytes) (now i p : ℕ) (s s1 s2 : Supervisor)
      → find_host_in_worker_list odb h now s ≡ (i, s1)
      → assign_port_for_worker odb i s1 ≡ (p, s2)
      → give_me_port odb h now s ≡ (i, p, s2)
  unfolding give_me_port
  give_chain h now i p s s1 s2 e1 e2 = rw (e1, e2)

  -- What a request for a port comes to.
  abbrev pub Given : ℕ → Bytes → ℕ → Supervisor → Type 0
  Given f h now s =
      (no : ℕ) × (p : ℕ) × (s' : Supervisor) × (give_me_port odb h now s ≡ (no, p, s'))
      × Sound f s'
      × (find_host s'.host_names h 0 ≡ some no)
      × (h ≢ first_host → p ≡ worker_port f no)
      × ((more : List Bytes) × (s'.host_names ≡ s.host_names ++ more))
      × (s'.running_workers ≡ s.running_workers)
      × (s'.started ≡ s.started)

  Given-old :
      (f : ℕ) (h : Bytes) (now i : ℕ) (s : Supervisor)
      → Sound f s
      → find_host s.host_names h 0 ≡ some i
      → Given f h now s
  Given-old f h now i s (ef, first, sizes, values) e =
      let (lo, hi, at) = find_host_found s.host_names h 0 i e in
      let place : get_elem? s.host_names i ≡ some h = simp unary_clauses at at in
      let positive : h ≢ first_host → 0 < i =
        λ other. first_other s.host_names h i first place other in
      elim sizes [
        | inl full ↦
            let b : i < length s.ports = omega arith in
            (
              i,
              get_or s.ports i 0,
              s,
              give_chain h now i (get_or s.ports i 0) s s s (find_old h now i s e)
                  (assign_old i s b),
              (ef, first, inl full, values),
              e,
              (λ other. values i (positive other) b),
              ([], sym (append-nil s.host_names)),
              refl,
              refl,
            )
        | inr (none_yet, one) ↦
            let zeroth : i ≡ 0 = omega arith in
            let p = worker_port s.f_port i in
            let ports = p ∷ [] in
            let l : length s.ports ≡ 0 = ap length none_yet in
            let write : odb.write_port s.ports i p ≡ ports =
              rw (none_yet, zeroth) (odb.write_port-end [] (worker_port s.f_port 0)) in
            (
              i,
              p,
              record s { ports = ports },
              give_chain h now i p s s (record s { ports = ports }) (find_old h now i s e)
                  (assign_new i s ports (omega arith) write),
              (ef, first, inl (sym one), λ j pos b. absurd (omega arith)),
              e,
              (λ other. ap (λ g. worker_port g i) ef),
              ([], sym (append-nil s.host_names)),
              refl,
              refl,
            )
      ]

  Given-new :
      (f : ℕ) (h : Bytes) (now : ℕ) (s : Supervisor)
      → Sound f s
      → odb.Storable h
      → find_host s.host_names h 0 ≡ none
      → Given f h now s
  Given-new f h now s (ef, first, sizes, values) fits e =
      let names = s.host_names in
      let i = length names in
      let p = worker_port s.f_port i in
      let s1 = with_host h now s in
      let l = length-append names (h ∷ []) in
      let found : find_host (names ++ h ∷ []) h 0 ≡ some i =
        find_host-end names h 0 e ∙ ap some (omega arith) in
      let nonempty : 0 < i = nonempty_of names first in
      let first' : get_elem? (names ++ h ∷ []) 0 ≡ some first_host =
        get_elem?-append_left names (h ∷ []) 0 nonempty ∙ first in
      elim sizes [
        | inl full ↦
            let ports = s.ports ++ p ∷ [] in
            let lp = length-append s.ports (p ∷ []) in
            let write : odb.write_port s.ports i p ≡ ports =
              ap (λ k. odb.write_port s.ports k p) (sym full) ∙ odb.write_port-end s.ports p in
            let value : worker_port f (length s.ports) ≡ p = cc (full, ef) in
            (
              i,
              p,
              record s1 { ports = ports },
              give_chain h now i p s s1 (record s1 { ports = ports }) (find_new h now s e fits)
                  (assign_new i s1 ports (omega arith) write),
              (
                ef,
                first',
                inl (omega (arith, l, lp, full)),
                subst (λ q. Values f (s.ports ++ q ∷ [])) value (Values-append f s.ports values),
              ),
              found,
              (λ other. ap (λ g. worker_port g i) ef),
              (h ∷ [], refl),
              refl,
              refl,
            )
        | inr (none_yet, one) ↦
            let ports = 0 ∷ p ∷ [] in
            let size : length s.ports ≡ 0 = ap length none_yet in
            let write : odb.write_port s.ports i p ≡ ports =
              ap₂ (λ q k. odb.write_port q k p) none_yet one ∙ write_port-one p in
            (
              i,
              p,
              record s1 { ports = ports },
              give_chain h now i p s s1 (record s1 { ports = ports }) (find_new h now s e fits)
                  (assign_new i s1 ports (omega arith) write),
              (
                ef,
                first',
                inl (omega (arith, l, one)),
                Values-two f i p one (ap (λ g. worker_port g i) ef),
              ),
              found,
              (λ other. ap (λ g. worker_port g i) ef),
              (h ∷ [], refl),
              refl,
              refl,
            )
      ]

  pub given :
      (f : ℕ) (h : Bytes) (now : ℕ) (s : Supervisor) → Sound f s → odb.Storable h → Given f h now s
  given f h now s sound fits = elim (Option-cases (find_host s.host_names h 0)) [
    | inl e ↦ Given-new f h now s sound fits e
    | inr (i, e) ↦ Given-old f h now i s sound e
  ]
