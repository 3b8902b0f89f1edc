-- ===== src/Hosts/Odb.antt =====
-- The host arrays in the ODB against the lists in memory. The ODB itself is not part of the
-- repository: it is a record of its operations with the law that a read gives what was written.
use fe_gem.Common.{
  ℕ, zero, suc, ◌+◌, ◌≡◌, refl, inl, inr, Bool, false, List, [], ◌∷◌, ◌++◌, some, arith, Bytes, ltb,
  All, length, ◌<◌, get_elem?, Bool-cases,
}
use fe_gem.Hosts.Registry.{
  Host, AllowedHosts, ListKey, allowed_key, banned_key, OdbCall, ok, hosts_of, grow, init,
  is_listed, add_host, ban_host, is_allowed,
}
use fe_gem.Hosts.Mirror.{
  Holds, Mirrors, StringArrays, add_host-Mirrors, ban_host-Mirrors, get_elem?-bound,
  is_allowed_keeps, replay, same_key, Holds-write_other,
}

-- A call that comes back: AddHost and BanHost with a name that a place of the ODB takes, and IsAllowed.
pub data Step : AllowedHosts → AllowedHosts → Type 0 where
  adds :
      (s : AllowedHosts) (hostname : Bytes) (now : ℕ)
      → length hostname < 64
      → Step s (add_host s hostname now).0
  bans :
      (s : AllowedHosts) (hostname : Bytes) (now : ℕ)
      → length hostname < 64
      → Step s (ban_host s hostname now).0
  asks :
      (s s' : AllowedHosts) (hostname : Bytes) (now : ℕ) (answer : Bool)
      → is_allowed s hostname now ≡ ok (answer, s')
      → Step s s'

pub data Reach (s : AllowedHosts) : AllowedHosts → Type 0 where
  here : Reach s s
  next : {t u : AllowedHosts} → Reach s t → Step t u → Reach s u

abbrev pub IsNonempty : Bytes → Type 0
IsNonempty [] = ⊥
IsNonempty (c ∷ cs) = Unit {0}

-- The names stand before the blank places.
abbrev pub Packed : List Bytes → Type 0
Packed [] = Unit {0}
Packed ([] ∷ names) = All (λ n. n ≡ []) names
Packed ((c ∷ cs) ∷ names) = Packed names

hosts_of_blank : (now : ℕ) (names : List Bytes) → All (λ n. n ≡ []) names → hosts_of now names ≡ []
unfolding hosts_of
hosts_of_blank now [] b = refl
hosts_of_blank now ([] ∷ names) b = hosts_of_blank now names b.1
hosts_of_blank now ((c ∷ cs) ∷ names) b = cc (b.0)

hosts_of-get_elem? :
    (now : ℕ) (names : List Bytes) (i : ℕ) (h : Host)
    → Packed names
    → get_elem? (hosts_of now names) i ≡ some h
    → get_elem? names i ≡ some h.host_name
unfolding hosts_of
hosts_of-get_elem? now [] i h p e = cc
hosts_of-get_elem? now ([] ∷ names) i h p e = ground (arith, hosts_of_blank now names p)
hosts_of-get_elem? now ((c ∷ cs) ∷ names) zero h p e = ground arith
hosts_of-get_elem? now ((c ∷ cs) ∷ names) (suc i) h p e = hosts_of-get_elem? now names i h p e

module _ (odb : StringArrays) where
  open odb use {State, write, read, read-write}

  Step-Mirrors : (o : State) {s t : AllowedHosts} → Step s t → Mirrors odb o s → Mirrors odb o t
  Step-Mirrors o (adds s hostname now small) m = add_host-Mirrors odb o s hostname now small m
  Step-Mirrors o (bans s hostname now small) m = ban_host-Mirrors odb o s hostname now small m
  Step-Mirrors o (asks s s' hostname now answer e) m =
      let (a, b, c) = is_allowed_keeps s s' hostname now e in
      record { allowed = rw (a, c) m.allowed; banned = rw (b, c) m.banned }

  -- The blank place that the constructor writes is behind the last host.
  grow-Holds_other :
      (o : State) (k k' : ListKey) (names : List Bytes) (hs hs' : List Host) (calls : List OdbCall)
      → same_key k k' ≡ false
      → Holds odb (replay odb o calls) k' hs'
      → Holds odb (replay odb o (grow k names hs calls)) k' hs'
  unfolding grow
  grow-Holds_other o k k' names hs hs' calls d holds =
      elim (Bool-cases (ltb (length names) (length hs + 10))) [
        | inl t ↦ rw (t, grow) (Holds-write_other odb _ k k' _ _ hs' (omega arith) d holds)
        | inr f ↦ rw (f, grow) holds
      ]

  grow-Holds :
      (o : State) (k : ListKey) (names : List Bytes) (hs : List Host) (calls : List OdbCall)
      → Holds odb (replay odb o calls) k hs
      → Holds odb (replay odb o (grow k names hs calls)) k hs
  unfolding grow
  grow-Holds o k names hs calls holds = elim (Bool-cases (ltb (length names) (length hs + 10))) [
    | inl t ↦
        rw (t, grow)
          (λ i h e.
            let b = get_elem?-bound hs i h e in
            ground (
              arith,
              read-write (replay odb o calls) k k (length hs + 10) i [] (omega arith),
              holds i h e,
            ))
    | inr f ↦ rw (f, grow) holds
  ]

  -- What RSA read is what the array holds.
  abbrev pub Reads : State → ListKey → List Bytes → Type 0
  Reads o k names = (i : ℕ) (n : Bytes) → get_elem? names i ≡ some n → read o k i ≡ n

  hosts_of-Holds :
      (o : State) (k : ListKey) (names : List Bytes) (now : ℕ)
      → Packed names
      → Reads o k names
      → Holds odb o k (hosts_of now names)
  hosts_of-Holds o k names now p r i h e = r i h.host_name (hosts_of-get_elem? now names i h p e)

  init-Mirrors :
      (o : State) (self_registration : Bool) (allowed banned : List Bytes) (now : ℕ)
      → Packed allowed
      → Packed banned
      → Reads o allowed_key allowed
      → Reads o banned_key banned
      → Mirrors odb o (init self_registration allowed banned now)
  unfolding init
  init-Mirrors o self_registration allowed banned now pa pb ra rb = record {
    allowed =
        grow-Holds_other o banned_key allowed_key banned (hosts_of now banned)
          (hosts_of now allowed) (grow allowed_key allowed (hosts_of now allowed) []) refl
          (grow-Holds o allowed_key allowed (hosts_of now allowed) []
            (hosts_of-Holds o allowed_key allowed now pa ra));
    banned = grow-Holds o banned_key banned (hosts_of now banned) _ (
        grow-Holds_other o allowed_key banned_key allowed (hosts_of now allowed)
          (hosts_of now banned) [] refl (hosts_of-Holds o banned_key banned now pb rb));
  }

  -- If the arrays that the constructor read have their blank places behind the names, then after any
  -- sequence of AddHost and BanHost calls with names below 64 bytes and of IsAllowed calls that do not
  -- reach the use of an erased host, place i of each array in the ODB is the name of host i of the list
  -- in memory.
  pub Reach-Mirrors :
      (o : State) (self_registration : Bool) (allowed banned : List Bytes) (now : ℕ)
      → Packed allowed
      → Packed banned
      → Reads o allowed_key allowed
      → Reads o banned_key banned
      → (s : AllowedHosts) → Reach (init self_registration allowed banned now) s
      → Mirrors odb o s
  Reach-Mirrors o sr allowed banned now pa pb ra rb _ here =
      init-Mirrors o sr allowed banned now pa pb ra rb
  Reach-Mirrors o sr allowed banned now pa pb ra rb _ (next {t} r st) =
      Step-Mirrors o st (Reach-Mirrors o sr allowed banned now pa pb ra rb t r)

get_elem?-append_at :
    (pre rest : List Bytes) → get_elem? (pre ++ [] ∷ rest) (length pre + 1) ≡ get_elem? rest 0
get_elem?-append_at [] rest = refl
get_elem?-append_at (x ∷ pre) rest = ground (arith, get_elem?-append_at pre rest)

length-hosts_of :
    (now : ℕ) (pre names : List Bytes)
    → All IsNonempty pre
    → length (hosts_of now (pre ++ names)) ≡ length pre + length (hosts_of now names)
unfolding hosts_of
length-hosts_of now [] names ne = omega arith
length-hosts_of now ([] ∷ pre) names ne = absurd ne.0
length-hosts_of now ((c ∷ cs) ∷ pre) names ne = omega (arith, length-hosts_of now pre names ne.1)

module _ (odb : StringArrays) where
  open odb use {State, read, read-write}

  add_host-read :
      (o : State) (s : AllowedHosts) (hostname : Bytes) (now : ℕ)
      → length hostname < 64
      → is_listed s.allowed_hosts hostname ≡ false
      → read
          (replay odb o (add_host s hostname now).0.odb_calls)
          allowed_key
          (length s.allowed_hosts)
        ≡ hostname
  unfolding add_host
  add_host-read o s hostname now small fresh =
      let n = length s.allowed_hosts in
      rw (fresh, add_host)
        (ground
          (arith, read-write (replay odb o s.odb_calls) allowed_key allowed_key n n hostname small))

  -- With one blank place before the last name in the allowed array, the next host that is added is
  -- written over that name.
  pub add_host_overwrites :
      (o : State) (self_registration : Bool) (pre banned : List Bytes) (last hostname : Bytes)
      (now later : ℕ)
      → All IsNonempty pre
      → IsNonempty last
      → length hostname < 64
      → is_listed (hosts_of now (pre ++ [] ∷ last ∷ [])) hostname ≡ false
      → (get_elem? (pre ++ [] ∷ last ∷ []) (length pre + 1) ≡ some last)
        × (let s = init self_registration (pre ++ [] ∷ last ∷ []) banned now in
            let t = (add_host s hostname later).0 in
            read (replay odb o t.odb_calls) allowed_key (length pre + 1) ≡ hostname)
  unfolding init hosts_of
  add_host_overwrites o sr pre banned [] hostname now later ne nl small fresh = absurd nl
  add_host_overwrites o sr pre banned (c ∷ cs) hostname now later ne nl small fresh = (
    get_elem?-append_at pre ((c ∷ cs) ∷ []),
    rw (← length-hosts_of now pre ([] ∷ (c ∷ cs) ∷ []) ne) (
        add_host-read o (init sr (pre ++ [] ∷ (c ∷ cs) ∷ []) banned now) hostname later small
          fresh),
  )
