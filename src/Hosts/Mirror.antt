-- ===== src/Hosts/Mirror.antt =====
-- The arrays of host names in the ODB as src/AllowedHosts.cxx writes them, beside its lists in memory.
use fe_gem.Common.{
  ℕ, zero, suc, ◌≡◌, refl, ◌⊎◌, inl, inr, Bool, true, false, ◌&&◌, List, [], ◌∷◌, ◌++◌, some, arith,
  Bytes, ◌==◌, if◌then◌else◌, length, get_elem?, Bool-cases, ◌<◌,
}
use fe_gem.Hosts.Registry.{
  Host, AllowedHosts, ListKey, allowed_key, banned_key, OdbCall, wsai, ok, new_host, is_listed,
  add_host, ban_host, is_allowed,
}

abbrev pub same_key : ListKey → ListKey → Bool
same_key allowed_key allowed_key = true
same_key banned_key banned_key = true
same_key _ _ = false

-- String arrays of the ODB by key and index. The constructor makes them with places of 64 bytes, for
-- names of up to 63 bytes and their NUL.
pub record StringArrays : Type 1 where
  pub State : Type 0
  pub write : State → ListKey → ℕ → Bytes → State
  pub read : State → ListKey → ℕ → Bytes
  pub read-write :
      (s : State) (k k' : ListKey) (i j : ℕ) (v : Bytes)
      → length v < 64
      → read (write s k i v) k' j ≡ (if same_key k k' && i == j then v else read s k' j)

module _ (odb : StringArrays) where
  open odb use {State, write, read, read-write}

  -- The recorded calls, the newest of which comes first.
  abbrev pub replay : State → List OdbCall → State
  replay o [] = o
  replay o (wsai k i v ∷ calls) = write (replay o calls) k i v

  -- Place i of the array is the name of host i.
  abbrev pub Holds : State → ListKey → List Host → Type 0
  Holds o k hs = (i : ℕ) (h : Host) → get_elem? hs i ≡ some h → read o k i ≡ h.host_name

  pub record Mirrors (o : State) (s : AllowedHosts) : Type 0 where
    pub allowed : Holds (replay o s.odb_calls) allowed_key s.allowed_hosts
    pub banned : Holds (replay o s.odb_calls) banned_key s.banned_hosts

  pub Holds-write_other :
      (o : State) (k k' : ListKey) (i : ℕ) (v : Bytes) (hs : List Host)
      → length v < 64
      → same_key k k' ≡ false
      → Holds o k' hs
      → Holds (write o k i v) k' hs
  Holds-write_other o k k' i v hs small e holds j h g =
      ground (arith, read-write o k k' i j v small, holds j h g)

pub get_elem?-bound : (hs : List Host) (i : ℕ) (h : Host) → get_elem? hs i ≡ some h → i < length hs
get_elem?-bound [] i h e = cc
get_elem?-bound (x ∷ hs) zero h e = omega arith
get_elem?-bound (x ∷ hs) (suc i) h e = omega (arith, get_elem?-bound hs i h e)

get_elem?-snoc :
    (hs : List Host) (x : Host) (i : ℕ) (h : Host)
    → get_elem? (hs ++ x ∷ []) i ≡ some h
    → (get_elem? hs i ≡ some h) ⊎ ((i ≡ length hs) × (h ≡ x))
get_elem?-snoc [] x zero h e = inr (refl, cc)
get_elem?-snoc [] x (suc i) h e = cc
get_elem?-snoc (y ∷ hs) x zero h e = inl e
get_elem?-snoc (y ∷ hs) x (suc i) h e = ground (arith, get_elem?-snoc hs x i h e)

module _ (odb : StringArrays) where
  open odb use {State, write, read, read-write}

  -- A write behind the last host loses none, and adds the host that is pushed with it.
  Holds-push :
      (o : State) (k : ListKey) (hs : List Host) (name : Bytes) (now : ℕ)
      → length name < 64
      → Holds odb o k hs
      → Holds odb (write o k (length hs) name) k (hs ++ new_host name now ∷ [])
  Holds-push o k hs name now small holds i h e =
      elim (get_elem?-snoc hs (new_host name now) i h e) [
        | inl old ↦
            let b = get_elem?-bound hs i h old in
            ground (arith, read-write o k k (length hs) i name small, holds i h old)
        | inr (at, is) ↦ ground (arith, read-write o k k (length hs) i name small)
      ]

  pub add_host-Mirrors :
      (o : State) (s : AllowedHosts) (hostname : Bytes) (now : ℕ)
      → length hostname < 64
      → Mirrors odb o s
      → Mirrors odb o (add_host s hostname now).0
  unfolding add_host
  add_host-Mirrors o s hostname now small m =
      elim (Bool-cases (is_listed s.allowed_hosts hostname)) [
        | inl e ↦ rw (e, add_host) m
        | inr e ↦
            rw (e, add_host)
              (record {
                allowed = Holds-push _ allowed_key s.allowed_hosts hostname now small m.allowed;
                banned =
                    Holds-write_other odb _ allowed_key banned_key _ _ s.banned_hosts small refl
                      m.banned;
              })
      ]

  pub ban_host-Mirrors :
      (o : State) (s : AllowedHosts) (hostname : Bytes) (now : ℕ)
      → length hostname < 64
      → Mirrors odb o s
      → Mirrors odb o (ban_host s hostname now).0
  unfolding ban_host
  ban_host-Mirrors o s hostname now small m =
      elim (Bool-cases (is_listed s.banned_hosts hostname)) [
        | inl e ↦ rw (e, ban_host) m
        | inr e ↦
            rw (e, ban_host)
              (record {
                allowed =
                    Holds-write_other odb _ banned_key allowed_key _ _ s.allowed_hosts small refl
                      m.allowed;
                banned = Holds-push _ banned_key s.banned_hosts hostname now small m.banned;
              })
      ]

-- IsAllowed moves no host between the two lists and writes nothing.
pub is_allowed_keeps :
    (s s' : AllowedHosts) (hostname : Bytes) (now : ℕ) {answer : Bool}
    → is_allowed s hostname now ≡ ok (answer, s')
    → (s'.allowed_hosts ≡ s.allowed_hosts)
      × (s'.banned_hosts ≡ s.banned_hosts)
      × (s'.odb_calls ≡ s.odb_calls)
unfolding is_allowed
is_allowed_keeps s s' hostname now e = ground arith
