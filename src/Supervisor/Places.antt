-- ===== src/Supervisor/Places.antt =====
-- Places in the worker list of src/feGEMSupervisor.cxx, and the ports that belong to them.
use mathlib.Core.Path.{}
use native.Mathlib.Numerals.{}
use fe_gem.Common.{
  ℕ, zero, suc, ◌+◌, ◌-◌, ◌<◌, ◌≤◌, ◌≡◌, ◌≢◌, ◌⊎◌, inl, inr, refl, sym, ap, ◌∙◌, none, some, List,
  [], ◌∷◌, ◌++◌, arith, Bytes, codes, ◌==◌, if◌then◌else◌, length, get_or, get_elem?, bytes_eq,
  bytes_eq_self, bytes_eq→eq, Bool-cases, length-append,
}
use fe_gem.Supervisor.Workers.{Supervisor, find_host, worker_port}

pub find_host_found :
    (names : List Bytes) (h : Bytes) (k i : ℕ)
    → find_host names h k ≡ some i
    → (k ≤ i) × (i < k + length names) × (get_elem? names (i - k) ≡ some h)
unfolding find_host
find_host_found [] h k i e = cc
find_host_found (x ∷ names) h k i e = elim (Bool-cases (bytes_eq x h)) [
  | inl t ↦
      let at : k ≡ i = ground arith in
      let here : i - k ≡ 0 = omega arith in (omega arith, omega arith, rw (here, bytes_eq→eq x h t))
  | inr f ↦
      let (lo, hi, at) = find_host_found names h (k + 1) i (rw f at e) in
      let there : i - k ≡ suc (i - (k + 1)) = omega arith in (omega arith, omega arith, rw there at)
]

pub find_host-append :
    (names more : List Bytes) (h : Bytes) (k i : ℕ)
    → find_host names h k ≡ some i
    → find_host (names ++ more) h k ≡ some i
unfolding find_host
find_host-append [] more h k i e = cc
find_host-append (x ∷ names) more h k i e = elim (Bool-cases (bytes_eq x h)) [
  | inl t ↦ rw t (rw t at e)
  | inr f ↦ rw f (find_host-append names more h (k + 1) i (rw f at e))
]

pub find_host-end :
    (names : List Bytes) (h : Bytes) (k : ℕ)
    → find_host names h k ≡ none
    → find_host (names ++ h ∷ []) h k ≡ some (k + length names)
unfolding find_host
find_host-end [] h k e = rw (bytes_eq_self h) (ap some (omega arith))
find_host-end (x ∷ names) h k e = elim (Bool-cases (bytes_eq x h)) [
  | inl t ↦ absurd (ground arith)
  | inr f ↦ rw f (find_host-end names h (k + 1) (rw f at e) ∙ ap some (omega arith))
]

-- Every port but the first is the one of its place.
abbrev pub Values : ℕ → List ℕ → Type 0
Values f ports = (i : ℕ) → 0 < i → i < length ports → get_or ports i 0 ≡ worker_port f i

get_or-append_end :
    (ports : List ℕ) (p i : ℕ)
    → i < length (ports ++ p ∷ [])
    → get_or (ports ++ p ∷ []) i 0 ≡ (if i == length ports then p else get_or ports i 0)
get_or-append_end [] p zero h = refl
get_or-append_end [] p (suc i) h = absurd (omega arith)
get_or-append_end (x ∷ ports) p zero h = ground arith
get_or-append_end (x ∷ ports) p (suc i) h = ground (arith, get_or-append_end ports p i)

pub Values-append :
    (f : ℕ) (ports : List ℕ)
    → Values f ports
    → Values f (ports ++ worker_port f (length ports) ∷ [])
Values-append f ports v i lo hi =
    let at = get_or-append_end ports (worker_port f (length ports)) i hi in
    elim (Bool-cases (i == length ports)) [
      | inl t ↦ let e : length ports ≡ i = ground arith in at ∙ rw t (ap (worker_port f) e)
      | inr n ↦
          let l = length-append ports (worker_port f (length ports) ∷ []) in
          at ∙ rw n (v i lo (ground (arith, l)))
    ]

-- Either each host has a port, or only the entry that the ODB is created with has none.
abbrev pub Sizes : Supervisor → Type 0
Sizes s = (length s.ports ≡ length s.host_names) ⊎ ((s.ports ≡ []) × (length s.host_names ≡ 1))

abbrev pub first_host : Bytes
first_host = codes "local_host"

abbrev pub Sound : ℕ → Supervisor → Type 0
Sound f s =
    (s.f_port ≡ f) × (get_elem? s.host_names 0 ≡ some first_host) × Sizes s × Values f s.ports

pub some_eq : {x y : Bytes} → some x ≡ some y → x ≡ y
some_eq e = cc

pub first_other :
    (names : List Bytes) (h : Bytes) (i : ℕ)
    → get_elem? names 0 ≡ some first_host
    → get_elem? names i ≡ some h
    → h ≢ first_host
    → 0 < i
first_other names h zero first at other = absurd (other (some_eq (sym at ∙ first)))
first_other names h (suc i) first at other = omega arith

pub nonempty_of : (names : List Bytes) → get_elem? names 0 ≡ some first_host → 0 < length names
nonempty_of [] e = cc
nonempty_of (x ∷ names) e = omega arith

pub Values-two : (f n p : ℕ) → n ≡ 1 → p ≡ worker_port f n → Values f (0 ∷ p ∷ [])
Values-two f n p one e zero pos b = absurd (omega arith)
Values-two f n p one e (suc zero) pos b = e ∙ ap (worker_port f) one
Values-two f n p one e (suc (suc i)) pos b = absurd (omega arith)
