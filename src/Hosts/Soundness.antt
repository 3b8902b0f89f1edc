-- ===== src/Hosts/Soundness.antt =====
-- What `Host::operator==` accepts, and what it wrongly refuses.
use fe_gem.Common.{
  ℕ, ◌≡◌, refl, ◌∙◌, ◌≢◌, ◌↔◌, ◌⊎◌, inl, inr, true, false, [], ◌∷◌, ◌++◌, arith, Bytes, ◌==◌,
  if◌then◌else◌, All, Bool-cases, ==_iff,
}
use fe_gem.Hosts.Pattern.{scan_to, matches}
use fe_gem.Hosts.Glob.{Glob, end, same, any_one, skip, more, Glob-self, Glob-trailing}

-- Where the scan stops at a byte, that byte is the one looked for, and a `*` covers what was
-- passed over.
scan_to-Glob :
    (p c x : ℕ) (ps rest hs t : Bytes)
    → p ≡ b'*'
    → scan_to c hs ≡ x ∷ rest
    → Glob ps (rest ++ t)
    → Glob (p ∷ c ∷ ps) (hs ++ t)
unfolding scan_to
scan_to-Glob p c x ps rest [] t e s g = cc
scan_to-Glob p c x ps rest (h ∷ hs) t e s g = elim (Bool-cases (c == h)) [
  | inl hit ↦
      let ch : c ≡ h = (==_iff c h).0 hit in
      let r : hs ≡ rest = ground arith in skip e (rw (ch, r) (same g))
  | inr miss ↦ more e (scan_to-Glob p c x ps rest hs t e (ground arith) g)
]

List-cases : (xs : Bytes) → (xs ≡ []) ⊎ ((x : ℕ) × (r : Bytes) × (xs ≡ x ∷ r))
List-cases [] = inl refl
List-cases (x ∷ r) = inr (x, r, refl)

matches-nil : (hs : Bytes) → matches [] hs ≡ true → hs ≡ []
unfolding matches
matches-nil [] e = refl
matches-nil (h ∷ hs) e = cc

-- Whatever host name is accepted can be continued to a text that the pattern stands for.
pub matches-Glob : (p h : Bytes) → matches p h ≡ true → (t : Bytes) × Glob p (h ++ t)
unfolding matches
matches-Glob [] [] e = ([], end)
matches-Glob [] (h ∷ hs) e = cc
matches-Glob (p ∷ ps) [] e = (p ∷ ps, Glob-self (p ∷ ps))
matches-Glob (p ∷ []) (h ∷ hs) e = elim (Bool-cases (p == b'?')) [
  | inl q ↦ ([], rw (matches-nil hs (ground arith)) (any_one ((==_iff p b'?').0 q) end))
  | inr nq ↦ elim (Bool-cases (p == b'*')) [
    | inl s ↦ ([], Glob-trailing p _ ((==_iff p b'*').0 s))
    | inr ns ↦ elim (Bool-cases (p == h)) [
      | inl l ↦ ([], rw (matches-nil hs (ground arith), ← (==_iff p h).0 l) (same end))
      | inr nl ↦ ground arith
    ]
  ]
]
matches-Glob (p ∷ c ∷ ps) (h ∷ hs) e = elim (Bool-cases (p == b'?')) [
  | inl q ↦
      let (t, g) = matches-Glob (c ∷ ps) hs (ground arith) in (t, any_one ((==_iff p b'?').0 q) g)
  | inr nq ↦ elim (Bool-cases (p == b'*')) [
    | inl s ↦ elim (List-cases (scan_to c (h ∷ hs))) [
      | inl stuck ↦ ground arith
      | inr (x, rest, found) ↦
          let (t, g) = matches-Glob ps rest (ground arith) in
          (t, scan_to-Glob p c x ps rest (h ∷ hs) t ((==_iff p b'*').0 s) found g)
    ]
    | inr ns ↦ elim (Bool-cases (p == h)) [
      | inl l ↦
          let (t, g) = matches-Glob (c ∷ ps) hs (ground arith) in
          (t, rw (← (==_iff p h).0 l) (same g))
      | inr nl ↦ ground arith
    ]
  ]
]

abbrev pub IsLiteral : ℕ → Type 0
IsLiteral c = (c ≢ b'?') × (c ≢ b'*')

matches-literal :
    (p h : ℕ) (ps hs : Bytes)
    → IsLiteral p
    → matches (p ∷ ps) (h ∷ hs) ≡ (if p == h then matches ps hs else false)
unfolding matches
matches-literal p h [] hs l = ground arith
matches-literal p h (c ∷ ps) hs l = ground arith

-- A pattern with no wild card accepts exactly the texts that it begins with.
pub matches_literal_iff :
    (p h : Bytes) → All IsLiteral p → (matches p h ≡ true) ↔ ((t : Bytes) × (p ≡ h ++ t))
matches_literal_iff [] [] l = (λ e. ([], refl), λ e. unfold matches in refl)
matches_literal_iff [] (h ∷ hs) l = (λ e. unfold matches in cc, λ e. cc (e.1))
matches_literal_iff (p ∷ ps) [] l = (λ e. (p ∷ ps, refl), λ e. unfold matches in refl)
matches_literal_iff (p ∷ ps) (h ∷ hs) l =
    let step = matches-literal p h ps hs l.0 in
    let (there, back) = matches_literal_iff ps hs l.1 in
    elim (Bool-cases (p == h)) [
      | inl hit ↦ (
        λ e. let (t, g) = there (ground arith) in (t, ground arith),
        λ e. step ∙ rw hit (back (e.0, ground (arith, e.1))),
      )
      | inr miss ↦ (λ e. ground arith, λ e. ground (arith, e.1))
    ]

-- `*` commits to the first byte that fits: behind `*cd` a name that repeats `c` is refused, though
-- the pattern stands for it.
pub matches_greedy :
    (c d : ℕ) (ps hs : Bytes)
    → c ≢ d
    → IsLiteral d
    → Glob ps hs
    → Glob (b'*' ∷ c ∷ d ∷ ps) (c ∷ c ∷ d ∷ hs)
      × (matches (b'*' ∷ c ∷ d ∷ ps) (c ∷ c ∷ d ∷ hs) ≡ false)
unfolding matches scan_to
matches_greedy c d ps hs n l g =
    (more refl (skip refl (same (same g))), ground (arith, matches-literal d c ps (d ∷ hs) l))
