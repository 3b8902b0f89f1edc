-- ===== src/History/Throttle.antt =====
-- How often a variable is written to the history.
use fe_gem.Common.{
  ◌&&◌, ◌⊎◌, Option, some, none, subst, sym, ℕ, ◌+◌, ◌*◌, ◌^◌, ◌≤◌, ◌<◌, ◌≡◌, ◌≢◌, refl, ◌∙◌, true,
  false, List, [], ◌∷◌, Bytes, arith, ltb, ◌==◌, All, Bool-cases, inl, inr, ne→==,
}
use fe_gem.Bank.Layout.{gem_bank_at, get_entries, get_last_data_entry}
use fe_gem.History.Variable.{
  has_time, has_values, HistoryVariable, LogCall, is_too_early, described, last_time,
  update_variable,
}

-- Before 2038, the test is the comparison that it is meant to be.
pub is_too_early_iff :
    (stamp last frequency : ℕ)
    → stamp < 2 ^ 31
    → last < 2 ^ 31
    → is_too_early stamp last frequency ≡ ltb stamp (last + frequency)
unfolding is_too_early
is_too_early_iff stamp last frequency hs hl = ground arith

far_early :
    (stamp last frequency : ℕ)
    → last ≡ 0
    → 2 ^ 31 ≤ stamp
    → stamp < 2 ^ 32
    → is_too_early stamp last frequency ≡ true
unfolding is_too_early
far_early stamp last frequency z lo hi = ground arith

same_times :
    (v : HistoryVariable) (stamp : ℕ) (ps : List Bytes)
    → All (λ p. last_time (described v p) < 2 ^ 31) ps
    → All (λ p. last_time (described (record v { last_update = stamp }) p) < 2 ^ 31) ps
unfolding described
same_times v stamp [] a = tt
same_times v stamp (p ∷ ps) (a, rest) = (a, same_times v stamp ps rest)

module _ (element_size : ℕ) where
  -- The times of the banks that are written, of those that one variable is updated with, up to the
  -- first that is undefined.
  abbrev pub next_times :
      (HistoryVariable → List ℕ) → Option (Bytes × HistoryVariable × List LogCall) → List ℕ
  next_times rest none = []
  next_times rest (some (p, v, [])) = rest v
  next_times rest (some (p, v, call ∷ calls)) = v.last_update ∷ rest v

  unfoldable pub written_times : HistoryVariable → List Bytes → List ℕ
  written_times v [] = []
  written_times v (p ∷ ps) = next_times (λ w. written_times w ps) (update_variable element_size v p)

  -- Each time is at least `frequency` behind the one before it.
  abbrev pub Spaced : ℕ → ℕ → List ℕ → Type 0
  Spaced frequency last [] = Unit
  Spaced frequency last (t ∷ ts) = (last + frequency ≤ t) × Spaced frequency t ts

  -- A bank that is early, or that is not in memory, is not written.
  early :
      (v : HistoryVariable) (p : Bytes) (ps : List Bytes)
      → is_too_early (last_time (described v p)) v.last_update v.update_frequency ≡ true
      → (written_times v (p ∷ ps) ≡ written_times v ps) ⊎ (written_times v (p ∷ ps) ≡ [])
  unfolding written_times update_variable
  early v p ps e = elim (Bool-cases (v.update_frequency == 0)) [
    | inl t ↦ inl (rw (update_variable, t) refl)
    | inr n ↦ elim (Bool-cases (has_time (get_last_data_entry (described v p)))) [
      | inl t ↦ inl (rw (update_variable, n, t, e) refl)
      | inr f ↦ inr (rw (update_variable, n, f) refl)
    ]
  ]

  late :
      (v : HistoryVariable) (p : Bytes) (ps : List Bytes)
      → v.update_frequency ≢ 0
      → is_too_early (last_time (described v p)) v.last_update v.update_frequency ≡ false
      → (written_times v (p ∷ ps)
          ≡ last_time (described v p)
            ∷ written_times (record v { last_update = last_time (described v p) }) ps)
        ⊎ (written_times v (p ∷ ps) ≡ [])
  unfolding written_times update_variable
  late v p ps h e =
      let q = described v p in
      let entries = get_entries element_size (gem_bank_at q).block_size in
      let n = ne→== v.update_frequency 0 h in
      elim (Bool-cases (has_time (get_last_data_entry q))) [
        | inr f ↦ inr (rw (update_variable, n, f) refl)
        | inl t ↦
            elim (Bool-cases (
              has_values (entries * element_size) (get_last_data_entry q)
              && ltb entries (2 ^ 31))) [
                | inl u ↦ inl (rw (update_variable, n, t, e, u) refl)
                | inr f ↦ inr (rw (update_variable, n, t, e, f) refl)
              ]
      ]

  -- However the banks of a variable come in, before 2038 two of them that are written are at least
  -- the period of the variable apart.
  pub written_times-Spaced :
      (v : HistoryVariable) (ps : List Bytes)
      → v.update_frequency ≢ 0
      → v.last_update < 2 ^ 31
      → All (λ p. last_time (described v p) < 2 ^ 31) ps
      → Spaced v.update_frequency v.last_update (written_times v ps)
  unfolding written_times
  written_times-Spaced v [] h l a = tt
  written_times-Spaced v (p ∷ ps) h l (a, rest) =
      let stamp = last_time (described v p) in
      let exact = is_too_early_iff stamp v.last_update v.update_frequency a l in
      elim (Bool-cases (is_too_early stamp v.last_update v.update_frequency)) [
        | inl t ↦ elim (early v p ps t) [
          | inl e ↦
              subst (Spaced v.update_frequency v.last_update) (sym e)
                (written_times-Spaced v ps h l rest)
          | inr e ↦ subst (Spaced v.update_frequency v.last_update) (sym e) tt
        ]
        | inr f ↦
            let v' : HistoryVariable = record v { last_update = stamp } in
            elim (late v p ps h f) [
              | inl e ↦ subst (Spaced v.update_frequency v.last_update) (sym e) (
                ground (arith, exact, f),
                written_times-Spaced v' ps h a (same_times v stamp ps rest),
              )
              | inr e ↦ subst (Spaced v.update_frequency v.last_update) (sym e) tt
            ]
      ]

  -- A variable that was never updated is not written by any bank whose time does not fit an int,
  -- which is every bank from 2038 to 2106: from then on no new variable gets into the history.
  pub written_times_after_2038 :
      (v : HistoryVariable) (ps : List Bytes)
      → v.last_update ≡ 0
      → All (λ p. (2 ^ 31 ≤ last_time (described v p)) × (last_time (described v p) < 2 ^ 32)) ps
      → written_times v ps ≡ []
  unfolding written_times
  written_times_after_2038 v [] z a = refl
  written_times_after_2038 v (p ∷ ps) z ((lo, hi), rest) =
      elim (early v p ps
        (far_early (last_time (described v p)) v.last_update v.update_frequency z lo hi)) [
          | inl e ↦ e ∙ written_times_after_2038 v ps z rest
          | inr e ↦ e
        ]
