-- ===== src/Common/Tables.antt =====
-- Bytes as numbers below 256: a fact about all of them is settled by a run over the whole table.
use Prim.Native.Nat.{ℕ, zero, suc, ◌+◌, ◌<◌}
use mathlib.Core.Path.{◌≡◌, subst, sym}
use mathlib.Core.Logic.{inl, inr}
use mathlib.Core.Bool.{Bool, true}
use native.Mathlib.Omega.{arith}
use fe_gem.Common.Tests.{◌==◌, ==_iff, Bool-cases, if◌then◌else◌}

-- How many of the numbers below a bound fail a test.
unfoldable pub faults : (ℕ → Bool) → ℕ → ℕ
faults test zero = 0
faults test (suc bound) = faults test bound + (if test bound then 0 else 1)

pub faults-none :
    (test : ℕ → Bool) (bound v : ℕ) → faults test bound ≡ 0 → v < bound → test v ≡ true
unfolding faults
faults-none test zero v none_fails below = absurd (omega arith)
faults-none test (suc bound) v none_fails below = elim (Bool-cases (v == bound)) [
  | inl last ↦
      let e : v ≡ bound = (==_iff v bound).0 last in
      let top : test bound ≡ true = ground arith in subst (λ i. test i ≡ true) (sym e) top
  | inr before ↦ faults-none test bound v (ground arith) (ground arith)
]

-- Two functions of a byte that agree on the whole table.
pub same_on_bytes :
    (f g : ℕ → ℕ) (byte : ℕ) → faults (λ i. f i == g i) 256 ≡ 0 → byte < 256 → f byte ≡ g byte
same_on_bytes f g byte agree below =
    (==_iff (f byte) (g byte)).0 (faults-none (λ i. f i == g i) 256 byte agree below)
