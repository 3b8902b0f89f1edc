-- ===== src/Common/Items.antt =====
-- Texts that stand one behind the other in memory, each with its NUL.
use Prim.Native.Nat.{}
use mathlib.Core.Path.{◌≡◌, refl}
use mathlib.Core.Logic.{}
use mathlib.Core.Bool.{false}
use mathlib.Core.List.{[], ◌∷◌, ◌++◌}
use mathlib.Core.Option.{Option, none, some}
use native.Mathlib.Omega.{arith}
use fe_gem.Common.Tests.{◌==◌, if◌then◌else◌}
use fe_gem.Common.Lists.{All}
use fe_gem.Common.Text.{Bytes, c_str}

-- The memory behind the next NUL; `none` if there is none.
unfoldable pub next_item : Bytes → Option Bytes
next_item [] = none
next_item (c ∷ cs) = let rest = next_item cs in if c == 0 then some cs else rest

abbrev pub NonNul : Bytes → Type 0
NonNul = All (λ c. (c == 0) ≡ false)

pub c_str_text : (text rest : Bytes) → NonNul text → c_str (text ++ 0 ∷ rest) ≡ text
c_str_text [] rest n = refl
c_str_text (c ∷ cs) rest (n, ns) = ground (arith, c_str_text cs rest ns)

pub next_item_text : (text rest : Bytes) → NonNul text → next_item (text ++ 0 ∷ rest) ≡ some rest
unfolding next_item
next_item_text [] rest n = refl
next_item_text (c ∷ cs) rest (n, ns) = ground (arith, next_item_text cs rest ns)
