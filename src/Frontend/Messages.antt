-- ===== src/Frontend/Messages.antt =====
-- The texts that src/feGEMClass.cxx puts into messages and errors.
use fe_gem.Common.{ℕ, ◌≡◌, refl, false, none, [], ◌∷◌, ◌++◌, Bytes, arith, ◌==◌, All}
use fe_gem.Message.Queue.{quotes_escaped}
use fe_gem.Message.Fields.{NoBackslash}
use fe_gem.Message.Queue.{formatted}

-- A quote without a backslash in front of it is not escaped.
pub quotes_escaped_bare :
    (c : ℕ) (before after : Bytes)
    → NoBackslash (c ∷ before)
    → quotes_escaped (c ∷ (before ++ b'"' ∷ after)) ≡ false
unfolding quotes_escaped
quotes_escaped_bare c [] after (h, hs) = ground (arith, h)
quotes_escaped_bare c (d ∷ before) after (h, hs) =
    ground (arith, quotes_escaped_bare d before after hs)

pub NoBackslash-append : (xs ys : Bytes) → NoBackslash xs → NoBackslash ys → NoBackslash (xs ++ ys)
NoBackslash-append [] ys h g = g
NoBackslash-append (x ∷ xs) ys (h, hs) g = (h, NoBackslash-append xs ys hs g)

pub formatted_directive :
    (before after : Bytes) (d : ℕ)
    → All (λ c. (c == b'%') ≡ false) before
    → (d == b'%') ≡ false
    → formatted (before ++ b'%' ∷ d ∷ after) ≡ none
unfolding formatted
formatted_directive [] after d h e = rw e refl
formatted_directive (c ∷ []) after d (h, hs) e = rw (h, e) refl
formatted_directive (c ∷ b ∷ before) after d (h, hs) e =
    rw (h, formatted_directive (b ∷ before) after d hs e) refl
