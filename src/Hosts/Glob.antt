-- ===== src/Hosts/Glob.antt =====
-- What the wild cards of include/AllowedHosts.h stand for, with no search in it: `?` is any one
-- byte, `*` any run of bytes, and any other byte is itself.
use fe_gem.Common.{ℕ, ◌≡◌, [], ◌∷◌, Bytes}

pub data Glob : Bytes → Bytes → Type 0 where
  end : Glob [] []
  same : {c : ℕ} {ps hs : Bytes} → Glob ps hs → Glob (c ∷ ps) (c ∷ hs)
  any_one : {p h : ℕ} {ps hs : Bytes} → p ≡ b'?' → Glob ps hs → Glob (p ∷ ps) (h ∷ hs)
  skip : {p : ℕ} {ps hs : Bytes} → p ≡ b'*' → Glob ps hs → Glob (p ∷ ps) hs
  more : {p h : ℕ} {ps hs : Bytes} → p ≡ b'*' → Glob (p ∷ ps) hs → Glob (p ∷ ps) (h ∷ hs)

-- A pattern stands for itself, among other texts.
pub Glob-self : (ps : Bytes) → Glob ps ps
Glob-self [] = end
Glob-self (p ∷ ps) = same (Glob-self ps)

-- A trailing `*` takes the rest.
pub Glob-trailing : (p : ℕ) (hs : Bytes) → p ≡ b'*' → Glob (p ∷ []) hs
Glob-trailing p [] e = skip e end
Glob-trailing p (h ∷ hs) e = more e (Glob-trailing p hs e)
