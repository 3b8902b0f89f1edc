-- ===== src/Hosts/Pattern.antt =====
-- The wild-card comparison `AllowedHosts::Host::operator==(const char*)`, include/AllowedHosts.h.
-- The two indices of its loop are the suffixes of the pattern and of the host name that are left.
use fe_gem.Common.{ℕ, Bool, true, false, [], ◌∷◌, Bytes, ◌==◌, if◌then◌else◌}

-- while (HostName[i] != hostname[j] && hostname[j]) ++j;
unfoldable pub scan_to : ℕ → Bytes → Bytes
scan_to c [] = []
scan_to c (h ∷ hs) = if c == h then h ∷ hs else scan_to c hs

-- A `*` at the end of the pattern accepts at once; any other `*` moves on to the next byte of the
-- host name that equals the byte behind it, and never comes back.
unfoldable pub matches : Bytes → Bytes → Bool
matches [] [] = true
matches [] (h ∷ hs) = false
matches (p ∷ ps) [] = true
matches (p ∷ []) (h ∷ hs) =
    if p == b'?'
    then matches [] hs
    else if p == b'*'
    then true
    else if p == h
    then matches [] hs
    else false
matches (p ∷ c ∷ ps) (h ∷ hs) = elim (p == b'?') [
  | true ↦ matches (c ∷ ps) hs
  | false ↦ elim (p == b'*') [
    | true ↦ elim (scan_to c (h ∷ hs)) [ [] ↦ false | x ∷ rest ↦ matches ps rest ]
    | false ↦ elim (p == h) [ true ↦ matches (c ∷ ps) hs | false ↦ false ]
  ]
]
