-- ===== src/Settings/Hex.antt =====
-- The loops of src/SettingsFileDatabase.cxx that write a digest as hexadecimal digits.
use fe_gem.Common.{
  ℕ, ◌+◌, ◌-◌, ◌*◌, ◌/◌, ◌<◌, ◌≡◌, refl, [], ◌∷◌, arith, Bytes, codes, leb, if◌then◌else◌, get_or,
  length, All, bit_and, faults, same_on_bytes,
}

abbrev hexchars : Bytes
hexchars = codes "0123456789abcdef"

-- hexchars[b >> 4], hexchars[b & 0xF] for each byte.
unfoldable pub hex_digest : Bytes → Bytes
hex_digest [] = []
hex_digest (b ∷ bs) = get_or hexchars (b / 16) 0 ∷ get_or hexchars (bit_and b 0xF) 0 ∷ hex_digest bs

-- The value of a digit, for the reader below.
unfoldable pub hex_value : ℕ → ℕ
hex_value c = if leb c b'9' then c - b'0' else c - b'a' + 10

-- Two digits make a byte.
unfoldable pub read_hex : Bytes → Bytes
read_hex [] = []
read_hex (c ∷ []) = []
read_hex (c ∷ d ∷ rest) = (hex_value c * 16 + hex_value d) ∷ read_hex rest

hex_byte :
    (b : ℕ)
    → b < 256
    → hex_value (get_or hexchars (b / 16) 0) * 16 + hex_value (get_or hexchars (bit_and b 0xF) 0)
      ≡ b
unfolding hex_value faults
hex_byte b h =
    same_on_bytes
      (λ b.
        hex_value (get_or hexchars (b / 16) 0) * 16 + hex_value (get_or hexchars (bit_and b 0xF) 0))
      (λ b. b) b refl h

-- A digest of n bytes becomes 2 n digits, from which it can be read back.
pub read_hex-hex_digest :
    (digest : Bytes)
    → All (λ b. b < 256) digest
    → (read_hex (hex_digest digest) ≡ digest) × (length (hex_digest digest) ≡ 2 * length digest)
unfolding hex_digest read_hex
read_hex-hex_digest [] h = (refl, refl)
read_hex-hex_digest (b ∷ bs) h =
    let (back, long) = read_hex-hex_digest bs h.1 in (rw (hex_byte b h.0, back), omega arith)
