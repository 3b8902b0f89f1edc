-- ===== src/Settings/Base64.antt =====
-- SettingsFileDatabase::base64_encode, and a decoder written from the standard to compare it with.
use fe_gem.Common.{
  ℕ, ◌+◌, ◌-◌, ◌*◌, ◌/◌, ◌%◌, ◌<◌, ◌≡◌, refl, sym, ap, ◌∙◌, inl, inr, Bool, true, false, ◌&&◌,
  Option, none, some, [], ◌∷◌, arith, Bytes, codes, ◌==◌, leb, if◌then◌else◌, get_or, length, All,
  bit_and, faults, faults-none, same_on_bytes, ==_iff, Bool-cases,
}

abbrev base64_chars : Bytes
base64_chars = codes "ABCDEFGHIJKLMNOPQRSTUVWXYZabcdefghijklmnopqrstuvwxyz0123456789+/"

unfoldable pub base64_char : ℕ → ℕ
base64_char v = get_or base64_chars v 0

-- The loop takes three bytes a round; `trailing_char` is '='.
unfoldable pub base64_encode : Bytes → Bytes
unfolding base64_char
base64_encode [] = []
base64_encode (a ∷ []) =
    base64_char (bit_and a 0xfc / 4) ∷ base64_char (bit_and a 0x03 * 16) ∷ b'=' ∷ b'=' ∷ []
base64_encode (a ∷ b ∷ []) =
    base64_char (bit_and a 0xfc / 4)
    ∷ base64_char (bit_and a 0x03 * 16 + bit_and b 0xf0 / 16)
    ∷ base64_char (bit_and b 0x0f * 4)
    ∷ b'='
    ∷ []
base64_encode (a ∷ b ∷ c ∷ rest) =
    base64_char (bit_and a 0xfc / 4)
    ∷ base64_char (bit_and a 0x03 * 16 + bit_and b 0xf0 / 16)
    ∷ base64_char (bit_and b 0x0f * 4 + bit_and c 0xc0 / 64)
    ∷ base64_char (bit_and c 0x3f)
    ∷ base64_encode rest

-- The value of a digit; `none` is no digit.
unfoldable pub digit_value : ℕ → Option ℕ
digit_value c =
    if leb b'A' c && leb c b'Z'
    then some (c - b'A')
    else if leb b'a' c && leb c b'z'
    then some (c - b'a' + 26)
    else if leb b'0' c && leb c b'9'
    then some (c - b'0' + 52)
    else if c == b'+'
    then some 62
    else if c == b'/'
    then some 63
    else none

infixl 5 ◌>>=◌
abbrev ◌>>=◌ : {A B : Type 0} → Option A → (A → Option B) → Option B
none >>= f = none
some a >>= f = f a

-- Groups of four digits, the last of which may end in one or two `=`.
unfoldable pub base64_decode : Bytes → Option Bytes
unfolding digit_value
base64_decode [] = some []
base64_decode (w ∷ x ∷ y ∷ z ∷ rest) =
    let last = base64_decode rest in
    do
      v0 ← digit_value w
      v1 ← digit_value x
      elim (y == b'=') [
        | true ↦ some ((v0 * 4 + v1 / 16) ∷ [])
        | false ↦ do
          v2 ← digit_value y
          elim (z == b'=') [
            | true ↦ some ((v0 * 4 + v1 / 16) ∷ (v1 % 16 * 16 + v2 / 4) ∷ [])
            | false ↦ do
              v3 ← digit_value z
              bytes ← last
              some ((v0 * 4 + v1 / 16) ∷ (v1 % 16 * 16 + v2 / 4) ∷ (v2 % 4 * 64 + v3) ∷ bytes)
          ]
      ]
base64_decode _ = none

abbrev option_eq : Option ℕ → ℕ → Bool
option_eq none v = false
option_eq (some u) v = u == v

option_eq→eq : (o : Option ℕ) (v : ℕ) → option_eq o v ≡ true → o ≡ some v
option_eq→eq none v h = cc
option_eq→eq (some u) v h = ground arith

-- The 64 digits are read back as their values, and none of them is the trailing character.
digit_value-base64_char : (v : ℕ) → v < 64 → digit_value (base64_char v) ≡ some v
unfolding digit_value base64_char faults
digit_value-base64_char v h =
    option_eq→eq _ v (faults-none (λ v. option_eq (digit_value (base64_char v)) v) 64 v refl h)

base64_char-eq : (v : ℕ) → v < 64 → (base64_char v == b'=') ≡ false
unfolding digit_value
base64_char-eq v h = elim (Bool-cases (base64_char v == b'=')) [
  | inl e ↦
      let value = ap digit_value (sym ((==_iff _ b'=').0 e)) in
      cc (value ∙ digit_value-base64_char v h)
  | inr n ↦ n
]

abbrev pub IsByte : ℕ → Type 0
IsByte b = b < 256

high_six : (a : ℕ) → IsByte a → bit_and a 0xfc / 4 ≡ a / 4
unfolding faults
high_six a h = same_on_bytes (λ x. bit_and x 0xfc / 4) (λ x. x / 4) a refl h

low_two : (a : ℕ) → IsByte a → bit_and a 0x03 ≡ a % 4
unfolding faults
low_two a h = same_on_bytes (λ x. bit_and x 0x03) (λ x. x % 4) a refl h

high_four : (b : ℕ) → IsByte b → bit_and b 0xf0 / 16 ≡ b / 16
unfolding faults
high_four b h = same_on_bytes (λ x. bit_and x 0xf0 / 16) (λ x. x / 16) b refl h

low_four : (b : ℕ) → IsByte b → bit_and b 0x0f ≡ b % 16
unfolding faults
low_four b h = same_on_bytes (λ x. bit_and x 0x0f) (λ x. x % 16) b refl h

high_two : (c : ℕ) → IsByte c → bit_and c 0xc0 / 64 ≡ c / 64
unfolding faults
high_two c h = same_on_bytes (λ x. bit_and x 0xc0 / 64) (λ x. x / 64) c refl h

low_six : (c : ℕ) → IsByte c → bit_and c 0x3f ≡ c % 64
unfolding faults
low_six c h = same_on_bytes (λ x. bit_and x 0x3f) (λ x. x % 64) c refl h

-- Four digits read as three bytes.
decode_group :
    (v0 v1 v2 v3 : ℕ) (rest : Bytes)
    → v0 < 64
    → v1 < 64
    → v2 < 64
    → v3 < 64
    → base64_decode (base64_char v0 ∷ base64_char v1 ∷ base64_char v2 ∷ base64_char v3 ∷ rest) ≡ (
        base64_decode rest >>= λ bytes.
        some ((v0 * 4 + v1 / 16) ∷ (v1 % 16 * 16 + v2 / 4) ∷ (v2 % 4 * 64 + v3) ∷ bytes))
unfolding base64_decode
decode_group v0 v1 v2 v3 rest h0 h1 h2 h3 = rw (
  digit_value-base64_char v0 h0,
  digit_value-base64_char v1 h1,
  base64_char-eq v2 h2,
  digit_value-base64_char v2 h2,
  base64_char-eq v3 h3,
  digit_value-base64_char v3 h3,
)

decode_two :
    (v0 v1 v2 : ℕ)
    → v0 < 64
    → v1 < 64
    → v2 < 64
    → base64_decode (base64_char v0 ∷ base64_char v1 ∷ base64_char v2 ∷ b'=' ∷ [])
      ≡ some ((v0 * 4 + v1 / 16) ∷ (v1 % 16 * 16 + v2 / 4) ∷ [])
unfolding base64_decode
decode_two v0 v1 v2 h0 h1 h2 = rw (
  digit_value-base64_char v0 h0,
  digit_value-base64_char v1 h1,
  base64_char-eq v2 h2,
  digit_value-base64_char v2 h2,
)

decode_one :
    (v0 v1 : ℕ)
    → v0 < 64
    → v1 < 64
    → base64_decode (base64_char v0 ∷ base64_char v1 ∷ b'=' ∷ b'=' ∷ [])
      ≡ some ((v0 * 4 + v1 / 16) ∷ [])
unfolding base64_decode
decode_one v0 v1 h0 h1 = rw (digit_value-base64_char v0 h0, digit_value-base64_char v1 h1)

-- Decoding gives the encoded bytes back, whatever they are.
pub base64_decode-base64_encode :
    (bytes : Bytes) → All IsByte bytes → base64_decode (base64_encode bytes) ≡ some bytes
unfolding base64_encode
base64_decode-base64_encode [] h = unfold base64_decode in refl
base64_decode-base64_encode (a ∷ []) h =
    rw (high_six a h.0, low_two a h.0)
      (decode_one (a / 4) (a % 4 * 16) (omega arith) (omega arith) ∙ ground arith)
base64_decode-base64_encode (a ∷ b ∷ []) h =
    rw (high_six a h.0, low_two a h.0, high_four b h.1.0, low_four b h.1.0)
      (decode_two (a / 4) (a % 4 * 16 + b / 16) (b % 16 * 4) (omega arith) (omega arith)
          (omega arith)
        ∙ ground arith)
base64_decode-base64_encode (a ∷ b ∷ c ∷ rest) h =
    rw
      (
        high_six a h.0,
        low_two a h.0,
        high_four b h.1.0,
        low_four b h.1.0,
        high_two c h.1.1.0,
        low_six c h.1.1.0,
      )
      (decode_group (a / 4) (a % 4 * 16 + b / 16) (b % 16 * 4 + c / 64) (c % 64) _ (omega arith)
          (omega arith) (omega arith) (omega arith)
        ∙ rw (base64_decode-base64_encode rest h.1.1.1) (ground arith))

-- The text is as long as `ret.reserve` says.
pub length-base64_encode :
    (bytes : Bytes) → length (base64_encode bytes) ≡ (length bytes + 2) / 3 * 4
unfolding base64_encode
length-base64_encode [] = refl
length-base64_encode (a ∷ []) = refl
length-base64_encode (a ∷ b ∷ []) = refl
length-base64_encode (a ∷ b ∷ c ∷ rest) = omega (arith, length-base64_encode rest)
