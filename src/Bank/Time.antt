-- ===== src/Bank/Time.antt =====
-- The LabVIEW timestamps of libGEM/include/GEM_BANK.h: their stored bytes, and the numbers that the
-- accessors of GEMDATA read from them on a host whose integers are little-endian.
use mathlib.Core.List.{reverse, reverse-append}
use fe_gem.Common.{
  ℕ, zero, suc, ◌+◌, ◌-◌, ◌*◌, ◌/◌, ◌%◌, ◌^◌, ◌<◌, ◌≡◌, ◌≢◌, refl, ap, ◌∙◌, [], ◌∷◌, ◌++◌, arith,
  Bytes, ◌==◌, if◌then◌else◌, ne→==,
}
use fe_gem.Bank.Endian.{change_endian, change_endian-reverse}

pub record LvTimestamp : Type 0 where
  -- the eight bytes of int64_t Seconds
  pub seconds : Bytes
  -- the eight bytes of uint64_t SubSecondFraction
  pub sub_second_fraction : Bytes

-- The number that the host reads from stored bytes.
unfoldable pub le_value : Bytes → ℕ
le_value [] = 0
le_value (b ∷ bs) = b + 256 * le_value bs

-- enum LVEndianess; the accessors take it as a uint16_t.
abbrev pub little_endian : ℕ
little_endian = 2

-- Seconds from 1904, where LabVIEW counts from, to 1970.
abbrev pub unix_offset : ℕ
unix_offset = 2_082_844_800

unfoldable pub get_labview_coarse_time : LvTimestamp → ℕ → ℕ
unfolding le_value change_endian
get_labview_coarse_time t endianness =
    if endianness == little_endian then le_value t.seconds else le_value (change_endian t.seconds)

unfoldable pub get_labview_fine_time : LvTimestamp → ℕ → ℕ
unfolding le_value change_endian
get_labview_fine_time t endianness =
    if endianness == little_endian
    then le_value t.sub_second_fraction
    else le_value (change_endian t.sub_second_fraction)

-- The bit pattern of the int64_t.
unfoldable pub get_unix_timestamp : LvTimestamp → ℕ → ℕ
unfolding le_value change_endian
get_unix_timestamp t endianness =
    if endianness == little_endian
    then (le_value t.seconds + 2 ^ 64 - unix_offset) % 2 ^ 64
    else (le_value (change_endian t.seconds) + 2 ^ 64 - unix_offset) % 2 ^ 64

-- The n bytes of a number, as a little-endian and as a big-endian client writes them.
unfoldable pub le_bytes : ℕ → ℕ → Bytes
le_bytes zero v = []
le_bytes (suc n) v = v % 256 ∷ le_bytes n (v / 256)

unfoldable pub be_bytes : ℕ → ℕ → Bytes
be_bytes zero v = []
be_bytes (suc n) v = be_bytes n (v / 256) ++ (v % 256) ∷ []

reverse-be_bytes : (n v : ℕ) → reverse (be_bytes n v) ≡ le_bytes n v
unfolding be_bytes le_bytes
reverse-be_bytes zero v = refl
reverse-be_bytes (suc n) v =
    reverse-append (be_bytes n (v / 256)) (v % 256 ∷ [])
    ∙ ap (◌∷◌ (v % 256)) (reverse-be_bytes n (v / 256))

le_value-le_bytes_eight : (v : ℕ) → v < 2 ^ 64 → le_value (le_bytes 8 v) ≡ v
unfolding le_value le_bytes
le_value-le_bytes_eight v h = omega arith

le_value-be_bytes : (v : ℕ) → v < 2 ^ 64 → le_value (change_endian (be_bytes 8 v)) ≡ v
le_value-be_bytes v h =
    ap le_value (change_endian-reverse (be_bytes 8 v) ∙ reverse-be_bytes 8 v)
    ∙ le_value-le_bytes_eight v h

-- A timestamp sent for the Unix time u and the fraction f is read back as both, if the bytes are
-- little-endian and the bank says so, or big-endian and the bank says anything else.
pub timestamp_round_trip :
    (u f endianness : ℕ)
    → u + unix_offset < 2 ^ 64
    → f < 2 ^ 64
    → endianness ≢ little_endian
    → let big : LvTimestamp = record {
      seconds = be_bytes 8 (u + unix_offset);
      sub_second_fraction = be_bytes 8 f;
    } in
      let little : LvTimestamp = record {
        seconds = le_bytes 8 (u + unix_offset);
        sub_second_fraction = le_bytes 8 f;
      } in
      (get_unix_timestamp big endianness ≡ u)
      × (get_labview_fine_time big endianness ≡ f)
      × (get_unix_timestamp little little_endian ≡ u)
      × (get_labview_fine_time little little_endian ≡ f)
unfolding get_unix_timestamp get_labview_fine_time
timestamp_round_trip u f endianness hu hf e =
    let sub : (u + unix_offset + 2 ^ 64 - unix_offset) % 2 ^ 64 ≡ u = omega arith in
    (
      rw (ne→== endianness little_endian e, le_value-be_bytes (u + unix_offset) hu) sub,
      rw (ne→== endianness little_endian e) (le_value-be_bytes f hf),
      rw (le_value-le_bytes_eight (u + unix_offset) hu) sub,
      le_value-le_bytes_eight f hf,
    )
