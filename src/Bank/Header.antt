-- ===== src/Bank/Header.antt =====
-- The header of a GEMBANK (libGEM/include/GEM_BANK.h) as a client lays it out, and that the cast of
-- the memory reads it back.
use fe_gem.Common.{
  ℕ, zero, suc, ◌+◌, ◌/◌, ◌^◌, ◌<◌, ◌≡◌, refl, ap, ◌∙◌, [], ◌∷◌, ◌++◌, arith, Bytes, length, take,
  drop, take-append, drop-append,
}
use fe_gem.Bank.Time.{le_value, le_bytes}
use fe_gem.Bank.Layout.{GemBank, field, gem_bank, gem_bank_at, get_header_size}

-- A GEMBANK whose character arrays hold their C strings, as a client lays it out in front of `rest`.
unfoldable pub encode : GemBank → Bytes → Bytes
encode b rest =
    b.name.bank
    ++ (b.name.datatype
        ++ (b.name.varcategory
            ++ (b.name.varname
                ++ (b.name.equipment_type
                    ++ (le_bytes 2 b.history_settings
                        ++ (le_bytes 2 b.history_period
                            ++ (le_bytes 2 b.timestamp_endianness
                                ++ (le_bytes 2 b.data_endianness
                                    ++ (le_bytes 4 b.block_size
                                        ++ (le_bytes 4 b.number_of_entries ++ rest))))))))))

abbrev pub Fits : GemBank → Type 0
Fits b =
    (length b.name.bank ≡ 4)
    × (length b.name.datatype ≡ 4)
    × (length b.name.varcategory ≡ 16)
    × (length b.name.varname ≡ 16)
    × (length b.name.equipment_type ≡ 32)
    × (b.history_settings < 2 ^ 16)
    × (b.history_period < 2 ^ 16)
    × (b.timestamp_endianness < 2 ^ 16)
    × (b.data_endianness < 2 ^ 16)
    × (b.block_size < 2 ^ 32)
    × (b.number_of_entries < 2 ^ 32)

drop-nil : (n : ℕ) → drop {A = ℕ} n [] ≡ []
drop-nil zero = refl
drop-nil (suc n) = refl

pub drop-plus : (k n : ℕ) (p : Bytes) → drop (k + n) p ≡ drop n (drop k p)
drop-plus zero n p = ap (λ i. drop i p) (omega arith)
drop-plus (suc k) n [] = ground (arith, drop-nil (suc k + n), drop-nil n)
drop-plus (suc k) n (x ∷ p) =
    let e : suc k + n ≡ suc (k + n) = omega arith in ap (λ i. drop i (x ∷ p)) e ∙ drop-plus k n p

-- The field at an offset where `xs` stands in front of `zs`, and the memory behind it.
field-append :
    (k n : ℕ) (p xs zs : Bytes)
    → drop k p ≡ xs ++ zs
    → length xs ≡ n
    → (field k n p ≡ xs) × (drop (k + n) p ≡ zs)
unfolding field
field-append k n p xs zs e h =
    (ap (take n) e ∙ take-append n xs zs h, drop-plus k n p ∙ ap (drop n) e ∙ drop-append n xs zs h)

length-le_bytes : (n v : ℕ) → length (le_bytes n v) ≡ n
unfolding le_bytes
length-le_bytes zero v = refl
length-le_bytes (suc n) v = ap suc (length-le_bytes n (v / 256))

le_value-le_bytes_two : (v : ℕ) → v < 2 ^ 16 → le_value (le_bytes 2 v) ≡ v
unfolding le_value le_bytes
le_value-le_bytes_two v h = omega arith

le_value-le_bytes_four : (v : ℕ) → v < 2 ^ 32 → le_value (le_bytes 4 v) ≡ v
unfolding le_value le_bytes
le_value-le_bytes_four v h = omega arith

encode_fields :
    (b : GemBank) (rest : Bytes)
    → encode b rest
      ≡ b.name.bank
        ++ (b.name.datatype
            ++ (b.name.varcategory
                ++ (b.name.varname
                    ++ (b.name.equipment_type
                        ++ (le_bytes 2 b.history_settings
                            ++ (le_bytes 2 b.history_period
                                ++ (le_bytes 2 b.timestamp_endianness
                                    ++ (le_bytes 2 b.data_endianness
                                        ++ (le_bytes 4 b.block_size
                                            ++ (le_bytes 4 b.number_of_entries ++ rest))))))))))
unfolding encode
encode_fields b rest = refl

gem_bank_at_fields :
    (p : Bytes)
    → gem_bank_at p
      ≡ gem_bank
          (field 0 4 p)
          (field 4 4 p)
          (field 8 16 p)
          (field 24 16 p)
          (field 40 32 p)
          (le_value (field 72 2 p))
          (le_value (field 74 2 p))
          (le_value (field 76 2 p))
          (le_value (field 78 2 p))
          (le_value (field 80 4 p))
          (le_value (field 84 4 p))
unfolding gem_bank_at
gem_bank_at_fields p = refl

gem_bank_eta :
    (b : GemBank)
    → gem_bank b.name.bank b.name.datatype b.name.varcategory b.name.varname b.name.equipment_type
        b.history_settings b.history_period b.timestamp_endianness b.data_endianness b.block_size
        b.number_of_entries
      ≡ b
unfolding gem_bank
gem_bank_eta b = refl

-- The cast reads back every field of a header that was laid out in front of any memory, and the
-- memory behind the header is at the place of the data.
pub gem_bank_at-encode :
    (b : GemBank) (rest : Bytes)
    → Fits b
    → (gem_bank_at (encode b rest) ≡ b) × (drop get_header_size (encode b rest) ≡ rest)
gem_bank_at-encode b rest (h1, h2, h3, h4, h5, h6, h7, h8, h9, h10, h11) =
    let t10 = (le_bytes 4 b.number_of_entries) ++ rest in
    let t9 = (le_bytes 4 b.block_size) ++ t10 in
    let t8 = (le_bytes 2 b.data_endianness) ++ t9 in
    let t7 = (le_bytes 2 b.timestamp_endianness) ++ t8 in
    let t6 = (le_bytes 2 b.history_period) ++ t7 in
    let t5 = (le_bytes 2 b.history_settings) ++ t6 in
    let t4 = b.name.equipment_type ++ t5 in
    let t3 = b.name.varname ++ t4 in
    let t2 = b.name.varcategory ++ t3 in
    let t1 = b.name.datatype ++ t2 in
    let m = b.name.bank ++ t1 in
    let (e1, p1) = field-append 0 4 m b.name.bank t1 refl h1 in
    let (e2, p2) = field-append 4 4 m b.name.datatype t2 p1 h2 in
    let (e3, p3) = field-append 8 16 m b.name.varcategory t3 p2 h3 in
    let (e4, p4) = field-append 24 16 m b.name.varname t4 p3 h4 in
    let (e5, p5) = field-append 40 32 m b.name.equipment_type t5 p4 h5 in
    let (e6, p6) =
      field-append 72 2 m (le_bytes 2 b.history_settings) t6 p5 (length-le_bytes 2 _) in
    let (e7, p7) = field-append 74 2 m (le_bytes 2 b.history_period) t7 p6 (length-le_bytes 2 _) in
    let (e8, p8) =
      field-append 76 2 m (le_bytes 2 b.timestamp_endianness) t8 p7 (length-le_bytes 2 _) in
    let (e9, p9) = field-append 78 2 m (le_bytes 2 b.data_endianness) t9 p8 (length-le_bytes 2 _) in
    let (e10, p10) = field-append 80 4 m (le_bytes 4 b.block_size) t10 p9 (length-le_bytes 4 _) in
    let (e11, p11) =
      field-append 84 4 m (le_bytes 4 b.number_of_entries) rest p10 (length-le_bytes 4 _) in
    let size : get_header_size ≡ 84 + 4 = omega arith in
    let whole = encode_fields b rest in
    (
      ap gem_bank_at whole
          ∙ gem_bank_at_fields m
          ∙ rw
              (
                e1,
                e2,
                e3,
                e4,
                e5,
                e6,
                e7,
                e8,
                e9,
                e10,
                e11,
                le_value-le_bytes_two b.history_settings h6,
                le_value-le_bytes_two b.history_period h7,
                le_value-le_bytes_two b.timestamp_endianness h8,
                le_value-le_bytes_two b.data_endianness h9,
                le_value-le_bytes_four b.block_size h10,
                le_value-le_bytes_four b.number_of_entries h11,
              )
              (gem_bank_eta b),
      ap (drop get_header_size) whole ∙ ap (λ k. drop k m) size ∙ p11,
    )
