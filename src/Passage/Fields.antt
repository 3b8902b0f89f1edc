-- ===== src/Passage/Fields.antt =====
-- Which bytes of a bank the history changes: NAME.EquipmentType of libGEM/include/GEM_BANK.h, which
-- Update of src/HistoryLogger.cxx overwrites.
use fe_gem.Common.{
  ℕ, zero, suc, ◌+◌, ◌-◌, ◌≤◌, ◌≡◌, refl, sym, ap, ◌∙◌, [], ◌∷◌, ◌++◌, append_assoc, inl, inr, ◌⊎◌,
  arith, Bytes, length, take, drop, length-take, length-drop, take-append, drop-append,
  length-append,
}
use fe_gem.Bank.Layout.{field, get_header_size}
use fe_gem.Bank.Header.{drop-plus}
use fe_gem.History.Variable.{set_equipment_type}

take-take : (n m : ℕ) (p : Bytes) → n ≤ m → take n (take m p) ≡ take n p
take-take zero m p h = refl
take-take (suc n) zero p h = absurd (omega arith)
take-take (suc n) (suc m) [] h = refl
take-take (suc n) (suc m) (x ∷ p) h = ap (◌∷◌ x) (take-take n m p (omega arith))

pub field-take : (off n m : ℕ) (p : Bytes) → off + n ≤ m → field off n (take m p) ≡ field off n p
unfolding field
field-take zero n m p h = take-take n m p (omega arith)
field-take (suc off) n zero p h = absurd (omega arith)
field-take (suc off) n (suc m) [] h = refl
field-take (suc off) n (suc m) (x ∷ p) h = field-take off n m p (omega arith)

pub field-drop : (k off n : ℕ) (p : Bytes) → field (k + off) n p ≡ field off n (drop k p)
unfolding field
field-drop k off n p = ap (take n) (drop-plus k off p)

-- Two banks that differ in their EquipmentType at most.
pub record SameBank (p q : Bytes) : Type 0 where
  pub front : take 40 q ≡ take 40 p
  pub back : drop 72 q ≡ drop 72 p
  pub long : length q ≡ length p

pub SameBank-field :
    (p q : Bytes) (off n : ℕ)
    → SameBank p q
    → (off + n ≤ 40) ⊎ (72 ≤ off)
    → field off n q ≡ field off n p
SameBank-field p q off n same (inl h) =
    sym (field-take off n 40 q h) ∙ ap (field off n) same.front ∙ field-take off n 40 p h
SameBank-field p q off n same (inr h) =
    let e : 72 + (off - 72) ≡ off = omega arith in
    ap (λ k. field k n q) (sym e)
    ∙ field-drop 72 (off - 72) n q
    ∙ ap (field (off - 72) n) same.back
    ∙ sym (field-drop 72 (off - 72) n p)
    ∙ ap (λ k. field k n p) e

pub set_equipment_type-SameBank :
    (p text : Bytes)
    → get_header_size ≤ length p
    → length text ≤ 31
    → SameBank p (set_equipment_type p text)
unfolding set_equipment_type
set_equipment_type-SameBank p text header short =
    let r = drop (40 + length text + 1) p in
    let tail = text ++ 0 ∷ r in
    let e : take 40 p ++ text ++ 0 ∷ r ≡ take 40 p ++ tail =
      append_assoc (take 40 p) text (0 ∷ r) in
    let l : length (take 40 p) ≡ 40 = omega (arith, length-take 40 p) in
    let rest : drop 32 tail ≡ drop 72 p =
      ap (λ n. drop n tail) at_zero
      ∙ drop-plus (length text) (suc (31 - length text)) tail
      ∙ ap (drop (suc (31 - length text))) (drop-append (length text) text (0 ∷ r) refl)
      ∙ sym (drop-plus (40 + length text + 1) (31 - length text) p)
      ∙ ap (λ n. drop n p) at_end in
    record {
      front = ap (take 40) e ∙ take-append 40 (take 40 p) tail l;
      back =
          ap (drop 72) e
          ∙ drop-plus 40 32 (take 40 p ++ tail)
          ∙ ap (drop 32) (drop-append 40 (take 40 p) tail l)
          ∙ rest;
      long = omega (
        arith,
        ap length e,
        length-append (take 40 p) tail,
        length-append text (0 ∷ r),
        length-drop (40 + length text + 1) p,
        l,
      );
    }
  where
    at_zero : 32 ≡ length text + suc (31 - length text)
    at_zero = omega arith

    at_end : 40 + length text + 1 + (31 - length text) ≡ 72
    at_end = omega arith

pub SameBank-refl : (p : Bytes) → SameBank p p
SameBank-refl p = record { front = refl; back = refl; long = refl }
