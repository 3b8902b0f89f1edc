-- ===== src/Passage/Event.antt =====
-- What the analyzer reads of a bank (libGEM/include/GEM_BANK.h) that the frontend has put into an event:
-- its header and its entries are the client's, but for the EquipmentType.
use fe_gem.Common.{
  ℕ, zero, suc, ◌+◌, ◌-◌, ◌*◌, ◌^◌, ◌≤◌, ◌<◌, ◌≡◌, sym, ap, ◌∙◌, ◌⊎◌, inl, inr, arith, Bytes,
  length, take, drop, length-take, length-drop,
}
use mathlib.Core.Path.{ap₂}
use fe_gem.Bank.Time.{LvTimestamp, le_value}
use fe_gem.Bank.Layout.{
  field, gem_bank, gem_bank_at, get_header_size, get_data_entry, get_entries, u32,
}
use fe_gem.Bank.Header.{drop-plus}
use fe_gem.Analyzer.Dispatch.{Element, double, float, bool, int32, uint32, uint16, char, file}
use fe_gem.Analyzer.Store.{size_of}
use fe_gem.Passage.Fields.{SameBank, SameBank-field, field-take, field-drop}

-- An entry ends before the bank does.
pub entry-inside : (b i n : ℕ) → i < n → b * i + b ≤ b * n
entry-inside b i zero h = absurd (omega arith)
entry-inside b zero (suc n) h = omega arith
entry-inside b (suc i) (suc n) h = omega (arith, entry-inside b i n (omega arith))

-- The elements of an entry end where the entry does.
pub entries-fit :
    (e : Element) (b : ℕ)
    → 16 ≤ b
    → b < 2 ^ 32
    → (get_entries (size_of e) b * size_of e ≤ b - 16) × (get_entries (size_of e) b ≤ b)
unfolding get_entries
entries-fit double b low high = (omega arith, omega arith)
entries-fit float b low high = (omega arith, omega arith)
entries-fit bool b low high = (omega arith, omega arith)
entries-fit int32 b low high = (omega arith, omega arith)
entries-fit uint32 b low high = (omega arith, omega arith)
entries-fit uint16 b low high = (omega arith, omega arith)
entries-fit char b low high = (omega arith, omega arith)
entries-fit file b low high = (omega arith, omega arith)

abbrev stamp : Bytes → Bytes → LvTimestamp
stamp a b = record { seconds = a; sub_second_fraction = b }

abbrev time_at : Bytes → LvTimestamp
time_at entry = stamp (take 8 entry) (take 8 (drop 8 entry))

module _ (p q : Bytes) (size : ℕ) (same : SameBank p q) (whole : size ≤ length p) where
  event-field :
      (off n : ℕ)
      → off + n ≤ size
      → (off + n ≤ 40) ⊎ (72 ≤ off)
      → field off n (take size q) ≡ field off n p
  event-field off n h part = field-take off n size q h ∙ SameBank-field p q off n same part

  pub event-header :
      get_header_size ≤ size
      → ((gem_bank_at (take size q)).block_size ≡ (gem_bank_at p).block_size)
        × ((gem_bank_at (take size q)).number_of_entries ≡ (gem_bank_at p).number_of_entries)
        × ((gem_bank_at (take size q)).timestamp_endianness ≡ (gem_bank_at p).timestamp_endianness)
        × ((gem_bank_at (take size q)).name.datatype ≡ (gem_bank_at p).name.datatype)
  unfolding gem_bank_at gem_bank
  event-header h = (
    ap le_value (event-field 80 4 (omega arith) (inr (omega arith))),
    ap le_value (event-field 84 4 (omega arith) (inr (omega arith))),
    ap le_value (event-field 76 2 (omega arith) (inr (omega arith))),
    event-field 4 4 (omega arith) (inl (omega arith)),
  )

  pub event-tag : get_header_size ≤ size → take 4 (take size q) ≡ take 4 p
  unfolding field
  event-tag h = event-field 0 4 (omega arith) (inl (omega arith))

  module _ (i : ℕ) (header : get_header_size ≤ size)
      (small : (gem_bank_at p).block_size * i < 2 ^ 32) where
    entry_place :
        get_header_size + u32 ((gem_bank_at (take size q)).block_size * i)
        ≡ get_header_size + (gem_bank_at p).block_size * i
    entry_place = ap (λ b. get_header_size + u32 (b * i)) (event-header header).0 ∙ omega arith

    entry_place_sent :
        get_header_size + u32 ((gem_bank_at p).block_size * i)
        ≡ get_header_size + (gem_bank_at p).block_size * i
    entry_place_sent = omega arith

    pub event-time :
        get_header_size + (gem_bank_at p).block_size * i + 16 ≤ size
        → (get_data_entry (take size q) i).0 ≡ (get_data_entry p i).0
    unfolding get_data_entry field
    event-time h =
        let o = get_header_size + (gem_bank_at p).block_size * i in
        ap (λ n. time_at (drop n (take size q))) entry_place
        ∙ ap₂ stamp (event-field o 8 (omega arith) (inr (omega arith))) (
            sym (field-drop o 8 8 (take size q))
            ∙ event-field (o + 8) 8 (omega arith) (inr (omega arith))
            ∙ field-drop o 8 8 p)
        ∙ ap (λ n. time_at (drop n p)) (sym entry_place_sent)

    pub event-values :
        (k : ℕ)
        → get_header_size + (gem_bank_at p).block_size * i + 16 + k ≤ size
        → (take k (get_data_entry (take size q) i).1 ≡ take k (get_data_entry p i).1)
          × (k ≤ length (get_data_entry (take size q) i).1)
    unfolding get_data_entry field
    event-values k h =
        let o = get_header_size + (gem_bank_at p).block_size * i in
        let place = get_header_size + u32 ((gem_bank_at (take size q)).block_size * i) in
        let e : place ≡ o = entry_place in
        (
          ap (λ n. take k (drop 16 (drop n (take size q)))) entry_place
              ∙ sym (ap (take k) (drop-plus o 16 (take size q)))
              ∙ event-field (o + 16) k (omega arith) (inr (omega arith))
              ∙ ap (take k) (drop-plus o 16 p)
              ∙ ap (λ n. take k (drop 16 (drop n p))) (sym entry_place_sent),
          omega (
            arith,
            e,
            h,
            whole,
            same.long,
            length-take size q,
            length-drop 16 (drop place (take size q)),
            length-drop place (take size q),
          ),
        )

-- The timestamp of an entry that is in memory is whole.
pub entry-length :
    (p : Bytes) (i : ℕ)
    → (gem_bank_at p).block_size * i < 2 ^ 32
    → get_header_size + (gem_bank_at p).block_size * i + 16 ≤ length p
    → (length (get_data_entry p i).0.seconds ≡ 8)
      × (length (get_data_entry p i).0.sub_second_fraction ≡ 8)
unfolding get_data_entry
entry-length p i small h =
    let o = get_header_size + u32 ((gem_bank_at p).block_size * i) in
    let place : o ≡ get_header_size + (gem_bank_at p).block_size * i = omega arith in
    (
      omega (arith, place, h, length-take 8 (drop o p), length-drop o p),
      omega (
        arith,
        place,
        h,
        length-take 8 (drop 8 (drop o p)),
        length-drop 8 (drop o p),
        length-drop o p,
      ),
    )
