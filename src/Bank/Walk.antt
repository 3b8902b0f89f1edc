-- ===== src/Bank/Walk.antt =====
-- The loop over the banks of a GEMBANKARRAY, as HandleBankArray of src/feGEMClass.cxx and
-- AnalyzeFlowEvent of libGEM/src/feGEM_module.cxx write it: each bank starts where the total size of
-- the one before it says.
use mathlib.Core.Path.{ap₂}
use fe_gem.Common.{
  ℕ, zero, suc, ◌+◌, ◌*◌, ◌^◌, ◌<◌, ◌≡◌, refl, sym, ap, ◌∙◌, List, [], ◌∷◌, ◌++◌, arith, Bytes,
  length, take, append-nil, append_assoc, drop, All, take-append, drop-append,
}
use fe_gem.Bank.Layout.{GemBank, gem_bank_at, get_total_size, get_header_size}
use fe_gem.Bank.Header.{Fits, encode, gem_bank_at-encode, drop-plus}

module _ {S : Type 0} (visit : Bytes → S → S) where
  unfoldable pub walk : ℕ → Bytes → S → S
  walk zero dataptr s = s
  walk (suc n) dataptr s =
      walk n (drop (get_total_size (gem_bank_at dataptr)) dataptr) (visit dataptr s)

-- A bank with the bytes of its entries.
abbrev pub Packet : Type 0
Packet = GemBank × Bytes

abbrev pub pack : Packet → Bytes → Bytes
pack (b, entries) rest = encode b (entries ++ rest)

abbrev pub pack_all : List Packet → Bytes → Bytes
pack_all [] rest = rest
pack_all (k ∷ ks) rest = pack k (pack_all ks rest)

-- What a client may send: the header says how long the entries are, and 32 bits count the whole.
abbrev pub Sendable : Packet → Type 0
Sendable (b, entries) =
    Fits b
    × (length entries ≡ b.block_size * b.number_of_entries)
    × (get_header_size + b.block_size * b.number_of_entries < 2 ^ 32)

-- The packet that a pointer to a bank shows.
unfoldable pub packet_at : Bytes → Packet
packet_at p =
    let b = gem_bank_at p in (b, take (b.block_size * b.number_of_entries) (drop get_header_size p))

pub get_total_size_lem :
    (b : GemBank)
    → get_header_size + b.block_size * b.number_of_entries < 2 ^ 32
    → get_total_size b ≡ get_header_size + b.block_size * b.number_of_entries
unfolding get_total_size
get_total_size_lem b h = omega arith

packet_at-pack : (k : Packet) (rest : Bytes) → Sendable k → packet_at (pack k rest) ≡ k
unfolding packet_at
packet_at-pack (b, entries) rest (fits, l, h) =
    let (e, d) = gem_bank_at-encode b (entries ++ rest) fits in
    rw (e, d, take-append (b.block_size * b.number_of_entries) entries rest l)

drop-pack :
    (k : Packet) (rest : Bytes)
    → Sendable k
    → drop (get_total_size (gem_bank_at (pack k rest))) (pack k rest) ≡ rest
drop-pack (b, entries) rest (fits, l, h) =
    let (e, d) = gem_bank_at-encode b (entries ++ rest) fits in
    let n = b.block_size * b.number_of_entries in
    rw (e, get_total_size_lem b h)
      (drop-plus get_header_size n (encode b (entries ++ rest))
        ∙ ap (drop n) d
        ∙ drop-append n entries rest l)

-- The packets one after the other.
abbrev pub walk_packets : {S : Type 0} → (Packet → S → S) → List Packet → S → S
walk_packets step [] s = s
walk_packets step (k ∷ ks) s = walk_packets step ks (step k s)

module _ {S : Type 0} (visit : Bytes → S → S) (step : Packet → S → S) where
  -- The loop sees the packets that were sent, each once and in order, whatever stands behind them.
  pub walk-pack_all :
      ((k : Packet) (rest : Bytes) (s : S) → Sendable k → visit (pack k rest) s ≡ step k s)
      → (ks : List Packet) (rest : Bytes) (s : S) → All Sendable ks
      → walk visit (length ks) (pack_all ks rest) s ≡ walk_packets step ks s
  unfolding walk
  walk-pack_all same [] rest s h = refl
  walk-pack_all same (k ∷ ks) rest s (h, hs) =
      ap₂ (walk visit (length ks)) (drop-pack k (pack_all ks rest) h)
        (same k (pack_all ks rest) s h)
      ∙ walk-pack_all same ks rest (step k s) hs

walk_packets_all : (ks s : List Packet) → walk_packets (λ k s. s ++ k ∷ []) ks s ≡ s ++ ks
walk_packets_all [] s = sym (append-nil s)
walk_packets_all (k ∷ ks) s = walk_packets_all ks (s ++ k ∷ []) ∙ append_assoc s (k ∷ []) ks

-- A client's array of banks reads back as it was sent.
pub walk-packets :
    (ks : List Packet) (rest : Bytes)
    → All Sendable ks
    → walk (λ p s. s ++ packet_at p ∷ []) (length ks) (pack_all ks rest) [] ≡ ks
walk-packets ks rest h =
    walk-pack_all (λ p s. s ++ packet_at p ∷ []) (λ k s. s ++ k ∷ [])
      (λ k r s sendable. ap (λ q. s ++ q ∷ []) (packet_at-pack k r sendable)) ks rest [] h
    ∙ walk_packets_all ks []
