-- ===== src/Server/Arrival.antt =====
-- Which messages arrive, and which do not.
use fe_gem.Common.{
  ℕ, zero, suc, ◌+◌, ◌-◌, ◌≤◌, ◌<◌, ◌^◌, ◌≡◌, refl, ap, min, true, false, List, [], ◌∷◌, Bytes,
  codes, arith, ltb, ◌==◌, length, map, All, strncmp_eq, Bool-cases, inl, inr, ==_self, lt→ltb,
  ge→ltb, ne→==,
}
use fe_gem.Bank.Layout.{gem_bank_at, get_total_size}
use fe_gem.Server.Prefixes.{apart-strncmp_eq}
use fe_gem.Server.Reading.{
  Arriving, bytes, failure, reached, timeout, header_loop, body_loop, receive_body, header_timeout,
  bank_received, aborted, receive,
}

abbrev pub sum : List ℕ → ℕ
sum [] = 0
sum (n ∷ ns) = n + sum ns

abbrev arrivals : List ℕ → List Arriving
arrivals = map bytes

-- The second loop ends at the announced size if enough arrives, in pieces that are not empty and
-- fewer than the fuel.
body_loop-reached :
    (fuel room bank_size position : ℕ) (ns : List ℕ)
    → position ≤ bank_size
    → bank_size ≤ room
    → All (λ n. 0 < n) ns
    → bank_size ≤ position + sum ns
    → length ns < fuel
    → (rest : List Arriving) × (body_loop fuel room bank_size position (arrivals ns)
        ≡ reached bank_size rest)
unfolding body_loop
body_loop-reached zero room bank_size position ns h wide pos enough few = absurd (omega arith)
body_loop-reached (suc fuel) room bank_size position [] h wide pos enough few =
    let done : ltb position bank_size ≡ false = ge→ltb position bank_size (omega arith) in
    let end : position ≡ bank_size = omega arith in ([], rw done (ap (λ p. reached p []) end))
body_loop-reached (suc fuel) room bank_size position (n ∷ ns) h wide (p, pos) enough few =
    elim (Bool-cases (ltb position bank_size)) [
      | inl t ↦
          let fuelled : (fuel == 0) ≡ false = ground arith in
          let (rest, e) =
            body_loop-reached fuel room bank_size (position + min n (bank_size - position)) ns
              (omega arith) wide pos (omega arith) (omega arith) in
          let inside : ltb room (position + min n (bank_size - position)) ≡ false =
            ge→ltb room (position + min n (bank_size - position)) (omega arith) in
          (rest, rw (t, inside, fuelled) e)
      | inr f ↦
          let end : position ≡ bank_size = ground arith in
          (bytes n ∷ arrivals ns, rw f (ap (λ q. reached q (bytes n ∷ arrivals ns)) end))
    ]

-- The first loop goes on as long as every single read has less than 88 bytes.
header_loop-timeout :
    (fuel room event_size position : ℕ) (ns : List ℕ)
    → min event_size (position + sum ns) ≤ room
    → position ≤ event_size
    → 0 < position
    → All (λ n. n < 88) ns
    → header_loop fuel room event_size position (arrivals ns) ≡ timeout
unfolding header_loop
header_loop-timeout zero room event_size position ns wide inside h small = refl
header_loop-timeout (suc fuel) room event_size position [] wide inside h small =
    ground (arith, header_loop-timeout fuel room event_size position [] wide inside h tt)
header_loop-timeout (suc fuel) room event_size position (n ∷ ns) wide inside h (s, small) =
    let r = min n (event_size - position) in
    elim (Bool-cases (ltb r n)) [
      | inl t ↦
          let more =
            header_loop-timeout fuel room event_size (position + r) ((n - r) ∷ ns) (omega arith)
              (omega arith) (omega arith) (omega (arith, s), small) in
          ground (arith, more)
      | inr f ↦
          let more =
            header_loop-timeout fuel room event_size (position + r) ns (omega arith) (omega arith)
              (omega arith) small in
          ground (arith, more)
    ]

header_loop_start :
    (fuel room event_size n : ℕ) (ns : List ℕ)
    → min event_size (sum (n ∷ ns)) ≤ room
    → 0 < event_size
    → 0 < n
    → All (λ m. m < 88) (n ∷ ns)
    → header_loop fuel room event_size 0 (bytes n ∷ arrivals ns) ≡ timeout
unfolding header_loop
header_loop_start zero room event_size n ns wide size pos small = refl
header_loop_start (suc fuel) room event_size n ns wide size pos (s, small) =
    let r = min n (event_size - 0) in
    elim (Bool-cases (ltb r n)) [
      | inl t ↦
          let more =
            header_loop-timeout fuel room event_size (0 + r) ((n - r) ∷ ns) (omega arith)
              (omega arith) (omega arith) (omega (arith, s), small) in
          ground (arith, more)
      | inr f ↦
          let more =
            header_loop-timeout fuel room event_size (0 + r) ns (omega arith) (omega arith)
              (omega arith) small in
          ground (arith, more)
    ]

body_loop_stop :
    (fuel room bank_size position : ℕ) (rest : List Arriving)
    → 0 < fuel
    → bank_size < position
    → body_loop fuel room bank_size position rest ≡ reached position rest
unfolding body_loop
body_loop_stop zero room bank_size position rest p h = absurd (omega arith)
body_loop_stop (suc fuel) room bank_size position [] p h =
    rw (ge→ltb position bank_size (omega arith)) refl
body_loop_stop (suc fuel) room bank_size position (failure ∷ rest) p h =
    rw (ge→ltb position bank_size (omega arith)) refl
body_loop_stop (suc fuel) room bank_size position (bytes n ∷ rest) p h =
    rw (ge→ltb position bank_size (omega arith)) refl

-- The header of a message whose first read brings fewer than 88 bytes is never taken as complete, if
-- no later read brings 88 bytes at once, however many arrive in all: the client waits for max_reads
-- reads and gets no answer. The buffer takes what arrives, up
-- to the event size.
pub split_header :
    (room event_size : ℕ) (buffer : Bytes) (n : ℕ) (ns : List ℕ)
    → min event_size (sum (n ∷ ns)) ≤ room
    → 0 < event_size
    → 0 < n
    → All (λ m. m < 88) (n ∷ ns)
    → receive room event_size buffer (arrivals (n ∷ ns)) ≡ header_timeout
unfolding receive
split_header room event_size buffer n ns wide size pos small =
    rw (receive, header_loop_start 100_000 room event_size n ns wide size pos small) refl

-- The first read of a message that brings its header, and no more than the buffer takes.
header_loop-reached :
    (fuel room event_size n : ℕ) (rest : List Arriving)
    → 1 < fuel
    → 88 ≤ n
    → n ≤ event_size
    → n ≤ room
    → header_loop fuel room event_size 0 (bytes n ∷ rest) ≡ reached n rest
unfolding header_loop
header_loop-reached zero room event_size n rest fuelled big fits wide = absurd (omega arith)
header_loop-reached (suc fuel) room event_size n rest fuelled big fits wide =
    let whole : min n (event_size - 0) ≡ n = omega arith in
    let here : 0 + n ≡ n = omega arith in
    rw
      (
        whole,
        here,
        ne→== n 0 (λ e. omega (arith, e)),
        ne→== fuel 0 (λ e. omega (arith, e)),
        ge→ltb n 88 big,
        ge→ltb room n wide,
        ge→ltb n n (omega arith),
      )
      refl

-- A single bank of any size below 2 ^ 31 that fits into the rest of the buffer, and whose header comes
-- with the first read, is received whole, if that read is no longer than the event size, the first read goes no further than the bank, and all of the rest
-- comes in fewer than 10 000 reads that are not empty.
pub whole_bank :
    (room event_size : ℕ) (buffer : Bytes) (n : ℕ) (ns : List ℕ)
    → strncmp_eq 4 buffer (codes "GEB1") ≡ true
    → get_total_size (gem_bank_at buffer) < 2 ^ 31
    → 88 ≤ n
    → n ≤ event_size
    → n ≤ get_total_size (gem_bank_at buffer)
    → get_total_size (gem_bank_at buffer) ≤ room
    → All (λ m. 0 < m) ns
    → get_total_size (gem_bank_at buffer) ≤ n + sum ns
    → length ns < 10_000
    → receive room event_size buffer (arrivals (n ∷ ns))
      ≡ bank_received (get_total_size (gem_bank_at buffer))
unfolding receive receive_body
whole_bank room event_size buffer n ns tag int big fits inside wide pos enough few =
    let total = get_total_size (gem_bank_at buffer) in
    let array : strncmp_eq 4 buffer (codes "GEA1") ≡ false =
      apart-strncmp_eq 4 4 (codes "GEB1") (codes "GEA1") buffer refl tag in
    let (rest, e) = body_loop-reached 10_000 room total n ns inside wide pos enough few in
    rw
      (
        receive,
        header_loop-reached 100_000 room event_size n (arrivals ns) (omega arith) big fits
            (omega arith),
        array,
        tag,
        receive_body,
        lt→ltb total (2 ^ 31) int,
        e,
        ==_self total,
      )
      refl

-- A first read that goes further than the bank makes an assert fail, which ends the frontend.
pub surplus_aborts :
    (room event_size : ℕ) (buffer : Bytes) (n : ℕ) (rest : List Arriving)
    → strncmp_eq 4 buffer (codes "GEB1") ≡ true
    → 88 ≤ n
    → n ≤ event_size
    → n ≤ room
    → get_total_size (gem_bank_at buffer) < n
    → receive room event_size buffer (bytes n ∷ rest) ≡ aborted
unfolding receive receive_body
surplus_aborts room event_size buffer n rest tag big fits wide beyond =
    let total = get_total_size (gem_bank_at buffer) in
    let array : strncmp_eq 4 buffer (codes "GEA1") ≡ false =
      apart-strncmp_eq 4 4 (codes "GEB1") (codes "GEA1") buffer refl tag in
    let differs : (n == total) ≡ false = ne→== n total (λ e. omega (arith, e)) in
    elim (Bool-cases (ltb total (2 ^ 31))) [
      | inl t ↦
          rw
            (
              receive,
              header_loop-reached 100_000 room event_size n rest (omega arith) big fits wide,
              array,
              tag,
              receive_body,
              t,
              body_loop_stop 10_000 room total n rest (omega arith) beyond,
              differs,
            )
            refl
      | inr f ↦
          rw
            (
              receive,
              header_loop-reached 100_000 room event_size n rest (omega arith) big fits wide,
              array,
              tag,
              receive_body,
              f,
            )
            refl
    ]
