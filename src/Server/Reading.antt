-- ===== src/Server/Reading.antt =====
-- How ServeHost of src/feGEMClass.cxx reads a message from a connection.
use fe_gem.Common.{
  ℕ, zero, suc, ◌+◌, ◌-◌, ◌^◌, min, List, [], ◌∷◌, Bytes, codes, ltb, ◌==◌, if◌then◌else◌,
  strncmp_eq,
}
use fe_gem.Bank.Layout.{gem_bank_at, gem_bank_array_at, get_total_size, get_array_total_size}

-- What a call of read() finds: bytes that have arrived, or an error. Behind the last of them the
-- connection is closed, and read() answers 0.
pub data Arriving : Type 0 where
  bytes : ℕ → Arriving
  failure : Arriving

-- How far a loop came: the position behind it and what is still to arrive.
pub data Progress : Type 0 where
  reached : ℕ → List Arriving → Progress
  nothing timeout outside : Progress

-- What is left of a piece of n bytes behind a read of r.
abbrev pub left_over : ℕ → ℕ → List Arriving → List Arriving
left_over n r arriving = if ltb r n then bytes (n - r) ∷ arriving else arriving

-- The first loop. `fuel` is max_reads, `room` the bytes of fEventBuf from ptr on, `outside` a write in
-- front of the buffer or behind it.
unfoldable pub header_loop : ℕ → ℕ → ℕ → ℕ → List Arriving → Progress
header_loop zero room event_size position arriving = timeout
header_loop (suc fuel) room event_size position [] =
    let more = header_loop fuel room event_size position [] in
    if position == 0 then nothing else if fuel == 0 then timeout else more
header_loop (suc fuel) room event_size position (failure ∷ arriving) =
    let more = header_loop fuel room event_size (position - 1) arriving in
    if position == 0
    then outside
    else if position == 1
    then nothing
    else if fuel == 0
    then timeout
    else more
header_loop (suc fuel) room event_size position (bytes n ∷ arriving) =
    let read_status = min n (event_size - position) in
    let left = left_over n read_status arriving in
    let more = header_loop fuel room event_size (position + read_status) left in
    if ltb room (position + read_status)
    then outside
    else if position + read_status == 0
    then nothing
    else if fuel == 0
    then timeout
    else if ltb read_status 88
    then more
    else reached (position + read_status) left

-- The second loop, up to the size that the header gives, with the same outcomes; what is left of a piece behind that size is
-- never read.
unfoldable pub body_loop : ℕ → ℕ → ℕ → ℕ → List Arriving → Progress
body_loop zero room bank_size position arriving = timeout
body_loop (suc fuel) room bank_size position [] =
    let more = body_loop fuel room bank_size position [] in
    if ltb position bank_size then if fuel == 0 then timeout else more else reached position []
body_loop (suc fuel) room bank_size position (failure ∷ arriving) =
    let more = body_loop fuel room bank_size (position - 1) arriving in
    if ltb position bank_size
    then if position == 0 then outside else if fuel == 0 then timeout else more
    else reached position (failure ∷ arriving)
body_loop (suc fuel) room bank_size position (bytes n ∷ arriving) =
    let behind = position + min n (bank_size - position) in
    let more = body_loop fuel room bank_size behind arriving in
    if ltb position bank_size
    then if ltb room behind then outside else if fuel == 0 then timeout else more
    else reached position (bytes n ∷ arriving)

-- What becomes of a connection, up to the call of HandleBank or HandleBankArray.
pub data Received : Type 0 where
  no_data header_timeout malformed body_timeout : Received
  -- the bank, or the array of banks, and its size
  bank_received array_received : ℕ → Received
  -- a failed assert, and undefined behaviour
  aborted undefined : Received

-- The body of a message whose header gives `bank_size`, an int in the source.
unfoldable pub receive_body : (ℕ → Received) → ℕ → ℕ → ℕ → List Arriving → Received
receive_body received room bank_size position arriving =
    if ltb bank_size (2 ^ 31)
    then elim (body_loop 10_000 room bank_size position arriving) [
      | reached end rest ↦ (if end == bank_size then received bank_size else aborted)
      | timeout ↦ body_timeout
      | nothing ↦ body_timeout
      | outside ↦ undefined
    ]
    else aborted

-- `buffer` is what stands at ptr when the header has arrived.
unfoldable pub receive : ℕ → ℕ → Bytes → List Arriving → Received
unfolding header_loop receive_body
receive room event_size buffer arriving = elim (header_loop 100_000 room event_size 0 arriving) [
  | nothing ↦ no_data
  | timeout ↦ header_timeout
  | outside ↦ undefined
  | reached position rest ↦
      (if strncmp_eq 4 buffer (codes "GEA1")
        then receive_body array_received room (get_array_total_size (gem_bank_array_at buffer))
            position rest
        else if strncmp_eq 4 buffer (codes "GEB1")
        then receive_body bank_received room (get_total_size (gem_bank_at buffer)) position rest
        else malformed)
]
