-- ===== src/Bank/Title.antt =====
-- BANK_TITLE::SanitiseBankString of libGEM/include/GEM_BANK.h. The local array is the front of a
-- piece of memory that the function can write; C++ allows it the bytes of the array and no more.
use fe_gem.Common.{
  ℕ, ◌+◌, ◌-◌, Bool, true, false, ◌&&◌, ◌||◌, Option, none, some, [], ◌∷◌, ◌++◌, Bytes, ◌==◌, ltb,
  leb, if◌then◌else◌, length, set, drop, replicate, c_str,
}

infixl 5 ◌>>=◌
abbrev pub ◌>>=◌ : {A B : Type 0} → Option A → (A → Option B) → Option B
none >>= f = none
some a >>= f = f a

-- strlen and what follows: the bytes up to the first NUL, wherever it stands; `none` where the memory
-- ends before one.
unfoldable pub c_string : Bytes → Option Bytes
c_string [] = none
c_string (c ∷ cs) =
    let rest = c_string cs in if c == 0 then some [] else (rest >>= λ text. some (c ∷ text))

-- isalnum in the C locale, '_' and '-'.
unfoldable pub is_kept : ℕ → Bool
is_kept c =
    leb b'0' c && leb c b'9'
    || leb b'A' c && leb c b'Z'
    || leb b'a' c && leb c b'z'
    || c == b'_'
    || c == b'-'

-- output[i] = v
abbrev pub store : Bytes → ℕ → ℕ → Option Bytes
store memory i v = if ltb i (length memory) then some (set memory i v) else none

-- The loop over the input, with `j` and the memory. For a byte that is left out `j` goes down, is
-- compared, and goes up again.
unfoldable pub sanitise_loop : ℕ → Bytes → ℕ → Bytes → Option (ℕ × Bytes)
sanitise_loop output_size [] j memory = some (j, memory)
sanitise_loop output_size (c ∷ cs) j memory = elim (is_kept c) [
  | true ↦ do
    memory ← store memory j c
    elim (leb output_size j) [
      | true ↦ some (j, memory)
      | false ↦ sanitise_loop output_size cs (j + 1) memory
    ]
  | false ↦ elim (leb (output_size + 1) j) [
    | true ↦ some (j - 1, memory)
    | false ↦ sanitise_loop output_size cs j memory
  ]
]

-- char output[output_size]
unfoldable pub output_size_of : ℕ → Bytes → ℕ
output_size_of assert_size input =
    if ltb 0 assert_size && ltb assert_size (length input) then assert_size else length input + 1

-- `input` is the C string; `none` is a write past the memory.
unfoldable pub sanitise_bank_string : Bytes → ℕ → Bytes → Option Bytes
unfolding sanitise_loop output_size_of is_kept
sanitise_bank_string memory assert_size input =
    let output_size = output_size_of assert_size input in
    do
      (j, memory) ←
          sanitise_loop output_size input 0 (replicate output_size 0 ++ drop output_size memory)
      memory ← store memory j 0
      memory ← (if ltb 0 assert_size then store memory assert_size 0 else some memory)
      some (c_str memory)
