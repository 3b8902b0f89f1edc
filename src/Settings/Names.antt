-- ===== src/Settings/Names.antt =====
-- The block of a settings file bank, [project][NUL][file name][NUL][binary data][NUL], and the loops
-- of SaveSettingsFile and LoadSettingsFile that take it apart.
use fe_gem.Common.{
  ℕ, suc, ◌+◌, ◌-◌, ◌≡◌, ◌≢◌, refl, ap, ◌∙◌, Option, none, some, [], ◌∷◌, ◌++◌, arith, Bytes, ◌==◌,
  leb, if◌then◌else◌, length, take, drop, All, length-append, take-append,
}

-- while (ptr < end) { if (*ptr == '\0') break; if (*ptr != '/') name += *ptr; ptr++; } ptr++;
-- The name, and how far `ptr` has moved.
unfoldable pub read_name : Bytes → Bytes × ℕ
read_name [] = ([], 1)
read_name (c ∷ cs) =
    let (name, moved) = read_name cs in
    if c == 0 then ([], 1) else (if c == b'/' then name else c ∷ name, moved + 1)

pub record Parts : Type 0 where
  pub project_name : Bytes
  pub file_name : Bytes
  -- `ptr - start` behind both names
  pub data_start : ℕ

unfoldable pub parse_block : Bytes → Parts
unfolding read_name
parse_block block =
    let (project, i) = read_name block in
    let (file, j) = read_name (drop i block) in
    record { project_name = project; file_name = file; data_start = i + j }

-- The `file_size` bytes from BinaryData, the terminating NUL left off; `none` where `file_size` is
-- negative.
unfoldable pub data_from : Bytes → ℕ → Option Bytes
data_from block start =
    if leb (start + 1) (length block)
    then some (take (length block - start - 1) (drop start block))
    else none

unfoldable pub binary_data : Bytes → Option Bytes
unfolding data_from
binary_data block = data_from block (parse_block block).data_start

abbrev pub NoSlash : Bytes → Type 0
NoSlash = All (λ c. c ≢ b'/')

abbrev pub IsName : Bytes → Type 0
IsName = All (λ c. (c ≢ 0) × (c ≢ b'/'))

read_name-NoSlash : (block : Bytes) → NoSlash (read_name block).0
unfolding read_name
read_name-NoSlash [] = tt
read_name-NoSlash (c ∷ cs) = ground (arith, read_name-NoSlash cs)

-- Whatever bytes a client sends, neither name of the block holds a slash.
pub parse_block-NoSlash :
    (block : Bytes)
    → NoSlash (parse_block block).project_name × NoSlash (parse_block block).file_name
unfolding parse_block
parse_block-NoSlash block =
    (read_name-NoSlash block, read_name-NoSlash (drop (read_name block).1 block))

read_name-append :
    (name rest : Bytes) → IsName name → read_name (name ++ 0 ∷ rest) ≡ (name, length name + 1)
unfolding read_name
read_name-append [] rest h = refl
read_name-append (c ∷ cs) rest h = ground (arith, read_name-append cs rest h.1)

abbrev pub block_of : Bytes → Bytes → Bytes → Bytes
block_of project file binary = project ++ 0 ∷ (file ++ 0 ∷ (binary ++ 0 ∷ []))

drop_name : (name rest : Bytes) → drop (length name + 1) (name ++ 0 ∷ rest) ≡ rest
drop_name [] rest = refl
drop_name (c ∷ cs) rest = ground (arith, drop_name cs rest)

drop_names :
    (name rest : Bytes) (n : ℕ) → drop (length name + 1 + n) (name ++ 0 ∷ rest) ≡ drop n rest
drop_names [] rest n = let e : 0 + 1 + n ≡ suc n = omega arith in ap (λ k. drop k (0 ∷ rest)) e
drop_names (c ∷ cs) rest n =
    let e : suc (length cs) + 1 + n ≡ suc (length cs + 1 + n) = omega arith in
    ap (λ k. drop k (c ∷ (cs ++ 0 ∷ rest))) e ∙ drop_names cs rest n

pub parse_block_lem :
    (project file binary : Bytes)
    → IsName project
    → IsName file
    → parse_block (block_of project file binary) ≡ record {
      project_name = project;
      file_name = file;
      data_start = length project + 1 + (length file + 1);
    }
unfolding parse_block
parse_block_lem project file binary hp hf = rw (
  read_name-append project (file ++ 0 ∷ (binary ++ 0 ∷ [])) hp,
  drop_name project (file ++ 0 ∷ (binary ++ 0 ∷ [])),
  read_name-append file (binary ++ 0 ∷ []) hf,
)

data_of_block :
    (project file binary : Bytes)
    → drop (length project + 1 + (length file + 1)) (block_of project file binary)
      ≡ binary ++ 0 ∷ []
data_of_block project file binary =
    drop_names project (file ++ 0 ∷ (binary ++ 0 ∷ [])) (length file + 1)
    ∙ drop_name file (binary ++ 0 ∷ [])

length-block_of :
    (project file binary : Bytes)
    → length (block_of project file binary)
      ≡ length project + 1 + (length file + 1) + length binary + 1
length-block_of project file binary = omega (
  arith,
  length-append project (0 ∷ (file ++ 0 ∷ (binary ++ 0 ∷ []))),
  length-append file (0 ∷ (binary ++ 0 ∷ [])),
  length-append binary (0 ∷ []),
)

data_from-block_of :
    (project file binary : Bytes)
    → data_from (block_of project file binary) (length project + 1 + (length file + 1))
      ≡ some binary
unfolding data_from
data_from-block_of project file binary =
    let size = length-block_of project file binary in
    let start = length project + 1 + (length file + 1) in
    rw
      (
        data_of_block project file binary,
        take-append (length (block_of project file binary) - start - 1) binary (0 ∷ [])
            (omega (arith, size)),
      )
      (ground (arith, size))

-- A block made of two names without slash or NUL and any data is taken apart into the same.
pub parse_block-block_of :
    (project file binary : Bytes)
    → IsName project
    → IsName file
    → ((parse_block (block_of project file binary)).project_name ≡ project)
      × ((parse_block (block_of project file binary)).file_name ≡ file)
      × (binary_data (block_of project file binary) ≡ some binary)
unfolding binary_data
parse_block-block_of project file binary hp hf =
    let e = parse_block_lem project file binary hp hf in
    (
      ap (λ p. p.project_name) e,
      ap (λ p. p.file_name) e,
      ap (λ p. data_from (block_of project file binary) p.data_start) e
          ∙ data_from-block_of project file binary,
    )
