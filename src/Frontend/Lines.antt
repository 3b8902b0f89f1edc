-- ===== src/Frontend/Lines.antt =====
-- HandleStrArrayBank of src/feGEMClass.cxx: a block of texts, each ended by its NUL, becomes an array
-- of strings in the ODB.
use fe_gem.Common.{
  ℕ, zero, suc, ◌+◌, ◌<◌, ◌≡◌, refl, sym, ap, ◌∙◌, Bool, true, false, Option, none, some, List, [],
  ◌∷◌, ◌++◌, append_assoc, arith, Bytes, codes, ltb, ◌==◌, if◌then◌else◌, length, length-append,
  ◌≤◌, drop, select, All, c_str, strncmp_eq, NonNul, c_str_text,
}
use fe_gem.Bank.Layout.{gem_bank_at, get_data_entry, sub_u32}
use fe_gem.Server.State.{defined, Run, ok, ◌>>=◌}
use fe_gem.Frontend.State.{Frontend, write_strings, call}

-- The loop over the bytes of the block, `last_char_was_null` before each; `none` is a read behind the
-- memory.
unfoldable pub split_lines : ℕ → Bool → Bytes → Option (List Bytes)
split_lines zero last_char_was_null p = some []
split_lines (suc n) last_char_was_null [] = none
split_lines (suc n) last_char_was_null (c ∷ p) =
    if c == 0 then split_lines n true p else elim (split_lines n false p) [
      | none ↦ none
      | some lines ↦ some (if last_char_was_null then c_str (c ∷ p) ∷ lines else lines)
    ]

-- max_len
unfoldable pub longest : ℕ → List Bytes → ℕ
longest max_len [] = max_len
longest max_len (line ∷ lines) =
    longest (if ltb max_len (length line) then length line else max_len) lines

-- NAME.VARNAME as a C string
abbrev pub varname_text : Bytes → Bytes
varname_text p = c_str (drop 24 p)

unfoldable pub handle_str_array_bank : Bytes → Frontend → Run Frontend
unfolding split_lines longest
handle_str_array_bank p s =
    if strncmp_eq 14 (gem_bank_at p).name.varcategory (codes "CLIENT_INFO")
    then (do
      array ←
          defined (split_lines (sub_u32 (gem_bank_at p).block_size 16) true (get_data_entry p 0).1)
      ok (call (write_strings (varname_text p) array (longest 0 array + 1)) s))
    else ok s

-- A block as a client fills it.
abbrev pub block_of : List Bytes → Bytes
block_of [] = []
block_of (line ∷ lines) = line ++ 0 ∷ block_of lines

abbrev pub is_filled : Bytes → Bool
is_filled line = ltb 0 (length line)

split_lines_inside :
    (line q : Bytes) (n m : ℕ)
    → NonNul line
    → length line + n ≡ m
    → split_lines m false (line ++ q) ≡ split_lines n false q
unfolding split_lines
split_lines_inside [] q n m h e = ap (λ i. split_lines i false q) (omega arith)
split_lines_inside (c ∷ cs) q n zero h e = absurd (omega arith)
split_lines_inside (c ∷ cs) q n (suc m) (h, hs) e =
    let rest = split_lines_inside cs q n m hs (omega arith) in ground (arith, rest)

split_lines-block_of :
    (lines : List Bytes) (rest : Bytes) (m : ℕ)
    → All NonNul lines
    → m ≡ length (block_of lines)
    → split_lines m true (block_of lines ++ rest) ≡ some (select is_filled lines)
unfolding split_lines
split_lines-block_of [] rest zero h e = refl
split_lines-block_of [] rest (suc m) h e = absurd (omega arith)
split_lines-block_of ([] ∷ lines) rest zero h e = absurd (omega arith)
split_lines-block_of ([] ∷ lines) rest (suc m) (h, hs) e =
    split_lines-block_of lines rest m hs (omega arith)
split_lines-block_of ((c ∷ cs) ∷ lines) rest zero h e = absurd (omega arith)
split_lines-block_of ((c ∷ cs) ∷ lines) rest (suc m) ((h, hs), hss) e =
    let n = length (block_of lines) in
    let l = length-append cs (0 ∷ block_of lines) in
    let back = append_assoc cs (0 ∷ block_of lines) rest in
    let inside : split_lines m false ((cs ++ 0 ∷ block_of lines) ++ rest)
        ≡ some (select is_filled lines) =
      ap (split_lines m false) back
      ∙ split_lines_inside cs (0 ∷ (block_of lines ++ rest)) (suc n) m hs (omega (arith, l))
      ∙ split_lines-block_of lines rest n hss refl in
    let text : c_str (c ∷ ((cs ++ 0 ∷ block_of lines) ++ rest)) ≡ c ∷ cs =
      ap (λ q. c_str (c ∷ q)) back ∙ c_str_text (c ∷ cs) (block_of lines ++ rest) (h, hs) in
    let kept : select is_filled ((c ∷ cs) ∷ lines) ≡ (c ∷ cs) ∷ select is_filled lines =
      ground arith in
    rw (h, inside, text) (ap some (sym kept))

-- How long the longest of the texts is, at least.
longest_below :
    (max_len : ℕ) (lines : List Bytes)
    → (max_len ≤ longest max_len lines) × All (λ line. length line ≤ longest max_len lines) lines
unfolding longest
longest_below max_len [] = (omega arith, tt)
longest_below max_len (line ∷ lines) =
    let m = if ltb max_len (length line) then length line else max_len in
    let (a, b) = longest_below m lines in
    let old : max_len ≤ m = ground arith in
    let new : length line ≤ m = ground arith in (omega (arith, a, old), (omega (arith, a, new), b))

All-below :
    (n : ℕ) (lines : List Bytes)
    → All (λ line. length line ≤ n) lines
    → All (λ line. length line < n + 1) lines
All-below n [] h = tt
All-below n (line ∷ lines) (h, hs) = (omega arith, All-below n lines hs)

-- The texts of a CLIENT_INFO block that are not empty become the strings of the array, in order, and
-- the width that is given to the ODB takes each of them with its NUL; every text has no NUL in it.
pub handle_str_array_bank_lines :
    (p : Bytes) (lines : List Bytes) (rest : Bytes) (s : Frontend)
    → strncmp_eq 14 (gem_bank_at p).name.varcategory (codes "CLIENT_INFO") ≡ true
    → (get_data_entry p 0).1 ≡ block_of lines ++ rest
    → sub_u32 (gem_bank_at p).block_size 16 ≡ length (block_of lines)
    → All NonNul lines
    → (width : ℕ) × (handle_str_array_bank p s
        ≡ ok (call (write_strings (varname_text p) (select is_filled lines) width) s))
      × All (λ line. length line < width) (select is_filled lines)
unfolding handle_str_array_bank
handle_str_array_bank_lines p lines rest s info block size texts =
    let array = select is_filled lines in
    let split = split_lines-block_of lines rest (length (block_of lines)) texts refl in
    (
      longest 0 array + 1,
      rw (info, block, size, split) refl,
      All-below (longest 0 array) array (longest_below 0 array).1,
    )
