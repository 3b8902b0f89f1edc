-- ===== src/Analyzer/FileHeader.antt =====
-- The header of a FILE bank, which SaveToTree of libGEM/src/feGEM_module.cxx looks through.
use fe_gem.Common.{
  ℕ, zero, suc, ◌<◌, ◌≡◌, refl, ap, ◌∙◌, Bool, true, false, ◌&&◌, Option, none, some, [], ◌∷◌, ◌++◌,
  arith, Bytes, codes, ltb, if◌then◌else◌, length, drop, c_str, strncmp_eq, lt→ltb, NonNul,
  next_item, c_str_text, next_item_text,
}

pub record FileHeader : Type 0 where
  pub filename : Bytes
  pub filepath : Bytes
  pub file_md5 : Bytes
  pub file : Option Bytes

abbrev pub no_header : FileHeader
no_header = record { filename = []; filepath = []; file_md5 = []; file = none }

-- The item that the memory from `d` on starts with.
unfoldable pub read_item : Bytes → FileHeader → FileHeader
read_item d h =
    if strncmp_eq 9 d (codes "Filename:")
    then record h { filename = c_str (drop 9 d) }
    else if strncmp_eq 9 d (codes "FilePath:")
    then record h { filepath = c_str (drop 9 d) }
    else if strncmp_eq 4 d (codes "MD5:")
    then record h { file_md5 = c_str (drop 4 d) }
    else if strncmp_eq 5 d (codes "FILE:")
    then record h { file = some (drop 5 d) }
    else h

-- filename.size() && filepath.size() && fileMD5.size() && FILE
unfoldable pub has_all : FileHeader → Bool
has_all h =
    ltb 0 (length h.filename)
    && ltb 0 (length h.filepath)
    && ltb 0 (length h.file_md5)
    && elim h.file [ none ↦ false | some d ↦ true ]

-- The loop, for at most `items` items.
unfoldable pub read_header : ℕ → Bytes → FileHeader → Option FileHeader
unfolding read_item has_all next_item
read_header zero d h = some h
read_header (suc items) d h =
    let h = read_item d h in
    if has_all h
    then some h
    else elim (next_item d) [ none ↦ none | some rest ↦ read_header items rest h ]

-- A header with its items in the order of the source's tests.
abbrev pub header_of : Bytes → Bytes → Bytes → Bytes → Bytes
header_of name path md5 contents =
    codes "Filename:"
    ++ (name
        ++ 0
          ∷ (codes "FilePath:"
              ++ (path ++ 0 ∷ (codes "MD5:" ++ (md5 ++ 0 ∷ (codes "FILE:" ++ contents))))))

step :
    (items : ℕ) (d rest : Bytes) (h : FileHeader)
    → has_all (read_item d h) ≡ false
    → next_item d ≡ some rest
    → read_header (suc items) d h ≡ read_header items rest (read_item d h)
unfolding read_header
step items d rest h e n = rw (read_header, e, n) refl

last_step :
    (items : ℕ) (d : Bytes) (h : FileHeader)
    → has_all (read_item d h) ≡ true
    → read_header (suc items) d h ≡ some (read_item d h)
unfolding read_header
last_step items d h e = rw (read_header, e) refl

filename_item :
    (name rest : Bytes) (h : FileHeader)
    → NonNul name
    → (read_item (codes "Filename:" ++ (name ++ 0 ∷ rest)) h ≡ record h { filename = name })
      × (next_item (codes "Filename:" ++ (name ++ 0 ∷ rest)) ≡ some rest)
unfolding read_item next_item
filename_item name rest h n = (rw (c_str_text name rest n) refl, next_item_text name rest n)

filepath_item :
    (path rest : Bytes) (h : FileHeader)
    → NonNul path
    → (read_item (codes "FilePath:" ++ (path ++ 0 ∷ rest)) h ≡ record h { filepath = path })
      × (next_item (codes "FilePath:" ++ (path ++ 0 ∷ rest)) ≡ some rest)
unfolding read_item next_item
filepath_item path rest h n = (rw (c_str_text path rest n) refl, next_item_text path rest n)

md5_item :
    (md5 rest : Bytes) (h : FileHeader)
    → NonNul md5
    → (read_item (codes "MD5:" ++ (md5 ++ 0 ∷ rest)) h ≡ record h { file_md5 = md5 })
      × (next_item (codes "MD5:" ++ (md5 ++ 0 ∷ rest)) ≡ some rest)
unfolding read_item next_item
md5_item md5 rest h n = (rw (c_str_text md5 rest n) refl, next_item_text md5 rest n)

file_item :
    (contents : Bytes) (h : FileHeader)
    → read_item (codes "FILE:" ++ contents) h ≡ record h { file = some contents }
unfolding read_item
file_item contents h = refl

-- A header without a file is not complete.
has_all-no_file : (h : FileHeader) → h.file ≡ none → has_all h ≡ false
unfolding has_all
has_all-no_file h e = ground (arith, e)

has_all-positive :
    (h : FileHeader) (contents : Bytes)
    → 0 < length h.filename
    → 0 < length h.filepath
    → 0 < length h.file_md5
    → h.file ≡ some contents
    → has_all h ≡ true
unfolding has_all
has_all-positive h contents p1 p2 p3 e =
    rw
      (
        lt→ltb 0 (length h.filename) p1,
        lt→ltb 0 (length h.filepath) p2,
        lt→ltb 0 (length h.file_md5) p3,
        e,
      )
      refl

step_to :
    (items : ℕ) (d rest : Bytes) (h h' : FileHeader)
    → read_item d h ≡ h'
    → h'.file ≡ none
    → next_item d ≡ some rest
    → read_header (suc items) d h ≡ read_header items rest h'
step_to items d rest h h' e f n =
    step items d rest h (ap has_all e ∙ has_all-no_file h' f) n ∙ ap (read_header items rest) e

-- The items of a header that has its file name, path, digest and file in this order are read back,
-- if none of the three names is empty or holds a NUL; the file is all that stands behind them,
-- NULs included.
pub read_header-header_of :
    (name path md5 contents : Bytes)
    → NonNul name
    → NonNul path
    → NonNul md5
    → 0 < length name
    → 0 < length path
    → 0 < length md5
    → read_header 10 (header_of name path md5 contents) no_header
      ≡ some (record { filename = name; filepath = path; file_md5 = md5; file = some contents })
read_header-header_of name path md5 contents n1 n2 n3 p1 p2 p3 =
    let t3 = codes "FILE:" ++ contents in
    let t2 = codes "MD5:" ++ (md5 ++ 0 ∷ t3) in
    let t1 = codes "FilePath:" ++ (path ++ 0 ∷ t2) in
    let t0 = codes "Filename:" ++ (name ++ 0 ∷ t1) in
    let h1 : FileHeader = record no_header { filename = name } in
    let h2 : FileHeader = record h1 { filepath = path } in
    let h3 : FileHeader = record h2 { file_md5 = md5 } in
    let h4 : FileHeader = record h3 { file = some contents } in
    let (i1, s1) = filename_item name t1 no_header n1 in
    let (i2, s2) = filepath_item path t2 h1 n2 in
    let (i3, s3) = md5_item md5 t3 h2 n3 in
    step_to 9 t0 t1 no_header h1 i1 refl s1
    ∙ step_to 8 t1 t2 h1 h2 i2 refl s2
    ∙ step_to 7 t2 t3 h2 h3 i3 refl s3
    ∙ last_step 6 t3 h3
        (ap has_all (file_item contents h3) ∙ has_all-positive h4 contents p1 p2 p3 refl)
    ∙ ap some (file_item contents h3)
