-- ===== src/Settings/Reload.antt =====
-- What a client loads after it has saved: src/SettingsFileDatabase.cxx, both operations together.
use fe_gem.Common.{
  ℕ, ◌+◌, ◌<◌, ◌≡◌, refl, ap, ◌∙◌, inl, inr, Bool, true, false, some, List, [], ◌∷◌, ◌++◌, arith,
  Bytes, codes, ltb, lt→ltb, length, drop, All, select, strncmp_eq, bytes_eq, bytes_eq_self,
  bytes_eq→eq, Bool-cases, length-append,
}
use fe_gem.Message.Queue.{MessageHandler, queue_object}
use fe_gem.Settings.Base64.{base64_encode, base64_decode, IsByte, base64_decode-base64_encode}
use fe_gem.Settings.Hex.{hex_digest}
use fe_gem.Settings.Names.{block_of, IsName, parse_block-block_of, parse_block_lem}
use fe_gem.Settings.Files.{
  FileCall, make_directory, write_file, ok, slash, directory_of, save_settings_file, name_filter,
  last?, Disk, load_parts, load_settings_file, written,
}

-- The name under which a save stores a file.
abbrev pub stored_name : Bytes → Bytes → Bytes
stored_name file unixtime = file ++ (codes "." ++ unixtime)

abbrev pub md5_name : Bytes → Bytes
md5_name file = codes "md5." ++ file

abbrev pub save_calls : (Bytes → Bytes) → Bytes → Bytes → Bytes → Bytes → Bytes → List FileCall
save_calls md5 database project file binary unixtime =
    make_directory database
    ∷ make_directory (database ++ (slash ++ project))
    ∷ write_file (directory_of database project ++ stored_name file unixtime) binary
    ∷ write_file (directory_of database project ++ md5_name file) (hex_digest (md5 binary))
    ∷ []

bytes_eq-append : (front xs ys : Bytes) → bytes_eq (front ++ xs) (front ++ ys) ≡ bytes_eq xs ys
bytes_eq-append [] xs ys = refl
bytes_eq-append (c ∷ cs) xs ys = ground (arith, bytes_eq-append cs xs ys)

names_differ :
    (file unixtime : Bytes)
    → 3 < length unixtime
    → bytes_eq (md5_name file) (stored_name file unixtime) ≡ false
names_differ file unixtime h =
    elim (Bool-cases (bytes_eq (md5_name file) (stored_name file unixtime))) [
      | inl e ↦ absurd (
          omega (
            arith,
            ap length (bytes_eq→eq (md5_name file) (stored_name file unixtime) e),
            length-append file (codes "." ++ unixtime),
          ))
      | inr n ↦ n
    ]

written-first :
    (p q x y : Bytes)
    → bytes_eq q p ≡ false
    → written (write_file p x ∷ write_file q y ∷ []) p ≡ some x
written-first p q x y e = ground (arith, bytes_eq_self p)

drop-append_cons :
    (file : Bytes) (more : ℕ) (other : Bytes)
    → drop (length file + 1) (file ++ more ∷ other) ≡ other
drop-append_cons [] more other = refl
drop-append_cons (c ∷ cs) more other = ground (arith, drop-append_cons cs more other)

ltb-append_cons :
    (file : Bytes) (more : ℕ) (other : Bytes)
    → ltb (length file) (length (file ++ more ∷ other)) ≡ true
ltb-append_cons file more other = lt→ltb _ _ (omega (arith, length-append file (more ∷ other)))

strncmp_eq-prefix :
    (file tail : Bytes) → IsName file → strncmp_eq (length file) (file ++ tail) file ≡ true
strncmp_eq-prefix [] tail h = refl
strncmp_eq-prefix (c ∷ cs) tail h = ground (arith, strncmp_eq-prefix cs tail h.1)

last?-cons : (x : Bytes) (xs : List Bytes) {y : Bytes} → last? xs ≡ some y → last? (x ∷ xs) ≡ some y
last?-cons x [] e = cc
last?-cons x (z ∷ zs) e = e

-- The last entry is the last of those that pass a filter, if it passes.
last?-select :
    (p : Bytes → Bool) (xs : List Bytes) (x : Bytes)
    → p x ≡ true
    → last? xs ≡ some x
    → last? (select p xs) ≡ some x
last?-select p [] x px e = cc
last?-select p (y ∷ []) x px e = ground arith
last?-select p (y ∷ z ∷ zs) x px e =
    let rest = last?-select p (z ∷ zs) x px e in
    ground (arith, rest, last?-cons y (select p (z ∷ zs)) rest)

drop-stored_name :
    (file unixtime : Bytes) → drop (length file + 1) (stored_name file unixtime) ≡ unixtime
drop-stored_name file unixtime = drop-append_cons file b'.' unixtime

ltb-stored_name :
    (file unixtime : Bytes) → ltb (length file) (length (stored_name file unixtime)) ≡ true
ltb-stored_name file unixtime = ltb-append_cons file b'.' unixtime

module _ (md5 : Bytes → Bytes) (database project file binary unixtime : Bytes) where
  written-save :
      3 < length unixtime
      → written
          (save_calls md5 database project file binary unixtime)
          (directory_of database project ++ stored_name file unixtime)
        ≡ some binary
  written-save h =
      written-first (directory_of database project ++ stored_name file unixtime)
        (directory_of database project ++ md5_name file) binary (hex_digest (md5 binary))
        (bytes_eq-append (directory_of database project) (md5_name file) (stored_name file unixtime)
          ∙ names_differ file unixtime h)

  save-block_of :
      IsName project
      → IsName file
      → save_settings_file md5 database 1 (block_of project file binary) unixtime
        ≡ ok (save_calls md5 database project file binary unixtime)
  unfolding save_settings_file
  save-block_of hp hf =
      let (p, f, b) = parse_block-block_of project file binary hp hf in rw (b, p, f)

-- A client saves a file and later asks for it. If the saved file is then the last of the directory
-- entries that begin with its name, and the disk holds at its path what the save wrote there, whatever
-- else it holds, the reply carries the two names, the time of the save, the digest and the bytes that
-- were saved, which the client gets back by decoding: for any revision offset, though the comments in
-- the code promise an older revision for an offset, which is never read.
pub load_after_save :
    (md5 : Bytes → Bytes) (disk : Disk) (database project file binary unixtime rest : Bytes)
    (offset : ℕ) (message : MessageHandler)
    → IsName project
    → IsName file
    → All IsByte binary
    → 3 < length unixtime
    → last? (select (name_filter file) (disk.scandir (directory_of database project)))
      ≡ some (stored_name file unixtime)
    → ((calls : List FileCall)
        → save_settings_file md5 database 1 (block_of project file binary) unixtime ≡ ok calls
        → disk.file (directory_of database project ++ stored_name file unixtime)
          ≡ written calls (directory_of database project ++ stored_name file unixtime))
    → (load_settings_file md5 disk database 1 (block_of project file rest) offset message
        ≡ ok (
            queue_object message (codes "SettingsFile") (
              (codes "ProjectName", project)
              ∷ (codes "Filename", file)
              ∷ (codes "UNIXTIME", unixtime)
              ∷ (codes "MD5", hex_digest (md5 binary))
              ∷ (codes "base64data", base64_encode binary)
              ∷ [])))
      × (base64_decode (base64_encode binary) ≡ some binary)
unfolding load_settings_file
load_after_save md5 disk database project file binary unixtime rest offset message hp hf hb ht last
      holds =
    let saved =
      holds (save_calls md5 database project file binary unixtime)
        (save-block_of md5 database project file binary unixtime hp hf)
      ∙ written-save md5 database project file binary unixtime ht in
    (
      ap (λ parts. load_parts md5 disk database parts message)
            (parse_block_lem project file rest hp hf)
          ∙ rw (last, load_parts)
              (rw (saved, ltb-stored_name file unixtime, drop-stored_name file unixtime)),
      base64_decode-base64_encode binary hb,
    )

-- The name filter takes every entry that begins with the wanted name. So a load of one file answers
-- with another file, whose name is longer, whenever that one is sorted last: under the wanted name,
-- and with the end of the other name for the time of the save.
pub load_other_file :
    (md5 : Bytes → Bytes) (disk : Disk) (database project file other contents rest : Bytes)
    (offset more : ℕ) (message : MessageHandler)
    → IsName project
    → IsName file
    → last? (disk.scandir (directory_of database project)) ≡ some (file ++ more ∷ other)
    → disk.file (directory_of database project ++ (file ++ more ∷ other)) ≡ some contents
    → load_settings_file md5 disk database 1 (block_of project file rest) offset message
      ≡ ok (
          queue_object message (codes "SettingsFile") (
            (codes "ProjectName", project)
            ∷ (codes "Filename", file)
            ∷ (codes "UNIXTIME", other)
            ∷ (codes "MD5", hex_digest (md5 contents))
            ∷ (codes "base64data", base64_encode contents)
            ∷ []))
unfolding load_settings_file name_filter
load_other_file md5 disk database project file other contents rest offset more message hp hf last
      has =
    ap (λ parts. load_parts md5 disk database parts message)
      (parse_block_lem project file rest hp hf)
    ∙ rw
        (
          last?-select (name_filter file) (disk.scandir (directory_of database project))
              (file ++ more ∷ other) (strncmp_eq-prefix file (more ∷ other) hf) last,
          load_parts,
        )
        (rw (has, ltb-append_cons file more other, drop-append_cons file more other))
