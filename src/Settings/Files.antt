-- ===== src/Settings/Files.antt =====
-- SaveSettingsFile and LoadSettingsFile. What the program takes from elsewhere is an argument: MD5
-- (openssl), scandir with alphasort and the files (libc), and the time.
use fe_gem.Common.{
  ℕ, ◌+◌, Bool, Option, none, some, List, [], ◌∷◌, ◌++◌, Bytes, codes, ◌==◌, ltb, if◌then◌else◌,
  length, drop, select, bytes_eq, strncmp_eq,
}
use fe_gem.Message.Queue.{MessageHandler, queue_object}
use fe_gem.Settings.Base64.{base64_encode}
use fe_gem.Settings.Hex.{hex_digest}
use fe_gem.Settings.Names.{Parts, parse_block, binary_data}

-- The system calls of a save, in order.
pub data FileCall : Type 0 where
  make_directory : Bytes → FileCall
  write_file : Bytes → Bytes → FileCall

-- `undefined` stands for an access out of bounds, `aborted` for a failed assert.
pub data Outcome {ℓ} (A : Type ℓ) : Type ℓ where
  ok : A → Outcome A
  undefined aborted : Outcome A

abbrev pub slash : Bytes
slash = b'/' ∷ []

-- SettingsFileDatabasePath/ProjectName/
abbrev pub directory_of : Bytes → Bytes → Bytes
directory_of database project = database ++ (slash ++ (project ++ slash))

-- `block` is the BlockSize - 16 bytes of the data of the first entry, `unixtime` the decimal time.
unfoldable pub save_settings_file :
    (Bytes → Bytes) → Bytes → ℕ → Bytes → Bytes → Outcome (List FileCall)
save_settings_file md5 database number_of_entries block unixtime =
    let parts = parse_block block in
    let directory = directory_of database parts.project_name in
    if number_of_entries == 1
    then elim (binary_data block) [
      | none ↦ undefined
      | some binary ↦ ok (
          make_directory database
          ∷ make_directory (database ++ (slash ++ parts.project_name))
          ∷ write_file (directory ++ (parts.file_name ++ (codes "." ++ unixtime))) binary
          ∷ write_file (directory ++ (codes "md5." ++ parts.file_name)) (hex_digest (md5 binary))
          ∷ [])
    ]
    else aborted

-- nameFilter: the directory entries that begin with the wanted name.
unfoldable pub name_filter : Bytes → Bytes → Bool
name_filter find_filename d_name = strncmp_eq (length find_filename) d_name find_filename

abbrev pub last? : List Bytes → Option Bytes
last? [] = none
last? (x ∷ []) = some x
last? (x ∷ y ∷ ys) = last? (y ∷ ys)

-- What the libc calls answer: the sorted entries of a directory, and the bytes of a file.
pub record Disk : Type 0 where
  pub scandir : Bytes → List Bytes
  pub file : Bytes → Option Bytes

-- The load of the last entry that begins with the file name.
unfoldable pub load_parts :
    (Bytes → Bytes) → Disk → Bytes → Parts → MessageHandler → Outcome MessageHandler
load_parts md5 disk database parts message =
    let directory = directory_of database parts.project_name in
    elim (last? (select (name_filter parts.file_name) (disk.scandir directory))) [
      | none ↦ undefined
      | some chosen ↦ elim (disk.file (directory ++ chosen)) [
        | none ↦ undefined
        | some contents ↦
            if ltb (length parts.file_name) (length chosen)
            then ok (
                queue_object message (codes "SettingsFile") (
                  (codes "ProjectName", parts.project_name)
                  ∷ (codes "Filename", parts.file_name)
                  ∷ (codes "UNIXTIME", drop (length parts.file_name + 1) chosen)
                  ∷ (codes "MD5", hex_digest (md5 contents))
                  ∷ (codes "base64data", base64_encode contents)
                  ∷ []))
            else undefined
      ]
    ]

-- `offset` is taken and not used.
unfoldable pub load_settings_file :
    (Bytes → Bytes) → Disk → Bytes → ℕ → Bytes → ℕ → MessageHandler → Outcome MessageHandler
unfolding load_parts
load_settings_file md5 disk database number_of_entries block offset message =
    if number_of_entries == 1
    then load_parts md5 disk database (parse_block block) message
    else aborted

-- A call of the disk puts a file where a load finds it.
abbrev pub written : List FileCall → Bytes → Option Bytes
written [] path = none
written (make_directory d ∷ calls) path = written calls path
written (write_file p contents ∷ calls) path = elim (written calls path) [
  | some later ↦ some later
  | none ↦ (if bytes_eq p path then some contents else none)
]
