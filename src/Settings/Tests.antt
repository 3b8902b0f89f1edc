-- ===== src/Settings/Tests.antt =====
-- Settings files on which the encoders, the save and the load run, and the theorems at such inputs.
use fe_gem.Common.{◌≡◌, refl, some, List, [], ◌∷◌, ◌++◌, arith, Bytes, codes}
use fe_gem.Message.Queue.{MessageHandler, queue_object}
use fe_gem.Settings.Base64.{base64_encode, base64_decode, base64_decode-base64_encode}
use fe_gem.Settings.Hex.{hex_digest}
use fe_gem.Settings.Names.{parse_block, binary_data, block_of, parse_block-block_of}
use fe_gem.Settings.Files.{
  directory_of, FileCall, ok, save_settings_file, name_filter, Disk, load_settings_file, written,
}
use fe_gem.Settings.Reload.{load_after_save, load_other_file, save_calls, stored_name}

base64_runs :
    (base64_encode (codes "Man") ≡ codes "TWFu")
    × (base64_encode (codes "Ma") ≡ codes "TWE=")
    × (base64_encode (codes "M") ≡ codes "TQ==")
unfolding base64_encode
base64_runs = (refl, refl, refl)

hex_runs : hex_digest (0xd4 ∷ 0x1d ∷ []) ≡ codes "d41d"
unfolding hex_digest
hex_runs = refl

abbrev binary : Bytes
binary = 0 ∷ 255 ∷ b'"' ∷ b'x' ∷ []

base64_decode-base64_encode_example : base64_decode (base64_encode binary) ≡ some binary
base64_decode-base64_encode_example = base64_decode-base64_encode binary (omega arith)

abbrev project : Bytes
project = codes "Trap"

abbrev file : Bytes
file = codes "dump"

abbrev database : Bytes
database = codes "/db"

abbrev time : Bytes
time = codes "1600000000"

-- A slash in a name is left out, so that no name leads into another directory; ".." does.
slashes_run :
    let parts = parse_block (codes "../a" ++ 0 ∷ (codes "b/c" ++ 0 ∷ [])) in
    (parts.project_name ≡ codes "..a") × (parts.file_name ≡ codes "bc")
unfolding parse_block
slashes_run = (refl, refl)

parse_block-block_of_example :
    ((parse_block (block_of project file binary)).project_name ≡ project)
    × ((parse_block (block_of project file binary)).file_name ≡ file)
    × (binary_data (block_of project file binary) ≡ some binary)
parse_block-block_of_example = parse_block-block_of project file binary (omega arith) (omega arith)

-- A digest that stands for MD5 in the runs.
abbrev first_byte : Bytes → Bytes
first_byte [] = 0 ∷ []
first_byte (b ∷ bs) = b ∷ []

abbrev calls : List FileCall
calls = save_calls first_byte database project file binary time

abbrev disk : Disk
disk = record {
  scandir = λ d. codes "dump.1500000000" ∷ stored_name file time ∷ codes "md5.dump" ∷ [];
  file = λ path. written calls path;
}

abbrev fresh : MessageHandler
fresh = record { json_message_queue = []; json_error_queue = []; total_text = 0; alarms = [] }

save_runs : save_settings_file first_byte database 1 (block_of project file binary) time ≡ ok calls
unfolding save_settings_file parse_block binary_data hex_digest
save_runs = refl

written-calls :
    (cs : List FileCall)
    → save_settings_file first_byte database 1 (block_of project file binary) time ≡ ok cs
    → written calls (directory_of database project ++ stored_name file time)
      ≡ written cs (directory_of database project ++ stored_name file time)
written-calls cs e = cc (save_runs)

abbrev load_message : MessageHandler
load_message = queue_object fresh (codes "SettingsFile") (
    (codes "ProjectName", project)
    ∷ (codes "Filename", file)
    ∷ (codes "UNIXTIME", time)
    ∷ (codes "MD5", hex_digest (first_byte binary))
    ∷ (codes "base64data", base64_encode binary)
    ∷ [])

load_after_save_example :
    (load_settings_file first_byte disk database 1 (block_of project file []) 2 fresh
      ≡ ok load_message)
    × (base64_decode (base64_encode binary) ≡ some binary)
unfolding name_filter
load_after_save_example =
    load_after_save first_byte disk database project file binary time [] 2 fresh (omega arith)
      (omega arith) (omega arith) (omega arith) refl written-calls

abbrev other_disk : Disk
other_disk = record {
  scandir = λ d. codes "dump.1600000000" ∷ codes "dump2.1500000000" ∷ [];
  file = λ path. some (codes "other");
}

load_other_file_example :
    load_settings_file first_byte other_disk database 1 (block_of project file []) 0 fresh
    ≡ ok (
        queue_object fresh (codes "SettingsFile") (
          (codes "ProjectName", project)
          ∷ (codes "Filename", file)
          ∷ (codes "UNIXTIME", codes ".1500000000")
          ∷ (codes "MD5", hex_digest (first_byte (codes "other")))
          ∷ (codes "base64data", base64_encode (codes "other"))
          ∷ []))
load_other_file_example =
    load_other_file first_byte other_disk database project file (codes ".1500000000")
      (codes "other") [] 0 b'2' fresh (omega arith) (omega arith) refl refl
