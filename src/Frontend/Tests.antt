-- ===== src/Frontend/Tests.antt =====
-- A frontend thread at concrete banks and connections.
use fe_gem.Common.{
  ℕ, ◌-◌, ◌<◌, ◌^◌, ◌≡◌, refl, some, List, [], ◌∷◌, ◌++◌, arith, Bytes, codes, length, select,
  replicate, All, to_string,
}
use fe_gem.Analyzer.Dispatch.{element_of}
use fe_gem.Bank.Layout.{gem_bank, gem_bank_at, field, get_data_entry, sub_u32}
use fe_gem.Bank.Time.{be_bytes, le_value}
use fe_gem.Message.Queue.{formatted}
use fe_gem.Server.State.{◌>>=◌, ok, undefined}
use fe_gem.Frontend.State.{Frontend, write_strings, call, pipe}
use fe_gem.Frontend.Kinds.{kind_of, stored_as, element_of-kind_of}
use fe_gem.Frontend.Lines.{
  handle_str_array_bank, handle_str_array_bank_lines, varname_text, is_filled, block_of,
}
use fe_gem.Frontend.Elog.{Elog, post_elog, elog_of, elog_command, post_elog-elog_of}
use fe_gem.Frontend.Strings.{handle_talk}
use fe_gem.Frontend.Banks.{add_int, minus_one}
use fe_gem.Frontend.Serve.{no_connection, silent, idle, serve_host}
use fe_gem.Frontend.Refusals.{handle_talk_format}
use fe_gem.Frontend.Samples.{bank_memory, magnet, world, thread, visit}

quiet_run :
    serve_host world (record visit { incoming = no_connection }) thread
    ≡ (idle thread >>= λ s. ok (silent, s))
unfolding serve_host
quiet_run = refl

element_of-kind_of_example : element_of (codes "STRA") ≡ stored_as (kind_of (codes "STRA"))
element_of-kind_of_example = element_of-kind_of (codes "STRA")

abbrev lines : List Bytes
lines = codes "one" ∷ [] ∷ codes "three" ∷ []

abbrev lines_bank : Bytes
lines_bank = bank_memory (codes "STRA") (codes "CLIENT_INFO") (codes "Notes") (block_of lines)

lines_run : (get_data_entry lines_bank 0).1 ≡ block_of lines ++ []
unfolding get_data_entry gem_bank_at gem_bank field le_value be_bytes
lines_run = refl

lines_size_run : sub_u32 (gem_bank_at lines_bank).block_size 16 ≡ length (block_of lines)
unfolding gem_bank_at gem_bank field le_value be_bytes
lines_size_run = refl

handle_str_array_bank_lines_example :
    (width : ℕ) × (handle_str_array_bank lines_bank thread
      ≡ ok (call (write_strings (varname_text lines_bank) (select is_filled lines) width) thread))
    × All (λ line. length line < width) (select is_filled lines)
handle_str_array_bank_lines_example =
    handle_str_array_bank_lines lines_bank lines [] thread
      (unfold gem_bank_at gem_bank field in refl) lines_run lines_size_run (ground arith)

abbrev elog : Elog
elog = record {
  elog_type = codes "shift";
  attributes = codes "Author=me" ∷ [];
  encoding = codes "plain";
  message = codes "fine";
}

post_elog-elog_of_example :
    post_elog (elog_of elog []) thread
    ≡ ok (call (pipe (elog_command (codes "elog") 7 elog) (codes "fine")) thread)
post_elog-elog_of_example =
    post_elog-elog_of elog [] thread (omega arith) ground arith ground arith ground arith ground
      arith (omega arith) (omega arith) (omega arith) (omega arith)

command_run :
    elog_command (codes "elog") 7 elog
    ≡ codes
        "ssh -x  elog ~/packages/elog/elog -h localhost -p 8080  -l shift -n plain -a Run=7 -a Author=\\\"me\\\""
unfolding elog_command to_string
command_run = refl

abbrev debugged : Frontend
debugged = record thread { server = record thread.server { debug_mode = 1 } }

abbrev quoted_bank : Bytes
quoted_bank = bank_memory (codes "DBL" ++ 0 ∷ []) (codes "A\"B") (codes "C") (replicate 8 7)

abbrev talk_bank : Bytes
talk_bank = bank_memory (codes "STR" ++ 0 ∷ []) [] (codes "TALK") (codes "50%s" ++ 0 ∷ [])

talk_run : handle_talk talk_bank thread ≡ undefined
talk_run =
    (handle_talk_format talk_bank thread).0 (codes "50") [] b's'
      (unfold get_data_entry gem_bank_at gem_bank field le_value be_bytes in refl) (ground arith)
      refl

formatted_run : formatted (codes "50%% done") ≡ some (codes "50% done")
unfolding formatted
formatted_run = refl

add_int_runs : (add_int 3 minus_one ≡ ok 2) × (add_int (2 ^ 31 - 1) 1 ≡ undefined)
unfolding add_int
add_int_runs = (refl, refl)

entries_run : (gem_bank_at magnet).number_of_entries ≡ 1
unfolding gem_bank_at gem_bank field le_value be_bytes
entries_run = refl
