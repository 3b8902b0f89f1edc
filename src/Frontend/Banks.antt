-- ===== src/Frontend/Banks.antt =====
-- LogBank, HandleBank and HandleBankArray of src/feGEMClass.cxx. HandleFileBank only prints.
use fe_gem.Common.{
  ℕ, zero, suc, ◌+◌, ◌-◌, ◌^◌, Option, none, some, ◌∷◌, ◌++◌, Bytes, codes, ltb, ◌==◌,
  if◌then◌else◌, length, drop, c_str, to_string,
}
use fe_gem.Bank.Layout.{
  gem_bank_at, gem_bank_array_at, get_header_size, get_array_header_size, get_total_size,
  get_array_total_size, get_entries, u32,
}
use fe_gem.Message.Queue.{queue_message, queue_error}
use fe_gem.Server.State.{defined, Run, ok, undefined, exited, ◌>>=◌}
use fe_gem.Periodicity.Manager.{add_ints}
use fe_gem.Frontend.State.{Frontend, World, queued, with_message}
use fe_gem.Frontend.Kinds.{
  Kind, double, float, bool, int32, uint32, uint16, string_array, string, file, kind_of,
  element_size,
}
use fe_gem.Frontend.Lines.{handle_str_array_bank}
use fe_gem.Frontend.Strings.{Handled, unchanged, log_values, handle_str_bank}

-- `%d` of the bit pattern of an int
abbrev pub print_int : ℕ → Bytes
print_int n = if ltb n (2 ^ 31) then to_string n else b'-' ∷ to_string (2 ^ 32 - n)

-- "Received: %.16s/%.16s - %dx ( %d x %.4s ) [%d bytes]", at most 101 bytes for char buf[200]. The
-- elements are counted as pointers.
unfoldable pub debug_text : Bytes → Bytes
debug_text p =
    let b = gem_bank_at p in
    codes "Received: "
    ++ (c_str b.name.varcategory
        ++ (b'/'
            ∷ (c_str b.name.varname
                ++ (codes " - "
                    ++ (print_int b.number_of_entries
                        ++ (codes "x ( "
                            ++ (print_int (get_entries 8 b.block_size)
                                ++ (codes " x "
                                    ++ (c_str b.name.datatype
                                        ++ (codes " ) ["
                                            ++ (print_int (get_total_size b)
                                                ++ codes " bytes]")))))))))))

unfoldable pub debug_note : Bytes → Frontend → Run Frontend
unfolding debug_text
debug_note p s =
    if s.server.debug_mode == 0
    then ok s
    else (do m ← queued (queue_message s.server.message (debug_text p)); ok (with_message m s))

-- "ERROR: [%s] More bytes sent (%u) than MIDAS has assiged for buffer (%d)"
unfoldable pub size_error : Bytes → ℕ → ℕ → Bytes
size_error name sent event_size =
    codes "ERROR: ["
    ++ (name
        ++ (codes "] More bytes sent ("
            ++ (to_string sent
                ++ (codes ") than MIDAS has assiged for buffer ("
                    ++ (to_string event_size ++ codes ")")))))

-- sprintf into char error[100], and QueueError
unfoldable pub report_size : ℕ → Frontend → Run Frontend
unfolding size_error
report_size sent s =
    let error = size_error s.logger.eq_name sent s.server.event_size in
    if ltb (length error) 100
    then (do
      m ← queued (queue_error s.server.message s.logger.eq_name error)
      ok (with_message m s))
    else undefined

-- The bit pattern of the int -1.
abbrev pub minus_one : ℕ
minus_one = 2 ^ 32 - 1

-- a + b on int; an overflow is undefined.
unfoldable pub add_int : ℕ → ℕ → Run ℕ
unfolding add_ints
add_int a b = defined (add_ints a b)

module _ (w : World) (hostname : Bytes) where
  unfoldable pub log_kind : Option Kind → Bytes → Frontend → Run Handled
  unfolding element_size
  log_kind none p s = exited
  log_kind (some string_array) p s = unchanged p (handle_str_array_bank p s)
  log_kind (some string) p s = handle_str_bank w p hostname s
  log_kind (some file) p s = ok (s, p)
  log_kind (some double) p s = log_values w (element_size double) p s
  log_kind (some float) p s = log_values w (element_size float) p s
  log_kind (some bool) p s = log_values w (element_size bool) p s
  log_kind (some int32) p s = log_values w (element_size int32) p s
  log_kind (some uint32) p s = log_values w (element_size uint32) p s
  log_kind (some uint16) p s = log_values w (element_size uint16) p s

  unfoldable pub log_bank : Bytes → Frontend → Run Handled
  unfolding debug_note log_kind kind_of
  log_bank p s = do s ← debug_note p s; log_kind (kind_of (gem_bank_at p).name.datatype) p s

  -- The bank is what memory there is from its header on; a header that is not in it is undefined.
  -- The int that is returned comes first.
  unfoldable pub handle_bank : Bytes → Frontend → Run (ℕ × Handled)
  unfolding log_bank report_size
  handle_bank p s =
      let b = gem_bank_at p in
      if ltb (length p) get_header_size
      then undefined
      else if ltb s.server.event_size (u32 (b.block_size + get_header_size))
      then (do s ← report_size (get_total_size b) s; ok (minus_one, (s, p)))
      else (do (s, q) ← log_bank p s; ok ((gem_bank_at q).number_of_entries, (s, q)))

  -- The loop over n banks, with NGEMBanks before it. A bank is stepped over as it is after its call.
  unfoldable pub handle_banks : ℕ → ℕ → Bytes → Frontend → Run (ℕ × Frontend)
  unfolding handle_bank add_int
  handle_banks zero banks p s = ok (banks, s)
  handle_banks (suc n) banks p s = do
    (count, (s, q)) ← handle_bank p s
    banks ← add_int banks count
    handle_banks n banks (drop (get_total_size (gem_bank_at q)) q) s

  unfoldable pub handle_bank_array : Bytes → Frontend → Run (ℕ × Frontend)
  unfolding handle_banks report_size
  handle_bank_array p s =
      let a = gem_bank_array_at p in
      if ltb s.server.event_size (get_array_total_size a)
      then (do s ← report_size (get_array_total_size a) s; ok (minus_one, s))
      else handle_banks a.number_of_entries 0 (drop get_array_header_size p) s
