-- ===== src/Launch/Arguments.antt =====
-- The arguments of main in src/feGEMmain.cxx.
use fe_gem.Common.{
  ℕ, ◌≡◌, refl, Bool, true, false, ◌&&◌, ◌||◌, not, Option, none, some, List, [], ◌∷◌, ◌++◌, Bytes,
  codes, ltb, ◌==◌, if◌then◌else◌, length, strncmp_eq, bytes_eq,
}
use fe_gem.Server.State.{Run, ok, undefined, exited, ◌>>=◌}
use fe_gem.Server.Commands.{atoi}

-- SupervisorMode, client and the bit pattern of max_event_size
pub record Options : Type 0 where
  pub supervisor_mode : Bool
  pub client : Bytes
  pub max_event_size : ℕ

abbrev pub default_options : Options
default_options = record { supervisor_mode = true; client = codes "NULL"; max_event_size = 0 }

-- The first loop: an argument that begins with -h ends the program.
unfoldable pub asks_help : List Bytes → Bool
asks_help [] = false
asks_help (arg ∷ args) = strncmp_eq 2 arg (codes "-h") || asks_help args

-- The second loop. `args[++i]` behind the last argument is undefined, usage() exits.
unfoldable pub read_options : List Bytes → Options → Run Options
read_options [] o = ok o
read_options (arg ∷ []) o =
    if strncmp_eq 8 arg (codes "--client") || strncmp_eq 16 arg (codes "--max_event_size")
    then undefined
    else exited
read_options (arg ∷ value ∷ args) o =
    let with_client = read_options args (record o { client = value; supervisor_mode = false }) in
    let with_size = atoi value >>= λ n. read_options args (record o { max_event_size = n }) in
    if strncmp_eq 8 arg (codes "--client")
    then with_client
    else if strncmp_eq 16 arg (codes "--max_event_size")
    then with_size
    else exited

-- What main makes of argv: the program's name and the arguments behind it.
unfoldable pub parse_arguments : Bytes → List Bytes → Run Options
unfolding asks_help read_options
parse_arguments program args = if asks_help (program ∷ args) then exited else (do
  o ← read_options args default_options
  (if not o.supervisor_mode && bytes_eq o.client (codes "NULL") then exited else ok o))

-- The name of the frontend.
unfoldable pub frontend_name : Options → Bytes
frontend_name o =
    codes "fe" ++ (if o.supervisor_mode then codes "GEM" else codes "GEM_" ++ o.client)

-- Whether the control room hears that the name is too long; it is used all the same.
unfoldable pub is_too_long : Bytes → Bool
is_too_long name = ltb 31 (length name)

-- WI("event_size", max_event_size), if it is not the default
unfoldable pub event_size_write : Options → Option ℕ
event_size_write o = if o.max_event_size == 0 then none else some o.max_event_size

-- A client and an event size that are named on the command line are what main starts with, a
-- negative one included, unless one of them or the program's name begins with -h or the client is
-- called NULL; without its value the last option reads behind the arguments.
pub parse_arguments_named :
    (program client size : Bytes) (n : ℕ)
    → strncmp_eq 2 program (codes "-h") ≡ false
    → atoi size ≡ ok n
    → strncmp_eq 2 client (codes "-h") ≡ false
    → strncmp_eq 2 size (codes "-h") ≡ false
    → bytes_eq client (codes "NULL") ≡ false
    → (parse_arguments program (codes "--client" ∷ client ∷ codes "--max_event_size" ∷ size ∷ [])
        ≡ ok (record { supervisor_mode = false; client = client; max_event_size = n }))
      × (parse_arguments program (codes "--client" ∷ client ∷ codes "--max_event_size" ∷ [])
          ≡ undefined)
unfolding parse_arguments asks_help read_options
parse_arguments_named program client size n h e h1 h2 h3 =
    (rw (h, h1, h2, e, h3) refl, rw (h, h1) refl)
