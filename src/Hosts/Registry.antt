-- ===== src/Hosts/Registry.antt =====
-- The lists of class AllowedHosts, src/AllowedHosts.cxx and include/AllowedHosts.h. A clock reading
-- is an argument, in nanoseconds; a write to the ODB is a call that is recorded, newest first.
use fe_gem.Common.{
  ℕ, ◌+◌, ◌-◌, ◌*◌, Bool, true, false, List, [], ◌∷◌, ◌++◌, Bytes, ltb, ◌==◌, if◌then◌else◌, length,
  not,
}
use fe_gem.Hosts.Pattern.{matches}

pub record Host : Type 0 where
  pub host_name : Bytes
  pub rejection_count : ℕ
  pub last_contact : ℕ

-- The two arrays of host names under Equipment/<frontend>/Settings.
pub data ListKey : Type 0 where
  allowed_key banned_key : ListKey

-- fOdbEqSettings->WSAI(key, index, value)
pub data OdbCall : Type 0 where
  wsai : ListKey → ℕ → Bytes → OdbCall

pub record AllowedHosts : Type 0 where
  pub allowed_hosts : List Host
  pub questionable_hosts : List Host
  pub banned_hosts : List Host
  pub allow_self_registration : Bool
  pub odb_calls : List OdbCall

-- What a call comes to; `use_after_free` is a read of a list node that was erased.
pub data Result {ℓ} (A : Type ℓ) : Type ℓ where
  ok : A → Result A
  use_after_free : Result A

-- 1000 ms
abbrev pub cool_down_time : ℕ
cool_down_time = 1_000_000_000

abbrev pub retry_limit : ℕ
retry_limit = 10

abbrev pub new_host : Bytes → ℕ → Host
new_host hostname now = record { host_name = hostname; rejection_count = 0; last_contact = now }

-- The constructor's loops over the names read from the ODB: an empty name is passed over.
unfoldable pub hosts_of : ℕ → List Bytes → List Host
hosts_of now [] = []
hosts_of now ([] ∷ names) = hosts_of now names
hosts_of now ((c ∷ cs) ∷ names) = new_host (c ∷ cs) now ∷ hosts_of now names

-- Ten blank places are kept behind the hosts.
unfoldable pub grow : ListKey → List Bytes → List Host → List OdbCall → List OdbCall
grow key names hosts calls =
    if ltb (length names) (length hosts + 10)
    then wsai key (length hosts + 10) [] ∷ calls
    else calls

-- The constructor, on what RB and RSA read.
unfoldable pub init : Bool → List Bytes → List Bytes → ℕ → AllowedHosts
unfolding hosts_of grow
init self_registration allowed banned now = record {
  allowed_hosts = hosts_of now allowed;
  questionable_hosts = [];
  banned_hosts = hosts_of now banned;
  allow_self_registration = self_registration;
  odb_calls =
      grow banned_key banned (hosts_of now banned)
        (grow allowed_key allowed (hosts_of now allowed) []);
}

-- The loop of IsListedAsAllowed and of IsListedAsBanned.
unfoldable pub is_listed : List Host → Bytes → Bool
is_listed [] hostname = false
is_listed (h ∷ hs) hostname = if matches h.host_name hostname then true else is_listed hs hostname

unfoldable pub add_host : AllowedHosts → Bytes → ℕ → AllowedHosts × Bool
add_host s hostname now = if is_listed s.allowed_hosts hostname then (s, false) else (
  record s {
    allowed_hosts = s.allowed_hosts ++ new_host hostname now ∷ [];
    odb_calls = wsai allowed_key (length s.allowed_hosts) hostname ∷ s.odb_calls;
  },
  true,
)

unfoldable pub ban_host : AllowedHosts → Bytes → ℕ → AllowedHosts × Bool
ban_host s hostname now = if is_listed s.banned_hosts hostname then (s, false) else (
  record s {
    banned_hosts = s.banned_hosts ++ new_host hostname now ∷ [];
    odb_calls = wsai banned_key (length s.banned_hosts) hostname ∷ s.odb_calls;
  },
  true,
)

-- What the loop of IsListedAsQuestionable does with the list: the answer and the list after it. A
-- host past the retry limit is pushed to the banned hosts, without a write to the ODB, and erased, and
-- then its erased node is read: what the lists hold behind that is undefined, and not kept.
unfoldable pub question : List Host → Bytes → ℕ → Result (Bool × List Host)
question [] hostname now = ok (true, new_host hostname now ∷ [])
question (h ∷ hs) hostname now =
    let rest = question hs hostname now in
    if matches h.host_name hostname
    then if ltb retry_limit h.rejection_count
      then use_after_free
      else if ltb cool_down_time (now - h.last_contact)
      then ok (true, record h { last_contact = now; rejection_count = h.rejection_count + 1 } ∷ hs)
      else ok (false, h ∷ hs)
    else elim rest [ ok (answer, hs') ↦ ok (answer, h ∷ hs') | use_after_free ↦ use_after_free ]

unfoldable pub is_listed_as_questionable : AllowedHosts → Bytes → ℕ → Result (Bool × AllowedHosts)
unfolding question
is_listed_as_questionable s hostname now = elim (question s.questionable_hosts hostname now) [
  | ok (answer, hs) ↦ ok (answer, record s { questionable_hosts = hs })
  | use_after_free ↦ use_after_free
]

unfoldable pub is_allowed : AllowedHosts → Bytes → ℕ → Result (Bool × AllowedHosts)
unfolding is_listed_as_questionable
is_allowed s hostname now =
    if is_listed s.allowed_hosts hostname
    then ok (true, s)
    else if is_listed s.banned_hosts hostname
    then ok (false, s)
    else if not s.allow_self_registration
    then ok (false, s)
    else is_listed_as_questionable s hostname now

-- What PrintRejection sends to the message system.
pub data Notice : Type 0 where
  rejecting suppressed : Notice

unfoldable pub rejection_notices : ℕ → List Notice
rejection_notices count =
    (if ltb count (2 * retry_limit) then rejecting ∷ [] else [])
    ++ (if count == 2 * retry_limit then suppressed ∷ [] else [])

unfoldable pub print_rejection : List Host → Bytes → List Host × List Notice
unfolding rejection_notices
print_rejection [] hostname = ([], [])
print_rejection (h ∷ hs) hostname =
    let rest = print_rejection hs hostname in
    if matches h.host_name hostname
    then (
      record h { rejection_count = h.rejection_count + 1 } ∷ hs,
      rejection_notices h.rejection_count,
    )
    else (h ∷ rest.0, rest.1)
