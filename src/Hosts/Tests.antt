-- ===== src/Hosts/Tests.antt =====
-- Inputs on which the comparison and the lists of AllowedHosts run, and the theorems at such inputs.
use fe_gem.Common.{
  ℕ, ◌+◌, ◌*◌, ◌≡◌, refl, Bool, true, false, List, [], ◌∷◌, ◌++◌, arith, Bytes, codes, All, length,
  ◌==◌, ◌&&◌, if◌then◌else◌,
}
use fe_gem.Hosts.Pattern.{matches, scan_to}
use fe_gem.Hosts.Glob.{Glob, end}
use fe_gem.Hosts.Soundness.{IsLiteral, matches_literal_iff, matches-Glob, matches_greedy}
use fe_gem.Hosts.Registry.{
  AllowedHosts, ListKey, allowed_key, banned_key, ok, new_host, init, is_listed, add_host, ban_host,
  is_allowed, use_after_free, cool_down_time,
}
use fe_gem.Hosts.Decisions.{
  is_allowed_after, is_allowed_closed, visits, Unlisted, questionable_visits, rejections,
  length-rejections,
}
use fe_gem.Hosts.Odb.{Reads, Reach, Step, Reach-Mirrors}
use fe_gem.Hosts.Mirror.{StringArrays, same_key, Mirrors}

abbrev lxplus : Bytes
lxplus = codes "lxplus*.cern.ch"

abbrev daq : Bytes
daq = codes "daq.cern.ch"

matches_runs :
    (matches lxplus (codes "lxplus7.cern.ch") ≡ true)
    × (matches daq (codes "daq") ≡ true)
    × (matches daq (codes "dbq.cern.ch") ≡ false)
    × (matches (codes "d?q") (codes "dbq") ≡ true)
unfolding matches scan_to
matches_runs = (refl, refl, refl, refl)

daq-IsLiteral : All IsLiteral daq
daq-IsLiteral = ground arith

matches_literal_iff_example : matches daq (codes "daq.") ≡ true
matches_literal_iff_example =
    (matches_literal_iff daq (codes "daq.") daq-IsLiteral).1 (codes "cern.ch", refl)

matches-Glob_example : (t : Bytes) × Glob lxplus (codes "lxplus7.cern.ch" ++ t)
unfolding matches scan_to
matches-Glob_example = matches-Glob lxplus (codes "lxplus7.cern.ch") refl

matches_greedy_example :
    Glob (codes "*ab") (codes "aab") × (matches (codes "*ab") (codes "aab") ≡ false)
matches_greedy_example = matches_greedy b'a' b'b' [] [] (omega arith) (omega arith) end

-- "daq.cern.ch" is allowed, "bad" is banned.
abbrev site : Bool → AllowedHosts
site self_registration = record {
  allowed_hosts = new_host daq 0 ∷ [];
  questionable_hosts = [];
  banned_hosts = new_host (codes "bad") 0 ∷ [];
  allow_self_registration = self_registration;
  odb_calls = [];
}

abbrev crio : Bytes
crio = codes "crio"

is_allowed_after_example :
    (is_allowed (add_host (site true) crio 5).0 crio 9 ≡ ok (true, (add_host (site true) crio 5).0))
    × (is_allowed (ban_host (site true) crio 5).0 crio 9
        ≡ ok (is_listed (site true).allowed_hosts crio, (ban_host (site true) crio 5).0))
is_allowed_after_example = is_allowed_after (site true) crio 5 9 (ground arith)

is_allowed_closed_example :
    is_allowed (site false) crio 9 ≡ ok (is_listed (site false).allowed_hosts crio, site false)
is_allowed_closed_example = is_allowed_closed (site false) crio 9 refl

-- Thirteen contacts, two seconds apart.
abbrev later_contacts : List ℕ
later_contacts =
    2 * cool_down_time
    ∷ 4 * cool_down_time
    ∷ 6 * cool_down_time
    ∷ 8 * cool_down_time
    ∷ 10 * cool_down_time
    ∷ 12 * cool_down_time
    ∷ 14 * cool_down_time
    ∷ 16 * cool_down_time
    ∷ 18 * cool_down_time
    ∷ 20 * cool_down_time
    ∷ 22 * cool_down_time
    ∷ 24 * cool_down_time
    ∷ []

crio-Unlisted : Unlisted (site true) [] crio
unfolding is_listed matches
crio-Unlisted = record {
  literal = ground arith;
  not_allowed = refl;
  not_banned = refl;
  not_questioned = refl;
  self_registers = refl;
}

questionable_visits_example : visits (site true) crio (0 ∷ later_contacts) ≡ use_after_free
questionable_visits_example =
    questionable_visits (site true) [] crio 0 later_contacts crio-Unlisted (ground arith)

length-rejections_example : length (rejections 30 (site true).banned_hosts (codes "bad")) + 0 ≡ 21
unfolding matches
length-rejections_example = length-rejections 30 (site true).banned_hosts (codes "bad") 0 refl

-- An ODB that keeps each array as a function of the index.
abbrev arrays : StringArrays
arrays = record {
  State = ListKey → ℕ → Bytes;
  write = λ s k i v k' j. if same_key k k' && i == j then v else s k' j;
  read = λ s k i. s k i;
  read-write = λ s k k' i j v small. refl;
}

abbrev stored : ListKey → ℕ → Bytes
stored allowed_key i = if i == 0 then daq else if i == 2 then crio else []
stored banned_key i = if i == 0 then codes "bad" else []

allowed-Reads : Reads arrays stored allowed_key (daq ∷ [] ∷ crio ∷ [])
allowed-Reads i n e = ground arith

daq-Reads : Reads arrays stored allowed_key (daq ∷ [] ∷ [])
daq-Reads i n e = ground arith

bad-Reads : Reads arrays stored banned_key (codes "bad" ∷ [])
bad-Reads i n e = ground arith

abbrev loaded : AllowedHosts
loaded = init true (daq ∷ [] ∷ []) (codes "bad" ∷ []) 7

Reach-Mirrors_example : Mirrors arrays stored (add_host loaded (codes "pi") 8).0
Reach-Mirrors_example =
    Reach-Mirrors arrays stored true (daq ∷ [] ∷ []) (codes "bad" ∷ []) 7 (ground arith) tt
      daq-Reads bad-Reads (add_host loaded (codes "pi") 8).0
      (Reach.next Reach.here (Step.adds loaded (codes "pi") 8 (omega arith)))
