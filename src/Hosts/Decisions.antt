-- ===== src/Hosts/Decisions.antt =====
-- Who is let in: the decisions of AllowedHosts::IsAllowed after AddHost and BanHost, and what
-- happens to a host that is neither listed as allowed nor as banned.
use fe_gem.Common.{
  ℕ, zero, suc, ◌+◌, ◌-◌, ◌≤◌, ◌<◌, ◌≡◌, refl, sym, ap, ◌∙◌, Bool, true, false, List, [], ◌∷◌, ◌++◌,
  append-nil, arith, Bytes, All, length, min, Option, none, some, length-append, if◌then◌else◌, leb,
}
use fe_gem.Hosts.Pattern.{matches}
use fe_gem.Hosts.Soundness.{IsLiteral, matches_literal_iff}
use fe_gem.Hosts.Registry.{
  Host, AllowedHosts, Result, ok, use_after_free, new_host, is_listed, add_host, ban_host, question,
  is_allowed, print_rejection, rejection_notices, Notice, cool_down_time, retry_limit,
}

matches_self : (h : Bytes) → All IsLiteral h → matches h h ≡ true
matches_self h l = (matches_literal_iff h h l).1 ([], sym (append-nil h))

is_listed-append :
    (hs : List Host) (h : Host) (hostname : Bytes)
    → matches h.host_name hostname ≡ true
    → is_listed (hs ++ h ∷ []) hostname ≡ true
unfolding is_listed
is_listed-append [] h hostname e = rw e
is_listed-append (x ∷ hs) h hostname e = ground (arith, is_listed-append hs h hostname e)

-- A host name without wild cards that was added is allowed from then on, banned or not; one that
-- was banned is turned away, unless an entry of the allowed list accepts it.
pub is_allowed_after :
    (s : AllowedHosts) (hostname : Bytes) (now later : ℕ)
    → All IsLiteral hostname
    → (is_allowed (add_host s hostname now).0 hostname later
        ≡ ok (true, (add_host s hostname now).0))
      × (is_allowed (ban_host s hostname now).0 hostname later
          ≡ ok (is_listed s.allowed_hosts hostname, (ban_host s hostname now).0))
unfolding is_allowed add_host ban_host
is_allowed_after s hostname now later l =
    let self = matches_self hostname l in
    ground (
      arith,
      is_listed-append s.allowed_hosts (new_host hostname now) hostname self,
      is_listed-append s.banned_hosts (new_host hostname now) hostname self,
    )

-- With self registration off, exactly the hosts that an entry of the allowed list accepts are let
-- in, and a call of IsAllowed changes nothing.
pub is_allowed_closed :
    (s : AllowedHosts) (hostname : Bytes) (now : ℕ)
    → s.allow_self_registration ≡ false
    → is_allowed s hostname now ≡ ok (is_listed s.allowed_hosts hostname, s)
unfolding is_allowed
is_allowed_closed s hostname now off = ground arith

-- The entry of a host that was let in `count` times after its first contact.
abbrev pub seen : Bytes → ℕ → ℕ → Host
seen hostname count last = record {
  host_name = hostname;
  rejection_count = count;
  last_contact = last;
}

-- The outcome for a list that stands behind hosts which do not accept the name.
abbrev behind : List Host → Result (Bool × List Host) → Result (Bool × List Host)
behind qs (ok (answer, hs)) = ok (answer, qs ++ hs)
behind qs use_after_free = use_after_free

behind-cons :
    (q : Host) (qs : List Host) (r : Result (Bool × List Host))
    → behind (q ∷ qs) r ≡ behind (q ∷ []) (behind qs r)
behind-cons q qs (ok (answer, hs)) = refl
behind-cons q qs use_after_free = refl

question-pass :
    (q : Host) (hs : List Host) (hostname : Bytes) (now : ℕ)
    → matches q.host_name hostname ≡ false
    → question (q ∷ hs) hostname now ≡ behind (q ∷ []) (question hs hostname now)
unfolding question
question-pass q hs hostname now e = ground arith

question-append :
    (qs rest : List Host) (hostname : Bytes) (now : ℕ)
    → is_listed qs hostname ≡ false
    → question (qs ++ rest) hostname now ≡ behind qs (question rest hostname now)
unfolding is_listed
question-append [] rest hostname now n = ground arith
question-append (q ∷ qs) rest hostname now n =
    question-pass q (qs ++ rest) hostname now (ground arith)
    ∙ ap (behind (q ∷ [])) (question-append qs rest hostname now (ground arith))
    ∙ sym (behind-cons q qs (question rest hostname now))

question-seen :
    (hostname : Bytes) (count last now : ℕ)
    → All IsLiteral hostname
    → cool_down_time < now - last
    → question (seen hostname count last ∷ []) hostname now ≡ (
        if leb count retry_limit
        then ok (true, seen hostname (count + 1) now ∷ [])
        else use_after_free)
unfolding question
question-seen hostname count last now l h = ground (arith, matches_self hostname l)

-- Calls of IsAllowed for one host at the given times, up to the first that fails or refuses.
unfoldable pub visits : AllowedHosts → Bytes → List ℕ → Result (Bool × AllowedHosts)
visits s hostname [] = ok (true, s)
visits s hostname (t ∷ ts) = elim (is_allowed s hostname t) [
  | ok (answer, s') ↦ elim answer [ true ↦ visits s' hostname ts | false ↦ ok (false, s') ]
  | use_after_free ↦ use_after_free
]

-- Each time is more than the cool-down time after the one before it.
abbrev pub Spaced : ℕ → List ℕ → Type 0
Spaced last [] = Unit {0}
Spaced last (t ∷ ts) = (cool_down_time < t - last) × Spaced t ts

abbrev pub last_of : ℕ → List ℕ → ℕ
last_of last [] = last
last_of last (t ∷ ts) = last_of t ts

module _ (s : AllowedHosts) (qs : List Host) (hostname : Bytes) where
  abbrev pub with_seen : ℕ → ℕ → AllowedHosts
  with_seen count last = record s { questionable_hosts = qs ++ seen hostname count last ∷ [] }

  -- The host is in no list, and may register itself.
  pub record Unlisted : Type 0 where
    pub literal : All IsLiteral hostname
    pub not_allowed : is_listed s.allowed_hosts hostname ≡ false
    pub not_banned : is_listed s.banned_hosts hostname ≡ false
    pub not_questioned : is_listed qs hostname ≡ false
    pub self_registers : s.allow_self_registration ≡ true

  is_allowed_seen :
      (count last now : ℕ)
      → Unlisted
      → cool_down_time < now - last
      → count ≤ retry_limit
      → is_allowed (with_seen count last) hostname now ≡ ok (true, with_seen (count + 1) now)
  unfolding is_allowed
  is_allowed_seen count last now u h c = ground (
    arith,
    question-append qs (seen hostname count last ∷ []) hostname now u.not_questioned,
    question-seen hostname count last now u.literal h,
  )

  is_allowed_exhausted :
      (count last now : ℕ)
      → Unlisted
      → cool_down_time < now - last
      → retry_limit < count
      → is_allowed (with_seen count last) hostname now ≡ use_after_free
  unfolding is_allowed
  is_allowed_exhausted count last now u h c = ground (
    arith,
    question-append qs (seen hostname count last ∷ []) hostname now u.not_questioned,
    question-seen hostname count last now u.literal h,
  )

  -- Eleven further contacts are let in, the twelfth reads the erased entry.
  visits_seen :
      (count last : ℕ) (ts : List ℕ)
      → Unlisted
      → Spaced last ts
      → count ≤ 11
      → visits (with_seen count last) hostname ts ≡ (
          if leb (count + length ts) 11
          then ok (true, with_seen (count + length ts) (last_of last ts))
          else use_after_free)
  unfolding visits
  visits_seen count last [] u sp c = ground arith
  visits_seen count last (t ∷ ts) u sp c = ground (
    arith,
    is_allowed_seen count last t u sp.0,
    is_allowed_exhausted count last t u sp.0,
    visits_seen (count + 1) t ts u sp.1,
  )

  -- A host that is in no list may register itself by contacting: it is let in on its first contact
  -- and, with more than the cool-down time between contacts, on the eleven that follow. The contact
  -- after those erases its entry from the list and then reads the erased entry.
  pub questionable_visits :
      (first : ℕ) (ts : List ℕ)
      → Unlisted
      → Spaced first ts
      → visits (record s { questionable_hosts = qs }) hostname (first ∷ ts) ≡ (
          if leb (length ts) 11
          then ok (true, with_seen (length ts) (last_of first ts))
          else use_after_free)
  unfolding visits is_allowed question
  questionable_visits first ts u sp = ground (
    arith,
    question-append qs [] hostname first u.not_questioned,
    append-nil qs,
    visits_seen 0 first ts u sp,
  )

-- The rejection count of the entry that a rejection of the host is counted on.
abbrev pub count_of : List Host → Bytes → Option ℕ
count_of [] hostname = none
count_of (h ∷ hs) hostname =
    if matches h.host_name hostname then some h.rejection_count else count_of hs hostname

-- What `n` rejections of one host in a row send.
unfoldable pub rejections : ℕ → List Host → Bytes → List Notice
unfolding print_rejection
rejections zero hs hostname = []
rejections (suc n) hs hostname =
    (print_rejection hs hostname).1 ++ rejections n (print_rejection hs hostname).0 hostname

print_rejection_count :
    (hs : List Host) (hostname : Bytes) (count : ℕ)
    → count_of hs hostname ≡ some count
    → (count_of (print_rejection hs hostname).0 hostname ≡ some (count + 1))
      × ((print_rejection hs hostname).1 ≡ rejection_notices count)
unfolding print_rejection
print_rejection_count [] hostname count e = cc
print_rejection_count (h ∷ hs) hostname count e =
    ground (arith, print_rejection_count hs hostname count)

length-rejection_notices :
    (count : ℕ) → length (rejection_notices count) + min count 21 ≡ min (count + 1) 21
unfolding rejection_notices
length-rejection_notices count = ground arith

-- However often a banned host tries, at most 21 messages about it are sent: `n` rejections of a host
-- that was rejected `count` times before raise the number of messages from min(count, 21) to
-- min(count + n, 21).
pub length-rejections :
    (n : ℕ) (hs : List Host) (hostname : Bytes) (count : ℕ)
    → count_of hs hostname ≡ some count
    → length (rejections n hs hostname) + min count 21 ≡ min (count + n) 21
unfolding rejections
length-rejections zero hs hostname count e = omega arith
length-rejections (suc n) hs hostname count e =
    let (next, sent) = print_rejection_count hs hostname count e in
    omega (
      arith,
      length-append (print_rejection hs hostname).1
          (rejections n (print_rejection hs hostname).0 hostname),
      ap length sent,
      length-rejection_notices count,
      length-rejections n (print_rejection hs hostname).0 hostname (count + 1) next,
    )
