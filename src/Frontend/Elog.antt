-- ===== src/Frontend/Elog.antt =====
-- PostElog of src/feGEMClass.cxx: the items of an elog in a bank become a command and its input.
use mathlib.Core.Path.{ap₂}
use fe_gem.Common.{
  ℕ, zero, suc, ◌+◌, ◌≤◌, ◌<◌, ◌≡◌, refl, sym, ap, ◌∙◌, Bool, true, false, ◌&&◌, Option, none, some,
  List, [], ◌∷◌, ◌++◌, append_assoc, map, append-nil, ◌-◌, arith, Bytes, codes, ltb, ◌==◌,
  if◌then◌else◌, length, take, drop, All, c_str, strncmp_eq, to_string, NonNul, next_item,
  c_str_text, next_item_text, lt→ltb, ne→==, length-append, take-append, drop-append,
}
use fe_gem.Server.State.{defined, Run, ok, ◌>>=◌}
use fe_gem.Frontend.State.{Frontend, talk, pipe, call}

pub record Elog : Type 0 where
  pub elog_type : Bytes
  pub attributes : List Bytes
  pub encoding : Bytes
  pub message : Bytes

abbrev pub no_elog : Elog
no_elog = record { elog_type = []; attributes = []; encoding = []; message = [] }

-- The item that the memory from `d` on starts with.
unfoldable pub read_elog_item : Bytes → Elog → Elog
read_elog_item d e =
    if strncmp_eq 10 d (codes "ELOG_TYPE:")
    then record e { elog_type = c_str (drop 10 d) }
    else if strncmp_eq 10 d (codes "ATTRIBUTE:")
    then record e { attributes = e.attributes ++ c_str (drop 10 d) ∷ [] }
    else if strncmp_eq 14 d (codes "ELOG_ENCODING:")
    then record e { encoding = c_str (drop 14 d) }
    else if strncmp_eq 13 d (codes "ELOG_MESSAGE:")
    then record e { message = c_str (drop 13 d) }
    else e

-- ElogType.size() && Encoding.size() && Message.size()
unfoldable pub is_complete : Elog → Bool
is_complete e = ltb 0 (length e.elog_type) && ltb 0 (length e.encoding) && ltb 0 (length e.message)

-- The loop, for at most `items` items; `none` is a read behind the memory.
unfoldable pub read_elog : ℕ → Bytes → Elog → Option Elog
unfolding read_elog_item is_complete next_item
read_elog zero d e = some e
read_elog (suc items) d e =
    let e = read_elog_item d e in
    if is_complete e
    then some e
    else elim (next_item d) [ none ↦ none | some rest ↦ read_elog items rest e ]

-- find('=') + 1, which is 0 without a '='
unfoldable pub behind_equals : Bytes → ℕ
behind_equals [] = 0
behind_equals (c ∷ cs) =
    let rest = behind_equals cs in if c == b'=' then 1 else if rest == 0 then 0 else rest + 1

-- A backslash and a quote.
abbrev pub escaped_quote : Bytes
escaped_quote = b'\\' ∷ b'"' ∷ []

unfoldable pub quote_attribute : Bytes → Bytes
unfolding behind_equals
quote_attribute arr =
    let i = behind_equals arr in take i arr ++ (escaped_quote ++ (drop i arr ++ escaped_quote))

unfoldable pub attribute_options : List Bytes → Bytes
attribute_options [] = []
attribute_options (att ∷ atts) = codes " -a " ++ (att ++ attribute_options atts)

unfoldable pub elog_command : Bytes → ℕ → Elog → Bytes
unfolding attribute_options quote_attribute
elog_command elog_host runno e =
    codes "ssh -x  "
    ++ (elog_host
        ++ (codes " ~/packages/elog/elog -h localhost -p 8080  -l "
            ++ (e.elog_type
                ++ (codes " -n "
                    ++ (e.encoding
                        ++ (codes " -a Run="
                            ++ (to_string runno
                                ++ attribute_options (map quote_attribute e.attributes))))))))

-- `d` is the memory of the DATA of the first entry.
unfoldable pub post_elog : Bytes → Frontend → Run Frontend
unfolding read_elog elog_command
post_elog d s =
    if length s.elog_host == 0
    then ok
        (call (talk (codes "feGEM:elog") (codes "No Host for the elog set... please update ODB")) s)
    else (do
      e ← defined (read_elog 10 d no_elog)
      ok (call (pipe (elog_command s.elog_host s.server.runno e) e.message) s))

-- An elog as a client lays it out.
abbrev pub text_item : Bytes → Bytes → Bytes → Bytes
text_item tag text rest = tag ++ (text ++ 0 ∷ rest)

abbrev pub attribute_items : List Bytes → Bytes → Bytes
attribute_items [] rest = rest
attribute_items (a ∷ as') rest = text_item (codes "ATTRIBUTE:") a (attribute_items as' rest)

abbrev pub elog_of : Elog → Bytes → Bytes
elog_of e rest = text_item (codes "ELOG_TYPE:") e.elog_type (
    attribute_items e.attributes (
      text_item (codes "ELOG_ENCODING:") e.encoding
        (text_item (codes "ELOG_MESSAGE:") e.message rest)))

step_to :
    (items : ℕ) (d rest : Bytes) (e e' : Elog)
    → read_elog_item d e ≡ e'
    → is_complete e' ≡ false
    → next_item d ≡ some rest
    → read_elog (suc items) d e ≡ read_elog items rest e'
unfolding read_elog
step_to items d rest e e' i c n =
    rw (read_elog, ap is_complete i ∙ c, n) (ap (read_elog items rest) i)

last_step :
    (items : ℕ) (d : Bytes) (e e' : Elog)
    → read_elog_item d e ≡ e'
    → is_complete e' ≡ true
    → read_elog (suc items) d e ≡ some e'
unfolding read_elog
last_step items d e e' i c = rw (read_elog, i, c) refl

-- An elog without its message is not complete.
is_complete-no_message : (e : Elog) → e.message ≡ [] → is_complete e ≡ false
unfolding is_complete
is_complete-no_message e h = ground (arith, h)

is_complete-positive :
    (e : Elog)
    → 0 < length e.elog_type
    → 0 < length e.encoding
    → 0 < length e.message
    → is_complete e ≡ true
unfolding is_complete
is_complete-positive e h1 h2 h3 =
    rw
      (
        lt→ltb 0 (length e.elog_type) h1,
        lt→ltb 0 (length e.encoding) h2,
        lt→ltb 0 (length e.message) h3,
      )
      refl

module _ (text rest : Bytes) (e : Elog) (n : NonNul text) where
  type_item :
      (read_elog_item (text_item (codes "ELOG_TYPE:") text rest) e ≡ record e { elog_type = text })
      × (next_item (text_item (codes "ELOG_TYPE:") text rest) ≡ some rest)
  unfolding read_elog_item next_item
  type_item = (rw (c_str_text text rest n) refl, next_item_text text rest n)

  attribute_item :
      (read_elog_item (text_item (codes "ATTRIBUTE:") text rest) e
        ≡ record e { attributes = e.attributes ++ text ∷ [] })
      × (next_item (text_item (codes "ATTRIBUTE:") text rest) ≡ some rest)
  unfolding read_elog_item next_item
  attribute_item = (rw (c_str_text text rest n) refl, next_item_text text rest n)

  encoding_item :
      (read_elog_item (text_item (codes "ELOG_ENCODING:") text rest) e
        ≡ record e { encoding = text })
      × (next_item (text_item (codes "ELOG_ENCODING:") text rest) ≡ some rest)
  unfolding read_elog_item next_item
  encoding_item = (rw (c_str_text text rest n) refl, next_item_text text rest n)

  message_item :
      read_elog_item (text_item (codes "ELOG_MESSAGE:") text rest) e ≡ record e { message = text }
  unfolding read_elog_item
  message_item = rw (c_str_text text rest n) refl

-- The attributes are collected in order, one item each.
read_elog-attributes :
    (items : ℕ) (as' : List Bytes) (rest : Bytes) (e : Elog)
    → All NonNul as'
    → e.message ≡ []
    → read_elog (length as' + items) (attribute_items as' rest) e
      ≡ read_elog items rest (record e { attributes = e.attributes ++ as' })
read_elog-attributes items [] rest e h empty =
    ap₂ (λ i a. read_elog i rest (record e { attributes = a })) (omega arith)
      (sym (append-nil e.attributes))
read_elog-attributes items (a ∷ as') rest e (h, hs) empty =
    let e' : Elog = record e { attributes = e.attributes ++ a ∷ [] } in
    let (i, n) = attribute_item a (attribute_items as' rest) e h in
    ap (λ k. read_elog k (attribute_items (a ∷ as') rest) e) (omega arith)
    ∙ step_to (length as' + items) (attribute_items (a ∷ as') rest) (attribute_items as' rest) e e'
        i (is_complete-no_message e' empty) n
    ∙ read_elog-attributes items as' rest e' hs empty
    ∙ ap (λ b. read_elog items rest (record e { attributes = b }))
        (append_assoc e.attributes (a ∷ []) as')

read_elog-elog_of :
    (e : Elog) (rest : Bytes)
    → NonNul e.elog_type
    → All NonNul e.attributes
    → NonNul e.encoding
    → NonNul e.message
    → 0 < length e.elog_type
    → 0 < length e.encoding
    → 0 < length e.message
    → length e.attributes ≤ 7
    → read_elog 10 (elog_of e rest) no_elog ≡ some e
read_elog-elog_of e rest n1 n2 n3 n4 p1 p2 p3 few =
    let k = 7 - length e.attributes in
    let t2 = text_item (codes "ELOG_MESSAGE:") e.message rest in
    let t1 = text_item (codes "ELOG_ENCODING:") e.encoding t2 in
    let t0 = attribute_items e.attributes t1 in
    let e1 : Elog = record no_elog { elog_type = e.elog_type } in
    let e2 : Elog = record e1 { attributes = e.attributes } in
    let e3 : Elog = record e2 { encoding = e.encoding } in
    let (i1, s1) = type_item e.elog_type t0 no_elog n1 in
    let (i3, s3) = encoding_item e.encoding t2 e2 n3 in
    step_to 9 (elog_of e rest) t0 no_elog e1 i1 (is_complete-no_message e1 refl) s1
    ∙ ap (λ i. read_elog i t0 e1) (omega arith)
    ∙ read_elog-attributes (suc (suc k)) e.attributes t1 e1 n2 refl
    ∙ step_to (suc k) t1 t2 e2 e3 i3 (is_complete-no_message e3 refl) s3
    ∙ last_step k t2 e3 e (message_item e.message rest e3 n4) (is_complete-positive e p1 p2 p3)

-- If a host for elogs is set, a bank with an elog whose type, encoding and message are not empty, with
-- at most seven attributes between the type and the encoding, and no NUL in any of them, is posted by
-- one command, made of exactly these items, with the message as its input, whatever stands behind it.
pub post_elog-elog_of :
    (e : Elog) (rest : Bytes) (s : Frontend)
    → 0 < length s.elog_host
    → NonNul e.elog_type
    → All NonNul e.attributes
    → NonNul e.encoding
    → NonNul e.message
    → 0 < length e.elog_type
    → 0 < length e.encoding
    → 0 < length e.message
    → length e.attributes ≤ 7
    → post_elog (elog_of e rest) s
      ≡ ok (call (pipe (elog_command s.elog_host s.server.runno e) e.message) s)
unfolding post_elog
post_elog-elog_of e rest s host n1 n2 n3 n4 p1 p2 p3 few =
    rw
      (
        post_elog,
        ne→== (length s.elog_host) 0 (λ h. omega (arith, h)),
        read_elog-elog_of e rest n1 n2 n3 n4 p1 p2 p3 few,
      )
      refl

behind_equals_pair :
    (name value : Bytes)
    → All (λ c. (c == b'=') ≡ false) name
    → behind_equals (name ++ b'=' ∷ value) ≡ length name + 1
unfolding behind_equals
behind_equals_pair [] value h = refl
behind_equals_pair (c ∷ cs) value (h, hs) = ground (arith, behind_equals_pair cs value hs)

-- An attribute gets its quotes around what stands behind the first '='.
quote_attribute_pair :
    (name value : Bytes)
    → All (λ c. (c == b'=') ≡ false) name
    → quote_attribute (name ++ b'=' ∷ value)
      ≡ (name ++ b'=' ∷ []) ++ (escaped_quote ++ (value ++ escaped_quote))
unfolding quote_attribute
quote_attribute_pair name value h =
    let front = name ++ b'=' ∷ [] in
    let split : name ++ b'=' ∷ value ≡ front ++ value = sym (append_assoc name (b'=' ∷ []) value) in
    let i = behind_equals_pair name value h in
    let l : length front ≡ length name + 1 = length-append name (b'=' ∷ []) in
    let taken : take (length name + 1) (name ++ b'=' ∷ value) ≡ front =
      ap (take (length name + 1)) split ∙ take-append (length name + 1) front value l in
    let left : drop (length name + 1) (name ++ b'=' ∷ value) ≡ value =
      ap (drop (length name + 1)) split ∙ drop-append (length name + 1) front value l in
    rw (quote_attribute, i, taken, left) refl
