-- ===== src/Message/Reply.antt =====
-- What the client reads in a reply, and which messages break it.
use fe_gem.Common.{
  ℕ, suc, ◌+◌, ◌<◌, ◌≡◌, refl, sym, ap, ◌∙◌, inl, inr, true, false, some, List, [], ◌∷◌, ◌++◌, map,
  append-nil, append_assoc, arith, Bytes, codes, All, length, Bool-cases, Option-cases, ◌==◌,
}
use fe_gem.Message.Queue.{
  MessageHandler, Outcome, ok, aborted, undefined, formatted, have_errors, escape, field_text,
  queue_data, queue_message, queue_error, quotes_escaped, join, read_message_queue, push_message,
}
use fe_gem.Message.Json.{read_string, read_object}
use fe_gem.Message.Fields.{
  Field, IsReadable, NoBackslash, Plain, Plain-NoBackslash, brace, escape-Plain, join-pos,
  read_members-texts, read_string-plain, read_string-quote, read_string-taken, texts,
}

-- What the handlers of a client's banks queue, apart from the object of LoadSettingsFile: a single
-- field, a message or an error.
pub data Request : Type 0 where
  value : Bytes → Bytes → Request
  message : Bytes → Request
  error : Bytes → Bytes → Request

abbrev pub handle : MessageHandler → Request → Outcome
handle s (value name text) = ok (queue_data s name text)
handle s (message text) = queue_message s text
handle s (error source text) = queue_error s source text

abbrev pub field_of : Request → Field
field_of (value name text) = (name, text)
field_of (message text) = (codes "msg", text)
field_of (error source text) = (codes "err", text)

-- An error is the format of a message as well.
abbrev pub IsSendable : Request → Type 0
IsSendable (value name text) = Plain name × NoBackslash text
IsSendable (message text) = Plain text
IsSendable (error source text) = Plain text × All (λ c. (c == b'%') ≡ false) text

unfoldable pub handle_all : MessageHandler → List Request → Outcome
handle_all s [] = ok s
handle_all s (r ∷ rs) = elim (handle s r) [
  | ok s' ↦ handle_all s' rs
  | aborted ↦ aborted
  | undefined ↦ undefined
]

-- A text without a percent sign is its own format.
pub formatted_plain :
    (text : Bytes) → All (λ c. (c == b'%') ≡ false) text → formatted text ≡ some text
unfolding formatted
formatted_plain [] h = refl
formatted_plain (c ∷ []) (h, hs) = rw h refl
formatted_plain (c ∷ d ∷ cs) (h, hs) = rw (h, formatted_plain (d ∷ cs) hs) refl

pub Plain-quotes_escaped : (text : Bytes) → Plain text → quotes_escaped text ≡ true
unfolding quotes_escaped
Plain-quotes_escaped [] p = refl
Plain-quotes_escaped (c ∷ []) p = refl
Plain-quotes_escaped (c ∷ d ∷ cs) p = ground (arith, Plain-quotes_escaped (d ∷ cs) p.1)

field_of-IsReadable : (r : Request) → IsSendable r → IsReadable (field_of r)
field_of-IsReadable (value name text) h = h
field_of-IsReadable (message text) h = (omega arith, Plain-NoBackslash text h)
field_of-IsReadable (error source text) h = (omega arith, Plain-NoBackslash text h.0)

-- One request that can be sent adds its field behind the others.
handle-sendable :
    (s : MessageHandler) (r : Request)
    → IsSendable r
    → (s' : MessageHandler) × (handle s r ≡ ok s')
      × (s'.json_message_queue
          ≡ s.json_message_queue ++ field_text (field_of r).0 (field_of r).1 ∷ [])
      × (s'.json_error_queue ≡ s.json_error_queue)
unfolding queue_data queue_message queue_error push_message
handle-sendable s (value name text) h = (queue_data s name text, refl, refl, refl)
handle-sendable s (message text) h =
    (queue_data s (codes "msg") text, rw (Plain-quotes_escaped text h), refl, refl)
handle-sendable s (error source text) h = (
  queue_data (record s { alarms = (source, text) ∷ s.alarms }) (codes "err") text,
  rw (queue_error, Plain-quotes_escaped text h.0, formatted_plain text h.1) refl,
  refl,
  refl,
)

handle_all-sendable :
    (s : MessageHandler) (rs : List Request)
    → All IsSendable rs
    → (s' : MessageHandler) × (handle_all s rs ≡ ok s')
      × (s'.json_message_queue ≡ s.json_message_queue ++ texts (map field_of rs))
      × (s'.json_error_queue ≡ s.json_error_queue)
unfolding handle_all
handle_all-sendable s [] h = (s, refl, sym (append-nil _), refl)
handle_all-sendable s (r ∷ rs) h =
    let (t, a, b, c) = handle-sendable s r h.0 in
    let (u, d, e, f) = handle_all-sendable t rs h.1 in
    (u, rw (a, handle_all) d, rw (e, b, append_assoc), f ∙ c)

-- The text in front of the first message is one more field.
read_message_queue-texts :
    (s : MessageHandler) (time : Bytes) (f : Field) (fs : List Field)
    → Plain time
    → s.json_message_queue ≡ texts (f ∷ fs)
    → s.json_error_queue ≡ []
    → (read_message_queue s time).1
      ≡ b'{' ∷ (field_text (codes "MIDASTime") time ++ (join 1 (texts (f ∷ fs)) ++ brace))
unfolding read_message_queue join field_text
read_message_queue-texts s time f fs p m e =
    rw (m, e, escape-Plain time p)
      (simp (append_assoc, join-pos 1 2 (texts fs) (omega arith) (omega arith)))

map-IsReadable : (rs : List Request) → All IsSendable rs → All IsReadable (map field_of rs)
map-IsReadable [] h = tt
map-IsReadable (r ∷ rs) h = (field_of-IsReadable r h.0, map-IsReadable rs h.1)

length-fields : (rs : List Request) → length (map field_of rs) ≡ length rs
length-fields [] = refl
length-fields (r ∷ rs) = ap suc (length-fields rs)

pub reply_fields :
    (s : MessageHandler) (r : Request) (rs : List Request) (time : Bytes) (fuel : ℕ)
    → s.json_message_queue ≡ []
    → s.json_error_queue ≡ []
    → All IsSendable (r ∷ rs)
    → Plain time
    → length rs + 1 < fuel
    → (s' : MessageHandler) × (handle_all s (r ∷ rs) ≡ ok s')
      × (read_object fuel (read_message_queue s' time).1
          ≡ some ((codes "MIDASTime", time) ∷ map field_of (r ∷ rs)))
      × ((read_message_queue s' time).0.json_message_queue ≡ [])
      × ((read_message_queue s' time).0.json_error_queue ≡ [])
unfolding read_object read_message_queue
reply_fields s r rs time fuel m e h p enough =
    let (s', ran, queued, errors) = handle_all-sendable s (r ∷ rs) h in
    let reply =
      read_message_queue-texts s' time (field_of r) (map field_of rs) p
        (queued ∙ ap (λ q. q ++ texts (map field_of (r ∷ rs))) m) (errors ∙ e) in
    (
      s',
      ran,
      ap (read_object fuel) reply
          ∙ read_members-texts fuel (codes "MIDASTime", time) (map field_of (r ∷ rs))
              (omega arith, Plain-NoBackslash time p) (map-IsReadable (r ∷ rs) h)
              (omega (arith, length-fields rs)),
      refl,
      refl,
    )

-- No request ever fills the error queue: after any requests, HaveErrors answers false.
pub have_errors-handle_all :
    (s s' : MessageHandler) (rs : List Request)
    → have_errors s ≡ false
    → handle_all s rs ≡ ok s'
    → have_errors s' ≡ false
unfolding handle_all have_errors queue_data queue_message queue_error push_message
have_errors-handle_all s s' [] e h = ground arith
have_errors-handle_all s s' (value name text ∷ rs) e h =
    have_errors-handle_all (queue_data s name text) s' rs e h
have_errors-handle_all s s' (message text ∷ rs) e h = elim (Bool-cases (quotes_escaped text)) [
  | inl q ↦ have_errors-handle_all (queue_data s (codes "msg") text) s' rs e (ground arith)
  | inr q ↦ ground arith
]
have_errors-handle_all s s' (error source text ∷ rs) e h = elim (Bool-cases (quotes_escaped text)) [
  | inl q ↦ elim (Option-cases (formatted text)) [
    | inl n ↦ ground arith
    | inr (said, f) ↦
        have_errors-handle_all
          (queue_data (record s { alarms = (source, said) ∷ s.alarms }) (codes "err") text) s' rs e
          (ground arith)
  ]
  | inr q ↦ ground arith
]

quotes_escaped-quoted :
    (before after : Bytes)
    → Plain before
    → Plain after
    → quotes_escaped (before ++ b'\\' ∷ b'"' ∷ after) ≡ true
unfolding quotes_escaped
quotes_escaped-quoted [] [] p q = refl
quotes_escaped-quoted [] (d ∷ after) p q = ground (arith, Plain-quotes_escaped (d ∷ after) q)
quotes_escaped-quoted (c ∷ []) after p q = quotes_escaped-quoted [] after tt q
quotes_escaped-quoted (c ∷ d ∷ before) after p q =
    ground (arith, quotes_escaped-quoted (d ∷ before) after p.1 q)

read_string-quoted :
    (before after rest : Bytes)
    → Plain before
    → read_string (escape (before ++ b'\\' ∷ b'"' ∷ after) ++ b'"' ∷ rest)
      ≡ some (before ++ b'\\' ∷ [], escape after ++ b'"' ∷ rest)
unfolding escape
read_string-quoted [] after rest p = ground (
  arith,
  read_string-taken b'\\' (b'"' ∷ (escape after ++ b'"' ∷ rest)),
  read_string-quote (escape after ++ b'"' ∷ rest),
)
read_string-quoted (c ∷ cs) after rest p = ground (
  arith,
  read_string-plain c (escape (cs ++ b'\\' ∷ b'"' ∷ after) ++ b'"' ∷ rest) p.0.0 p.0.1,
  read_string-quoted cs after rest p.1,
)

-- A message whose one quote stands behind a backslash passes the assert of QueueMessage and is
-- queued, but the quote is escaped once more: the client's string ends at it, after the backslash,
-- and what stood behind the quote is read as JSON.
pub queue_message_quoted :
    (s : MessageHandler) (before after rest : Bytes)
    → Plain before
    → Plain after
    → let msg = before ++ b'\\' ∷ b'"' ∷ after in
      (queue_message s msg ≡ ok (queue_data s (codes "msg") msg))
      × (field_text (codes "msg") msg ++ rest ≡ codes "\"msg\":\"" ++ (escape msg ++ b'"' ∷ rest))
      × (read_string (escape msg ++ b'"' ∷ rest)
          ≡ some (before ++ b'\\' ∷ [], escape after ++ b'"' ∷ rest))
unfolding queue_message field_text
queue_message_quoted s before after rest p q = (
  rw (quotes_escaped-quoted before after p q),
  simp append_assoc,
  read_string-quoted before after rest p,
)
