-- ===== src/Message/Queue.antt =====
-- class MessageHandler. A text is the bytes before its NUL; `alarms` are the calls of fMfe->Msg,
-- newest first; `aborted` is a failed assert, `undefined` a format that reads an argument that was not
-- passed.
use fe_gem.Common.{
  ℕ, ◌+◌, Option, none, some, Bool, true, not, ◌&&◌, ◌||◌, List, [], ◌∷◌, ◌++◌, Bytes, codes, ltb,
  ◌==◌, if◌then◌else◌, length,
}

pub record MessageHandler : Type 0 where
  pub json_message_queue : List Bytes
  pub json_error_queue : List Bytes
  pub total_text : ℕ
  pub alarms : List (Bytes × Bytes)

pub data Outcome : Type 0 where
  ok : MessageHandler → Outcome
  aborted undefined : Outcome

unfoldable pub empty_handler : MessageHandler
empty_handler = record {
  json_message_queue = [];
  json_error_queue = [];
  total_text = 0;
  alarms = [];
}

-- HaveErrors
unfoldable pub have_errors : MessageHandler → Bool
have_errors s = ltb 0 (length s.json_error_queue)

-- The loop of QueueData over the data.
unfoldable pub escape : Bytes → Bytes
escape [] = []
escape (c ∷ cs) = if c == b'"' then b'\\' ∷ c ∷ escape cs else c ∷ escape cs

-- The field that QueueData(name, data) builds.
unfoldable pub field_text : Bytes → Bytes → Bytes
unfolding escape
field_text name text = (b'"' ∷ name) ++ (b'"' ∷ b':' ∷ b'"' ∷ (escape text ++ b'"' ∷ []))

unfoldable pub push_message : MessageHandler → Bytes → MessageHandler
push_message s message = record s {
  json_message_queue = s.json_message_queue ++ message ∷ [];
  total_text = s.total_text + length message;
}

-- QueueData(const char*, const char*, int)
unfoldable pub queue_data : MessageHandler → Bytes → Bytes → MessageHandler
unfolding field_text push_message
queue_data s name text = push_message s (field_text name text)

-- The members of a JSON object, as the loop of the second QueueData writes them.
unfoldable pub members_text : List (Bytes × Bytes) → Bytes
members_text [] = []
members_text ((name, text) ∷ []) = name ++ (b'"' ∷ b':' ∷ b'"' ∷ text)
members_text ((name, text) ∷ m ∷ ms) =
    name ++ (b'"' ∷ b':' ∷ b'"' ∷ (text ++ (b'"' ∷ b',' ∷ b'"' ∷ members_text (m ∷ ms))))

-- QueueData(const char*, names, data, length), the three vectors zipped and each text cut to its
-- length.
unfoldable pub queue_object : MessageHandler → Bytes → List (Bytes × Bytes) → MessageHandler
unfolding members_text push_message
queue_object s name members =
    push_message s
      ((b'"' ∷ name) ++ (b'"' ∷ b':' ∷ b'{' ∷ b'"' ∷ (members_text members ++ b'"' ∷ b'}' ∷ [])))

-- for (i = 1; i < len; i++) if (msg[i] == '"') assert(msg[i - 1] == '\\');
unfoldable pub quotes_escaped : Bytes → Bool
quotes_escaped [] = true
quotes_escaped (p ∷ []) = true
quotes_escaped (p ∷ c ∷ cs) = (not (c == b'"') || p == b'\\') && quotes_escaped (c ∷ cs)

unfoldable pub queue_message : MessageHandler → Bytes → Outcome
unfolding quotes_escaped queue_data
queue_message s msg = if quotes_escaped msg then ok (queue_data s (codes "msg") msg) else aborted

-- fMfe->Msg takes a text that is passed alone for its format: `%%` is a percent sign, and any other
-- directive reads an argument that was not passed.
unfoldable pub formatted : Bytes → Option Bytes
formatted [] = some []
formatted (c ∷ []) = if c == b'%' then none else some (c ∷ [])
formatted (c ∷ d ∷ cs) =
    let next = formatted (d ∷ cs) in
    let behind = formatted cs in
    if c == b'%'
    then if d == b'%' then elim behind [ none ↦ none | some text ↦ some (b'%' ∷ text) ] else none
    else elim next [ none ↦ none | some text ↦ some (c ∷ text) ]

-- The error goes to the message queue, behind the field name "err".
unfoldable pub queue_error : MessageHandler → Bytes → Bytes → Outcome
unfolding quotes_escaped queue_data formatted
queue_error s source err =
    if quotes_escaped err
    then elim (formatted err) [
      | none ↦ undefined
      | some text ↦
          ok (queue_data (record s { alarms = (source, text) ∷ s.alarms }) (codes "err") err)
    ]
    else aborted

-- The loops of ReadMessageQueue; `i` counts the fields before.
unfoldable pub join : ℕ → List Bytes → Bytes
join i [] = []
join i (m ∷ ms) = (if ltb 0 i then b',' ∷ m else m) ++ join (i + 1) ms

-- ReadMessageQueue; `midas_time` is std::to_string of its argument.
unfoldable pub read_message_queue : MessageHandler → Bytes → MessageHandler × Bytes
unfolding join
read_message_queue s midas_time = (
  record s { json_message_queue = []; json_error_queue = [] },
  (codes "{\"MIDASTime\":\"" ++ midas_time)
      ++ (codes "\","
          ++ (join 0 s.json_message_queue
              ++ (join (length s.json_message_queue) s.json_error_queue ++ b'}' ∷ []))),
)
