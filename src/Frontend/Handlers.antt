-- ===== src/Frontend/Handlers.antt =====
-- What the handlers of text and of settings files (src/feGEMClass.cxx) leave as it was.
use fe_gem.Common.{
  ℕ, ◌≡◌, refl, ◌∙◌, ◌++◌, Bytes, ltb, ◌==◌, length, select, Bool-cases, Option-cases, inl, inr,
}
use fe_gem.Message.Queue.{
  formatted, MessageHandler, queue_data, push_message, queue_message, queue_error, queue_object,
  quotes_escaped,
}
use fe_gem.Server.State.{Run, ok, ◌>>=◌}
use fe_gem.Server.Settled.{
  Ensures, Ensures-bind, Ensures-any, Ensures-if, SameErrors, Settled, Settled-refl, Settled-trans,
}
use fe_gem.Settings.Files.{Disk, load_settings_file, load_parts, directory_of, last?, name_filter}
use fe_gem.Settings.Names.{Parts, parse_block}
use fe_gem.Frontend.State.{Frontend, queued, filed}
use fe_gem.Frontend.Lines.{handle_str_array_bank}
use fe_gem.Frontend.Elog.{post_elog}
use fe_gem.Frontend.Strings.{Handled, handle_talk, handle_elog, unchanged}

abbrev pub Kept : Frontend → Frontend → Type 0
Kept s s' =
    Settled s.server s'.server
    × (s'.buffer_size ≡ s.buffer_size)
    × (s'.last_event_size ≡ s.last_event_size)

pub Kept-refl : (s : Frontend) → Kept s s
Kept-refl s = (Settled-refl s.server, refl, refl)

pub Kept-trans : (s t u : Frontend) → Kept s t → Kept t u → Kept s u
Kept-trans s t u (a, b, c) (d, e, f) = (Settled-trans s.server t.server u.server a d, e ∙ b, f ∙ c)

-- A run that begins with a value that nothing is asked of.
pub then_Ensures :
    {A B : Type 0} (Q : B → Type 0) (r : Run A) (f : A → Run B)
    → ((a : A) → Ensures Q (f a))
    → Ensures Q (r >>= f)
then_Ensures Q r f g = Ensures-bind (λ a. Unit) Q r f (Ensures-any r) (λ a u. g a)

pub queue_message-SameErrors :
    (m : MessageHandler) (text : Bytes) → Ensures (SameErrors m) (queued (queue_message m text))
unfolding queue_message queue_data push_message
queue_message-SameErrors m text = elim (Bool-cases (quotes_escaped text)) [
  | inl t ↦ rw (queue_message, t) refl
  | inr f ↦ rw (queue_message, f) tt
]

pub queue_error-SameErrors :
    (m : MessageHandler) (source text : Bytes)
    → Ensures (SameErrors m) (queued (queue_error m source text))
unfolding queue_error queue_data push_message
queue_error-SameErrors m source text = elim (Bool-cases (quotes_escaped text)) [
  | inl t ↦ elim (Option-cases (formatted text)) [
    | inl n ↦ rw (queue_error, t, n) tt
    | inr (said, e) ↦ rw (queue_error, t, e) refl
  ]
  | inr f ↦ rw (queue_error, f) tt
]

load_parts-SameErrors :
    (md5 : Bytes → Bytes) (disk : Disk) (database : Bytes) (parts : Parts) (m : MessageHandler)
    → Ensures (SameErrors m) (filed (load_parts md5 disk database parts m))
unfolding load_parts queue_object push_message
load_parts-SameErrors md5 disk database parts m =
    let directory = directory_of database parts.project_name in
    elim (Option-cases (last? (select (name_filter parts.file_name) (disk.scandir directory)))) [
      | inl absent ↦ rw (load_parts, absent) tt
      | inr (chosen, e) ↦ elim (Option-cases (disk.file (directory ++ chosen))) [
        | inl absent ↦ rw (load_parts, e, absent) tt
        | inr (contents, f) ↦ elim (Bool-cases (ltb (length parts.file_name) (length chosen))) [
          | inl t ↦ rw (load_parts, e, f, t) refl
          | inr t ↦ rw (load_parts, e, f, t) tt
        ]
      ]
    ]

pub load_settings_file-SameErrors :
    (md5 : Bytes → Bytes) (disk : Disk) (database : Bytes) (n : ℕ) (block : Bytes) (offset : ℕ)
    (m : MessageHandler)
    → Ensures (SameErrors m) (filed (load_settings_file md5 disk database n block offset m))
unfolding load_settings_file
load_settings_file-SameErrors md5 disk database n block offset m = elim (Bool-cases (n == 1)) [
  | inl t ↦ rw t (load_parts-SameErrors md5 disk database (parse_block block) m)
  | inr f ↦ rw f tt
]

post_elog-Kept : (d : Bytes) (s : Frontend) → Ensures (Kept s) (post_elog d s)
unfolding post_elog
post_elog-Kept d s = search (Ensures-if, then_Ensures, Kept-refl s)

pub handle_str_array_bank-Kept :
    (p : Bytes) (s : Frontend) → Ensures (Kept s) (handle_str_array_bank p s)
unfolding handle_str_array_bank
handle_str_array_bank-Kept p s = search (Ensures-if, then_Ensures, Kept-refl s)

pub handle_talk-Kept : (p : Bytes) (s : Frontend) → Ensures (Kept s) (handle_talk p s)
unfolding handle_talk
handle_talk-Kept p s = search (then_Ensures, Kept-refl s)

pub handle_elog-Kept : (p : Bytes) (s : Frontend) → Ensures (Kept s) (handle_elog p s)
unfolding handle_elog
handle_elog-Kept p s = search (Ensures-if, then_Ensures, Kept-refl s, post_elog-Kept)

-- The same for a handler that gives the bank back as well.
abbrev pub KeptBy : Frontend → Handled → Type 0
KeptBy s h = Kept s h.0

pub unchanged-Kept :
    (p : Bytes) (s : Frontend) (r : Run Frontend)
    → Ensures (Kept s) r
    → Ensures (KeptBy s) (unchanged p r)
unchanged-Kept p s r h = Ensures-bind (Kept s) (KeptBy s) r (λ t. ok (t, p)) h (λ t k. k)
