-- ===== src/Message/Fields.antt =====
-- How the client reads the fields that src/MessageHandler.cxx has put into a reply.
use fe_gem.Common.{
  ℕ, zero, suc, ◌+◌, ◌<◌, ◌≡◌, refl, sym, ap, ◌∙◌, ◌≢◌, inl, inr, some, List, [], ◌∷◌, ◌++◌, map,
  append_assoc, arith, Bytes, All, length, Bool-cases, ◌==◌,
}
use fe_gem.Message.Queue.{escape, field_text, join}
use fe_gem.Message.Json.{push_byte, read_string, read_member, read_members}

abbrev pub NoBackslash : Bytes → Type 0
NoBackslash = All (λ c. c ≢ b'\\')

abbrev pub Plain : Bytes → Type 0
Plain = All (λ c. (c ≢ b'\\') × (c ≢ b'"'))

pub read_string-plain :
    (c : ℕ) (cs : Bytes)
    → c ≢ b'\\'
    → c ≢ b'"'
    → read_string (c ∷ cs) ≡ push_byte c (read_string cs)
unfolding read_string
read_string-plain c [] b q = ground arith
read_string-plain c (d ∷ cs) b q = ground arith

pub read_string-quote : (cs : Bytes) → read_string (b'"' ∷ cs) ≡ some ([], cs)
unfolding read_string
read_string-quote [] = refl
read_string-quote (d ∷ cs) = refl

pub read_string-taken :
    (d : ℕ) (cs : Bytes) → read_string (b'\\' ∷ d ∷ cs) ≡ push_byte d (read_string cs)
unfolding read_string
read_string-taken d cs = refl

-- A text without backslashes comes back as it was queued.
read_string-escape :
    (text rest : Bytes)
    → NoBackslash text
    → read_string (escape text ++ b'"' ∷ rest) ≡ some (text, rest)
unfolding escape
read_string-escape [] rest p = read_string-quote rest
read_string-escape (c ∷ cs) rest p = elim (Bool-cases (c == b'"')) [
  | inl quote ↦ rw quote (
      read_string-taken c (escape cs ++ b'"' ∷ rest)
      ∙ ap (push_byte c) (read_string-escape cs rest p.1))
  | inr other ↦ rw other (
      read_string-plain c (escape cs ++ b'"' ∷ rest) p.0 (ground arith)
      ∙ ap (push_byte c) (read_string-escape cs rest p.1))
]

pub escape-Plain : (text : Bytes) → Plain text → escape text ≡ text
unfolding escape
escape-Plain [] p = refl
escape-Plain (c ∷ cs) p = ground (arith, escape-Plain cs p.1)

pub Plain-NoBackslash : (text : Bytes) → Plain text → NoBackslash text
Plain-NoBackslash [] p = tt
Plain-NoBackslash (c ∷ cs) p = (p.0.0, Plain-NoBackslash cs p.1)

read_string-name :
    (name rest : Bytes) → Plain name → read_string (name ++ b'"' ∷ rest) ≡ some (name, rest)
read_string-name name rest p =
    ap (λ n. read_string (n ++ b'"' ∷ rest)) (sym (escape-Plain name p))
    ∙ read_string-escape name rest (Plain-NoBackslash name p)

read_member-field_text :
    (name text rest : Bytes)
    → Plain name
    → NoBackslash text
    → read_member (field_text name text ++ rest) ≡ some ((name, text), rest)
unfolding read_member field_text
read_member-field_text name text rest pn pt =
    simp (append_assoc, read_string-name name _ pn, read_string-escape text rest pt)

-- A field that is sent: its name and its text.
abbrev pub Field : Type 0
Field = Bytes × Bytes

abbrev pub IsReadable : Field → Type 0
IsReadable (name, text) = Plain name × NoBackslash text

abbrev pub texts : List Field → List Bytes
texts = map (λ f. field_text f.0 f.1)

pub join-pos : (i j : ℕ) (ms : List Bytes) → 0 < i → 0 < j → join i ms ≡ join j ms
unfolding join
join-pos i j [] hi hj = refl
join-pos i j (m ∷ ms) hi hj = ground (arith, join-pos (i + 1) (j + 1) ms)

abbrev pub brace : Bytes
brace = b'}' ∷ []

pub read_members-texts :
    (fuel : ℕ) (f : Field) (fs : List Field)
    → IsReadable f
    → All IsReadable fs
    → length fs < fuel
    → read_members fuel (field_text f.0 f.1 ++ (join 1 (texts fs) ++ brace)) ≡ some (f ∷ fs)
unfolding read_members join
read_members-texts zero f fs rf rs h = absurd (omega arith)
read_members-texts (suc fuel) f [] rf rs h = rw (read_member-field_text f.0 f.1 brace rf.0 rf.1)
read_members-texts (suc fuel) f (g ∷ gs) rf rs h =
    let rest = read_members-texts fuel g gs rs.0 rs.1 (omega arith) in
    rw
      (
        read_member-field_text f.0 f.1 _ rf.0 rf.1,
        append_assoc,
        join-pos 2 1 (texts gs) (omega arith) (omega arith),
      )
      (rw rest)
