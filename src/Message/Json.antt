-- ===== src/Message/Json.antt =====
-- The client's side of the reply, independent of the code: a reader of one JSON object whose
-- members are strings, in which a backslash takes the next byte as it is.
use fe_gem.Common.{
  ℕ, zero, suc, Bool, true, false, Option, none, some, List, [], ◌∷◌, Bytes, ◌==◌, if◌then◌else◌,
}

infixl 5 ◌>>=◌
abbrev pub ◌>>=◌ : {A B : Type 0} → Option A → (A → Option B) → Option B
none >>= f = none
some a >>= f = f a

abbrev pub push_byte : ℕ → Option (Bytes × Bytes) → Option (Bytes × Bytes)
push_byte c none = none
push_byte c (some (text, rest)) = some (c ∷ text, rest)

-- A string up to its closing quote, and what follows.
unfoldable pub read_string : Bytes → Option (Bytes × Bytes)
read_string [] = none
read_string (c ∷ []) = if c == b'"' then some ([], []) else none
read_string (c ∷ d ∷ cs) =
    let plain = push_byte c (read_string (d ∷ cs)) in
    let taken = push_byte d (read_string cs) in
    if c == b'"' then some ([], d ∷ cs) else if c == b'\\' then taken else plain

abbrev pub expect : ℕ → Bytes → Option Bytes
expect c [] = none
expect c (x ∷ xs) = if x == c then some xs else none

unfoldable pub read_member : Bytes → Option ((Bytes × Bytes) × Bytes)
unfolding read_string
read_member cs = do
  cs ← expect b'"' cs
  (name, cs) ← read_string cs
  cs ← expect b':' cs
  cs ← expect b'"' cs
  (text, cs) ← read_string cs
  some ((name, text), cs)

abbrev pub is_nil : Bytes → Bool
is_nil [] = true
is_nil (c ∷ cs) = false

-- Members up to the closing brace, which must be the last byte.
unfoldable pub read_members : ℕ → Bytes → Option (List (Bytes × Bytes))
unfolding read_member
read_members zero cs = none
read_members (suc fuel) cs = do
  (member, cs) ← read_member cs
  elim cs [
    | [] ↦ none
    | c ∷ cs ↦ elim (c == b'}') [
      | true ↦ (if is_nil cs then some (member ∷ []) else none)
      | false ↦ elim (c == b',') [
        | true ↦ do members ← read_members fuel cs; some (member ∷ members)
        | false ↦ none
      ]
    ]
  ]

unfoldable pub read_object : ℕ → Bytes → Option (List (Bytes × Bytes))
unfolding read_members
read_object fuel cs = do cs ← expect b'{' cs; read_members fuel cs
