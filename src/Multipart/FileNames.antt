-- ===== src/Multipart/FileNames.antt =====
-- src/client/multipart.rs: how a file name stands in the header of a part.
use mathlib.Core.Option
use tlsurl.Base.{
  ℕ, ◌≡◌, refl, ◌∙◌, Bool, true, false, not, ◌&&◌, ◌||◌, Option, none, some, Text, [], ◌∷◌, ◌++◌,
  if◌then◌else◌, nat_beq, arith, append_assoc,
}
use tlsurl.Multipart.{legal_filename}

-- A reader of quoted strings, by RFC 9110: a backslash takes the next byte as it is, and a quote
-- ends the string. The result is the string and what follows it.
unfoldable pub read_quoted : Bool → Text → Option (Text × Text)
read_quoted escaped [] = none
read_quoted true (c ∷ s) = Option.map (λ (text, rest). (c ∷ text, rest)) (read_quoted false s)
read_quoted false (c ∷ s) = elim (nat_beq c b'"') [
  | true ↦ some ([], s)
  | false ↦ elim (nat_beq c b'\\') [
    | true ↦ read_quoted true s
    | false ↦ Option.map (λ (text, rest). (c ∷ text, rest)) (read_quoted false s)
  ]
]

abbrev is_special : ℕ → Bool
is_special c = nat_beq c b'\\' || (nat_beq c b'"' || (nat_beq c b'\r' || nat_beq c b'\n'))

-- Each backslash stands before a backslash, a quote, a CR or an LF, which stand nowhere else.
unfoldable pub is_escaped : Bool → Text → Bool
is_escaped true [] = false
is_escaped false [] = true
is_escaped true (c ∷ s) = is_special c && is_escaped false s
is_escaped false (c ∷ s) = elim (nat_beq c b'\\') [
  | true ↦ is_escaped true s
  | false ↦ not (is_special c) && is_escaped false s
]

escape : ℕ → Text
escape c = if is_special c then b'\\' ∷ c ∷ [] else c ∷ []

legal_filename-cons : (c : ℕ) (s : Text) → legal_filename (c ∷ s) ≡ escape c ++ legal_filename s
unfolding legal_filename escape
legal_filename-cons c s = ground arith

read_quoted-escape :
    (c : ℕ) (s : Text)
    → read_quoted false (escape c ++ s)
      ≡ Option.map (λ (text, rest). (c ∷ text, rest)) (read_quoted false s)
unfolding read_quoted escape
read_quoted-escape c s = ground arith

read_quoted-legal_filename :
    (name rest : Text) → read_quoted false (legal_filename name ++ b'"' ∷ rest) ≡ some (name, rest)
unfolding legal_filename read_quoted
read_quoted-legal_filename [] rest = refl
read_quoted-legal_filename (c ∷ s) rest =
    rw
      (
        legal_filename-cons c s,
        append_assoc,
        read_quoted-escape c (legal_filename s ++ b'"' ∷ rest),
        read_quoted-legal_filename s rest,
      )
      refl

is_escaped-escape : (c : ℕ) (s : Text) → is_escaped false (escape c ++ s) ≡ is_escaped false s
unfolding is_escaped escape
is_escaped-escape c s = ground arith

is_escaped-legal_filename : (name : Text) → is_escaped false (legal_filename name) ≡ true
unfolding legal_filename is_escaped
is_escaped-legal_filename [] = refl
is_escaped-legal_filename (c ∷ s) =
    rw (legal_filename-cons c s)
      (is_escaped-escape c (legal_filename s) ∙ is_escaped-legal_filename s)

-- Whatever the file name is, the quoted string that the code writes reads back as that name and
-- ends at the quote that the code writes after it; and each CR, LF, quote and backslash stays in it as
-- it is, with a backslash of its own before it, and no other byte has one.
pub legal_filename_lem :
    (name rest : Text)
    → (read_quoted false (legal_filename name ++ b'"' ∷ rest) ≡ some (name, rest))
      × (is_escaped false (legal_filename name) ≡ true)
legal_filename_lem name rest =
    (read_quoted-legal_filename name rest, is_escaped-legal_filename name)
