-- ===== src/Uri/Userinfo/Roundtrip.antt =====
-- src/ext.rs: what is read back after the user information is set.
use tlsurl.Base.{
  ℕ, ◌≡◌, refl, ap, ◌∙◌, Bool, true, not, ◌&&◌, Option, none, some, Text, [], ◌∷◌, ◌++◌, nat_beq,
  nat_beq_iff, arith, inl, inr, Option-cases,
}
use tlsurl.Uri.{Uri, Authority}
use tlsurl.Uri.Userinfo.{
  rsplit_once, split_once, non_empty, parse_userinfo, read_authority, userinfo, UriApi,
  host_and_port, write_authority, set_userinfo,
}

unfoldable pub lacks : ℕ → Text → Bool
lacks b [] = true
lacks b (c ∷ s) = not (nat_beq c b) && lacks b s

pub rsplit_once-lacks : (b : ℕ) (s : Text) → lacks b s ≡ true → rsplit_once b s ≡ none
unfolding lacks rsplit_once
rsplit_once-lacks b [] h = refl
rsplit_once-lacks b (c ∷ s) h = ground (arith, h, rsplit_once-lacks b s)

pub rsplit_once-append :
    (b : ℕ) (l r : Text) → lacks b r ≡ true → rsplit_once b (l ++ b ∷ r) ≡ some (l, r)
unfolding rsplit_once
rsplit_once-append b [] r h = rw (rsplit_once-lacks b r h) (ground (arith, nat_beq_iff b b))
rsplit_once-append b (c ∷ l) r h = rw (rsplit_once-append b l r h) refl

pub lacks-none : (b : ℕ) (s : Text) → rsplit_once b s ≡ none → lacks b s ≡ true
unfolding rsplit_once lacks
lacks-none b [] h = refl
lacks-none b (c ∷ s) h = ground (arith, h, lacks-none b s)

pub rsplit_once-rest : (b : ℕ) (s l r : Text) → rsplit_once b s ≡ some (l, r) → lacks b r ≡ true
unfolding rsplit_once lacks
rsplit_once-rest b [] l r h = ground (arith, h)
rsplit_once-rest b (c ∷ s) l r h = elim (Option-cases (rsplit_once b s)) [
  | inl absent ↦ ground (arith, h, absent, lacks-none b s absent)
  | inr ((l', r'), found) ↦ ground (arith, h, found, rsplit_once-rest b s l' r' found)
]

split_once-append :
    (b : ℕ) (l r : Text) → lacks b l ≡ true → split_once b (l ++ b ∷ r) ≡ some (l, r)
unfolding split_once lacks
split_once-append b [] r h = ground (arith, nat_beq_iff b b)
split_once-append b (c ∷ l) r h = ground (arith, h, split_once-append b l r)

split_once-lacks : (b : ℕ) (s : Text) → lacks b s ≡ true → split_once b s ≡ none
unfolding split_once lacks
split_once-lacks b [] h = refl
split_once-lacks b (c ∷ s) h = ground (arith, h, split_once-lacks b s)

lacks-host_and_port : (text : Text) → lacks b'@' (host_and_port text) ≡ true
unfolding host_and_port
lacks-host_and_port text = elim (Option-cases (rsplit_once b'@' text)) [
  | inl absent ↦ rw (absent, host_and_port) (lacks-none b'@' text absent)
  | inr ((info, host), found) ↦
      rw (found, host_and_port) (rsplit_once-rest b'@' text info host found)
]

userinfo-authority :
    (uri : Uri) (a : Authority) (text : Text)
    → uri.authority ≡ some a
    → a.text ≡ text
    → userinfo uri ≡ read_authority text
unfolding userinfo
userinfo-authority uri a text there same = ground (arith, there, same)

read_authority-info :
    (info host : Text)
    → lacks b'@' host ≡ true
    → read_authority (info ++ b'@' ∷ host) ≡ parse_userinfo info
unfolding read_authority
read_authority-info info host plain =
    rw (rsplit_once-append b'@' info host plain, read_authority) refl

-- How a part of the user information is read back.
abbrev pub encoded_part : UriApi → Option Text → Option Text
encoded_part api none = none
encoded_part api (some t) = non_empty (api.encode t)

set_userinfo-parsed :
    (api : UriApi) (uri u : Uri) (old new : Authority) (username : Text) (password : Option Text)
    → uri.authority ≡ some old
    → api.parse_authority (write_authority api username password (host_and_port old.text))
      ≡ some new
    → api.from_parts (record uri { authority = some new }) ≡ some u
    → set_userinfo api uri username password ≡ u
unfolding set_userinfo
set_userinfo-parsed api uri u old new username password there parsed built =
    ground (arith, there, parsed, built)

module _ (api : UriApi) (encode-lacks : (t : Text) → lacks b':' (api.encode t) ≡ true)
    (encode-empty : api.encode [] ≡ [])
    (encode-cons : (c : ℕ) (t : Text)
      → non_empty (api.encode (c ∷ t)) ≡ some (api.encode (c ∷ t))) where
  read_authority-write_authority :
      (username : Text) (password : Option Text) (host : Text)
      → lacks b'@' host ≡ true
      → read_authority (write_authority api username password host)
        ≡ (non_empty (api.encode username), encoded_part api password)
  unfolding write_authority split_once read_authority
  read_authority-write_authority [] none host plain =
      rw (rsplit_once-lacks b'@' host plain, encode-empty, read_authority) refl
  read_authority-write_authority [] (some p) host plain =
      read_authority-info (b':' ∷ api.encode p) host plain ∙ rw encode-empty refl
  read_authority-write_authority (c ∷ cs) none host plain =
      read_authority-info (api.encode (c ∷ cs)) host plain
      ∙ rw
          (
            split_once-lacks b':' (api.encode (c ∷ cs)) (encode-lacks (c ∷ cs)),
            encode-cons c cs,
            parse_userinfo,
          )
          refl
  read_authority-write_authority (c ∷ cs) (some p) host plain =
      read_authority-info (api.encode (c ∷ cs) ++ b':' ∷ api.encode p) host plain
      ∙ rw
          (
            split_once-append b':' (api.encode (c ∷ cs)) (api.encode p) (encode-lacks (c ∷ cs)),
            parse_userinfo,
          )
          refl

  -- What is set is read back, percent-encoded, an empty part as an absent one, if the URI has an
  -- authority and the crates accept the new one and keep its text. The encoding leaves no colon and
  -- is empty only for an empty text.
  pub userinfo-set_userinfo :
      (uri u : Uri) (old new : Authority) (username : Text) (password : Option Text)
      → uri.authority ≡ some old
      → api.parse_authority (write_authority api username password (host_and_port old.text))
        ≡ some new
      → new.text ≡ write_authority api username password (host_and_port old.text)
      → api.from_parts (record uri { authority = some new }) ≡ some u
      → u.authority ≡ some new
      → userinfo (set_userinfo api uri username password)
        ≡ (non_empty (api.encode username), encoded_part api password)
  userinfo-set_userinfo uri u old new username password there parsed same built kept =
      let host = host_and_port old.text in
      ap userinfo (set_userinfo-parsed api uri u old new username password there parsed built)
      ∙ userinfo-authority u new (write_authority api username password host) kept same
      ∙ read_authority-write_authority username password host (lacks-host_and_port old.text)
