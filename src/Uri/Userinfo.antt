-- ===== src/Uri/Userinfo.antt =====
-- src/ext.rs: the user information of a URI.  The percent encoding and the validation of a URI are
-- those of the `percent-encoding` and `http` crates.
pub mod Roundtrip
mod Tests
use tlsurl.Base.{
  ℕ, ◌≡◌, Bool, true, false, not, ◌&&◌, Option, none, some, if◌then◌else◌, Text, List, [], ◌∷◌,
  ◌++◌, nat_beq,
}
use tlsurl.Uri.{Uri, Authority}
use mathlib.Core.Option

-- `str::rsplit_once` of one byte.
unfoldable pub rsplit_once : ℕ → Text → Option (Text × Text)
rsplit_once b [] = none
rsplit_once b (c ∷ s) = elim (rsplit_once b s) [
  | some (l, r) ↦ some (c ∷ l, r)
  | none ↦ if nat_beq c b then some ([], s) else none
]

-- `str::split_once` of one byte.
unfoldable pub split_once : ℕ → Text → Option (Text × Text)
split_once b [] = none
split_once b (c ∷ s) =
    let rest = split_once b s in
    if nat_beq c b then some ([], s) else Option.map (λ (l, r). (c ∷ l, r)) rest

-- `(!s.is_empty()).then_some(s)`.
abbrev pub non_empty : Text → Option Text
non_empty [] = none
non_empty (c ∷ s) = some (c ∷ s)

abbrev pub parse_userinfo : Text → Option Text × Option Text
parse_userinfo info = elim (split_once b':' info) [
  | some (u, p) ↦ (non_empty u, non_empty p)
  | none ↦ (some info, none)
]

unfoldable pub read_authority : Text → Option Text × Option Text
read_authority text = elim (rsplit_once b'@' text) [
  | none ↦ (none, none)
  | some (info, host) ↦ parse_userinfo info
]

unfoldable pub userinfo : Uri → Option Text × Option Text
userinfo uri = elim uri.authority [ none ↦ (none, none) | some a ↦ read_authority a.text ]

-- `encode` is `utf8_percent_encode` with the set USERINFO, the others are
-- `Authority::from_maybe_shared` and `Uri::from_parts`.
pub record UriApi : Type 0 where
  pub encode : Text → Text
  pub parse_authority : Text → Option Authority
  pub from_parts : Uri → Option Uri

unfoldable pub host_and_port : Text → Text
host_and_port text = elim (rsplit_once b'@' text) [ some (info, host) ↦ host | none ↦ text ]

module _ (api : UriApi) where
  unfoldable pub write_authority : Text → Option Text → Text → Text
  write_authority [] none host = host
  write_authority [] (some password) host = b':' ∷ (api.encode password ++ b'@' ∷ host)
  write_authority (c ∷ cs) (some password) host =
      (api.encode (c ∷ cs) ++ b':' ∷ api.encode password) ++ b'@' ∷ host
  write_authority (c ∷ cs) none host = api.encode (c ∷ cs) ++ b'@' ∷ host

  -- The URI is unchanged where the code returns early.
  unfoldable pub set_userinfo : Uri → Text → Option Text → Uri
  set_userinfo uri username password = elim uri.authority [
    | none ↦ uri
    | some old ↦
        elim (api.parse_authority (write_authority username password (host_and_port old.text))) [
          | none ↦ uri
          | some new ↦ elim (api.from_parts (record uri { authority = some new })) [
            | none ↦ uri
            | some u ↦ u
          ]
        ]
  ]
