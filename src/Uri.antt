-- ===== src/Uri.antt =====
-- The `http` crate's `Uri`, as the parts that its accessors return, with the program's extension
-- trait `UriExt` (src/ext.rs) and its validation `IntoUri` (src/into_uri.rs).
pub mod Userinfo
use tlsurl.Base.{
  ℕ, ◌≡◌, ◌↔◌, Bool, true, false, Option, none, some, arith, if◌then◌else◌, Eq, ◌==◌, Text,
  text_beq_iff, text_eq,
}
use mathlib.Core.Option

pub data Scheme : Type 0 where
  http https : Scheme
  other : Text → Scheme

abbrev pub scheme_beq : Scheme → Scheme → Bool
scheme_beq http http = true
scheme_beq https https = true
scheme_beq (other a) (other b) = a == b
scheme_beq _ _ = false

pub scheme_beq_iff : (a b : Scheme) → (scheme_beq a b ≡ true) ↔ (a ≡ b)
scheme_beq_iff http http = ground arith
scheme_beq_iff http https = ground arith
scheme_beq_iff http (other b) = ground arith
scheme_beq_iff https http = ground arith
scheme_beq_iff https https = ground arith
scheme_beq_iff https (other b) = ground arith
scheme_beq_iff (other a) http = ground arith
scheme_beq_iff (other a) https = ground arith
scheme_beq_iff (other a) (other b) = ground (arith, text_beq_iff a b)

instance abbrev pub scheme_eq : Eq Scheme
scheme_eq = record { beq = scheme_beq; beq_iff = scheme_beq_iff }

-- `text` is the whole authority, user information included.
pub record Authority : Type 0 where
  pub text : Text
  pub host : Text
  pub port : Option ℕ

pub record Uri : Type 0 where
  pub scheme : Option Scheme
  pub authority : Option Authority
  pub path : Text
  pub query : Option Text

abbrev pub host : Uri → Option Text
host uri = Option.map (λ a. a.host) uri.authority

abbrev pub port : Uri → Option ℕ
port uri = elim uri.authority [ none ↦ none | some a ↦ a.port ]

unfoldable pub is_http : Uri → Bool
is_http uri = elim uri.scheme [ none ↦ false | some s ↦ s == http ]

unfoldable pub is_https : Uri → Bool
is_https uri = elim uri.scheme [ none ↦ false | some s ↦ s == https ]

unfoldable pub port_or_default : Uri → ℕ
unfolding is_https
port_or_default uri = elim (port uri) [ some p ↦ p | none ↦ if is_https uri then 443 else 80 ]

-- `IntoUri for Uri`: `none` is the error.
unfoldable pub into_uri : Uri → Option Uri
into_uri uri = elim uri.scheme [
  | none ↦ none
  | some s ↦ elim uri.authority [ none ↦ none | some a ↦ some uri ]
]

-- The validation returns its argument or fails.
pub into_uri-eq : (uri u : Uri) → into_uri uri ≡ some u → u ≡ uri
unfolding into_uri
into_uri-eq uri u h = ground arith

pub https-not_http : (uri : Uri) → is_https uri ≡ true → is_http uri ≡ false
unfolding is_https is_http
https-not_http uri h = ground arith
