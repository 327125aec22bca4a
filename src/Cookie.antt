-- ===== src/Cookie.antt =====
-- src/cookie.rs: the cookie type with its accessors, and what the store takes from other crates.
-- A `RawCookie` is the `cookie` crate's `Cookie`, seen through its accessors and setters.
pub mod Matching
pub mod Scope
pub mod Store
pub mod Jar
pub mod Queries
pub mod Header
pub mod Invariant
pub mod Preserve
pub mod Secure
pub mod Selection
pub mod Accept
pub mod Roundtrip
pub mod Deletion
mod Tests
pub mod History
use tlsurl.Base.{
  ℕ, suc, Bool, true, false, Option, none, some, List, Text, unwrap_or, Eq, ◌==◌, text_eq, ◌≡◌, ◌↔◌,
  arith, text_beq_iff, nat_beq, nat_beq_iff, zero,
}

-- A signed `Duration`: `negsuc n` is -(n + 1).
pub data ℤ : Type 0 where
  pos : ℕ → ℤ
  negsuc : ℕ → ℤ

abbrev pub is_positive : ℤ → Bool
is_positive (pos (suc n)) = true
is_positive _ = false

-- A date is the time since the earliest one that `OffsetDateTime` can hold.
pub data Expiration : Type 0 where
  date_time : ℕ → Expiration
  session : Expiration

pub data SameSite : Type 0 where
  strict lax unrestricted : SameSite

pub record RawCookie : Type 0 where
  pub name : Text
  pub value : Text
  pub secure : Option Bool
  pub http_only : Option Bool
  pub same_site : Option SameSite
  pub domain : Option Text
  pub path : Option Text
  pub max_age : Option ℤ
  pub expires : Option Expiration

-- `expires_datetime` of the `cookie` crate: the date, unless the cookie ends with the session.
abbrev pub expires_datetime : RawCookie → Option ℕ
expires_datetime c = elim c.expires [
  | none ↦ none
  | some e ↦ elim e [ date_time t ↦ some t | session ↦ none ]
]

-- `Host<Box<str>>` of the `url` crate; an address is its numeric value.
pub data CanonicalHost : Type 0 where
  domain : Text → CanonicalHost
  ipv4 ipv6 : ℕ → CanonicalHost

abbrev pub host_beq : CanonicalHost → CanonicalHost → Bool
host_beq (domain a) (domain b) = a == b
host_beq (ipv4 a) (ipv4 b) = nat_beq a b
host_beq (ipv6 a) (ipv6 b) = nat_beq a b
host_beq _ _ = false

pub host_beq_iff : (a b : CanonicalHost) → (host_beq a b ≡ true) ↔ (a ≡ b)
host_beq_iff (domain a) (domain b) = ground (arith, text_beq_iff a b)
host_beq_iff (domain a) (ipv4 b) = ground arith
host_beq_iff (domain a) (ipv6 b) = ground arith
host_beq_iff (ipv4 a) (domain b) = ground arith
host_beq_iff (ipv4 a) (ipv4 b) = ground (arith, nat_beq_iff a b)
host_beq_iff (ipv4 a) (ipv6 b) = ground arith
host_beq_iff (ipv6 a) (domain b) = ground arith
host_beq_iff (ipv6 a) (ipv4 b) = ground arith
host_beq_iff (ipv6 a) (ipv6 b) = ground (arith, nat_beq_iff a b)

instance abbrev pub host_eq : Eq CanonicalHost
host_eq = record { beq = host_beq; beq_iff = host_beq_iff }

-- What the store calls in other crates. `none` is an error, and `is_header_value` tells which bytes
-- `HeaderValue::from_maybe_shared` accepts; it keeps them as they are.
pub record Externals : Type 0 where
  -- `url::Host::parse`
  pub parse_host : Text → Option CanonicalHost
  -- `Host`'s `Display`
  pub host_text : CanonicalHost → Text
  -- `OffsetDateTime::saturating_add`
  pub saturating_add : ℕ → ℤ → ℕ
  -- `cookie::Cookie::parse`, behind the test that the bytes are UTF-8
  pub parse_cookie : Text → Option RawCookie
  pub is_header_value : Text → Bool
