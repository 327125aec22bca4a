-- ===== src/Cookie/Matching.antt =====
-- src/cookie/store.rs: the RFC 6265 tests on hosts, paths and dates.
pub mod Domains
pub mod Paths
use tlsurl.Base.{
  ℕ, suc, ◌+◌, ◌-◌, Bool, true, false, not, ◌&&◌, ◌||◌, Option, none, some, Text, List, [], ◌∷◌,
  length, get_elem?, drop, take, ltb, leb, nat_beq, ◌==◌, if◌then◌else◌, is_some_and, is_some,
  starts_with, ends_with, rfind, strip_prefix, text_eq,
}
use tlsurl.Uri.{Uri, is_http, is_https}
use tlsurl.Cookie.{
  RawCookie, CanonicalHost, domain, ipv4, ipv6, host_eq, is_positive, expires_datetime, Externals,
}

abbrev pub default_path : Text
default_path = b'/' ∷ []

-- `Duration::ZERO` or less counts as expired at once, and so does a date that has come.
unfoldable pub cookie_is_expired : RawCookie → ℕ → Bool
cookie_is_expired cookie now =
    is_some_and cookie.max_age (λ age. not (is_positive age))
    || is_some_and (expires_datetime cookie) (λ deadline. leb deadline now)

-- `host.as_bytes()[host.len() - domain.len() - 1] == b'.'`
abbrev dot_before : Text → Text → Bool
dot_before h d = is_some_and (get_elem? h (length h - length d - 1)) (λ b. nat_beq b b'.')

unfoldable pub domain_match : CanonicalHost → CanonicalHost → Bool
domain_match (domain h) (domain d) =
    if h == d then true else ltb (length d) (length h) && (dot_before h d && ends_with h d)
domain_match h d = h == d

unfoldable pub path_match : Text → Text → Bool
path_match request_path cookie_path =
    request_path == cookie_path
    || starts_with request_path cookie_path
      && (ends_with cookie_path default_path
          || starts_with (drop (length cookie_path) request_path) default_path)

unfoldable pub canonical_host : Externals → Text → Option CanonicalHost
canonical_host ext h = ext.parse_host (strip_prefix b'.' h)

unfoldable pub normalize_path : Text → Text
normalize_path path =
    if not (starts_with path default_path) then default_path else elim (rfind b'/' path) [
      | none ↦ default_path
      | some pos ↦ if nat_beq pos 0 then default_path else take pos path
    ]

-- `cookie.secure() == Some(true)`
abbrev pub is_secure : RawCookie → Bool
is_secure cookie = is_some_and cookie.secure (λ b. b)

-- The selection rules for one stored cookie.
unfoldable pub request_matches_cookie :
    Uri → CanonicalHost → CanonicalHost → Text → RawCookie → ℕ → Bool
request_matches_cookie uri request_host cookie_domain cookie_path cookie now =
    if not (is_http uri || is_https uri)
      || (not (domain_match request_host cookie_domain)
          || (not (is_some cookie.domain) && not (request_host == cookie_domain)
              || (not (path_match uri.path cookie_path) || is_secure cookie && is_http uri)))
    then false
    else not (cookie_is_expired cookie now)
