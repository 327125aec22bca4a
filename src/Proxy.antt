-- ===== src/Proxy.antt =====
-- src/proxy.rs and src/proxy/matcher.rs: which requests go through a proxy, and through which one.
-- Addresses, authorities, URIs and encodings are the standard library's and the crates', an interface.
pub mod Matching
pub mod Suffixes
pub mod Domains
pub mod Bypass
pub mod Carried
pub mod Credentials
pub mod Config
mod Tests
use mathlib.Core.Option
use tlsurl.Base.{
  ℕ, ◌+◌, ◌-◌, ◌≡◌, Bool, true, false, not, ◌&&◌, ◌||◌, Option, none, some, Text, List, [], ◌∷◌,
  ◌++◌, codes, if◌then◌else◌, nat_beq, length, get_elem?, ◌>>=◌, is_some, is_some_and, is_nil, any,
  drop, trim, split, eq_ignore_ascii_case, starts_with, ends_with, ◌==◌, text_eq, map, unwrap_or,
  take, option_eq, nat_eq,
}
use tlsurl.Uri.{Uri, Scheme, http, https, other, Authority, host, is_http, is_https}
use tlsurl.Uri.Userinfo.{rsplit_once, split_once}
use tlsurl.Http.{HeaderValue}

pub record ProxyApi : Type 1 where
  pub IpAddr : Type 0
  pub IpNet : Type 0
  pub HeaderMap : Type 0
  pub parse_addr : Text → Option IpAddr
  pub parse_net : Text → Option IpNet
  pub same_addr : IpAddr → IpAddr → Bool
  -- `IpNet::contains`
  pub net_contains : IpNet → IpAddr → Bool
  -- `str::parse::<Uri>`, `Authority::from_maybe_shared`
  pub parse_uri : Text → Option Uri
  pub parse_authority : Text → Option Authority
  -- `Builder::build` of a scheme, an authority and the path `/`
  pub build_uri : Scheme → Text → Option Uri
  -- `percent_decode_str(s).decode_utf8_lossy()` and base64's `encode_block`
  pub percent_decode : Text → Text
  pub encode_block : Text → Text

pub data Auth : Type 0 where
  nothing : Auth
  basic : HeaderValue → Auth
  raw : Text → Text → Auth

pub record Extra (H : Type 0) : Type 0 where
  pub auth : Option HeaderValue
  pub misc : Option H

pub record Intercept (H : Type 0) : Type 0 where
  pub uri : Uri
  pub auth : Auth
  pub extra : Extra H

pub data Intercepted (H : Type 0) : Type 0 where
  proxy : Intercept H → Intercepted H
  unix : Text → Intercepted H

pub data Ip (A N : Type 0) : Type 0 where
  address : A → Ip A N
  network : N → Ip A N

pub record NoProxy (A N : Type 0) : Type 0 where
  pub ips : List (Ip A N)
  pub domains : List Text

pub record Matcher (H A N : Type 0) : Type 0 where
  pub http : Option (Intercept H)
  pub https : Option (Intercept H)
  pub no_proxy : NoProxy A N
  pub unix : Option Text

pub record Builder : Type 0 where
  pub is_cgi : Bool
  pub all : Text
  pub http : Text
  pub https : Text
  pub no_proxy : Text
  pub unix : Option Text

-- src/util.rs
unfoldable pub strip_ipv6_brackets : Text → Text
strip_ipv6_brackets [] = []
strip_ipv6_brackets (c ∷ s) =
    if nat_beq c b'[' && ends_with s (codes "]") then take (length s - 1) s else c ∷ s

-- `d.strip_prefix('.')`
abbrev pub strip_dot : Text → Option Text
strip_dot [] = none
strip_dot (c ∷ s) = if nat_beq c b'.' then some s else none

-- One round of `DomainMatcher::contains`. A suffix that equals `d` starts where a character does, so
-- `str::get` finds it.
unfoldable pub domain_entry : Text → Text → Bool
domain_entry domain d =
    if eq_ignore_ascii_case d domain
      || is_some_and (strip_dot d) (λ s. eq_ignore_ascii_case s domain)
    then true
    else if eq_ignore_ascii_case (drop (length domain - length d) domain) d
    then starts_with d (codes ".")
      || is_some_and (get_elem? domain (length domain - (length d + 1))) (λ c. nat_beq c b'.')
    else d == codes "*"

abbrev pub domains_contain : List Text → Text → Bool
domains_contain domains domain = any (domain_entry domain) domains

module _ (api : ProxyApi) where
  open api use {
    IpAddr, IpNet, HeaderMap, parse_addr, parse_net, same_addr, net_contains, parse_uri,
    parse_authority, build_uri, percent_decode, encode_block,
  }

  abbrev pub ip_entry : IpAddr → Ip IpAddr IpNet → Bool
  ip_entry addr (address a) = same_addr addr a
  ip_entry addr (network n) = net_contains n addr

  abbrev pub ips_contain : List (Ip IpAddr IpNet) → IpAddr → Bool
  ips_contain ips addr = any (ip_entry addr) ips

  abbrev pub no_proxy_empty : NoProxy IpAddr IpNet
  no_proxy_empty = record { ips = []; domains = [] }

  -- One round of the loop of `NoProxy::from_string`.
  unfoldable pub add_entry : NoProxy IpAddr IpNet → Text → NoProxy IpAddr IpNet
  add_entry rules part = elim (parse_net part) [
    | some net ↦ record rules { ips = rules.ips ++ network net ∷ [] }
    | none ↦ elim (parse_addr part) [
      | some addr ↦ record rules { ips = rules.ips ++ address addr ∷ [] }
      | none ↦
          if is_nil (trim part)
          then rules
          else record rules { domains = rules.domains ++ part ∷ [] }
    ]
  ]

  abbrev pub add_entries : NoProxy IpAddr IpNet → List Text → NoProxy IpAddr IpNet
  add_entries rules [] = rules
  add_entries rules (part ∷ parts) = add_entries (add_entry rules part) parts

  unfoldable pub from_string : Text → NoProxy IpAddr IpNet
  from_string list = add_entries no_proxy_empty (map trim (split b',' list))

  unfoldable pub no_proxy_contains : NoProxy IpAddr IpNet → Text → Bool
  no_proxy_contains rules name =
      let name' = strip_ipv6_brackets name in
      elim (parse_addr name') [
        | some ip ↦ ips_contain rules.ips ip
        | none ↦ domains_contain rules.domains name'
      ]
