-- ===== src/Proxy/Tests.antt =====
-- Proxies on a concrete parser, and the theorems at inputs that meet their hypotheses.
use tlsurl.Base.{
  ℕ, unwrap_or, ◌≡◌, refl, ◌⊎◌, ◌↔◌, false, Option, none, some, Text, [], ◌∷◌, codes, if◌then◌else◌,
  starts_with, drop, leb, split, trim, map, Elem, ◌&&◌, arith,
}
use tlsurl.Uri.{Uri, Authority, Scheme, http, other, is_http}
use tlsurl.Uri.Userinfo.{userinfo, rsplit_once, split_once, host_and_port}
use tlsurl.Proxy.{ProxyApi, Builder, Extra, Intercept, proxy, raw, strip_ipv6_brackets}
use tlsurl.Proxy.Matching.{intercept, build, parse_env_uri, intercept_of, uri_intercept}
use tlsurl.Proxy.Domains.{Covers}
use tlsurl.Proxy.Bypass.{IsDomain, intercept-build_iff}
use tlsurl.Proxy.Carried.{Carries, IsWhole}
use tlsurl.Proxy.Credentials.{Keeps, parse_env_uri-credentials}

abbrev uri_of : Option Scheme → Text → Uri
uri_of scheme text = record {
  scheme = scheme;
  authority = some (record { text = text; host = host_and_port text; port = none });
  path = codes "/";
  query = none;
}

-- A text that starts with a digit is an address.
abbrev demo : ProxyApi
demo = record {
  IpAddr = Text;
  IpNet = Text;
  HeaderMap = ℕ;
  parse_addr =
      λ t. elim t [ [] ↦ none | c ∷ s ↦ if leb b'0' c && leb c b'9' then some (c ∷ s) else none ];
  parse_net = λ t. none;
  same_addr = λ a b. starts_with a b && starts_with b a;
  net_contains = λ n a. starts_with a n;
  parse_uri = λ t.
      if starts_with t (codes "http://")
      then some (uri_of (some http) (drop 7 t))
      else if starts_with t (codes "socks5://")
      then some (uri_of (some (other (codes "socks5"))) (drop 9 t))
      else some (uri_of none t);
  parse_authority = λ t. some (record { text = t; host = t; port = none });
  build_uri = λ s t. some (uri_of (some s) t);
  percent_decode = λ t. t;
  encode_block = λ t. t;
}

demo-Keeps : Keeps demo
demo-Keeps scheme text u h = (
  ground (arith, h),
  (record { text = text; host = host_and_port text; port = none }, ground (arith, h), refl),
)

abbrev extra : Extra ℕ
extra = record { auth = none; misc = none }

abbrev builder : Builder
builder = record {
  is_cgi = false;
  all = codes "http://me:pw@proxy.org";
  http = codes "socks5://me@socks.org";
  https = [];
  no_proxy = codes "10.0.0.1, .corp.com ,example.com";
  unix = none;
}

abbrev target : Uri
target = uri_of (some http) (codes "www.Example.com")

abbrev socks : Intercept ℕ
socks = record {
  uri = uri_of (some (other (codes "socks5"))) (codes "socks.org:1080");
  auth = raw (codes "me") [];
  extra = extra;
}

parse_env_uri-socks : parse_env_uri demo (codes "socks5://me@socks.org") ≡ some socks
unfolding parse_env_uri intercept_of uri_intercept rsplit_once split_once host_and_port starts_with
parse_env_uri-socks = refl

intercept-build_iff_example :
    ((intercept demo (build demo builder extra) target ≡ none) ↔ (
      (d : Text) × Elem d (map trim (split b',' builder.no_proxy))
      × IsDomain demo d
      × Covers d (strip_ipv6_brackets (codes "www.Example.com"))))
    × ((intercept demo (build demo builder extra) target ≡ none)
        ⊎ (intercept demo (build demo builder extra) target ≡ some (proxy socks)))
unfolding is_http host_and_port rsplit_once strip_ipv6_brackets parse_env_uri starts_with
    uri_intercept intercept_of
intercept-build_iff_example =
    intercept-build_iff demo builder extra target (codes "www.Example.com") socks refl refl refl
      refl parse_env_uri-socks

demo-IsWhole : IsWhole demo
demo-IsWhole text a h = ground (arith, h)

parse_env_uri-credentials_example :
    (userinfo socks.uri ≡ (none, none))
    × ((given : Uri) × (named : Authority) × (demo.parse_uri (codes "socks5://me@socks.org")
          ≡ some given)
        × (given.authority ≡ some named)
        × (socks.uri.scheme ≡ some (unwrap_or given.scheme http))
        × Carries demo (unwrap_or given.scheme http) named.text socks.auth)
parse_env_uri-credentials_example =
    parse_env_uri-credentials demo (codes "socks5://me@socks.org") socks demo-Keeps demo-IsWhole
      parse_env_uri-socks
