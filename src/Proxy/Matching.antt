-- ===== src/Proxy/Matching.antt =====
-- src/proxy/matcher.rs and src/util.rs: the reading of a proxy's URI, and the matcher.
use mathlib.Core.Option
use tlsurl.Base.{
  Bool, true, false, not, ◌&&◌, ◌||◌, Option, none, some, Text, [], ◌∷◌, ◌++◌, codes, if◌then◌else◌,
  ◌>>=◌, is_some, ◌==◌, text_eq, unwrap_or, option_eq, nat_eq,
}
use tlsurl.Uri.{Uri, Scheme, http, https, other, Authority, host, is_http, is_https}
use tlsurl.Uri.Userinfo.{rsplit_once, split_once}
use tlsurl.Http.{HeaderValue}
use tlsurl.Proxy.{
  ProxyApi, Auth, nothing, basic, raw, Extra, Intercept, Intercepted, proxy, unix, Matcher, Builder,
  no_proxy_empty, from_string, no_proxy_contains,
}

-- `Option::or_else`
abbrev pub or_else : {A : Type 0} → Option A → Option A → Option A
or_else none b = b
or_else (some a) b = some a

abbrev pub is_socks : Scheme → Bool
is_socks http = false
is_socks https = false
is_socks (other s) =
    s == codes "socks4" || (s == codes "socks4a" || (s == codes "socks5" || s == codes "socks5h"))

-- The scheme of the proxy, and whether it is SOCKS; `none` is no proxy scheme.
abbrev pub proxy_scheme : Option Scheme → Option (Scheme × Bool)
proxy_scheme none = some (http, false)
proxy_scheme (some http) = some (http, false)
proxy_scheme (some https) = some (https, false)
proxy_scheme (some (other s)) = if is_socks (other s) then some (other s, true) else none

module _ (api : ProxyApi) where
  open api use {
    IpAddr, IpNet, HeaderMap, parse_addr, parse_net, same_addr, net_contains, parse_uri,
    parse_authority, build_uri, percent_decode, encode_block,
  }

  -- src/util.rs
  abbrev pub basic_auth : Text → Option Text → HeaderValue
  basic_auth username password = record {
    text = some (codes "Basic " ++ encode_block (username ++ (b':' ∷ unwrap_or password [])));
    sensitive = true;
  }

  -- The SOCKS port is 1080 if there is none.
  abbrev pub with_port : Bool → Authority → Option Authority
  with_port socks authority =
      if socks && not (is_some authority.port)
      then parse_authority (authority.text ++ codes ":1080")
      else some authority

  abbrev pub auth_of : Bool → Text → Auth
  auth_of socks userinfo =
      let (user, pass) =
        unwrap_or (Option.map (λ (u, p). (u, some p)) (split_once b':' userinfo))
          (userinfo, none) in
      let user' = percent_decode user in
      let pass' = Option.map percent_decode pass in
      if socks then raw user' (unwrap_or pass' []) else basic (basic_auth user' pass')

  -- The credentials, and the text of the authority that the builder is given.
  abbrev pub split_auth : Bool → Text → Auth × Text
  split_auth socks text = elim (rsplit_once b'@' text) [
    | some (userinfo, host_port) ↦ (auth_of socks userinfo, host_port)
    | none ↦ (nothing, text)
  ]

  unfoldable pub intercept_of : Scheme → Bool → Authority → Option (Intercept HeaderMap)
  intercept_of scheme socks authority =
      let (auth, text) = split_auth socks authority.text in
      Option.map
        (λ uri. record { uri = uri; auth = auth; extra = record { auth = none; misc = none } })
        (build_uri scheme text)

  unfoldable pub uri_intercept : Uri → Scheme × Bool → Option (Intercept HeaderMap)
  uri_intercept uri (scheme, socks) =
      uri.authority >>= λ named. with_port socks named >>= intercept_of scheme socks

  unfoldable pub parse_env_uri : Text → Option (Intercept HeaderMap)
  parse_env_uri val = parse_uri val >>= λ uri. proxy_scheme uri.scheme >>= uri_intercept uri

  abbrev pub with_extra :
      Extra HeaderMap → Option (Intercept HeaderMap) → Option (Intercept HeaderMap)
  with_extra extra none = none
  with_extra extra (some i) = some (record i { extra = extra })

  unfoldable pub build : Builder → Extra HeaderMap → Matcher HeaderMap IpAddr IpNet
  build b extra =
      if b.is_cgi
      then record { http = none; https = none; no_proxy = no_proxy_empty api; unix = none }
      else (let http = with_extra extra (parse_env_uri b.http) in
          let https = with_extra extra (parse_env_uri b.https) in
          let all =
            if not (is_some http) || not (is_some https)
            then with_extra extra (parse_env_uri b.all)
            else parse_env_uri b.all in
          record {
            http = or_else http all;
            https = or_else https all;
            no_proxy = from_string api b.no_proxy;
            unix = b.unix;
          })

  unfoldable pub intercept : Matcher HeaderMap IpAddr IpNet → Uri → Option (Intercepted HeaderMap)
  intercept m dst = elim m.unix [
    | some path ↦ some (unix path)
    | none ↦ host dst >>= λ name.
        if no_proxy_contains api m.no_proxy name
        then none
        else if is_http dst
        then Option.map proxy m.http
        else if is_https dst
        then Option.map proxy m.https
        else none
  ]

  -- The value of the header `Proxy-Authorization`.
  abbrev pub intercept_basic_auth : Intercept HeaderMap → Option HeaderValue
  intercept_basic_auth i = elim i.extra.auth [
    | some val ↦ some val
    | none ↦ elim i.auth [ basic val ↦ some val | _ ↦ none ]
  ]

  abbrev pub raw_auth : Intercept HeaderMap → Option (Text × Text)
  raw_auth i = elim i.auth [ raw u p ↦ some (u, p) | _ ↦ none ]
