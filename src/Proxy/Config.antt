-- ===== src/Proxy/Config.antt =====
-- src/proxy.rs: a proxy that the user configures, as a matcher.
use tlsurl.Base.{◌≡◌, false, Option, none, some, Text, [], unwrap_or, arith}
use tlsurl.Uri.{Uri}
use tlsurl.Proxy.{ProxyApi, Builder, Extra, Matcher}
use tlsurl.Proxy.Matching.{build, intercept}
use tlsurl.Proxy as Proxies

-- Each with the text of its URI or the path of its socket.
pub data ProxyScheme : Type 0 where
  all http https unix : Text → ProxyScheme

-- `no_proxy` is the text of the `NoProxy`.
pub record Proxy (H : Type 0) : Type 0 where
  pub extra : Extra H
  pub scheme : ProxyScheme
  pub no_proxy : Option Text

abbrev empty_builder : Builder
empty_builder = record {
  is_cgi = false;
  all = [];
  http = [];
  https = [];
  no_proxy = [];
  unix = none;
}

abbrev builder_of : ProxyScheme → Builder
builder_of (all uri) = record empty_builder { all = uri }
builder_of (http uri) = record empty_builder { http = uri }
builder_of (https uri) = record empty_builder { https = uri }
builder_of (unix path) = record empty_builder { unix = some path }

abbrev pub into_matcher :
    (api : ProxyApi) → Proxy api.HeaderMap → Matcher api.HeaderMap api.IpAddr api.IpNet
into_matcher api p =
    build api (record (builder_of p.scheme) { no_proxy = unwrap_or p.no_proxy [] }) p.extra

-- The no-proxy list of a proxy over a socket is not looked at.
intercept-unix :
    (api : ProxyApi) (p : Proxy api.HeaderMap) (path : Text) (dst : Uri)
    → p.scheme ≡ unix path
    → intercept api (into_matcher api p) dst ≡ some (Proxies.Intercepted.unix path)
unfolding intercept build
intercept-unix api p path dst e = ground (arith, e)
