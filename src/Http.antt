-- ===== src/Http.antt =====
-- What the program takes from the `http` and `url` crates: header maps, requests, `Url`, as an
-- interface with the documented laws of the header map.
pub mod Demo
use tlsurl.Base.{
  ℕ, ◌≡◌, Bool, ◌>>=◌, Option, none, some, Text, List, [], ◌∷◌, ◌++◌, ◌==◌, if◌then◌else◌, codes,
  text_eq, is_nil, false,
}
use tlsurl.Uri.{Uri, Scheme, into_uri}

-- `text` is what `HeaderValue::to_str` returns.
pub record HeaderValue : Type 0 where
  pub text : Option Text
  pub sensitive : Bool

-- The values under a name in a list of groups.
abbrev pub values_at : List (Text × List HeaderValue) → Text → List HeaderValue
values_at [] n = []
values_at ((k, vs) ∷ gs) n = if k == n then vs else values_at gs n

abbrev pub Distinct : List (Text × List HeaderValue) → Type 0
Distinct [] = Unit
Distinct ((k, vs) ∷ gs) = (values_at gs k ≡ []) × (is_nil vs ≡ false) × Distinct gs

-- `get_all` lists the values under a name in order, and the laws are those of `http::HeaderMap`.
pub record HttpApi : Type 1 where
  pub HeaderMap : Type 0
  pub get_all : HeaderMap → Text → List HeaderValue
  pub remove : HeaderMap → Text → HeaderMap
  pub insert : HeaderMap → Text → HeaderValue → HeaderMap
  pub append : HeaderMap → Text → HeaderValue → HeaderMap
  -- an empty map, and the map's iteration, by name, in an order that is its own
  pub empty : HeaderMap
  pub groups : HeaderMap → List (Text × List HeaderValue)
  pub get_all-empty : (n : Text) → get_all empty n ≡ []
  pub values_at-groups : (h : HeaderMap) (n : Text) → values_at (groups h) n ≡ get_all h n
  pub groups-Distinct : (h : HeaderMap) → Distinct (groups h)
  pub get_all-remove :
      (h : HeaderMap) (n m : Text) → get_all (remove h n) m ≡ (if n == m then [] else get_all h m)
  pub get_all-insert :
      (h : HeaderMap) (n m : Text) (v : HeaderValue)
      → get_all (insert h n v) m ≡ (if n == m then v ∷ [] else get_all h m)
  pub get_all-append :
      (h : HeaderMap) (n m : Text) (v : HeaderValue)
      → get_all (append h n v) m ≡ (if n == m then get_all h m ++ v ∷ [] else get_all h m)
  pub Url : Type 0
  -- `Url::parse`
  pub parse_url : Text → Option Url
  -- `Url::join`
  pub join : Url → Text → Option Url
  -- `Url::as_str`
  pub as_str : Url → Text
  -- `url.scheme().parse::<Scheme>()`
  pub url_scheme : Url → Option Scheme
  pub host_str : Url → Option Text
  pub port_or_known_default : Url → Option ℕ
  -- `set_username("")` and `set_password(None)`, where `none` is an error
  pub clear_username : Url → Option Url
  pub clear_password : Url → Option Url
  -- `set_fragment(None)`, `set_query(None)` and `set_path("")`
  pub clear_fragment : Url → Url
  pub clear_query : Url → Url
  pub clear_path : Url → Url
  -- `HeaderValue::try_from(&str)`
  pub is_header_text : Text → Bool
  -- `Uri`'s `Display` and `Uri::try_from`
  pub uri_text : Uri → Text
  pub parse_uri : Text → Option Uri

-- src/into_uri.rs: `IntoUri` for a text. What is no URI yet may become one as a `Url`.
unfoldable pub text_into_uri : HttpApi → Text → Option Uri
text_into_uri api text = elim (api.parse_uri text) [
  | some uri ↦ into_uri uri
  | none ↦ api.parse_url text >>= λ url. api.parse_uri (api.as_str url) >>= into_uri
]

pub data Method : Type 0 where
  get post head : Method
  other : Text → Method

pub record Request (H : Type 0) : Type 0 where
  pub method : Method
  pub uri : Uri
  pub headers : H

-- `HeaderMap::get`: the first value.
abbrev pub first : List HeaderValue → Option HeaderValue
first [] = none
first (v ∷ vs) = some v

-- Header names, in lower case as the `http` crate keeps them.
abbrev pub authorization : Text
authorization = codes "authorization"

abbrev pub cookie : Text
cookie = codes "cookie"

abbrev pub cookie2 : Text
cookie2 = codes "cookie2"

abbrev pub proxy_authorization : Text
proxy_authorization = codes "proxy-authorization"

abbrev pub www_authenticate : Text
www_authenticate = codes "www-authenticate"

abbrev pub content_type : Text
content_type = codes "content-type"

abbrev pub content_length : Text
content_length = codes "content-length"

abbrev pub content_encoding : Text
content_encoding = codes "content-encoding"

abbrev pub transfer_encoding : Text
transfer_encoding = codes "transfer-encoding"

abbrev pub location : Text
location = codes "location"

abbrev pub referer : Text
referer = codes "referer"

abbrev pub referrer_policy : Text
referrer_policy = codes "referrer-policy"
