-- ===== src/Client/Headers.antt =====
-- src/client/layer/client.rs and src/util.rs: the fields that the client adds to a request.
use tlsurl.Base.{
  ℕ, Bool, false, ◌&&◌, not, Option, none, some, Text, List, [], ◌∷◌, if◌then◌else◌, is_nil, codes,
  ◌>>=◌,
}
use tlsurl.Uri.{Uri}
use tlsurl.Http.{HttpApi, HeaderValue, proxy_authorization, cookie}
use tlsurl.Cookie.Header.{http_11, http_2, Cookies, compressed, uncompressed, empty}
use tlsurl.Client.{CookieApi}
use tlsurl.Client.Forms.{generate_host_header}

abbrev pub host_name : Text
host_name = codes "host"

abbrev pub header : Text → HeaderValue
header t = record { text = some t; sensitive = false }

module _ (http : HttpApi) where
  open http use {HeaderMap, get_all, insert, append, groups}

  abbrev pub contains_key : HeaderMap → Text → Bool
  contains_key h n = not (is_nil (get_all h n))

  -- `entry(n).or_insert(v)`
  abbrev pub or_insert : HeaderMap → Text → HeaderValue → HeaderMap
  or_insert h n v = if contains_key h n then h else insert h n v

  abbrev pub append_all : HeaderMap → Text → List HeaderValue → HeaderMap
  append_all h n [] = h
  append_all h n (v ∷ vs) = append_all (append h n v) n vs

  -- The first value of a name replaces those that are there, the others are appended.
  abbrev pub replace_group : HeaderMap → Text → List HeaderValue → HeaderMap
  replace_group h n [] = h
  replace_group h n (v ∷ vs) = append_all (insert h n v) n vs

  unfoldable pub replace_groups : HeaderMap → List (Text × List HeaderValue) → HeaderMap
  replace_groups h [] = h
  replace_groups h ((n, vs) ∷ gs) = replace_groups (replace_group h n vs) gs

  abbrev pub replace_headers : HeaderMap → HeaderMap → HeaderMap
  replace_headers dst src = replace_groups dst (groups src)

  abbrev pub add_host : (ℕ → Text) → Bool → HeaderMap → Uri → Option HeaderMap
  add_host port_text set_host h uri =
      if set_host && not (contains_key h host_name)
      then (generate_host_header port_text uri >>= λ t. some (insert h host_name (header t)))
      else some h

  abbrev pub add_proxy_auth : Option HeaderValue → HeaderMap → HeaderMap
  add_proxy_auth none h = h
  add_proxy_auth (some auth) h = or_insert h proxy_authorization auth

  abbrev pub add_proxy_headers : Option HeaderMap → HeaderMap → HeaderMap
  add_proxy_headers none h = h
  add_proxy_headers (some src) h = replace_headers h src

  abbrev pub append_texts : HeaderMap → List Text → HeaderMap
  append_texts h [] = h
  append_texts h (t ∷ ts) = append_texts (append h cookie (header t)) ts

  abbrev pub put_cookies : HeaderMap → Cookies → HeaderMap
  put_cookies h empty = h
  put_cookies h (compressed t) = insert h cookie (header t)
  put_cookies h (uncompressed ts) = append_texts h ts

  abbrev pub add_cookies :
      {S : Type 0} → CookieApi S → Option S → Bool → HeaderMap → Uri → HeaderMap
  add_cookies jar none is_http2 h uri = h
  add_cookies jar (some s) is_http2 h uri =
      if contains_key h cookie
      then h
      else put_cookies h (jar.cookies s uri (if is_http2 then http_2 else http_11))
