-- ===== src/Cookie/Header.antt =====
-- src/cookie/jar.rs: `CookieStore for Jar`, from `Set-Cookie` fields and to `Cookie` fields.
pub mod Fields
use tlsurl.Base.{
  ℕ, Bool, true, false, ◌&&◌, Option, none, some, Text, List, [], ◌∷◌, ◌++◌, map, length, ltb, leb,
  nat_beq, if◌then◌else◌, filter, sort_by, is_nil,
}
use tlsurl.Uri.{Uri}
use tlsurl.Cookie.{RawCookie, CanonicalHost, Externals}
use tlsurl.Cookie.Store.{Store, Found, matching_cookies}
use tlsurl.Cookie.Jar.{request_host, add}

pub data Version : Type 0 where
  http_09 http_10 http_11 http_2 http_3 : Version

pub data Cookies : Type 0 where
  compressed : Text → Cookies
  uncompressed : List Text → Cookies
  empty : Cookies

-- Longer paths first, then the older cookie.
unfoldable pub request_order : Found → Found → Bool
request_order a b =
    if nat_beq (length a.1) (length b.1)
    then leb a.2.creation_index b.2.creation_index
    else ltb (length b.1) (length a.1)

-- `name=value`
abbrev pub pair_text : RawCookie → Text
pair_text cookie = cookie.name ++ b'=' ∷ cookie.value

-- The fold of the HTTP/1 branch: `; ` before every pair but the first.
unfoldable pub join_pairs : Text → List RawCookie → Text
join_pairs acc [] = acc
join_pairs acc (c ∷ cs) =
    join_pairs ((if is_nil acc then acc else acc ++ b';' ∷ b' ' ∷ []) ++ pair_text c) cs

abbrev pub is_http2_up : Version → Bool
is_http2_up http_2 = true
is_http2_up http_3 = true
is_http2_up _ = false

-- The matching entries in the order in which they are sent.
unfoldable pub selected_entries : Store → Uri → CanonicalHost → ℕ → List Found
selected_entries s uri dom now = sort_by request_order (matching_cookies s uri dom now)

module _ (ext : Externals) where
  -- Each field with the clock's reading when it is stored; a field that does not parse is skipped.
  unfoldable pub set_cookies : Store → List (Text × ℕ) → Uri → Store
  set_cookies s [] uri = s
  set_cookies s ((header, now) ∷ headers) uri =
      set_cookies (add ext s (ext.parse_cookie header) uri now) headers uri

  unfoldable pub cookie_field : List RawCookie → Version → Cookies
  cookie_field cookies version =
      if is_http2_up version
      then uncompressed (filter ext.is_header_value (map pair_text cookies))
      else let field = join_pairs [] cookies in
        if is_nil field
        then empty
        else if ext.is_header_value field
        then compressed field
        else empty

  unfoldable pub cookies : Store → Uri → Version → ℕ → Cookies
  cookies s uri version now = elim (request_host ext uri) [
    | none ↦ empty
    | some dom ↦ cookie_field (map (λ f. f.2.cookie) (selected_entries s uri dom now)) version
  ]
