-- ===== src/Cookie/Jar.antt =====
-- src/cookie/jar.rs: the methods of `Jar`. The `RwLock` makes each method one step on the store; the
-- clock's reading is an argument. `none` for a cookie is a text that does not parse.
use tlsurl.Base.{
  ◌>>=◌, ℕ, Bool, true, false, not, ◌&&◌, Option, none, some, Text, leb, if◌then◌else◌, is_some_and,
  starts_with, text_eq,
}
use tlsurl.Uri.{Uri, host, is_https, into_uri}
use tlsurl.Cookie.{
  RawCookie, CanonicalHost, host_eq, Externals, date_time, expires_datetime, is_positive,
}
use tlsurl.Cookie.Matching.{canonical_host, default_path, domain_match, normalize_path, is_secure}
use tlsurl.Cookie.Store.{
  Store, default_store, insert_stored_cookie, remove_stored_cookie, remove_stored_cookies,
  would_overlay_secure_cookie, is_host_only,
}

-- `cookie.path()` if it is absolute, or the default path of the request.
unfoldable pub effective_path : RawCookie → Uri → Text
effective_path cookie uri = elim cookie.path [
  | none ↦ normalize_path uri.path
  | some p ↦ if starts_with p default_path then p else normalize_path uri.path
]

-- The part of `add` under the write lock.
unfoldable pub store_cookie :
    Store → Bool → RawCookie → Bool → Bool → CanonicalHost → Text → ℕ → Store
store_cookie s secure_origin cookie host_only expired dom path now =
    if not secure_origin && would_overlay_secure_cookie s cookie.name dom path now
    then s
    else if expired
    then remove_stored_cookie s dom path cookie.name host_only
    else insert_stored_cookie s dom path (record cookie { path = some path })

module _ (ext : Externals) where
  -- `uri.host().and_then(canonical_host)`
  abbrev pub request_host : Uri → Option CanonicalHost
  request_host uri = host uri >>= canonical_host ext

  -- The domain under which `add` stores a cookie, or `none` where it ignores the cookie.
  unfoldable pub effective_domain : RawCookie → CanonicalHost → Option CanonicalHost
  effective_domain cookie origin = elim cookie.domain [
    | none ↦ some origin
    | some raw ↦ do d ← canonical_host ext raw; if domain_match origin d then some d else none
  ]

  -- Whether the cookie arrives expired, and the cookie with a positive `Max-Age` turned into a date.
  unfoldable pub receive : RawCookie → ℕ → Bool × RawCookie
  receive cookie now = elim cookie.max_age [
    | some age ↦
        if is_positive age
        then (
          false,
          record cookie { max_age = none; expires = some (date_time (ext.saturating_add now age)) },
        )
        else (true, cookie)
    | none ↦ (is_some_and (expires_datetime cookie) (λ deadline. leb deadline now), cookie)
  ]

  -- The cookie with its `Domain` attribute, if it has one, replaced by the canonical text.
  abbrev pub with_domain : RawCookie → CanonicalHost → RawCookie
  with_domain cookie dom = elim cookie.domain [
    | none ↦ cookie
    | some raw ↦ record cookie { domain = some (ext.host_text dom) }
  ]

  unfoldable pub add_to : Store → RawCookie → Uri → CanonicalHost → ℕ → Store
  add_to s cookie uri dom now =
      let (expired, received) = receive (with_domain cookie dom) now in
      store_cookie s (is_https uri) received (is_host_only cookie) expired dom
        (effective_path cookie uri) now

  unfoldable pub add_from : Store → RawCookie → Uri → ℕ → Store
  add_from s cookie uri now =
      if is_secure cookie && not (is_https uri)
      then s
      else elim (request_host uri >>= effective_domain cookie) [
        | none ↦ s
        | some dom ↦ add_to s cookie uri dom now
      ]

  unfoldable pub add : Store → Option RawCookie → Uri → ℕ → Store
  add s none uri now = s
  add s (some cookie) uri now = elim (into_uri uri) [
    | none ↦ s
    | some uri' ↦ add_from s cookie uri' now
  ]

  unfoldable pub remove : Store → Text → Uri → Store
  remove s name uri = elim (into_uri uri >>= request_host) [
    | none ↦ s
    | some dom ↦ remove_stored_cookies s dom uri.path name
  ]

abbrev pub clear : Store → Store
clear s = default_store
