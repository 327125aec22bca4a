-- ===== src/Cookie/Queries.antt =====
-- src/cookie/jar.rs: the methods of `Jar` that read the store.
pub mod Agree
use tlsurl.Base.{
  ◌>>=◌, ℕ, Bool, true, false, not, ◌&&◌, ◌||◌, Option, none, some, Text, List, [], ◌∷◌, ◌++◌, map,
  length, ltb, leb, nat_beq, ◌==◌, if◌then◌else◌, is_some, is_some_and, any, filter, flat_map,
  text_eq, sort_by, min_by_key,
}
use tlsurl.HashMap
use tlsurl.Uri.{Uri, host, into_uri}
use tlsurl.Cookie.{RawCookie, CanonicalHost, host_eq, Externals}
use tlsurl.Cookie.Matching.{cookie_is_expired}
use tlsurl.Cookie.Scope
use tlsurl.Cookie.Scope.{CookieEntry}
use tlsurl.Cookie.Store.{Store, matching_cookies}
use tlsurl.Cookie.Jar.{request_host}

abbrev pub is_live : ℕ → CookieEntry → Bool
is_live now entry = not (cookie_is_expired entry.cookie now)

-- The iteration over every entry of the jar.
abbrev pub all_entries : Store → List CookieEntry
all_entries s =
    flat_map (λ (dom, path_map). flat_map (λ (path, scopes). Scope.values scopes) path_map)
      s.cookies

-- The entries with a name in one domain and path.
unfoldable pub scope_entries : Store → CanonicalHost → Text → Text → Option (List CookieEntry)
scope_entries s dom path name = do
  path_map ← HashMap.get dom s.cookies
  scopes ← HashMap.get path path_map
  some (Scope.entries scopes name)

module _ (ext : Externals) (s : Store) where
  unfoldable pub get : Text → Uri → ℕ → Option RawCookie
  get name uri now = do
    uri' ← into_uri uri
    dom ← request_host ext uri'
    entries ← scope_entries s dom uri'.path name
    entry ← min_by_key (λ e. e.creation_index) (filter (is_live now) entries)
    some entry.cookie

  unfoldable pub contains : Text → Uri → ℕ → Bool
  contains name uri now = elim (into_uri uri) [
    | none ↦ false
    | some uri' ↦ elim (request_host ext uri') [
      | none ↦ false
      | some dom ↦ is_some_and (scope_entries s dom uri'.path name) (any (is_live now))
    ]
  ]

  unfoldable pub matches : Uri → ℕ → List RawCookie
  matches uri now = elim (into_uri uri) [
    | none ↦ []
    | some uri' ↦ elim (request_host ext uri') [
      | none ↦ []
      | some dom ↦ map (λ f. f.2.cookie) (matching_cookies s uri' dom now)
    ]
  ]

-- In creation order.
unfoldable pub get_all : Store → ℕ → List RawCookie
get_all s now =
    map (λ e. e.cookie)
      (sort_by (λ a b. leb a.creation_index b.creation_index)
        (filter (is_live now) (all_entries s)))

unfoldable pub len : Store → ℕ → ℕ
len s now = length (filter (is_live now) (all_entries s))

unfoldable pub is_empty : Store → ℕ → Bool
is_empty s now = not (any (is_live now) (all_entries s))
