-- ===== src/Cookie/Store.antt =====
-- src/cookie/store.rs: `Store`, the nested maps of stored cookies. A `HashMap` iterates in the
-- order of its list here; no theorem says more than that order allows.
pub mod Lookup
pub mod Replace
use tlsurl.Base.{
  ℕ, ◌+◌, Bool, true, false, not, ◌&&◌, ◌||◌, Option, none, some, Text, List, [], ◌∷◌, map, ltb,
  ◌==◌, if◌then◌else◌, is_some, unwrap_or, any, filter, flat_map, text_eq,
}
use tlsurl.HashMap
use tlsurl.HashMap.{HashMap}
use tlsurl.Uri.{Uri}
use tlsurl.Cookie.{RawCookie, CanonicalHost, host_eq}
use tlsurl.Cookie.Matching.{
  cookie_is_expired, domain_match, path_match, request_matches_cookie, is_secure,
}
use tlsurl.Cookie.Scope
use tlsurl.Cookie.Scope.{CookieEntry, CookieScopeMap, default_scopes}

abbrev pub PathMap : Type 0
PathMap = HashMap Text CookieScopeMap

abbrev pub DomainMap : Type 0
DomainMap = HashMap CanonicalHost PathMap

pub record Store : Type 0 where
  pub cookies : DomainMap
  pub next_creation_index : ℕ

abbrev pub default_store : Store
default_store = record { cookies = []; next_creation_index = 0 }

abbrev pub u64_max : ℕ
u64_max = 18446744073709551615

-- `saturating_add(1)` on a `u64`.
unfoldable pub saturating_inc : ℕ → ℕ
saturating_inc n = if ltb n u64_max then n + 1 else u64_max

-- The chain of `get_mut` calls down to one entry, in two halves.
unfoldable pub find_path : PathMap → Text → Text → Bool → Option CookieEntry
find_path path_map path name host_only = elim (HashMap.get path path_map) [
  | none ↦ none
  | some scopes ↦ Scope.get_mut scopes name host_only
]

unfoldable pub find : DomainMap → CanonicalHost → Text → Text → Bool → Option CookieEntry
find m dom path name host_only = elim (HashMap.get dom m) [
  | none ↦ none
  | some path_map ↦ find_path path_map path name host_only
]

-- The chain of `entry(…).or_default()` calls with the write at its end, in two halves.
unfoldable pub write_path : PathMap → Text → Text → Bool → CookieEntry → PathMap
write_path path_map path name host_only entry =
    let scopes = unwrap_or (HashMap.get path path_map) default_scopes in
    HashMap.insert path (Scope.insert scopes name host_only entry) path_map

unfoldable pub write : DomainMap → CanonicalHost → Text → Text → Bool → CookieEntry → DomainMap
write m dom path name host_only entry =
    let path_map = unwrap_or (HashMap.get dom m) [] in
    HashMap.insert dom (write_path path_map path name host_only entry) m

abbrev pub is_host_only : RawCookie → Bool
is_host_only cookie = not (is_some cookie.domain)

-- A replacement keeps its place in the creation order exactly if the value is the same.
unfoldable pub insert_stored_cookie : Store → CanonicalHost → Text → RawCookie → Store
insert_stored_cookie s dom path cookie =
    elim (find s.cookies dom path cookie.name (is_host_only cookie)) [
      | some entry ↦
          if entry.cookie.value == cookie.value
          then record s { cookies = put entry.creation_index }
          else record {
            cookies = put s.next_creation_index;
            next_creation_index = saturating_inc s.next_creation_index;
          }
      | none ↦ record {
        cookies = put s.next_creation_index;
        next_creation_index = saturating_inc s.next_creation_index;
      }
    ]
  where
    put : ℕ → DomainMap
    put index =
        write s.cookies dom path cookie.name (is_host_only cookie)
          (record { cookie = cookie; creation_index = index })

-- `none` for the flag removes both scopes' cookies.
unfoldable pub prune_scopes : CookieScopeMap → Text → Option Bool → CookieScopeMap
prune_scopes scopes name none = Scope.remove_all scopes name
prune_scopes scopes name (some host_only) = Scope.remove scopes name host_only

unfoldable pub prune_paths : PathMap → Text → Text → Option Bool → PathMap
prune_paths path_map path name host_only =
    HashMap.update_or_remove (λ scopes. prune_scopes scopes name host_only) Scope.is_empty path
      path_map

unfoldable pub remove_stored_cookie_inner :
    Store → CanonicalHost → Text → Text → Option Bool → Store
remove_stored_cookie_inner s dom path name host_only = record s {
  cookies =
      HashMap.update_or_remove (λ path_map. prune_paths path_map path name host_only)
        HashMap.is_empty dom s.cookies;
}

abbrev pub remove_stored_cookie : Store → CanonicalHost → Text → Text → Bool → Store
remove_stored_cookie s dom path name host_only =
    remove_stored_cookie_inner s dom path name (some host_only)

abbrev pub remove_stored_cookies : Store → CanonicalHost → Text → Text → Store
remove_stored_cookies s dom path name = remove_stored_cookie_inner s dom path name none

-- An entry with the domain and the path that it is stored under.
abbrev pub Found : Type 0
Found = CanonicalHost × Text × CookieEntry

-- The two closures of `matching_cookies`, on the paths of a domain and on the domains.
abbrev pub matches_path :
    Uri → CanonicalHost → ℕ → CanonicalHost → Text × CookieScopeMap → List Found
matches_path uri request_host now dom (path, scopes) =
    map (λ entry. (dom, path, entry))
      (filter (λ entry. request_matches_cookie uri request_host dom path entry.cookie now)
        (Scope.values scopes))

abbrev pub matches_domain : Uri → CanonicalHost → ℕ → CanonicalHost × PathMap → List Found
matches_domain uri request_host now (dom, path_map) =
    flat_map (matches_path uri request_host now dom) path_map

unfoldable pub matching_cookies : Store → Uri → CanonicalHost → ℕ → List Found
matching_cookies s uri request_host now = flat_map (matches_domain uri request_host now) s.cookies

abbrev pub is_live_secure : ℕ → CookieEntry → Bool
is_live_secure now entry = is_secure entry.cookie && not (cookie_is_expired entry.cookie now)

-- The two closures of `would_overlay_secure_cookie`, on the paths and on the domains.
abbrev pub overlays_path : Text → Text → ℕ → Text × CookieScopeMap → Bool
overlays_path name path now (stored_path, scopes) =
    path_match path stored_path && any (is_live_secure now) (Scope.entries scopes name)

abbrev pub overlays_domain : Text → CanonicalHost → Text → ℕ → CanonicalHost × PathMap → Bool
overlays_domain name dom path now (stored_dom, path_map) =
    (domain_match stored_dom dom || domain_match dom stored_dom)
    && any (overlays_path name path now) path_map

unfoldable pub would_overlay_secure_cookie : Store → Text → CanonicalHost → Text → ℕ → Bool
would_overlay_secure_cookie s name dom path now = any (overlays_domain name dom path now) s.cookies
