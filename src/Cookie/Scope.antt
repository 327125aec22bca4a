-- ===== src/Cookie/Scope.antt =====
-- src/cookie/store.rs: `CookieScopeMap`, the cookies of one domain and path. The flag of a method
-- selects the host-only scope.
use tlsurl.Base.{
  ℕ, Bool, true, false, ◌&&◌, Option, none, some, Text, List, [], ◌∷◌, ◌++◌, map, text_eq,
}
use tlsurl.HashMap
use tlsurl.HashMap.{HashMap}
use tlsurl.Cookie.{RawCookie}

pub record CookieEntry : Type 0 where
  pub cookie : RawCookie
  pub creation_index : ℕ

abbrev pub NameMap : Type 0
NameMap = HashMap Text CookieEntry

pub record CookieScopeMap : Type 0 where
  pub host_only : NameMap
  pub domain : NameMap

abbrev pub default_scopes : CookieScopeMap
default_scopes = record { host_only = []; domain = [] }

-- The scope that a flag selects.
abbrev pub scope : CookieScopeMap → Bool → NameMap
scope s true = s.host_only
scope s false = s.domain

abbrev with_scope : CookieScopeMap → Bool → NameMap → CookieScopeMap
with_scope s true m = record s { host_only = m }
with_scope s false m = record s { domain = m }

abbrev pub get_mut : CookieScopeMap → Text → Bool → Option CookieEntry
get_mut s name host_only = HashMap.get name (scope s host_only)

abbrev pub to_list {ℓ} : {A : Type ℓ} → Option A → List A
to_list none = []
to_list (some a) = a ∷ []

abbrev pub entries : CookieScopeMap → Text → List CookieEntry
entries s name = to_list (HashMap.get name s.host_only) ++ to_list (HashMap.get name s.domain)

abbrev pub insert : CookieScopeMap → Text → Bool → CookieEntry → CookieScopeMap
insert s name host_only entry =
    with_scope s host_only (HashMap.insert name entry (scope s host_only))

abbrev pub remove : CookieScopeMap → Text → Bool → CookieScopeMap
remove s name host_only = with_scope s host_only (HashMap.remove name (scope s host_only))

abbrev pub remove_all : CookieScopeMap → Text → CookieScopeMap
remove_all s name = record {
  host_only = HashMap.remove name s.host_only;
  domain = HashMap.remove name s.domain;
}

abbrev pub values : CookieScopeMap → List CookieEntry
values s = map (λ b. b.1) s.host_only ++ map (λ b. b.1) s.domain

abbrev pub is_empty : CookieScopeMap → Bool
is_empty s = HashMap.is_empty s.host_only && HashMap.is_empty s.domain
