-- ===== src/Cookie/Preserve.antt =====
-- Every method of the store and of the jar keeps the store well formed (src/cookie/store.rs and
-- src/cookie/jar.rs).
use tlsurl.Base.{
  ◌>>=◌, ℕ, ◌<◌, ◌≤◌, ◌≡◌, refl, inl, inr, Bool, true, false, not, ◌&&◌, Option, none, some, Text,
  List, [], ◌∷◌, arith, All-map, Option-cases, Bool-cases, ◌==◌, text_eq,
}
use tlsurl.HashMap.{update_or_remove-IsMap, All-update_or_remove}
use tlsurl.Uri.{Uri, is_https, into_uri}
use tlsurl.Cookie.{RawCookie, CanonicalHost, host_eq, Externals}
use tlsurl.Cookie.Scope.{CookieEntry, NameMap}
use tlsurl.Cookie.Matching.{is_secure}
use tlsurl.Cookie.Store.{
  Store, PathMap, DomainMap, find, write, u64_max, saturating_inc, insert_stored_cookie,
  remove_stored_cookie_inner, is_host_only, default_store,
}
use tlsurl.Cookie.Jar.{store_cookie, add_to, add_from, add, remove, effective_domain, request_host}
use tlsurl.Cookie.Header.{set_cookies}
use tlsurl.Cookie.Invariant.{
  IsEntry, IsNameMap, IsPaths, IsDomains, WellFormed, write-IsDomains, prune_paths-IsPaths,
  find-IsEntry,
}

-- The counter may grow under a map.
abbrev Grows : ℕ → ℕ → Type 0
Grows a b = (i : ℕ) → (a < u64_max → i < a) → b < u64_max → i < b

saturating_inc-Grows : (n : ℕ) → Grows n (saturating_inc n)
unfolding saturating_inc
saturating_inc-Grows n i h k = ground (arith, h)

module _ (a b : ℕ) (grows : Grows a b) where
  IsEntry-grows : (p n : Text) (h : Bool) (e : CookieEntry) → IsEntry a p n h e → IsEntry b p n h e
  IsEntry-grows p n h e v = record {
    named = v.named;
    located = v.located;
    scoped = v.scoped;
    created = grows e.creation_index v.created;
  }

  IsNameMap-grows : (p : Text) (h : Bool) (m : NameMap) → IsNameMap a p h m → IsNameMap b p h m
  IsNameMap-grows p h m v = (v.0, All-map _ _ m (λ k w. IsEntry-grows p k.0 h k.1 w) v.1)

  IsPaths-grows : (m : PathMap) → IsPaths a m → IsPaths b m
  IsPaths-grows m v = (
    v.0,
    All-map _ _ m
        (λ k w. (
          (
            IsNameMap-grows k.0 true k.1.host_only w.0.0,
            IsNameMap-grows k.0 false k.1.domain w.0.1,
          ),
          w.1,
        ))
        v.1,
  )

  IsDomains-grows : (m : DomainMap) → IsDomains a m → IsDomains b m
  IsDomains-grows m v = (v.0, All-map _ _ m (λ k w. (IsPaths-grows k.1 w.0, w.1)) v.1)

pub default-WellFormed : WellFormed default_store
default-WellFormed = record { domains = (tt, tt); limit = omega arith }

saturating_inc-le : (n : ℕ) → saturating_inc n ≤ u64_max
unfolding saturating_inc
saturating_inc-le n = ground arith

saturating_inc-created : (n : ℕ) → saturating_inc n < u64_max → n < saturating_inc n
unfolding saturating_inc
saturating_inc-created n h = ground arith

-- A cookie that carries the path that it is stored under.
insert_stored_cookie-WellFormed :
    (s : Store) (d : CanonicalHost) (p : Text) (c : RawCookie)
    → c.path ≡ some p
    → WellFormed s
    → WellFormed (insert_stored_cookie s d p c)
unfolding insert_stored_cookie
insert_stored_cookie-WellFormed s d p c located v =
    elim (Option-cases (find s.cookies d p c.name (is_host_only c))) [
      | inl e ↦ rw (insert_stored_cookie, e) fresh
      | inr (old, e) ↦ elim (Bool-cases (old.cookie.value == c.value)) [
        | inl t ↦
            rw (insert_stored_cookie, e, t)
              (record {
                domains =
                    write-IsDomains s.next_creation_index s.cookies d p c.name (is_host_only c) _
                      v.domains
                      (record {
                        named = refl;
                        located = located;
                        scoped = refl;
                        created =
                            (find-IsEntry s.next_creation_index s.cookies d p c.name
                              (is_host_only c) old v.domains e).created;
                      });
                limit = v.limit;
              })
        | inr t ↦ rw (insert_stored_cookie, e, t) fresh
      ]
    ]
  where
    next : ℕ
    next = saturating_inc s.next_creation_index

    fresh : WellFormed (record {
      cookies =
          write s.cookies d p c.name
            (is_host_only c)
            (record { cookie = c; creation_index = s.next_creation_index });
      next_creation_index = saturating_inc s.next_creation_index;
    })
    fresh = record {
      domains =
          write-IsDomains next s.cookies d p c.name (is_host_only c) _
            (IsDomains-grows s.next_creation_index next (saturating_inc-Grows s.next_creation_index)
              s.cookies v.domains)
            (record {
              named = refl;
              located = located;
              scoped = refl;
              created = saturating_inc-created s.next_creation_index;
            });
      limit = saturating_inc-le s.next_creation_index;
    }

remove_stored_cookie_inner-WellFormed :
    (s : Store) (d : CanonicalHost) (p n : Text) (h : Option Bool)
    → WellFormed s
    → WellFormed (remove_stored_cookie_inner s d p n h)
unfolding remove_stored_cookie_inner
remove_stored_cookie_inner-WellFormed s d p n h v = record {
  domains = (
    update_or_remove-IsMap _ _ d s.cookies v.domains.0,
    All-update_or_remove _ _ _ d s.cookies v.domains.1
        (λ m k t. (prune_paths-IsPaths s.next_creation_index m p n h k.0, t)),
  );
  limit = v.limit;
}

store_cookie-WellFormed :
    (s : Store) (secure_origin : Bool) (c : RawCookie) (h expired : Bool) (d : CanonicalHost)
    (p : Text) (now : ℕ)
    → WellFormed s
    → WellFormed (store_cookie s secure_origin c h expired d p now)
unfolding store_cookie
store_cookie-WellFormed s secure_origin c h expired d p now v = ground (
  arith,
  v,
  remove_stored_cookie_inner-WellFormed s d p c.name (some h) v,
  insert_stored_cookie-WellFormed s d p (record c { path = some p }) refl v,
)

module _ (ext : Externals) where
  add_from-WellFormed :
      (s : Store) (c : RawCookie) (uri : Uri) (now : ℕ)
      → WellFormed s
      → WellFormed (add_from ext s c uri now)
  unfolding add_from add_to
  add_from-WellFormed s c uri now v = elim (Bool-cases (is_secure c && not (is_https uri))) [
    | inl t ↦ rw (add_from, t) v
    | inr t ↦ elim (Option-cases (request_host ext uri >>= effective_domain ext c)) [
      | inl e ↦ rw (add_from, t, e) v
      | inr (d, e) ↦ rw (add_from, t, e) (store_cookie-WellFormed s _ _ _ _ d _ now v)
    ]
  ]

  -- Storing a cookie, whatever it is and wherever it comes from, keeps the store well formed.
  pub add-WellFormed :
      (s : Store) (c : Option RawCookie) (uri : Uri) (now : ℕ)
      → WellFormed s
      → WellFormed (add ext s c uri now)
  unfolding add
  add-WellFormed s none uri now v = v
  add-WellFormed s (some c) uri now v = elim (Option-cases (into_uri uri)) [
    | inl e ↦ rw (add, e) v
    | inr (u, e) ↦ rw (add, e) (add_from-WellFormed s c u now v)
  ]

  pub remove-WellFormed :
      (s : Store) (n : Text) (uri : Uri) → WellFormed s → WellFormed (remove ext s n uri)
  unfolding remove
  remove-WellFormed s n uri v = elim (Option-cases (into_uri uri >>= request_host ext)) [
    | inl e ↦ rw (remove, e) v
    | inr (d, e) ↦ rw (remove, e) (remove_stored_cookie_inner-WellFormed s d uri.path n none v)
  ]

  pub set_cookies-WellFormed :
      (headers : List (Text × ℕ)) (s : Store) (uri : Uri)
      → WellFormed s
      → WellFormed (set_cookies ext s headers uri)
  unfolding set_cookies
  set_cookies-WellFormed [] s uri v = v
  set_cookies-WellFormed ((header, now) ∷ headers) s uri v =
      set_cookies-WellFormed headers _ uri (add-WellFormed s (ext.parse_cookie header) uri now v)
