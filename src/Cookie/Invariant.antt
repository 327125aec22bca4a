-- ===== src/Cookie/Invariant.antt =====
-- The invariant of the cookie store (src/cookie/store.rs), and that every method keeps it.
use tlsurl.Base.{
  ℕ, ◌<◌, ◌≤◌, ◌≡◌, inl, inr, Bool, true, false, Option, none, some, Text, [], arith, unwrap_or,
  All, Option-cases, text_eq,
}
use tlsurl.HashMap
use tlsurl.HashMap.{
  IsMap, insert-IsMap, remove-IsMap, update_or_remove-IsMap, All-insert, All-remove, All-get,
  All-update_or_remove, is_empty-insert,
}
use tlsurl.Cookie.{CanonicalHost, host_eq}
use tlsurl.Cookie.Scope
use tlsurl.Cookie.Scope.{CookieEntry, CookieScopeMap, NameMap, default_scopes}
use tlsurl.Cookie.Store.{
  Store, PathMap, DomainMap, find, find_path, write, write_path, prune_scopes, prune_paths, u64_max,
  is_host_only,
}

-- An entry agrees with the key that it is stored under, and is older than the next one.
pub record IsEntry (next : ℕ) (path name : Text) (host_only : Bool) (e : CookieEntry) : Type 0 where
  pub named : e.cookie.name ≡ name
  pub located : e.cookie.path ≡ some path
  pub scoped : is_host_only e.cookie ≡ host_only
  pub created : next < u64_max → e.creation_index < next

abbrev pub IsNameMap : ℕ → Text → Bool → NameMap → Type 0
IsNameMap next path host_only m = IsMap m × All (λ b. IsEntry next path b.0 host_only b.1) m

abbrev pub IsScopes : ℕ → Text → CookieScopeMap → Type 0
IsScopes next path s = IsNameMap next path true s.host_only × IsNameMap next path false s.domain

-- Every path has a cookie: the map of a path that lost its last one is dropped.
abbrev pub IsPaths : ℕ → PathMap → Type 0
IsPaths next m = IsMap m × All (λ b. IsScopes next b.0 b.1 × (Scope.is_empty b.1 ≡ false)) m

abbrev pub IsDomains : ℕ → DomainMap → Type 0
IsDomains next m = IsMap m × All (λ b. IsPaths next b.1 × (HashMap.is_empty b.1 ≡ false)) m

pub record WellFormed (s : Store) : Type 0 where
  pub domains : IsDomains s.next_creation_index s.cookies
  pub limit : s.next_creation_index ≤ u64_max

module _ (next : ℕ) where
  get_mut-IsEntry :
      (p n : Text) (h : Bool) (s : CookieScopeMap) (e : CookieEntry)
      → IsScopes next p s
      → Scope.get_mut s n h ≡ some e
      → IsEntry next p n h e
  get_mut-IsEntry p n true s e v found = All-get _ n e s.host_only v.0.1 found
  get_mut-IsEntry p n false s e v found = All-get _ n e s.domain v.1.1 found

  insert-IsScopes :
      (p n : Text) (h : Bool) (s : CookieScopeMap) (e : CookieEntry)
      → IsScopes next p s
      → IsEntry next p n h e
      → IsScopes next p (Scope.insert s n h e)
  insert-IsScopes p n true s e v k =
      ((insert-IsMap n e s.host_only v.0.0, All-insert _ n e s.host_only v.0.1 k), v.1)
  insert-IsScopes p n false s e v k =
      (v.0, (insert-IsMap n e s.domain v.1.0, All-insert _ n e s.domain v.1.1 k))

  is_empty-insert_scope :
      (n : Text) (h : Bool) (s : CookieScopeMap) (e : CookieEntry)
      → Scope.is_empty (Scope.insert s n h e) ≡ false
  is_empty-insert_scope n true s e = ground (arith, is_empty-insert n e s.host_only)
  is_empty-insert_scope n false s e = ground (arith, is_empty-insert n e s.domain)

  remove-IsNameMap :
      (p n : Text) (h : Bool) (m : NameMap)
      → IsNameMap next p h m
      → IsNameMap next p h (HashMap.remove n m)
  remove-IsNameMap p n h m v = (remove-IsMap n m v.0, All-remove _ n m v.1)

  prune_scopes-IsScopes :
      (p n : Text) (h : Option Bool) (s : CookieScopeMap)
      → IsScopes next p s
      → IsScopes next p (prune_scopes s n h)
  unfolding prune_scopes
  prune_scopes-IsScopes p n none s v =
      (remove-IsNameMap p n true s.host_only v.0, remove-IsNameMap p n false s.domain v.1)
  prune_scopes-IsScopes p n (some true) s v = (remove-IsNameMap p n true s.host_only v.0, v.1)
  prune_scopes-IsScopes p n (some false) s v = (v.0, remove-IsNameMap p n false s.domain v.1)

  default-IsScopes :
      (p : Text) (m : PathMap)
      → IsPaths next m
      → IsScopes next p (unwrap_or (HashMap.get p m) default_scopes)
  default-IsScopes p m v = elim (Option-cases (HashMap.get p m)) [
    | inl e ↦ rw e ((tt, tt), (tt, tt))
    | inr (s, e) ↦ rw e (All-get _ p s m v.1 e).0
  ]

  write_path-IsPaths :
      (m : PathMap) (p n : Text) (h : Bool) (e : CookieEntry)
      → IsPaths next m
      → IsEntry next p n h e
      → IsPaths next (write_path m p n h e)
  unfolding write_path
  write_path-IsPaths m p n h e v k =
      let s = unwrap_or (HashMap.get p m) default_scopes in
      (
        insert-IsMap p (Scope.insert s n h e) m v.0,
        All-insert _ p (Scope.insert s n h e) m v.1
            (insert-IsScopes p n h s e (default-IsScopes p m v) k, is_empty-insert_scope n h s e),
      )

  default-IsPaths :
      (d : CanonicalHost) (m : DomainMap)
      → IsDomains next m
      → IsPaths next (unwrap_or (HashMap.get d m) [])
  default-IsPaths d m v = elim (Option-cases (HashMap.get d m)) [
    | inl e ↦ rw e (tt, tt)
    | inr (s, e) ↦ rw e (All-get _ d s m v.1 e).0
  ]

  pub write-IsDomains :
      (m : DomainMap) (d : CanonicalHost) (p n : Text) (h : Bool) (e : CookieEntry)
      → IsDomains next m
      → IsEntry next p n h e
      → IsDomains next (write m d p n h e)
  unfolding write write_path
  write-IsDomains m d p n h e v k =
      let s = unwrap_or (HashMap.get d m) [] in
      (
        insert-IsMap d (write_path s p n h e) m v.0,
        All-insert _ d (write_path s p n h e) m v.1
            (write_path-IsPaths s p n h e (default-IsPaths d m v) k, is_empty-insert _ _ s),
      )

  pub prune_paths-IsPaths :
      (m : PathMap) (p n : Text) (h : Option Bool)
      → IsPaths next m
      → IsPaths next (prune_paths m p n h)
  unfolding prune_paths
  prune_paths-IsPaths m p n h v = (
    update_or_remove-IsMap _ _ p m v.0,
    All-update_or_remove _ _ _ p m v.1 (λ s k t. (prune_scopes-IsScopes p n h s k.0, t)),
  )

  pub find-IsEntry :
      (m : DomainMap) (d : CanonicalHost) (p n : Text) (h : Bool) (e : CookieEntry)
      → IsDomains next m
      → find m d p n h ≡ some e
      → IsEntry next p n h e
  unfolding find find_path
  find-IsEntry m d p n h e v found = elim (Option-cases (HashMap.get d m)) [
    | inl k ↦ cc (rw (k, find) at found)
    | inr (pm, k) ↦ elim (Option-cases (HashMap.get p pm)) [
      | inl j ↦ cc (rw (k, find, j, find_path) at found)
      | inr (s, j) ↦
          get_mut-IsEntry p n h s e (All-get _ p s pm (All-get _ d pm m v.1 k).0.1 j).0
            (rw (k, find, j, find_path) at found)
    ]
  ]
