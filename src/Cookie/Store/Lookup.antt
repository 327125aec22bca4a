-- ===== src/Cookie/Store/Lookup.antt =====
-- src/cookie/store.rs: what a lookup finds after a write and after a removal.
use tlsurl.Base.{
  ◌≡◌, refl, ap, inl, inr, Bool, true, false, ◌&&◌, Option, none, some, Text, [], arith, ◌==◌,
  if◌then◌else◌, unwrap_or, Elem, Elem-append_right, Option-cases, Bool-cases, text_eq,
  text_beq_iff,
}
use tlsurl.HashMap
use tlsurl.HashMap.{get-insert, get-remove, get-none_of_is_empty}
use tlsurl.Cookie.{CanonicalHost, host_eq, host_beq_iff}
use tlsurl.Cookie.Scope
use tlsurl.Cookie.Scope.{CookieEntry, CookieScopeMap, default_scopes}
use tlsurl.Cookie.Store.{
  DomainMap, PathMap, Store, find, find_path, write, write_path, prune_scopes, prune_paths,
  remove_stored_cookie_inner,
}

abbrev pub flag_beq : Bool → Bool → Bool
flag_beq true b = b
flag_beq false true = false
flag_beq false false = true

-- Whether the optional flag of a removal covers a scope.
abbrev pub selects : Option Bool → Bool → Bool
selects none h = true
selects (some f) h = flag_beq f h

get_mut-insert :
    (s : CookieScopeMap) (n n' : Text) (h h' : Bool) (e : CookieEntry)
    → Scope.get_mut (Scope.insert s n h e) n' h'
      ≡ (if flag_beq h h' && (n == n') then some e else Scope.get_mut s n' h')
get_mut-insert s n n' true true e = get-insert n' n e s.host_only
get_mut-insert s n n' true false e = refl
get_mut-insert s n n' false true e = refl
get_mut-insert s n n' false false e = get-insert n' n e s.domain

find_path_or_default :
    (m : PathMap) (p n : Text) (h : Bool)
    → Scope.get_mut (unwrap_or (HashMap.get p m) default_scopes) n h ≡ find_path m p n h
unfolding find_path HashMap.get
find_path_or_default m p n true = elim (Option-cases (HashMap.get p m)) [
  | inl e ↦ rw (e, find_path)
  | inr (s, e) ↦ rw (e, find_path)
]
find_path_or_default m p n false = elim (Option-cases (HashMap.get p m)) [
  | inl e ↦ rw (e, find_path)
  | inr (s, e) ↦ rw (e, find_path)
]

find_or_default :
    (m : DomainMap) (d : CanonicalHost) (p n : Text) (h : Bool)
    → find_path (unwrap_or (HashMap.get d m) []) p n h ≡ find m d p n h
unfolding find find_path HashMap.get
find_or_default m d p n h = elim (Option-cases (HashMap.get d m)) [
  | inl e ↦ rw (e, find, find_path, HashMap.get)
  | inr (s, e) ↦ rw (e, find)
]

find_path-write_path :
    (m : PathMap) (p p' n n' : Text) (h h' : Bool) (e : CookieEntry)
    → find_path (write_path m p n h e) p' n' h'
      ≡ (if (p == p') && (flag_beq h h' && (n == n')) then some e else find_path m p' n' h')
unfolding find_path write_path
find_path-write_path m p p' n n' h h' e =
    let scopes = unwrap_or (HashMap.get p m) default_scopes in
    elim (Bool-cases (p == p')) [
      | inl same ↦
          rw (find_path, get-insert p' p (Scope.insert scopes n h e) m, same)
            (rw (get_mut-insert scopes n n' h h' e) (
              let q : p ≡ p' = (text_beq_iff p p').0 same in
              rw (← q) (
                ap (λ t. if flag_beq h h' && (n == n') then some e else t)
                  (find_path_or_default m p n' h'))))
      | inr other ↦ rw (find_path, get-insert p' p (Scope.insert scopes n h e) m, other)
    ]

-- A write is seen at its own key, and at no other.
pub find-write :
    (m : DomainMap) (d d' : CanonicalHost) (p p' n n' : Text) (h h' : Bool) (e : CookieEntry)
    → find (write m d p n h e) d' p' n' h' ≡ (
        if (d == d') && ((p == p') && (flag_beq h h' && (n == n')))
        then some e
        else find m d' p' n' h')
unfolding find write
find-write m d d' p p' n n' h h' e =
    let path_map = unwrap_or (HashMap.get d m) [] in
    elim (Bool-cases (d == d')) [
      | inl same ↦
          rw (find, get-insert d' d (write_path path_map p n h e) m, same)
            (rw (find_path-write_path path_map p p' n n' h h' e) (
              let q : d ≡ d' = (host_beq_iff d d').0 same in
              rw (← q) (
                ap (λ t. if (p == p') && (flag_beq h h' && (n == n')) then some e else t)
                  (find_or_default m d p' n' h'))))
      | inr other ↦ rw (find, get-insert d' d (write_path path_map p n h e) m, other)
    ]

get_mut-prune_scopes :
    (s : CookieScopeMap) (n n' : Text) (h : Option Bool) (h' : Bool)
    → Scope.get_mut (prune_scopes s n h) n' h'
      ≡ (if selects h h' && (n == n') then none else Scope.get_mut s n' h')
unfolding prune_scopes
get_mut-prune_scopes s n n' none true = get-remove n' n s.host_only
get_mut-prune_scopes s n n' none false = get-remove n' n s.domain
get_mut-prune_scopes s n n' (some true) true = get-remove n' n s.host_only
get_mut-prune_scopes s n n' (some true) false = refl
get_mut-prune_scopes s n n' (some false) true = refl
get_mut-prune_scopes s n n' (some false) false = get-remove n' n s.domain

-- A scope map that is empty holds no cookie.
get_mut_of_is_empty :
    (s : CookieScopeMap) (n : Text) (h : Bool)
    → Scope.is_empty s ≡ true
    → Scope.get_mut s n h ≡ none
get_mut_of_is_empty s n true e = get-none_of_is_empty n s.host_only (ground arith)
get_mut_of_is_empty s n false e = get-none_of_is_empty n s.domain (ground arith)

find_path_of_is_empty :
    (m : PathMap) (p n : Text) (h : Bool) → HashMap.is_empty m ≡ true → find_path m p n h ≡ none
unfolding find_path
find_path_of_is_empty m p n h e = rw (get-none_of_is_empty p m e, find_path)

find_path-prune_paths :
    (m : PathMap) (p p' n n' : Text) (h : Option Bool) (h' : Bool)
    → find_path (prune_paths m p n h) p' n' h'
      ≡ (if (p == p') && (selects h h' && (n == n')) then none else find_path m p' n' h')
unfolding find_path prune_paths
find_path-prune_paths m p p' n n' h h' =
    let law = HashMap.get-update_or_remove (λ s. prune_scopes s n h) Scope.is_empty p' p m in
    elim (Bool-cases (p == p')) [
      | inl same ↦
          let q : p ≡ p' = (text_beq_iff p p').0 same in
          rw (find_path, prune_paths, law, same)
            (rw (← q) (elim (Option-cases (HashMap.get p m)) [
              | inl e ↦ rw (e, find_path) (ground arith)
              | inr (s, e) ↦
                  rw (e, find_path)
                    (ground (
                      arith,
                      get_mut-prune_scopes s n n' h h',
                      get_mut_of_is_empty (prune_scopes s n h) n' h',
                    ))
            ]))
      | inr other ↦ rw (find_path, prune_paths, law, other)
    ]

-- A removal empties its own key, and leaves every other as it was.
pub find-remove_stored_cookie_inner :
    (s : Store) (d d' : CanonicalHost) (p p' n n' : Text) (h : Option Bool) (h' : Bool)
    → find (remove_stored_cookie_inner s d p n h).cookies d' p' n' h' ≡ (
        if (d == d') && ((p == p') && (selects h h' && (n == n')))
        then none
        else find s.cookies d' p' n' h')
unfolding find remove_stored_cookie_inner
find-remove_stored_cookie_inner s d d' p p' n n' h h' =
    let law =
      HashMap.get-update_or_remove (λ m. prune_paths m p n h) HashMap.is_empty d' d s.cookies in
    elim (Bool-cases (d == d')) [
      | inl same ↦
          let q : d ≡ d' = (host_beq_iff d d').0 same in
          rw (find, law, same)
            (rw (← q) (elim (Option-cases (HashMap.get d s.cookies)) [
              | inl e ↦ rw (e, find) (ground arith)
              | inr (m, e) ↦
                  rw (e, find)
                    (ground (
                      arith,
                      find_path-prune_paths m p p' n n' h h',
                      find_path_of_is_empty (prune_paths m p n h) p' n' h',
                    ))
            ]))
      | inr other ↦ rw (find, law, other)
    ]

-- What a lookup found stands in a path map of the store, in one of its scopes.
pub find-split :
    (m : DomainMap) (d : CanonicalHost) (p n : Text) (h : Bool) (e : CookieEntry)
    → find m d p n h ≡ some e
    → (pm : PathMap) × (s : CookieScopeMap) × (HashMap.get d m ≡ some pm)
      × (HashMap.get p pm ≡ some s)
      × (Scope.get_mut s n h ≡ some e)
unfolding find find_path
find-split m d p n h e found = elim (Option-cases (HashMap.get d m)) [
  | inl k ↦ cc (rw (k, find) at found)
  | inr (pm, k) ↦ elim (Option-cases (HashMap.get p pm)) [
    | inl j ↦ cc (rw (k, find, j, find_path) at found)
    | inr (s, j) ↦ (pm, s, k, j, rw (k, find, j, find_path) at found)
  ]
]

pub Elem-entries :
    (s : CookieScopeMap) (n : Text) (h : Bool) (e : CookieEntry)
    → Scope.get_mut s n h ≡ some e
    → Elem e (Scope.entries s n)
Elem-entries s n true e found = rw found (inl refl)
Elem-entries s n false e found =
    Elem-append_right e (Scope.to_list (HashMap.get n s.host_only))
      (Scope.to_list (HashMap.get n s.domain)) (rw found (inl refl))
