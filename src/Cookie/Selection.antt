-- ===== src/Cookie/Selection.antt =====
-- src/cookie/store.rs, `matching_cookies` and `request_matches_cookie`: which cookies a request gets.
use tlsurl.Base.{
  ℕ, ◌≡◌, sym, ap, subst, ◌∙◌, All-Elem, inl, inr, ◌↔◌, Bool, true, false, ◌||◌, some, Text, map,
  arith, Elem, Elem-flat_map, Elem-of_flat_map, Elem-filter, Elem-of_filter, Elem-append,
  Elem-append_left, Elem-map, Elem-of_map, Elem-append_right, text_eq,
}
use tlsurl.HashMap
use tlsurl.HashMap.{Elem-of_get, get_of_Elem, IsMap}
use tlsurl.Uri.{Uri, is_http, is_https}
use tlsurl.Cookie.{RawCookie, CanonicalHost, host_eq, host_beq_iff}
use tlsurl.Cookie.Matching.{request_matches_cookie, cookie_is_expired, is_secure}
use tlsurl.Cookie.Matching.Domains.{DomainMatches, domain_match_iff}
use tlsurl.Cookie.Matching.Paths.{PathMatches, path_match_iff}
use tlsurl.Cookie.Scope
use tlsurl.Cookie.Scope.{CookieEntry, CookieScopeMap, NameMap}
use tlsurl.Cookie.Store.{
  Store, PathMap, Found, find, find_path, is_host_only, matching_cookies, matches_domain,
  matches_path,
}
use tlsurl.Cookie.Store.Lookup.{find-split}
use tlsurl.Cookie.Invariant.{WellFormed, IsScopes}

-- The retrieval rules of RFC 6265 for one cookie.
pub record Applies (uri : Uri) (request_host d : CanonicalHost) (p : Text) (c : RawCookie) (now : ℕ)
    : Type 0 where
  pub web : (is_http uri || is_https uri) ≡ true
  pub in_domain : DomainMatches request_host d
  pub exact : is_host_only c ≡ true → request_host ≡ d
  pub in_path : PathMatches uri.path p
  pub confidential : is_secure c ≡ true → is_http uri ≡ false
  pub alive : cookie_is_expired c now ≡ false

Applies-of_match :
    (uri : Uri) (r d : CanonicalHost) (p : Text) (c : RawCookie) (now : ℕ)
    → request_matches_cookie uri r d p c now ≡ true
    → Applies uri r d p c now
unfolding request_matches_cookie
Applies-of_match uri r d p c now h = record {
  web = ground arith;
  in_domain = (domain_match_iff r d).0 (ground arith);
  exact = λ k. (host_beq_iff r d).0 (ground arith);
  in_path = (path_match_iff uri.path p).0 (ground arith);
  confidential = λ k. ground arith;
  alive = ground arith;
}

match_of_Applies :
    (uri : Uri) (r d : CanonicalHost) (p : Text) (c : RawCookie) (now : ℕ)
    → Applies uri r d p c now
    → request_matches_cookie uri r d p c now ≡ true
unfolding request_matches_cookie
match_of_Applies uri r d p c now a = ground (
  arith,
  a.web,
  a.confidential,
  a.alive,
  (domain_match_iff r d).1 a.in_domain,
  (path_match_iff uri.path p).1 a.in_path,
  λ (k : is_host_only c ≡ true). (host_beq_iff r d).1 (a.exact k),
)

-- `request_matches_cookie` holds exactly when all the retrieval rules do.
pub request_matches_cookie_iff :
    (uri : Uri) (r d : CanonicalHost) (p : Text) (c : RawCookie) (now : ℕ)
    → (request_matches_cookie uri r d p c now ≡ true) ↔ Applies uri r d p c now
request_matches_cookie_iff uri r d p c now =
    (Applies-of_match uri r d p c now, match_of_Applies uri r d p c now)

Elem-values_of_scope :
    (s : CookieScopeMap) (n : Text) (h : Bool) (e : CookieEntry)
    → Scope.get_mut s n h ≡ some e
    → Elem e (Scope.values s)
Elem-values_of_scope s n true e found =
    Elem-append_left e (map (λ b. b.1) s.host_only) (map (λ b. b.1) s.domain)
      (Elem-map (λ b. b.1) (n, e) s.host_only (Elem-of_get n e s.host_only found))
Elem-values_of_scope s n false e found =
    Elem-append_right e (map (λ b. b.1) s.host_only) (map (λ b. b.1) s.domain)
      (Elem-map (λ b. b.1) (n, e) s.domain (Elem-of_get n e s.domain found))

name_of_value :
    (m : NameMap) (e : CookieEntry)
    → IsMap m
    → Elem e (map (λ b. b.1) m)
    → (n : Text) × (HashMap.get n m ≡ some e)
name_of_value m e distinct x =
    let ((n, v), x', q) = Elem-of_map (λ b. b.1) e m x in
    (n, get_of_Elem n v m distinct x' ∙ ap some (sym q))

scope_of_value :
    (next : ℕ) (p : Text) (s : CookieScopeMap) (e : CookieEntry)
    → IsScopes next p s
    → Elem e (Scope.values s)
    → (n : Text) × (h : Bool) × (Scope.get_mut s n h ≡ some e)
scope_of_value next p s e v x =
    elim (Elem-append e (map (λ b. b.1) s.host_only) (map (λ b. b.1) s.domain) x) [
      | inl l ↦ let (n, q) = name_of_value s.host_only e v.0.0 l in (n, true, q)
      | inr r ↦ let (n, q) = name_of_value s.domain e v.1.0 r in (n, false, q)
    ]

module _ (s : Store) (uri : Uri) (r : CanonicalHost) (now : ℕ) where
  -- An entry of the store that the request may have is selected.
  pub Elem-matching_cookies :
      (d : CanonicalHost) (p n : Text) (h : Bool) (e : CookieEntry)
      → find s.cookies d p n h ≡ some e
      → request_matches_cookie uri r d p e.cookie now ≡ true
      → Elem (d, p, e) (matching_cookies s uri r now)
  unfolding matching_cookies
  Elem-matching_cookies d p n h e found m =
      let (pm, scopes, at_d, at_p, at_n) = find-split s.cookies d p n h e found in
      Elem-flat_map (matches_domain uri r now) (d, pm) (d, p, e) s.cookies
        (Elem-of_get d pm s.cookies at_d)
        (Elem-flat_map (matches_path uri r now d) (p, scopes) (d, p, e) pm
          (Elem-of_get p scopes pm at_p)
          (Elem-map (λ entry. (d, p, entry)) e _
            (Elem-filter (λ entry. request_matches_cookie uri r d p entry.cookie now) e
              (Scope.values scopes) (Elem-values_of_scope scopes n h e at_n) m)))

  -- A stored entry that the retrieval rules give to the request, with the key that it is stored under.
  abbrev pub IsSelectable : Found → Type 0
  IsSelectable (d, p, e) =
      (n : Text) × (h : Bool) × (find s.cookies d p n h ≡ some e) × Applies uri r d p e.cookie now

  IsSelectable-of_slots :
      (d : CanonicalHost) (pm : PathMap) (p : Text) (scopes : CookieScopeMap) (e : CookieEntry)
      → WellFormed s
      → Elem (d, pm) s.cookies
      → Elem (p, scopes) pm
      → Elem e (Scope.values scopes)
      → request_matches_cookie uri r d p e.cookie now ≡ true
      → IsSelectable (d, p, e)
  unfolding find find_path
  IsSelectable-of_slots d pm p scopes e v in_d in_p in_v m =
      let paths = (All-Elem _ s.cookies (d, pm) v.domains.1 in_d).0 in
      let scopes_ok = (All-Elem _ pm (p, scopes) paths.1 in_p).0 in
      let (n, h, at_n) = scope_of_value s.next_creation_index p scopes e scopes_ok in_v in
      let at_d = get_of_Elem d pm s.cookies v.domains.0 in_d in
      let at_p = get_of_Elem p scopes pm paths.0 in_p in
      (n, h, rw (find, at_d, find_path, at_p) at_n, Applies-of_match uri r d p e.cookie now m)

  IsSelectable-of_Elem :
      (f : Found) → WellFormed s → Elem f (matching_cookies s uri r now) → IsSelectable f
  unfolding matching_cookies
  IsSelectable-of_Elem f v x =
      let ((d, pm), in_d, x_d) = Elem-of_flat_map (matches_domain uri r now) f s.cookies x in
      let ((p, scopes), in_p, x_p) = Elem-of_flat_map (matches_path uri r now d) f pm x_d in
      let (e, in_f, q) = Elem-of_map (λ entry. (d, p, entry)) f _ x_p in
      let (in_v, m) =
        Elem-of_filter (λ entry. request_matches_cookie uri r d p entry.cookie now) e
          (Scope.values scopes) in_f in
      subst IsSelectable (sym q) (IsSelectable-of_slots d pm p scopes e v in_d in_p in_v m)

  -- In a well-formed store the selection is exact: it holds an entry, with its domain and path,
  -- exactly if the entry is stored under them and the retrieval rules give it to the request.
  pub Elem-matching_cookies_iff :
      (f : Found) → WellFormed s → Elem f (matching_cookies s uri r now) ↔ IsSelectable f
  Elem-matching_cookies_iff f v = (
    IsSelectable-of_Elem f v,
    λ k.
        Elem-matching_cookies f.0 f.1 k.0 k.1 f.2 k.2
          (match_of_Applies uri r f.0 f.1 f.2.cookie now k.3),
  )
