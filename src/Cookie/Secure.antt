-- ===== src/Cookie/Secure.antt =====
-- src/cookie/jar.rs, `add`: an insecure origin cannot change a `Secure` cookie.
use tlsurl.Base.{
  ◌>>=◌, ℕ, ◌≡◌, refl, inl, inr, Bool, true, false, not, ◌&&◌, Option, none, some, Text, arith,
  ◌==◌, any_of_Elem, Option-cases, Bool-cases, text_eq, text_beq_iff,
}
use tlsurl.HashMap.{Elem-of_get}
use tlsurl.Uri.{Uri, is_https, into_uri, into_uri-eq}
use tlsurl.Cookie.{RawCookie, CanonicalHost, host_eq, host_beq_iff, Externals}
use tlsurl.Cookie.Matching.{domain_match, path_match, is_secure}
use tlsurl.Cookie.Matching.Domains.{domain_match_iff}
use tlsurl.Cookie.Matching.Paths.{path_match_iff}
use tlsurl.Cookie.Scope.{CookieEntry}
use tlsurl.Cookie.Store.{
  Store, find, is_live_secure, would_overlay_secure_cookie, overlays_path, overlays_domain,
}
use tlsurl.Cookie.Store.Lookup.{find-split, Elem-entries, find-remove_stored_cookie_inner}
use tlsurl.Cookie.Store.Replace.{find-insert_stored_cookie}
use tlsurl.Cookie.Jar.{add, add_from, add_to, store_cookie, request_host, effective_domain}

domain_match_refl : (d : CanonicalHost) → domain_match d d ≡ true
domain_match_refl d = (domain_match_iff d d).1 (inl refl)

path_match_refl : (p : Text) → path_match p p ≡ true
path_match_refl p = (path_match_iff p p).1 (inl refl)

overlay_of_find :
    (now : ℕ) (s : Store) (d : CanonicalHost) (p n : Text) (h : Bool) (e : CookieEntry)
    → find s.cookies d p n h ≡ some e
    → is_live_secure now e ≡ true
    → would_overlay_secure_cookie s n d p now ≡ true
unfolding would_overlay_secure_cookie
overlay_of_find now s d p n h e found live =
    let (pm, scopes, at_d, at_p, at_n) = find-split s.cookies d p n h e found in
    let entries = any_of_Elem (is_live_secure now) e _ (Elem-entries scopes n h e at_n) live in
    let paths =
      any_of_Elem (overlays_path n p now) (p, scopes) pm (Elem-of_get p scopes pm at_p)
        (ground (arith, path_match_refl p, entries)) in
    any_of_Elem (overlays_domain n d p now) (d, pm) s.cookies (Elem-of_get d pm s.cookies at_d)
      (ground (arith, domain_match_refl d, paths))

module _ (now : ℕ) (s : Store) (d : CanonicalHost) (p n : Text) (h : Bool) (e : CookieEntry)
    (found : find s.cookies d p n h ≡ some e) (live : is_live_secure now e ≡ true) where
  overlay_of_same_name :
      (d' : CanonicalHost) (p' n' : Text)
      → ((d' == d) && ((p' == p) && (n' == n))) ≡ true
      → would_overlay_secure_cookie s n' d' p' now ≡ true
  overlay_of_same_name d' p' n' same =
      let ed : d' ≡ d = ground (arith, host_beq_iff d' d) in
      let ep : p' ≡ p = ground (arith, text_beq_iff p' p) in
      let en : n' ≡ n = ground (arith, text_beq_iff n' n) in
      rw (ed, ep, en) (overlay_of_find now s d p n h e found live)

  store_cookie-keeps_secure :
      (c : RawCookie) (f expired : Bool) (d' : CanonicalHost) (p' : Text)
      → find (store_cookie s false c f expired d' p' now).cookies d p n h ≡ some e
  unfolding store_cookie
  store_cookie-keeps_secure c f expired d' p' = ground (
    arith,
    found,
    overlay_of_same_name d' p' c.name,
    find-remove_stored_cookie_inner s d' d p' p c.name n (some f) h,
    find-insert_stored_cookie s d' d p' p n h (record c { path = some p' }),
  )

  module _ (ext : Externals) (uri : Uri) (insecure : is_https uri ≡ false) where
    add-keeps_secure_from :
        (c : RawCookie) → find (add_from ext s c uri now).cookies d p n h ≡ some e
    unfolding add_from add_to
    add-keeps_secure_from c = elim (Bool-cases (is_secure c && not (is_https uri))) [
      | inl t ↦ rw (add_from, t) found
      | inr t ↦ elim (Option-cases (request_host ext uri >>= effective_domain ext c)) [
        | inl k ↦ rw (add_from, t, k) found
        | inr (d', k) ↦ rw (add_from, t, k) (rw insecure (store_cookie-keeps_secure _ _ _ d' _))
      ]
    ]

    -- A live `Secure` cookie stays as it is when an origin without HTTPS sets a cookie, whatever
    -- the cookie's name, domain, path and expiry are.
    pub add-keeps_secure :
        (c : Option RawCookie) → find (add ext s c uri now).cookies d p n h ≡ some e
    unfolding add
    add-keeps_secure none = found
    add-keeps_secure (some c) = elim (Option-cases (into_uri uri)) [
      | inl k ↦ rw (add, k) found
      | inr (u, k) ↦ rw (add, k, into_uri-eq uri u k) (add-keeps_secure_from c)
    ]
