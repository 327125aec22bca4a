-- ===== src/Cookie/Roundtrip.antt =====
-- src/cookie/jar.rs: a cookie that `add` accepts goes back to the URI that set it.
use tlsurl.Base.{
  ℕ, ◌≡◌, ◌∙◌, ap, subst, sym, true, false, none, some, arith, Elem, text_eq, starts_with,
  if◌then◌else◌,
}
use tlsurl.Uri.{Uri, is_https, into_uri, https-not_http}
use tlsurl.Cookie.{RawCookie, CanonicalHost, host_eq, Externals}
use tlsurl.Cookie.Matching.{cookie_is_expired, normalize_path, default_path, request_matches_cookie}
use tlsurl.Cookie.Matching.Domains.{domain_match_iff}
use tlsurl.Cookie.Matching.Paths.{path_match_iff, normalize_path_lem}
use tlsurl.Cookie.Scope.{CookieEntry}
use tlsurl.Cookie.Store.{Store, find, is_host_only, insert_stored_cookie, matching_cookies}
use tlsurl.Cookie.Store.Replace.{place, find-insert_stored_cookie}
use tlsurl.Cookie.Selection.{Applies, request_matches_cookie_iff, Elem-matching_cookies}
use tlsurl.Cookie.Accept.{
  same_key_refl, HasFuture, receive_lem, SameScope, receive-SameScope, with_domain-SameScope,
  effective_domain_lem, add-store_cookie,
}
use tlsurl.Cookie.Jar.{
  add, store_cookie, receive, with_domain, effective_path, effective_domain, request_host,
}

module _ (ext : Externals) where
  module _ (s : Store) (c : RawCookie) (uri : Uri) (r d : CanonicalHost) (now : ℕ)
      (valid : into_uri uri ≡ some uri) (https : is_https uri ≡ true)
      (origin : request_host ext uri ≡ some r) (accepted : effective_domain ext c r ≡ some d)
      (alive : (receive ext (with_domain ext c d) now).0 ≡ false) where
    -- The cookie as it is stored.
    abbrev stored : RawCookie
    stored = record ((receive ext (with_domain ext c d) now).1) {
      path = some (effective_path c uri);
    }

    stored-SameScope : SameScope ext stored c
    stored-SameScope =
        let a = receive-SameScope ext (with_domain ext c d) now in
        let b = with_domain-SameScope ext c d in (a.0 ∙ b.0, a.1 ∙ b.1, a.2 ∙ b.2, a.3 ∙ b.3)

    add-insert : add ext s (some c) uri now ≡ insert_stored_cookie s d (effective_path c uri) stored
    unfolding store_cookie
    add-insert =
        add-store_cookie ext s c uri r d now valid https origin accepted
        ∙ (rw (store_cookie, alive))

    stored-Applies :
        HasFuture ext now
        → starts_with uri.path default_path ≡ true
        → Applies uri r d (normalize_path uri.path) stored now
    unfolding cookie_is_expired
    stored-Applies future absolute =
        let covers = effective_domain_lem ext c r d accepted in
        record {
          web = ground arith;
          in_domain = (domain_match_iff r d).0 covers.0;
          exact = λ k. covers.1 (sym stored-SameScope.3 ∙ k);
          in_path =
              (path_match_iff uri.path (normalize_path uri.path)).0
                ((normalize_path_lem uri.path).1 absolute);
          confidential = λ k. https-not_http uri https;
          alive = receive_lem ext (with_domain ext c d) now future alive;
        }

    abbrev entry : CookieEntry
    entry = record {
      cookie = stored;
      creation_index =
          place (find s.cookies d (effective_path c uri) stored.name (is_host_only stored)) stored
            s.next_creation_index;
    }

    entry-found :
        find
          (insert_stored_cookie s d (effective_path c uri) stored).cookies
          d
          (effective_path c uri)
          stored.name
          (is_host_only stored)
        ≡ some entry
    entry-found =
        let p = effective_path c uri in
        find-insert_stored_cookie s d d p p stored.name (is_host_only stored) stored
        ∙ ap (λ b. if b then some entry else find s.cookies d p stored.name (is_host_only stored))
            (same_key_refl d p stored)

    default_effective_path : c.path ≡ none → effective_path c uri ≡ normalize_path uri.path
    unfolding effective_path
    default_effective_path no_path = ground arith

    -- Right after a cookie that gives no `Path` is set over HTTPS and accepted, a request for the
    -- same URI selects it, under the cookie's domain and the default path, with its name and value.
    pub matching_cookies-add :
        HasFuture ext now
        → starts_with uri.path default_path ≡ true
        → c.path ≡ none
        → (e : CookieEntry) × (e.cookie.name ≡ c.name)
          × (e.cookie.value ≡ c.value)
          × Elem
              (d, normalize_path uri.path, e)
              (matching_cookies (add ext s (some c) uri now) uri r now)
    matching_cookies-add future absolute no_path =
        let p = effective_path c uri in
        let q = default_effective_path no_path in
        let applies = stored-Applies future absolute in
        let matches =
          (request_matches_cookie_iff uri r d (normalize_path uri.path) stored now).1 applies in
        let selected =
          Elem-matching_cookies (insert_stored_cookie s d p stored) uri r now d p stored.name
            (is_host_only stored) entry entry-found
            (subst (λ t. request_matches_cookie uri r d t stored now ≡ true) (sym q) matches) in
        (entry, stored-SameScope.0, stored-SameScope.1, rw (add-insert, ← q) selected)
