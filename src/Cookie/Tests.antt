-- ===== src/Cookie/Tests.antt =====
-- The cookie store on concrete cookies and URIs, and the theorems at inputs that meet their
-- hypotheses.
use tlsurl.Base.{
  zero, suc, ◌+◌, ◌≡◌, refl, inl, map, ◌++◌, ◌↔◌, Bool, true, false, none, some, Text, List, [],
  ◌∷◌, arith, codes, Elem, is_some, if◌then◌else◌, text_eq, strip_prefix, starts_with, ends_with,
  rfind, sort_by, min_by_key,
}
use tlsurl.HashMap
use tlsurl.Uri.{Uri, http, https, is_http, is_https, into_uri}
use tlsurl.Cookie.{RawCookie, CanonicalHost, host_eq, Externals, pos, negsuc}
use tlsurl.Cookie.Matching.{
  domain_match, path_match, normalize_path, canonical_host, cookie_is_expired,
  request_matches_cookie,
}
use tlsurl.Cookie.Store.{
  Store, default_store, Found, find_path, remove_stored_cookie_inner, prune_paths, prune_scopes,
  find, write, write_path, insert_stored_cookie, matching_cookies, would_overlay_secure_cookie,
  saturating_inc,
}
use tlsurl.Cookie.Jar.{
  remove, add, add_from, add_to, store_cookie, receive, effective_domain, effective_path,
}
use tlsurl.Cookie.Header.{
  cookies, cookie_field, selected_entries, request_order, join_pairs, http_11, compressed, empty,
  set_cookies,
}
use tlsurl.Cookie.Header.Fields.{cookies-ordered, rendered, InOrder}
use mathlib.Core.List.{Perm}
use tlsurl.Cookie.Queries.{get, contains, len, get_all, is_empty, scope_entries}
use tlsurl.Cookie.Scope.{CookieEntry}
use tlsurl.Cookie.Invariant.{WellFormed}
use tlsurl.Cookie.History.{adds, removes, step, run, run-WellFormed}
use tlsurl.Cookie.Secure.{add-keeps_secure}
use tlsurl.Cookie.Accept.{HasFuture}
use tlsurl.Cookie.Roundtrip.{matching_cookies-add}
use tlsurl.Cookie.Deletion.{add-deletes}
use tlsurl.Cookie.Selection.{IsSelectable, Elem-matching_cookies_iff}
use tlsurl.Cookie.Matching.Domains.{DomainMatches, domain_match_iff}

-- What the tests compute with.
jar : Unit {0}
unfolding add add_from add_to store_cookie receive effective_domain effective_path domain_match
    path_match normalize_path canonical_host cookie_is_expired request_matches_cookie find write
    write_path insert_stored_cookie matching_cookies would_overlay_secure_cookie saturating_inc
    into_uri is_http is_https HashMap.get HashMap.insert strip_prefix find_path starts_with
    ends_with rfind selected_entries request_order cookies cookie_field join_pairs sort_by
    min_by_key get contains len get_all is_empty scope_entries remove HashMap.update_or_remove
    HashMap.remove remove_stored_cookie_inner prune_paths prune_scopes step run set_cookies
jar = tt

-- A plain world: every text is a host name, and time has no end.
abbrev plain : Externals
plain = record {
  parse_host = λ t. some (CanonicalHost.domain t);
  host_text = λ h. elim h [ CanonicalHost.domain t ↦ t | _ ↦ [] ];
  saturating_add = λ n d. elim d [ pos k ↦ n + k | negsuc k ↦ n ];
  parse_cookie = λ t. none;
  is_header_value = λ t. true;
}

abbrev uri_at : Bool → Text → Text → Uri
uri_at secure host path = record {
  scheme = some (if secure then https else http);
  authority = some (record { text = host; host = host; port = none });
  path = path;
  query = none;
}

abbrev cookie : Text → Text → RawCookie
cookie name value = record {
  name = name;
  value = value;
  secure = none;
  http_only = none;
  same_site = none;
  domain = none;
  path = none;
  max_age = none;
  expires = none;
}

abbrev example_com : Text
example_com = codes "example.com"

abbrev login : Uri
login = uri_at true example_com (codes "/login/form")

abbrev session : RawCookie
session = record (cookie (codes "session") (codes "abc")) { secure = some true }

abbrev logged_in : Store
logged_in = add plain default_store (some session) login 10

found_session :
    is_some (
      find logged_in.cookies
        (CanonicalHost.domain example_com)
        (codes "/login")
        (codes "session")
        true)
    ≡ true
unfolding jar
found_session = refl

abbrev host : CanonicalHost
host = CanonicalHost.domain example_com

abbrev session_name : Text
session_name = codes "session"

abbrev login_path : Text
login_path = codes "/login"

abbrev stored_session : CookieEntry
stored_session = record { cookie = record session { path = some login_path }; creation_index = 0 }

-- An HTTP/1 request below the login path gets the cookie, and one by plain HTTP does not.
sent_session : cookies plain logged_in login http_11 11 ≡ compressed (codes "session=abc")
unfolding jar
sent_session = refl

not_sent_in_clear :
    cookies plain logged_in (uri_at false example_com (codes "/login/form")) http_11 11 ≡ empty
unfolding jar
not_sent_in_clear = refl

abbrev plain_login : Uri
plain_login = uri_at false example_com (codes "/login/form")

abbrev forged : RawCookie
forged = record (cookie session_name (codes "forged")) { path = some login_path }

add-keeps_secure_example :
    find
      (add plain logged_in (some forged) plain_login 11).cookies
      host
      login_path
      session_name
      true
    ≡ some stored_session
unfolding jar
add-keeps_secure_example =
    add-keeps_secure 11 logged_in host login_path session_name true stored_session refl refl plain
      plain_login refl (some forged)

plain-HasFuture : HasFuture plain 10
plain-HasFuture (pos zero) h = cc
plain-HasFuture (pos (suc k)) h = omega arith
plain-HasFuture (negsuc k) h = cc

matching_cookies-add_example :
    (e : CookieEntry) × (e.cookie.name ≡ session_name)
    × (e.cookie.value ≡ codes "abc")
    × Elem
        (host, normalize_path (codes "/login/form"), e)
        (matching_cookies (add plain default_store (some session) login 10) login host 10)
unfolding jar
matching_cookies-add_example =
    matching_cookies-add plain default_store session login host host 10 refl refl refl refl refl
      plain-HasFuture refl refl

Elem-matching_cookies_iff_example :
    Elem (host, login_path, stored_session) (matching_cookies logged_in login host 11)
    ↔ IsSelectable logged_in login host 11 (host, login_path, stored_session)
unfolding run step
Elem-matching_cookies_iff_example =
    Elem-matching_cookies_iff logged_in login host 11 (host, login_path, stored_session)
      (run-WellFormed plain (adds (some session) login 10 ∷ []))

run-WellFormed_example :
    WellFormed
      (run plain default_store (adds (some session) login 10 ∷ removes session_name login ∷ []))
run-WellFormed_example =
    run-WellFormed plain (adds (some session) login 10 ∷ removes session_name login ∷ [])

abbrev gone : RawCookie
gone = record (cookie session_name []) { max_age = some (pos 0) }

add-deletes_example :
    find (add plain logged_in (some gone) login 11).cookies host login_path session_name true ≡ none
unfolding jar
add-deletes_example =
    add-deletes plain logged_in gone login host host host login_path session_name true 11 refl refl
      refl refl (inl (pos 0, refl, refl))

abbrev sub_host : CanonicalHost
sub_host = CanonicalHost.domain (codes "api.example.com")

domain_match_iff_example : (domain_match sub_host host ≡ true) ↔ DomainMatches sub_host host
domain_match_iff_example = domain_match_iff sub_host host

cookies-ordered_example :
    (fs : List Found) × Perm fs (matching_cookies logged_in login host 11)
    × InOrder fs
    × (cookies plain logged_in login http_11 11
        ≡ rendered plain http_11 (map (λ f. f.2.cookie.name ++ b'=' ∷ f.2.cookie.value) fs))
unfolding jar
cookies-ordered_example = cookies-ordered plain logged_in login host http_11 11 refl

abbrev two_cookies : List RawCookie
two_cookies = cookie (codes "a") (codes "1") ∷ cookie (codes "b") (codes "2") ∷ []

abbrev login_scope : Uri
login_scope = uri_at true example_com login_path
