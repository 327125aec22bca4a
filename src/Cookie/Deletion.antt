-- ===== src/Cookie/Deletion.antt =====
-- src/cookie/jar.rs: deleting cookies, by a `Set-Cookie` that has expired and by `remove`.
use tlsurl.Base.{
  ℕ, zero, suc, ◌≤◌, ◌⊎◌, inl, inr, refl, false, arith, ◌≡◌, ◌∙◌, subst, sym, Bool, true, ◌&&◌,
  none, some, Text, ◌==◌, text_eq, if◌then◌else◌,
}
use tlsurl.Uri.{Uri, is_https, into_uri}
use tlsurl.Cookie.{
  ℤ, pos, negsuc, is_positive, date_time, RawCookie, CanonicalHost, host_eq, Externals,
}
use tlsurl.Cookie.Store.{Store, find, is_host_only, remove_stored_cookie_inner}
use tlsurl.Cookie.Store.Lookup.{flag_beq, find-remove_stored_cookie_inner}
use tlsurl.Cookie.Accept.{receive-SameScope, with_domain-SameScope, add-store_cookie}
use tlsurl.Cookie.Jar.{
  add, store_cookie, receive, with_domain, effective_path, effective_domain, request_host, remove,
}

abbrev IsNotPositive : ℤ → Type 0
IsNotPositive (pos n) = n ≡ 0
IsNotPositive (negsuc n) = Unit

-- A `Max-Age` that is not positive or, without a `Max-Age`, a date that has come.
abbrev pub ArrivesExpired : RawCookie → ℕ → Type 0
ArrivesExpired c now =
    ((age : ℤ) × (c.max_age ≡ some age) × IsNotPositive age)
    ⊎ ((c.max_age ≡ none) × ((t : ℕ) × (c.expires ≡ some (date_time t)) × (t ≤ now)))

not_positive : (age : ℤ) → IsNotPositive age → is_positive age ≡ false
not_positive (pos zero) h = refl
not_positive (pos (suc n)) h = absurd (ground (arith, h))
not_positive (negsuc n) h = refl

module _ (ext : Externals) where
  receive-expired :
      (c : RawCookie) (d : CanonicalHost) (now : ℕ)
      → ArrivesExpired c now
      → (receive ext (with_domain ext c d) now).0 ≡ true
  unfolding receive
  receive-expired c d now (inl (age, given, h)) = ground (arith, given, not_positive age h)
  receive-expired c d now (inr (absent, (t, given, past))) = ground (arith, absent, given, past)

  -- A secure origin deletes a cookie by a `Max-Age` that is not positive or, where there is none, by a
  -- date that has come: the entry under the cookie's domain, path, name and scope is gone, and every
  -- other entry stays.
  pub add-deletes :
      (s : Store) (c : RawCookie) (uri : Uri) (r d d' : CanonicalHost) (p n : Text) (h : Bool)
      (now : ℕ)
      → into_uri uri ≡ some uri
      → is_https uri ≡ true
      → request_host ext uri ≡ some r
      → effective_domain ext c r ≡ some d
      → ArrivesExpired c now
      → find (add ext s (some c) uri now).cookies d' p n h ≡ (
          if (d == d')
            && ((effective_path c uri == p) && (flag_beq (is_host_only c) h && (c.name == n)))
          then none
          else find s.cookies d' p n h)
  unfolding store_cookie
  add-deletes s c uri r d d' p n h now valid https origin accepted arrives =
      let expired = receive-expired c d now arrives in
      let path = effective_path c uri in
      let received = receive ext (with_domain ext c d) now in
      let same = receive-SameScope ext (with_domain ext c d) now in
      let name = same.0 ∙ (with_domain-SameScope ext c d).0 in
      rw (add-store_cookie ext s c uri r d now valid https origin accepted, store_cookie, expired)
        (subst
          (λ t.
            find (remove_stored_cookie_inner s d path t (some (is_host_only c))).cookies d' p n h
            ≡ (if (d == d') && ((path == p) && (flag_beq (is_host_only c) h && (c.name == n)))
                then none
                else find s.cookies d' p n h))
          (sym name)
          (find-remove_stored_cookie_inner s d d' path p c.name n (some (is_host_only c)) h))

  -- `remove` deletes the host-only and the `Domain` cookie of a name in the exact scope of a URI,
  -- and no other.
  pub find-remove :
      (s : Store) (uri : Uri) (d d' : CanonicalHost) (p n n' : Text) (h : Bool)
      → into_uri uri ≡ some uri
      → request_host ext uri ≡ some d
      → find (remove ext s n uri).cookies d' p n' h
        ≡ (if (d == d') && ((uri.path == p) && (n == n')) then none else find s.cookies d' p n' h)
  unfolding remove
  find-remove s uri d d' p n n' h valid origin =
      rw (remove, valid, origin) (find-remove_stored_cookie_inner s d d' uri.path p n n' none h)
