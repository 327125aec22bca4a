-- ===== src/Cookie/Accept.antt =====
-- src/cookie/jar.rs, `add`: what it does with a cookie that it accepts over HTTPS.
use tlsurl.Base.{
  ℕ, ◌<◌, ◌≡◌, refl, inl, inr, Bool, true, false, not, ◌&&◌, some, Text, arith, Option-cases,
  Bool-cases, text_eq, text_beq_iff,
}
use tlsurl.Uri.{Uri, is_https, into_uri}
use tlsurl.Cookie.{RawCookie, CanonicalHost, host_eq, host_beq_iff, Externals, ℤ, is_positive}
use tlsurl.Cookie.Matching.{cookie_is_expired, is_secure, domain_match}
use tlsurl.Cookie.Matching.Domains.{domain_match_iff}
use tlsurl.Cookie.Store.{Store, is_host_only}
use tlsurl.Cookie.Store.Replace.{same_key}
use tlsurl.Cookie.Store.Lookup.{flag_beq}
use tlsurl.Cookie.Jar.{
  add, add_from, add_to, store_cookie, receive, with_domain, effective_path, effective_domain,
  request_host,
}

flag_beq_refl : (h : Bool) → flag_beq h h ≡ true
flag_beq_refl true = refl
flag_beq_refl false = refl

pub same_key_refl :
    (d : CanonicalHost) (p : Text) (c : RawCookie)
    → same_key d p c d p c.name (is_host_only c) ≡ true
same_key_refl d p c = ground (
  arith,
  (host_beq_iff d d).1 refl,
  (text_beq_iff p p).1 refl,
  (text_beq_iff c.name c.name).1 refl,
  flag_beq_refl (is_host_only c),
)

module _ (ext : Externals) where
  -- A date in the future is what `saturating_add` yields for a positive duration, short of the
  -- last date that there is.
  abbrev pub HasFuture : ℕ → Type 0
  HasFuture now = (age : ℤ) → is_positive age ≡ true → now < ext.saturating_add now age

  -- A cookie that arrives unexpired is stored unexpired, with its other attributes as they were.
  pub receive_lem :
      (c : RawCookie) (now : ℕ)
      → HasFuture now
      → (receive ext c now).0 ≡ false
      → (cookie_is_expired (receive ext c now).1 now ≡ false)
  unfolding receive cookie_is_expired
  receive_lem c now future alive = elim (Option-cases c.max_age) [
    | inl e ↦ rw (receive, e) (ground (arith, rw (receive, e) at alive))
    | inr (age, e) ↦ elim (Bool-cases (is_positive age)) [
      | inl t ↦ rw (receive, e, t) (ground (arith, future age t))
      | inr t ↦ cc (rw (receive, e, t) at alive)
    ]
  ]

  abbrev pub SameScope : RawCookie → RawCookie → Type 0
  SameScope a b =
      (a.name ≡ b.name)
      × (a.value ≡ b.value)
      × (a.secure ≡ b.secure)
      × (is_host_only a ≡ is_host_only b)

  pub receive-SameScope : (c : RawCookie) (now : ℕ) → SameScope (receive ext c now).1 c
  unfolding receive
  receive-SameScope c now = elim (Option-cases c.max_age) [
    | inl e ↦ rw (receive, e) (refl, refl, refl, refl)
    | inr (age, e) ↦ elim (Bool-cases (is_positive age)) [
      | inl t ↦ rw (receive, e, t) (refl, refl, refl, refl)
      | inr t ↦ rw (receive, e, t) (refl, refl, refl, refl)
    ]
  ]

  pub with_domain-SameScope :
      (c : RawCookie) (d : CanonicalHost) → SameScope (with_domain ext c d) c
  with_domain-SameScope c d = (ground arith, ground arith, ground arith, ground arith)

  -- The domain of an accepted cookie covers the origin, and is the origin if the cookie names none.
  pub effective_domain_lem :
      (c : RawCookie) (r d : CanonicalHost)
      → effective_domain ext c r ≡ some d
      → (domain_match r d ≡ true) × (is_host_only c ≡ true → r ≡ d)
  unfolding effective_domain
  effective_domain_lem c r d h = (ground (arith, (domain_match_iff r r).1 (inl refl)), ground arith)

  -- An accepted cookie reaches the part of `add` under the lock, as one from a secure origin.
  pub add-store_cookie :
      (s : Store) (c : RawCookie) (uri : Uri) (r d : CanonicalHost) (now : ℕ)
      → into_uri uri ≡ some uri
      → is_https uri ≡ true
      → request_host ext uri ≡ some r
      → effective_domain ext c r ≡ some d
      → add ext s (some c) uri now
        ≡ store_cookie s true
            (receive ext (with_domain ext c d) now).1
            (is_host_only c)
            (receive ext (with_domain ext c d) now).0
            d
            (effective_path c uri)
            now
  unfolding add add_from add_to
  add-store_cookie s c uri r d now valid https origin accepted =
      let guard : (is_secure c && not (is_https uri)) ≡ false = ground arith in
      rw (add, valid, add_from, guard, origin, accepted) (rw (add_to, https))
