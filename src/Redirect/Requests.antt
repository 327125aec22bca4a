-- ===== src/Redirect/Requests.antt =====
-- src/redirect.rs: what `on_request` changes in a request and in the policy's state.
use tlsurl.Base.{
  ◌≡◌, ◌≢◌, refl, inl, inr, sym, ◌∙◌, ==_refl, ==_ne, some, Text, List, [], ◌∷◌, arith, Elem,
  if◌then◌else◌, Option-cases, Bool-cases, text_eq, is_nil,
}
use tlsurl.Uri.{Uri}
use tlsurl.Http.{
  HttpApi, Request, referer, authorization, cookie, cookie2, proxy_authorization, www_authenticate,
}
use tlsurl.Redirect.Origin.{last, same_origin, remove_credentials, remove_sensitive_headers}
use tlsurl.Redirect.Referrer.{Referrer, apply, next_referrer}
use tlsurl.Redirect.Policy.{FollowPolicy, on_request}

-- The headers that `remove_sensitive_headers` takes out.
abbrev pub credentials : List Text
credentials = authorization ∷ cookie ∷ cookie2 ∷ proxy_authorization ∷ www_authenticate ∷ []

module _ (api : HttpApi) where
  open api use {HeaderMap, get_all, remove, get_all-remove, get_all-insert, Url}

  get_all-remove_same : (h : HeaderMap) (n : Text) → get_all (remove h n) n ≡ []
  get_all-remove_same h n = rw (get_all-remove h n n, ==_refl n) refl

  get_all-remove_nil : (h : HeaderMap) (n m : Text) → get_all h m ≡ [] → get_all (remove h n) m ≡ []
  get_all-remove_nil h n m e = ground (arith, get_all-remove h n m, e)

  pub get_all-remove_other :
      (h : HeaderMap) (n m : Text) → n ≢ m → get_all (remove h n) m ≡ get_all h m
  get_all-remove_other h n m ne = rw (get_all-remove h n m, ==_ne n m ne) refl

  pub get_all-remove_credentials :
      (h : HeaderMap) (n : Text) → Elem n credentials → get_all (remove_credentials api h) n ≡ []
  get_all-remove_credentials h n m =
      let h1 = remove h authorization in
      let h2 = remove h1 cookie in
      let h3 = remove h2 cookie2 in
      let h4 = remove h3 proxy_authorization in
      ground (
        arith,
        m,
        get_all-remove_same h authorization,
        get_all-remove_same h1 cookie,
        get_all-remove_same h2 cookie2,
        get_all-remove_same h3 proxy_authorization,
        get_all-remove_same h4 www_authenticate,
        get_all-remove_nil h1 cookie n,
        get_all-remove_nil h2 cookie2 n,
        get_all-remove_nil h3 proxy_authorization n,
        get_all-remove_nil h4 www_authenticate n,
      )

  get_all-remove_credentials_other :
      (h : HeaderMap) (n : Text)
      → ¬ Elem n credentials
      → get_all (remove_credentials api h) n ≡ get_all h n
  get_all-remove_credentials_other h n out =
      let h1 = remove h authorization in
      let h2 = remove h1 cookie in
      let h3 = remove h2 cookie2 in
      let h4 = remove h3 proxy_authorization in
      get_all-remove_other h4 www_authenticate n (λ e. out (inr (inr (inr (inr (inl (sym e)))))))
      ∙ get_all-remove_other h3 proxy_authorization n (λ e. out (inr (inr (inr (inl (sym e))))))
      ∙ get_all-remove_other h2 cookie2 n (λ e. out (inr (inr (inl (sym e)))))
      ∙ get_all-remove_other h1 cookie n (λ e. out (inr (inl (sym e))))
      ∙ get_all-remove_other h authorization n (λ e. out (inl (sym e)))

  sensitive-other :
      (req : Request HeaderMap) (us : List Uri) (n : Text)
      → ¬ Elem n credentials
      → get_all (remove_sensitive_headers api req us).headers n ≡ get_all req.headers n
  unfolding remove_sensitive_headers
  sensitive-other req us n out = elim (Option-cases (last us)) [
    | inl e ↦ rw (e, remove_sensitive_headers) refl
    | inr (prev, e) ↦ elim (Bool-cases (same_origin req.uri prev)) [
      | inl s ↦ rw (e, s, remove_sensitive_headers) refl
      | inr s ↦
          rw (e, s, remove_sensitive_headers) (get_all-remove_credentials_other req.headers n out)
    ]
  ]

  apply-keeps :
      (r : Referrer Url) (req : Request HeaderMap) (n : Text)
      → n ≢ referer
      → get_all (apply api r req).1.headers n ≡ get_all req.headers n
  unfolding apply
  apply-keeps r req n ne = elim (Option-cases (next_referrer api r req)) [
    | inl e ↦ rw (e, apply) (get_all-remove_other req.headers referer n (λ q. ne (sym q)))
    | inr (sent, e) ↦
        rw (e, apply, get_all-insert req.headers referer n _, ==_ne referer n (λ q. ne (sym q)))
          refl
  ]

  apply-uri : (r : Referrer Url) (req : Request HeaderMap) → (apply api r req).1.uri ≡ req.uri
  unfolding apply
  apply-uri r req = ground arith

  apply-method :
      (r : Referrer Url) (req : Request HeaderMap) → (apply api r req).1.method ≡ req.method
  unfolding apply
  apply-method r req = ground arith

  sensitive-uri :
      (req : Request HeaderMap) (us : List Uri)
      → (remove_sensitive_headers api req us).uri ≡ req.uri
  unfolding remove_sensitive_headers
  sensitive-uri req us = ground arith

  sensitive-method :
      (req : Request HeaderMap) (us : List Uri)
      → (remove_sensitive_headers api req us).method ≡ req.method
  unfolding remove_sensitive_headers
  sensitive-method req us = ground arith

  sensitive-credentials :
      (req : Request HeaderMap) (us : List Uri) (prev : Uri) (n : Text)
      → last us ≡ some prev
      → Elem n credentials
      → get_all (remove_sensitive_headers api req us).headers n
        ≡ (if same_origin req.uri prev then get_all req.headers n else [])
  unfolding remove_sensitive_headers
  sensitive-credentials req us prev n e m = elim (Bool-cases (same_origin req.uri prev)) [
    | inl s ↦ rw (e, s, remove_sensitive_headers) refl
    | inr s ↦ rw (e, s, remove_sensitive_headers) (get_all-remove_credentials req.headers n m)
  ]

  pub on_request-uri :
      (p : FollowPolicy api) (req : Request HeaderMap) → (on_request api p req).1.uri ≡ req.uri
  unfolding on_request
  on_request-uri p req = elim (Bool-cases (is_nil p.uris)) [
    | inl e ↦ rw (e, on_request) (sensitive-uri req p.uris)
    | inr e ↦ elim (Option-cases p.referrer) [
      | inl none_set ↦ rw (e, none_set, on_request) (sensitive-uri req p.uris)
      | inr (r, set) ↦
          rw (e, set, on_request, apply-uri r (remove_sensitive_headers api req p.uris))
            (sensitive-uri req p.uris)
    ]
  ]

  pub on_request-method :
      (p : FollowPolicy api) (req : Request HeaderMap)
      → (on_request api p req).1.method ≡ req.method
  unfolding on_request
  on_request-method p req = elim (Bool-cases (is_nil p.uris)) [
    | inl e ↦ rw (e, on_request) (sensitive-method req p.uris)
    | inr e ↦ elim (Option-cases p.referrer) [
      | inl none_set ↦ rw (e, none_set, on_request) (sensitive-method req p.uris)
      | inr (r, set) ↦
          rw (e, set, on_request, apply-method r (remove_sensitive_headers api req p.uris))
            (sensitive-method req p.uris)
    ]
  ]

  -- Apart from `Referer`, the headers are those that `remove_sensitive_headers` leaves.
  pub on_request-headers :
      (p : FollowPolicy api) (req : Request HeaderMap) (n : Text)
      → n ≢ referer
      → get_all (on_request api p req).1.headers n
        ≡ get_all (remove_sensitive_headers api req p.uris).headers n
  unfolding on_request
  on_request-headers p req n ne = elim (Bool-cases (is_nil p.uris)) [
    | inl e ↦ rw (e, on_request) refl
    | inr e ↦ elim (Option-cases p.referrer) [
      | inl none_set ↦ rw (e, none_set, on_request) refl
      | inr (r, set) ↦
          rw (e, set, on_request) (apply-keeps r (remove_sensitive_headers api req p.uris) n ne)
    ]
  ]

  -- Any other header goes as it is.
  pub on_request-other :
      (p : FollowPolicy api) (req : Request HeaderMap) (n : Text)
      → n ≢ referer
      → ¬ Elem n credentials
      → get_all (on_request api p req).1.headers n ≡ get_all req.headers n
  on_request-other p req n ne out = on_request-headers p req n ne ∙ sensitive-other req p.uris n out

  not_referer : (n : Text) → Elem n credentials → n ≢ referer
  not_referer n m q = ground arith

  pub on_request-credentials :
      (p : FollowPolicy api) (req : Request HeaderMap) (prev : Uri) (n : Text)
      → last p.uris ≡ some prev
      → Elem n credentials
      → get_all (on_request api p req).1.headers n
        ≡ (if same_origin req.uri prev then get_all req.headers n else [])
  on_request-credentials p req prev n e m =
      on_request-headers p req n (not_referer n m) ∙ sensitive-credentials req p.uris prev n e m

  -- What the chain of redirects goes by stays as it is.
  pub on_request-keeps :
      (p : FollowPolicy api) (req : Request HeaderMap)
      → ((on_request api p req).0.policy ≡ p.policy)
        × ((on_request api p req).0.uris ≡ p.uris)
        × ((on_request api p req).0.https_only ≡ p.https_only)
        × ((on_request api p req).0.history ≡ p.history)
  unfolding on_request
  on_request-keeps p req = ground arith
