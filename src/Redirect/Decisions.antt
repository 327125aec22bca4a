-- ===== src/Redirect/Decisions.antt =====
-- src/redirect.rs and src/client/layer/redirect/future.rs: what a hop's decision and its rewriting
-- of the request change.
use tlsurl.Base.{
  ℕ, ◌≤◌, ◌≡◌, ◌≢◌, refl, ◌||◌, length, ◌∙◌, true, false, some, Text, List, [], ◌∷◌, ◌++◌, arith,
  Elem, ==_refl, text_eq,
}
use tlsurl.Uri.{Uri, is_http, is_https}
use tlsurl.Http.{
  HttpApi, Request, content_type, content_length, content_encoding, transfer_encoding,
}
use tlsurl.Redirect.{Action, limit, follow, stop, pending, error, Attempt, ok}
use tlsurl.Redirect.Origin.{last}
use tlsurl.Redirect.Requests.{credentials, get_all-remove_other}
use tlsurl.Redirect.Policy.{
  FollowPolicy, FollowRedirectPolicy, redirect, note_hop, decide, policy_redirect, is_disabled,
  push_history,
}
use tlsurl.Redirect.Future.{BodyRepr, rewrite, drop_payload_headers}

pub last-append : (us : List Uri) (u : Uri) → last (us ++ u ∷ []) ≡ some u
unfolding last
last-append [] u = refl
last-append (v ∷ []) u = refl
last-append (v ∷ w ∷ us) u = last-append (w ∷ us) u

abbrev pub payload_headers : List Text
payload_headers = content_type ∷ content_length ∷ content_encoding ∷ transfer_encoding ∷ []

pub payload_apart :
    (n : Text)
    → Elem n credentials
    → (content_type ≢ n) × (content_length ≢ n) × (content_encoding ≢ n) × (transfer_encoding ≢ n)
payload_apart n m = (λ e. ground arith, λ e. ground arith, λ e. ground arith, λ e. ground arith)

decide-keeps :
    {H U : Type 0} (p : FollowRedirectPolicy H U) (status : ℕ) (h : H) (next prev : Uri)
    (action : Action)
    → ((decide p status h next prev action).0.uris ≡ p.uris)
      × ((decide p status h next prev action).0.policy ≡ p.policy)
      × ((decide p status h next prev action).0.https_only ≡ p.https_only)
unfolding decide
decide-keeps p status h next prev follow = ground arith
decide-keeps p status h next prev stop = (refl, refl, refl)
decide-keeps p status h next prev (pending f) = (refl, refl, refl)
decide-keeps p status h next prev (error t) = (refl, refl, refl)

-- To follow is decided for an allowed scheme only, and it is recorded.
decide-follow :
    {H U : Type 0} (p : FollowRedirectPolicy H U) (status : ℕ) (h : H) (next prev : Uri)
    (action : Action) (p' : FollowRedirectPolicy H U)
    → decide p status h next prev action ≡ (p', ok follow)
    → (action ≡ follow)
      × (is_http next ≡ false → is_https next ≡ true)
      × (p.https_only ≡ true → is_https next ≡ true)
      × (is_disabled p.policy ≡ false
          → p'.history
            ≡ push_history p.history
                (record { status = status; uri = next; previous = prev; headers = h }))
unfolding decide
decide-follow p status h next prev follow p' e = ground arith
decide-follow p status h next prev stop p' e = ground arith
decide-follow p status h next prev (pending f) p' e = ground arith
decide-follow p status h next prev (error t) p' e = ground arith

decide-pending :
    {H U : Type 0} (p : FollowRedirectPolicy H U) (status : ℕ) (h : H) (next prev : Uri)
    (action : Action) (p' : FollowRedirectPolicy H U) (future : ℕ)
    → decide p status h next prev action ≡ (p', ok (pending future))
    → action ≡ pending future
unfolding decide
decide-pending p status h next prev follow p' future e = ground arith
decide-pending p status h next prev stop p' future e = ground arith
decide-pending p status h next prev (pending f) p' future e = ground arith
decide-pending p status h next prev (error t) p' future e = ground arith

module _ (api : HttpApi) where
  open api use {HeaderMap, get_all, remove, Url}

  -- What the policy is asked.
  abbrev pub attempt_of : FollowPolicy api → ℕ → HeaderMap → Uri → Uri → Attempt HeaderMap
  attempt_of p status h next prev = record {
    status = status;
    headers = h;
    uri = next;
    previous = p.uris ++ prev ∷ [];
  }

  -- To follow, the policy must say so, and the scheme must be allowed; then the hop is recorded.
  pub redirect-follow :
      (p : FollowPolicy api) (status : ℕ) (h : HeaderMap) (next prev : Uri) (p' : FollowPolicy api)
      → redirect api p status h next prev ≡ (p', ok follow)
      → (policy_redirect p.policy (attempt_of p status h next prev) ≡ follow)
        × (is_http next ≡ false → is_https next ≡ true)
        × (p.https_only ≡ true → is_https next ≡ true)
        × (is_disabled p.policy ≡ false
            → p'.history
              ≡ push_history p.history
                  (record { status = status; uri = next; previous = prev; headers = h }))
  unfolding redirect note_hop
  redirect-follow p status h next prev p' e =
      decide-follow (note_hop api p h prev) status h next prev _ p' e

  -- What is allowed is followed.
  pub redirect-follows :
      (p : FollowPolicy api) (max status : ℕ) (h : HeaderMap) (next prev : Uri)
      → p.policy ≡ limit max
      → length (p.uris ++ prev ∷ []) ≤ max
      → (is_http next || is_https next) ≡ true
      → (p.https_only ≡ true → is_https next ≡ true)
      → (redirect api p status h next prev).1 ≡ ok follow
  unfolding redirect note_hop decide policy_redirect
  redirect-follows p max status h next prev limited within web secure =
      rw (limited) (ground (arith, within, web, secure))

  pub redirect-pending :
      (p : FollowPolicy api) (status : ℕ) (h : HeaderMap) (next prev : Uri) (p' : FollowPolicy api)
      (future : ℕ)
      → redirect api p status h next prev ≡ (p', ok (pending future))
      → policy_redirect p.policy (attempt_of p status h next prev) ≡ pending future
  unfolding redirect note_hop
  redirect-pending p status h next prev p' future e =
      decide-pending (note_hop api p h prev) status h next prev _ p' future e

  pub redirect-keeps :
      (p : FollowPolicy api) (status : ℕ) (h : HeaderMap) (next prev : Uri)
      → ((redirect api p status h next prev).0.uris ≡ p.uris ++ prev ∷ [])
        × ((redirect api p status h next prev).0.policy ≡ p.policy)
        × ((redirect api p status h next prev).0.https_only ≡ p.https_only)
  unfolding redirect note_hop
  redirect-keeps p status h next prev = decide-keeps (note_hop api p h prev) status h next prev _

  pub rewrite-uri :
      (status : ℕ) (req : Request HeaderMap) (br : BodyRepr) (req' : Request HeaderMap)
      (br' : BodyRepr)
      → rewrite api status req br ≡ some (req', br')
      → req'.uri ≡ req.uri
  unfolding rewrite
  rewrite-uri status req br req' br' e = ground arith

  drop_payload-keeps :
      (h : HeaderMap) (n : Text)
      → Elem n credentials
      → get_all (drop_payload_headers api h) n ≡ get_all h n
  drop_payload-keeps h n m =
      let (a, b, c, d) = payload_apart n m in
      get_all-remove_other api
        (remove (remove (remove h content_type) content_length) content_encoding) transfer_encoding
        n d
      ∙ get_all-remove_other api (remove (remove h content_type) content_length) content_encoding n
          c
      ∙ get_all-remove_other api (remove h content_type) content_length n b
      ∙ get_all-remove_other api h content_type n a

  pub rewrite-credentials :
      (status : ℕ) (req : Request HeaderMap) (br : BodyRepr) (req' : Request HeaderMap)
      (br' : BodyRepr) (n : Text)
      → rewrite api status req br ≡ some (req', br')
      → Elem n credentials
      → get_all req'.headers n ≡ get_all req.headers n
  unfolding rewrite
  rewrite-credentials status req br req' br' n e m =
      ground (arith, drop_payload-keeps req.headers n m)

  remove-nil : (h : HeaderMap) (n m : Text) → get_all h m ≡ [] → get_all (remove h n) m ≡ []
  remove-nil h n m e = ground (arith, api.get_all-remove h n m, e)

  remove-same : (h : HeaderMap) (n : Text) → get_all (remove h n) n ≡ []
  remove-same h n = rw (api.get_all-remove h n n, ==_refl n) refl

  pub drop_payload-clears :
      (h : HeaderMap) (n : Text)
      → Elem n payload_headers
      → get_all (drop_payload_headers api h) n ≡ []
  drop_payload-clears h n m =
      let h1 = remove h content_type in
      let h2 = remove h1 content_length in
      let h3 = remove h2 content_encoding in
      ground (
        arith,
        m,
        remove-same h content_type,
        remove-same h1 content_length,
        remove-same h2 content_encoding,
        remove-same h3 transfer_encoding,
        remove-nil h1 content_length n,
        remove-nil h2 content_encoding n,
        remove-nil h3 transfer_encoding n,
      )
