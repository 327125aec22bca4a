-- ===== src/Redirect/Schemes.antt =====
-- src/redirect.rs, `FollowRedirectPolicy::redirect` along a chain: the schemes that are followed.
use tlsurl.Base.{
  ℕ, ◌≡◌, ◌≢◌, sym, ◌∙◌, ap, Bool, true, false, Option, none, some, List, arith, unwrap_or,
}
use tlsurl.Uri.{is_http, is_https}
use tlsurl.Body.{Body}
use tlsurl.Http.{HttpApi, Request}
use tlsurl.Redirect.{follow, pending, PolicyKind, Attempt, limit}
use tlsurl.Redirect.Policy.{FollowPolicy, Response, policy_redirect}
use tlsurl.Redirect.Requests.{on_request-uri, on_request-keeps}
use tlsurl.Redirect.Decisions.{redirect-keeps, redirect-follow, redirect-pending, attempt_of}
use tlsurl.Redirect.Future.{Event, run, call}
use tlsurl.Redirect.Steps.{State, follow_hop, Answered, answered_state}
use tlsurl.Redirect.Calls.{call-Starts}
use tlsurl.Redirect.Chains.{Linked, run-Linked}

-- A policy that never leaves its decision to a future.
abbrev pub IsImmediate : {H : Type 0} → PolicyKind H → Type 0
IsImmediate {H = H} policy =
    (attempt : Attempt H) (future : ℕ) → policy_redirect policy attempt ≢ pending future

pub limit-IsImmediate : {H : Type 0} (max : ℕ) → IsImmediate {H = H} (limit max)
unfolding policy_redirect
limit-IsImmediate max attempt future e = ground arith

module _ (api : HttpApi) where
  open api use {HeaderMap, Url}

  -- A URI that may be followed: over HTTPS, or over HTTP where that is not ruled out.
  abbrev pub HasAllowedScheme : Bool → Request HeaderMap → Request HeaderMap → Body → Type 0
  HasAllowedScheme https_only before request body =
      (is_http request.uri ≡ false → is_https request.uri ≡ true)
      × (https_only ≡ true → is_https request.uri ≡ true)

  -- No future decides, and the policy and the HTTPS rule are the given ones.
  pub record Immediate (policy : PolicyKind HeaderMap) (https_only : Bool) (r : State api)
      : Type 0 where
    pub no_pending : r.pending_future ≡ none
    pub policy_is : r.policy.policy ≡ policy
    pub https_only_is : r.policy.https_only ≡ https_only

  module _ (policy : PolicyKind HeaderMap) (https_only : Bool) (r : State api)
      (v : Immediate policy https_only r) (res : Response HeaderMap) where
    pub hop-Immediate :
        (a : Answered api r res follow)
        → Immediate policy https_only
            (follow_hop api (answered_state api r res follow a) a.target a.body)
    hop-Immediate a =
        let (k_policy, k_uris, k_https, k_history) =
          on_request-keeps api a.policy (record a.request { uri = a.target }) in
        let kept = redirect-keeps api r.policy res.status res.headers a.target a.request.uri in
        record {
          no_pending = v.no_pending;
          policy_is = k_policy ∙ ap (λ x. x.0.policy) (sym a.chosen) ∙ kept.1 ∙ v.policy_is;
          https_only_is =
              k_https ∙ ap (λ x. x.0.https_only) (sym a.chosen) ∙ kept.2 ∙ v.https_only_is;
        }

    pub never-asks : IsImmediate policy → (future : ℕ) → Answered api r res (pending future) → ⊥
    never-asks immediate future a =
        let attempt = attempt_of api r.policy res.status res.headers a.target a.request.uri in
        immediate attempt future (
          ap (λ k. policy_redirect k attempt) (sym v.policy_is)
          ∙ redirect-pending api r.policy res.status res.headers a.target a.request.uri a.policy
              future a.chosen)

    hop-HasAllowedScheme :
        (before : Request HeaderMap) (a : Answered api r res follow)
        → HasAllowedScheme https_only before
            (follow_hop api (answered_state api r res follow a) a.target a.body).request
            a.body
    hop-HasAllowedScheme before a =
        let (followed, scheme, secure, recorded) =
          redirect-follow api r.policy res.status res.headers a.target a.request.uri a.policy
            a.chosen in
        rw (on_request-uri api a.policy (record a.request { uri = a.target }))
          (scheme, λ only. secure (v.https_only_is ∙ only))

  run-HasAllowedScheme :
      (policy : PolicyKind HeaderMap) (https_only : Bool)
      → IsImmediate policy
      → (events : List (Event HeaderMap)) (r : State api) (before : Request HeaderMap)
      → Immediate policy https_only r
      → Linked (HasAllowedScheme https_only) before (run api r events).0
  run-HasAllowedScheme policy https_only immediate =
      run-Linked api (λ r before. Immediate policy https_only r) (HasAllowedScheme https_only)
        (λ r before res a free v. (
          hop-HasAllowedScheme policy https_only r v res before a,
          hop-Immediate policy https_only r v res a,
        ))
        (λ r before res future a free v.
          absurd (never-asks policy https_only r v res immediate future a))
        (λ r before state e v. absurd (ground (arith, v.no_pending, e)))

  -- Where the policy of the call does not decide by futures, each URI that the call follows to is
  -- an HTTP or an HTTPS one, and an HTTPS one if the layer has `https_only` set.
  pub run-follows_allowed :
      (layer : FollowPolicy api) (override : Option (PolicyKind HeaderMap))
      (req : Request HeaderMap) (body : Body) (r : State api) (events : List (Event HeaderMap))
      → (call api layer override req body).2 ≡ some r
      → IsImmediate (unwrap_or override layer.policy)
      → Linked
          (HasAllowedScheme layer.https_only)
          (call api layer override req body).1
          (run api r events).0
  run-follows_allowed layer override req body r events e immediate =
      let starts = call-Starts api layer override req body r e in
      run-HasAllowedScheme (unwrap_or override layer.policy) layer.https_only immediate events r _
        (record {
          no_pending = starts.no_pending;
          policy_is = starts.policy;
          https_only_is = starts.https_only;
        })
