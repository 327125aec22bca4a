-- ===== src/Redirect/Limits.antt =====
-- src/redirect.rs, `Policy::redirect`: how long a chain gets under `Policy::limited`.
use tlsurl.Base.{
  ℕ, suc, ◌+◌, ◌≤◌, ◌≡◌, sym, ◌∙◌, ap, Bool, Option, some, List, [], ◌∷◌, arith, unwrap_or, length,
  length-append,
}
use tlsurl.Body.{Body}
use tlsurl.Http.{HttpApi, Request}
use tlsurl.Redirect.{follow, PolicyKind, Attempt, limit}
use tlsurl.Redirect.Policy.{FollowPolicy, Response, policy_redirect}
use tlsurl.Redirect.Requests.{on_request-keeps}
use tlsurl.Redirect.Decisions.{redirect-keeps, redirect-follow, attempt_of}
use tlsurl.Redirect.Future.{Event, run, call}
use tlsurl.Redirect.Steps.{State, follow_hop, Answered, answered_state, Step, poll-Step}
use tlsurl.Redirect.Calls.{call-Starts}
use tlsurl.Redirect.Chains.{run-poll}
use tlsurl.Redirect.Schemes.{limit-IsImmediate, Immediate, hop-Immediate, never-asks}

limit-follow :
    {H : Type 0} (max : ℕ) (attempt : Attempt H)
    → policy_redirect (limit max) attempt ≡ follow
    → length attempt.previous ≤ max
unfolding policy_redirect
limit-follow max attempt e = ground arith

module _ (api : HttpApi) (max : ℕ) where
  open api use {HeaderMap}

  module _ (https_only : Bool) (r : State api) (v : Immediate api (limit max) https_only r)
      (res : Response HeaderMap) (a : Answered api r res follow) where
    pub hop-uris :
        length (follow_hop api (answered_state api r res follow a) a.target a.body).policy.uris
        ≡ suc (length r.policy.uris)
    hop-uris =
        let (k_policy, k_uris, k_https, k_history) =
          on_request-keeps api a.policy (record a.request { uri = a.target }) in
        ap length (
          k_uris
          ∙ ap (λ x. x.0.uris) (sym a.chosen)
          ∙ (redirect-keeps api r.policy res.status res.headers a.target a.request.uri).0)
        ∙ length-append r.policy.uris (a.request.uri ∷ [])
        ∙ omega arith

    hop-limit : suc (length r.policy.uris) ≤ max
    hop-limit =
        let (followed, scheme, secure, recorded) =
          redirect-follow api r.policy res.status res.headers a.target a.request.uri a.policy
            a.chosen in
        let attempt = attempt_of api r.policy res.status res.headers a.target a.request.uri in
        let within =
          limit-follow max attempt
            (ap (λ k. policy_redirect k attempt) (sym v.policy_is) ∙ followed) in
        omega (arith, within, length-append r.policy.uris (a.request.uri ∷ []))

  run-limit :
      (https_only : Bool) (events : List (Event HeaderMap)) (r : State api)
      → Immediate api (limit max) https_only r
      → length r.policy.uris ≤ max
      → length (run api r events).0 + length r.policy.uris ≤ max
  unfolding run
  run-limit https_only [] r v within = omega (arith, within)
  run-limit https_only (event ∷ events) r v within = elim (poll-Step api r event) [
    | Step.idle e ↦ rw (run-poll api r event events _ e) (run-limit https_only events r v within)
    | Step.done x e how ↦ rw (run-poll api r event events _ e) (omega (arith, within))
    | Step.crashed e ↦ rw (run-poll api r event events _ e) (omega (arith, within))
    | Step.hops res a found free e ↦
        let longer = hop-uris https_only r v res a in
        let below = hop-limit https_only r v res a in
        let rest =
          run-limit https_only events _ (hop-Immediate api (limit max) https_only r v res a)
            (omega (arith, longer, below)) in
        rw (run-poll api r event events _ e) (omega (arith, longer, rest))
    | Step.asks res future a found free e ↦
        absurd (never-asks api (limit max) https_only r v res (limit-IsImmediate max) future a)
    | Step.resumes state found e_p e ↦ absurd (ground (arith, v.no_pending, e_p))
  ]

  -- Under `Policy::limited(max)`, whatever the responses are, a call from a layer without previous
  -- URIs sends at most `max` requests after the first.
  pub run-within_limit :
      (layer : FollowPolicy api) (override : Option (PolicyKind HeaderMap))
      (req : Request HeaderMap) (body : Body) (r : State api) (events : List (Event HeaderMap))
      → (call api layer override req body).2 ≡ some r
      → unwrap_or override layer.policy ≡ limit max
      → layer.uris ≡ []
      → length (run api r events).0 ≤ max
  run-within_limit layer override req body r events e limited fresh =
      let starts = call-Starts api layer override req body r e in
      let none_before : length r.policy.uris ≡ 0 = ap length (starts.uris ∙ fresh) in
      let bound =
        run-limit layer.https_only events r
          (record {
            no_pending = starts.no_pending;
            policy_is = starts.policy ∙ limited;
            https_only_is = starts.https_only;
          })
          (omega (arith, none_before)) in
      omega (arith, bound)
