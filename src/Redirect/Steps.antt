-- ===== src/Redirect/Steps.antt =====
-- src/client/layer/redirect/future.rs: the kinds of step that a poll of `ResponseFuture` makes.
use tlsurl.Base.{ℕ, ◌≡◌, refl, ◌∙◌, ◌⊎◌, inl, inr, Option, none, some, Option-cases, ap}
use tlsurl.Uri.{Uri}
use tlsurl.Body.{Body}
use tlsurl.Http.{HttpApi, Request}
use tlsurl.Redirect.{Action, follow, stop, pending, error, Error, inner, Result, ok, err}
use tlsurl.Redirect.Policy.{FollowPolicy, Response, redirect, on_request, on_response}
use tlsurl.Redirect.Future.{
  BodyRepr, take, try_clone_from, Pending, Redirecting, waiting, sent, ready, panicked, Event,
  responded, decided, rewrite, location_of, handle_action, on_action, on_redirect_response,
  on_ready, poll_pending, poll,
}

module _ (api : HttpApi) where
  open api use {HeaderMap, Url}

  abbrev pub State : Type 0
  State = Redirecting HeaderMap Url

  -- The state that `handle_action` makes of `Action::Follow`; its request is the one it sends.
  abbrev pub follow_hop : State → Uri → Body → State
  follow_hop r target body =
      let hop = on_request api r.policy (record r.request { uri = target }) in
      record r { policy = hop.0; request = hop.1; body_repr = try_clone_from r.body_repr body }

  -- The response as it is handed on.
  abbrev pub seen : State → Response HeaderMap → Response HeaderMap
  seen r response = record response { request_uri = some r.request.uri }

  -- A redirect response for which the policy chooses `action`.
  pub record Answered (r : State) (res : Response HeaderMap) (action : Action) : Type 0 where
    pub request : Request HeaderMap
    pub body_repr : BodyRepr
    pub body : Body
    pub target : Uri
    pub policy : FollowPolicy api
    pub rewritten : rewrite api res.status r.request r.body_repr ≡ some (request, body_repr)
    pub has_body : (take body_repr).1 ≡ some body
    pub has_location : location_of api res.headers request.uri ≡ some target
    pub chosen :
        redirect api r.policy res.status res.headers target request.uri ≡ (policy, ok action)

  -- The state in which the action is carried out.
  abbrev pub answered_state :
      (r : State) (res : Response HeaderMap) (action : Action) → Answered r res action → State
  answered_state r res action a = record {
    pending_future = r.pending_future;
    policy = a.policy;
    request = a.request;
    body_repr = (take a.body_repr).0;
  }

  -- How a call ends in step with the state: with a response that is no redirect, with a redirect
  -- response, with the response that a future decided on, or with an error.
  pub data Outcome (r : State) : Result (Response HeaderMap) → Type 0 where
    final :
        (res : Response HeaderMap)
        → rewrite api res.status r.request r.body_repr ≡ none
        → Outcome r (ok (on_response r.policy (seen r res)).1)
    unfollowed :
        (res : Response HeaderMap)
        → (request : Request HeaderMap) (body_repr : BodyRepr)
        → rewrite api res.status r.request r.body_repr ≡ some (request, body_repr)
        → Outcome r (ok (seen r res))
    stopped : (state : Pending HeaderMap) → r.pending_future ≡ some state → Outcome r (ok state.res)
    failed : (e : Error) → Outcome r (err e)

  abbrev Ends : State → Response HeaderMap → Type 0
  Ends r res = (x : Result (Response HeaderMap)) × (on_ready api r res ≡ ready x) × Outcome r x

  abbrev IsAnswered : State → Response HeaderMap → Type 0
  IsAnswered r res =
      (action : Action) × (a : Answered r res action) × (on_ready api r res
        ≡ on_action api (ok action) (answered_state r res action a) a.body (seen r res) a.target)

  on_action_cases :
      (r : State) (res : Response HeaderMap) (request : Request HeaderMap) (body_repr : BodyRepr)
      (body : Body) (target : Uri) (policy : FollowPolicy api) (result : Result Action)
      → rewrite api res.status r.request r.body_repr ≡ some (request, body_repr)
      → (take body_repr).1 ≡ some body
      → location_of api res.headers request.uri ≡ some target
      → redirect api r.policy res.status res.headers target request.uri ≡ (policy, result)
      → Ends r res ⊎ IsAnswered r res
  unfolding on_ready on_redirect_response on_action
  on_action_cases r res request body_repr body target policy (err e) rewritten has has_loc chosen =
      inl (
        err e,
        rw (rewritten, has, has_loc, chosen, on_ready, on_redirect_response, on_action) refl,
        Outcome.failed e,
      )
  on_action_cases r res request body_repr body target policy (ok action) rewritten has has_loc
        chosen =
      inr (
        action,
        record {
          request = request;
          body_repr = body_repr;
          body = body;
          target = target;
          policy = policy;
          rewritten = rewritten;
          has_body = has;
          has_location = has_loc;
          chosen = chosen;
        },
        rw (rewritten, has, has_loc, chosen, on_ready, on_redirect_response) refl,
      )

  on_ready_cases : (r : State) (res : Response HeaderMap) → Ends r res ⊎ IsAnswered r res
  unfolding on_ready on_redirect_response
  on_ready_cases r res = elim (Option-cases (rewrite api res.status r.request r.body_repr)) [
    | inl e ↦
        inl (ok (on_response r.policy (seen r res)).1, rw (e, on_ready) refl, Outcome.final res e)
    | inr ((request, body_repr), e) ↦ elim (Option-cases (take body_repr).1) [
      | inl no_body ↦ inl (
        ok (seen r res),
        rw (e, no_body, on_ready, on_redirect_response) refl,
        Outcome.unfollowed res request body_repr e,
      )
      | inr (body, has) ↦ elim (Option-cases (location_of api res.headers request.uri)) [
        | inl nowhere ↦ inl (
          ok (seen r res),
          rw (e, has, nowhere, on_ready, on_redirect_response) refl,
          Outcome.unfollowed res request body_repr e,
        )
        | inr (target, has_loc) ↦
            on_action_cases r res request body_repr body target _ _ e has has_loc refl
      ]
    ]
  ]

  pub data Step (r : State) (event : Event HeaderMap) : Type 0 where
    idle : poll api r event ≡ waiting r → Step r event
    done :
        (x : Result (Response HeaderMap)) → poll api r event ≡ ready x → Outcome r x → Step r event
    crashed : poll api r event ≡ panicked → Step r event
    -- A redirect is followed at once.
    hops :
        (res : Response HeaderMap) (a : Answered r res follow)
        → event ≡ responded (ok res)
        → r.pending_future ≡ none
        → (let r' = follow_hop (answered_state r res follow a) a.target a.body in
            poll api r event ≡ sent r' r'.request a.body)
        → Step r event
    -- The policy's decision has to be awaited.
    asks :
        (res : Response HeaderMap) (future : ℕ) (a : Answered r res (pending future))
        → event ≡ responded (ok res)
        → r.pending_future ≡ none
        → poll api r event
          ≡ waiting (record (answered_state r res (pending future) a) {
            pending_future =
                some (record {
                  future = future;
                  location = a.target;
                  body = a.body;
                  res = seen r res;
                });
          })
        → Step r event
    -- The awaited decision is to follow.
    resumes :
        (state : Pending HeaderMap)
        → event ≡ decided follow
        → r.pending_future ≡ some state
        → (let r' = follow_hop (record r { pending_future = none }) state.location state.body in
            poll api r event ≡ sent r' r'.request state.body)
        → Step r event

  pub poll-pending :
      (r : State) (o : Option (Pending HeaderMap)) (event : Event HeaderMap)
      → r.pending_future ≡ o
      → poll api r event ≡ poll_pending api r o event
  unfolding poll
  poll-pending r o event e = ap (λ p. poll_pending api r p event) e

  Answered-Step :
      (r : State) (res : Response HeaderMap) (action : Action) (a : Answered r res action)
      → r.pending_future ≡ none
      → on_ready api r res
        ≡ on_action api (ok action) (answered_state r res action a) a.body (seen r res) a.target
      → Step r (responded (ok res))
  unfolding on_action handle_action
  Answered-Step r res follow a free e =
      Step.hops res a refl free (poll-pending r none (responded (ok res)) free ∙ e)
  Answered-Step r res stop a free e =
      Step.done (ok (seen r res)) (poll-pending r none (responded (ok res)) free ∙ e)
        (Outcome.unfollowed res a.request a.body_repr a.rewritten)
  Answered-Step r res (pending future) a free e =
      Step.asks res future a refl free (poll-pending r none (responded (ok res)) free ∙ e)
  Answered-Step r res (error text) a free e =
      Step.done (err (inner text)) (poll-pending r none (responded (ok res)) free ∙ e)
        (Outcome.failed (inner text))

  decided-Step :
      (r : State) (action : Action) (state : Pending HeaderMap)
      → r.pending_future ≡ some state
      → Step r (decided action)
  unfolding handle_action
  decided-Step r follow state e =
      Step.resumes state refl e (poll-pending r (some state) (decided follow) e)
  decided-Step r stop state e =
      Step.done (ok state.res) (poll-pending r (some state) (decided stop) e)
        (Outcome.stopped state e)
  decided-Step r (pending future) state e =
      Step.crashed (poll-pending r (some state) (decided (pending future)) e)
  decided-Step r (error text) state e =
      Step.done (err (inner text)) (poll-pending r (some state) (decided (error text)) e)
        (Outcome.failed (inner text))

  -- Every poll is one of these steps.
  pub poll-Step : (r : State) (event : Event HeaderMap) → Step r event
  poll-Step r (responded (ok res)) = elim (Option-cases r.pending_future) [
    | inl free ↦ elim (on_ready_cases r res) [
      | inl (x, e, how) ↦ Step.done x (poll-pending r none (responded (ok res)) free ∙ e) how
      | inr (action, a, e) ↦ Answered-Step r res action a free e
    ]
    | inr (state, e) ↦ Step.idle (poll-pending r (some state) (responded (ok res)) e)
  ]
  poll-Step r (responded (err x)) = elim (Option-cases r.pending_future) [
    | inl free ↦ Step.done (err x) (poll-pending r none (responded (err x)) free) (Outcome.failed x)
    | inr (state, e) ↦ Step.idle (poll-pending r (some state) (responded (err x)) e)
  ]
  poll-Step r (decided action) = elim (Option-cases r.pending_future) [
    | inl free ↦ Step.idle (poll-pending r none (decided action) free)
    | inr (state, e) ↦ decided-Step r action state e
  ]

  -- An awaited decision to follow.
  pub poll-follow :
      (r : State) (state : Pending HeaderMap)
      → r.pending_future ≡ some state
      → (let r' = follow_hop (record r { pending_future = none }) state.location state.body in
          poll api r (decided follow) ≡ sent r' r'.request state.body)
  unfolding handle_action
  poll-follow r state e = poll-pending r (some state) (decided follow) e
