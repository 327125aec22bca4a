-- ===== src/Redirect/Chains.antt =====
-- src/client/layer/redirect/future.rs: what holds of each request of a chain, by induction on the
-- polls.
use tlsurl.Base.{ℕ, ◌≡◌, refl, Option, none, some, List, [], ◌∷◌}
use tlsurl.Body.{Body}
use tlsurl.Http.{HttpApi, Request}
use tlsurl.Redirect.{follow, pending, Result}
use tlsurl.Redirect.Policy.{Response}
use tlsurl.Redirect.Future.{Pending, Poll, waiting, sent, ready, panicked, Event, poll, run}
use tlsurl.Redirect.Steps.{State, follow_hop, seen, Answered, answered_state, Step, poll-Step}

-- Each request stands in a relation to the one before it.
unfoldable pub Linked :
    {H : Type 0}
    → (Request H → Request H → Body → Type 0)
    → Request H
    → List (Request H × Body)
    → Type 0
Linked R before [] = Unit {0}
Linked R before ((request, body) ∷ rest) = R before request body × Linked R request rest

module _ (api : HttpApi) where
  open api use {HeaderMap}

  -- What `run` does with what the first poll gives.
  abbrev pub continue :
      Poll HeaderMap api.Url
      → List (Event HeaderMap)
      → List (Request HeaderMap × Body) × Option (Result (Response HeaderMap))
  continue (waiting r) events = run api r events
  continue (sent r request body) events =
      ((request, body) ∷ (run api r events).0, (run api r events).1)
  continue (ready x) events = ([], some x)
  continue panicked events = ([], none)

  pub run-poll :
      (r : State api) (event : Event HeaderMap) (events : List (Event HeaderMap))
      (p : Poll HeaderMap api.Url)
      → poll api r event ≡ p
      → run api r (event ∷ events) ≡ continue p events
  unfolding run
  run-poll r event events (waiting r') e = rw (e, run) refl
  run-poll r event events (sent r' request body) e = rw (e, run) refl
  run-poll r event events (ready x) e = rw (e, run) refl
  run-poll r event events panicked e = rw (e, run) refl

  -- A property of the state and the request that was sent last, which every step keeps.
  module _ (Inv : State api → Request HeaderMap → Type 0)
      (R : Request HeaderMap → Request HeaderMap → Body → Type 0)
      (on_hops : (r : State api) (before : Request HeaderMap) (res : Response HeaderMap)
          (a : Answered api r res follow)
        → r.pending_future ≡ none
        → Inv r before
        → (let r' = follow_hop api (answered_state api r res follow a) a.target a.body in
            R before r'.request a.body × Inv r' r'.request))
      (on_asks : (r : State api) (before : Request HeaderMap) (res : Response HeaderMap)
          (future : ℕ) (a : Answered api r res (pending future))
        → r.pending_future ≡ none
        → Inv r before
        → Inv
            (record (answered_state api r res (pending future) a) {
              pending_future = some (record {
                future = future;
                location = a.target;
                body = a.body;
                res = seen api r res;
              });
            })
            before)
      (on_resumes : (r : State api) (before : Request HeaderMap) (state : Pending HeaderMap)
        → r.pending_future ≡ some state
        → Inv r before
        → (let r' = follow_hop api (record r { pending_future = none }) state.location state.body in
            R before r'.request state.body × Inv r' r'.request)) where
    pub run-Linked :
        (events : List (Event HeaderMap)) (r : State api) (before : Request HeaderMap)
        → Inv r before
        → Linked R before (run api r events).0
    unfolding Linked run
    run-Linked [] r before v = tt
    run-Linked (event ∷ events) r before v = elim (poll-Step api r event) [
      | Step.idle e ↦ rw (run-poll r event events _ e) (run-Linked events r before v)
      | Step.done x e how ↦ rw (run-poll r event events _ e) tt
      | Step.crashed e ↦ rw (run-poll r event events _ e) tt
      | Step.hops res a found free e ↦
          let (hop, v') = on_hops r before res a free v in
          rw (run-poll r event events _ e) (hop, run-Linked events _ _ v')
      | Step.asks res future a found free e ↦
          rw (run-poll r event events _ e)
            (run-Linked events _ before (on_asks r before res future a free v))
      | Step.resumes state found e_p e ↦
          let (hop, v') = on_resumes r before state e_p v in
          rw (run-poll r event events _ e) (hop, run-Linked events _ _ v')
    ]
