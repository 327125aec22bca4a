-- ===== src/Redirect/Awaited.antt =====
-- src/client/layer/redirect/future.rs, `poll`: a decision that is awaited.
use tlsurl.Base.{◌≡◌, none, some}
use tlsurl.Http.{HttpApi}
use tlsurl.Redirect.{follow}
use tlsurl.Redirect.Requests.{on_request-uri, on_request-keeps}
use tlsurl.Redirect.Future.{Pending, decided, sent, poll}
use tlsurl.Redirect.Steps.{State, follow_hop, poll-follow}

module _ (api : HttpApi) where
  open api use {HeaderMap}

  -- Where a future decides to follow, the request goes to the location of the redirect whatever its
  -- scheme is and whether or not `https_only` is set, and the history does not get the hop.
  pub resume-skips_checks :
      (r : State api) (state : Pending HeaderMap)
      → r.pending_future ≡ some state
      → (r' : State api) × (poll api r (decided follow) ≡ sent r' r'.request state.body)
        × (r'.request.uri ≡ state.location)
        × (r'.policy.history ≡ r.policy.history)
  resume-skips_checks r state e =
      let free = record r { pending_future = none } in
      (
        follow_hop api free state.location state.body,
        poll-follow api r state e,
        on_request-uri api r.policy (record r.request { uri = state.location }),
        (on_request-keeps api r.policy (record r.request { uri = state.location })).3,
      )
