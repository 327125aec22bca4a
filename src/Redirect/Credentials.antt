-- ===== src/Redirect/Credentials.antt =====
-- src/redirect.rs, `on_request` along a chain: credentials do not cross origins.
use tlsurl.Base.{
  ◌≡◌, refl, sym, ◌∙◌, ap, Option, none, some, Text, List, [], arith, Elem, if◌then◌else◌,
}
use tlsurl.Uri.{Uri}
use tlsurl.Body.{Body}
use tlsurl.Http.{HttpApi, Request}
use tlsurl.Redirect.{Action, follow, pending, PolicyKind}
use tlsurl.Redirect.Origin.{last, same_origin}
use tlsurl.Redirect.Policy.{FollowPolicy, Response}
use tlsurl.Redirect.Requests.{credentials, on_request-uri, on_request-credentials}
use tlsurl.Redirect.Decisions.{last-append, redirect-keeps, rewrite-uri, rewrite-credentials}
use tlsurl.Redirect.Future.{Pending, Event, run, call}
use tlsurl.Redirect.Steps.{State, follow_hop, Answered, answered_state}
use tlsurl.Redirect.Calls.{call-Starts}
use tlsurl.Redirect.Chains.{Linked, run-Linked}

module _ (api : HttpApi) where
  open api use {HeaderMap, get_all}

  -- To the origin of the request before, credentials go as they are, and to another none goes.
  abbrev pub Guarded : Request HeaderMap → Request HeaderMap → Body → Type 0
  Guarded before request body =
      (n : Text)
      → Elem n credentials
      → get_all request.headers n
        ≡ (if same_origin request.uri before.uri then get_all before.headers n else [])

  abbrev Tracks : State api → Request HeaderMap → Type 0
  Tracks r before =
      (r.request.uri ≡ before.uri)
      × ((n : Text) → Elem n credentials → get_all r.request.headers n ≡ get_all before.headers n)
      × ((state : Pending HeaderMap)
          → r.pending_future ≡ some state
          → last r.policy.uris ≡ some before.uri)

  -- A hop from a state whose last URI is that of the request before.
  hop-Guarded :
      (r : State api) (before : Request HeaderMap) (target : Uri) (body : Body)
      → ((n : Text) → Elem n credentials → get_all r.request.headers n ≡ get_all before.headers n)
      → last r.policy.uris ≡ some before.uri
      → Guarded before (follow_hop api r target body).request body
  hop-Guarded r before target body same at n m =
      rw
        (
          on_request-credentials api r.policy (record r.request { uri = target }) before.uri n at m,
          on_request-uri api r.policy (record r.request { uri = target }),
          same n m,
        )
        refl

  hop-Tracks :
      (r : State api) (target : Uri) (body : Body)
      → r.pending_future ≡ none
      → Tracks (follow_hop api r target body) (follow_hop api r target body).request
  hop-Tracks r target body free = (refl, λ n m. refl, λ state e. ground (arith, free, e))

  module _ (r : State api) (before : Request HeaderMap) (res : Response HeaderMap) (action : Action)
      (a : Answered api r res action) (t : Tracks r before) where
    answered-credentials :
        (n : Text) → Elem n credentials → get_all a.request.headers n ≡ get_all before.headers n
    answered-credentials n m =
        rewrite-credentials api res.status r.request r.body_repr a.request a.body_repr n a.rewritten
          m
        ∙ t.1 n m

    answered-uri : a.request.uri ≡ before.uri
    answered-uri =
        rewrite-uri api res.status r.request r.body_repr a.request a.body_repr a.rewritten ∙ t.0

    answered-last : last a.policy.uris ≡ some before.uri
    answered-last =
        ap (λ x. last x.0.uris) (sym a.chosen)
        ∙ ap last (redirect-keeps api r.policy res.status res.headers a.target a.request.uri).0
        ∙ last-append r.policy.uris a.request.uri
        ∙ ap some answered-uri

  run-Guarded :
      (events : List (Event HeaderMap)) (r : State api) (before : Request HeaderMap)
      → Tracks r before
      → Linked Guarded before (run api r events).0
  run-Guarded =
      run-Linked api Tracks Guarded
        (λ r before res a free t. (
          hop-Guarded (answered_state api r res follow a) before a.target a.body
              (answered-credentials r before res follow a t)
              (answered-last r before res follow a t),
          hop-Tracks (answered_state api r res follow a) a.target a.body free,
        ))
        (λ r before res future a free t. (
          answered-uri r before res (pending future) a t,
          answered-credentials r before res (pending future) a t,
          λ state e. answered-last r before res (pending future) a t,
        ))
        (λ r before state e t. (
          hop-Guarded (record r { pending_future = none }) before state.location state.body t.1
              (t.2 state e),
          hop-Tracks (record r { pending_future = none }) state.location state.body refl,
        ))

  -- Whatever the policies and the responses are: in the chain of requests of a call, each request
  -- to the origin of the one before it carries that one's credentials, and each request to another
  -- origin carries no `Authorization`, `Cookie`, `Cookie2`, `Proxy-Authorization` or
  -- `WWW-Authenticate` header.
  pub run-keeps_credentials :
      (layer : FollowPolicy api) (override : Option (PolicyKind HeaderMap))
      (req : Request HeaderMap) (body : Body) (r : State api) (events : List (Event HeaderMap))
      → (call api layer override req body).2 ≡ some r
      → Linked Guarded (call api layer override req body).1 (run api r events).0
  run-keeps_credentials layer override req body r events e =
      let starts = call-Starts api layer override req body r e in
      run-Guarded events r (call api layer override req body).1 (
        ap (λ q. q.uri) starts.request,
        λ n m. ap (λ q. get_all q.headers n) starts.request,
        λ state p. ground (arith, starts.no_pending, p),
      )
