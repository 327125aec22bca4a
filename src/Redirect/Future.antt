-- ===== src/Redirect/Future.antt =====
-- src/client/layer/redirect.rs and src/client/layer/redirect/future.rs: `FollowRedirect` and the
-- future of its calls.
use tlsurl.Base.{
  ℕ, Bool, true, false, ◌==◌, Option, none, some, Text, List, [], ◌∷◌, if◌then◌else◌, nat_beq,
  option_eq, nat_eq, ◌>>=◌, ◌||◌,
}
use tlsurl.Uri.{Uri}
use tlsurl.Body
use tlsurl.Body.{Body, try_clone}
use tlsurl.Http.{
  HttpApi, text_into_uri, Request, Method, get, post, head, first, location, content_type,
  content_length, content_encoding, transfer_encoding,
}
use tlsurl.Redirect.{Action, follow, stop, pending, error, PolicyKind, inner, Result, ok, err}
use tlsurl.Redirect.Policy.{
  FollowRedirectPolicy, FollowPolicy, Response, redirect, for_request, on_request, on_response,
}

-- The source's `Some`, `Empty` and `None`.
pub data BodyRepr : Type 0 where
  kept : Body → BodyRepr
  emptied gone : BodyRepr

abbrev pub take : BodyRepr → BodyRepr × Option Body
take (kept body) = (gone, some body)
take emptied = (emptied, some Body.empty)
take gone = (gone, none)

unfoldable pub try_clone_from : BodyRepr → Body → BodyRepr
try_clone_from (kept b) body = kept b
try_clone_from emptied body = emptied
try_clone_from gone body =
    if Body.content_length body == some 0
    then kept Body.empty
    else elim (try_clone body) [ none ↦ gone | some cloned ↦ kept cloned ]

pub record Pending (H : Type 0) : Type 0 where
  pub future : ℕ
  pub location : Uri
  pub body : Body
  pub res : Response H

-- `ResponseFuture::Redirect`; the inner future and the service are the caller's.
pub record Redirecting (H U : Type 0) : Type 0 where
  pub pending_future : Option (Pending H)
  pub policy : FollowRedirectPolicy H U
  pub request : Request H
  pub body_repr : BodyRepr

-- What a poll does: it waits, gives a request to the service and waits for it, or is done.
-- `panicked` is the arm that the source marks as unreachable.
pub data Poll (H U : Type 0) : Type 0 where
  waiting : Redirecting H U → Poll H U
  sent : Redirecting H U → Request H → Body → Poll H U
  ready : Result (Response H) → Poll H U
  panicked : Poll H U

-- What a poll finds: the response of the request that was sent last, or the action of the pending
-- future.
pub data Event (H : Type 0) : Type 0 where
  responded : Result (Response H) → Event H
  decided : Action → Event H

abbrev pub is_post : Method → Bool
is_post post = true
is_post _ = false

abbrev pub see_other_method : Method → Method
see_other_method head = head
see_other_method _ = get

abbrev pub is_redirect : ℕ → Bool
is_redirect status =
    nat_beq status 301
    || (nat_beq status 302 || (nat_beq status 303 || (nat_beq status 307 || nat_beq status 308)))

module _ (api : HttpApi) where
  open api use {HeaderMap, get_all, remove, Url, parse_url, join, as_str, uri_text}

  abbrev pub drop_payload_headers : HeaderMap → HeaderMap
  drop_payload_headers h =
      remove (remove (remove (remove h content_type) content_length) content_encoding)
        transfer_encoding

  -- `none` is a status that is no redirect.
  unfoldable pub rewrite : ℕ → Request HeaderMap → BodyRepr → Option (Request HeaderMap × BodyRepr)
  rewrite status request body_repr =
      if nat_beq status 301 || nat_beq status 302
      then if is_post request.method
        then some (
          record request { method = get; headers = drop_payload_headers request.headers },
          emptied,
        )
        else some (request, body_repr)
      else if nat_beq status 303
      then some (
        record request {
          method = see_other_method request.method;
          headers = drop_payload_headers request.headers;
        },
        emptied,
      )
      else if nat_beq status 307 || nat_beq status 308
      then some (request, body_repr)
      else none

  unfoldable pub resolve_uri : Text → Uri → Option Uri
  resolve_uri relative base = parse_url (uri_text base) >>= λ url.
      join url relative >>= λ joined. text_into_uri api (as_str joined)

  abbrev pub location_of : HeaderMap → Uri → Option Uri
  location_of h base =
      first (get_all h location) >>= λ value. value.text >>= λ text. resolve_uri text base

  unfoldable pub handle_action :
      Action → Redirecting HeaderMap Url → Body → Response HeaderMap → Uri → Poll HeaderMap Url
  handle_action follow r body res target =
      let (policy, request) = on_request api r.policy (record r.request { uri = target }) in
      sent
        (record r {
          policy = policy;
          request = request;
          body_repr = try_clone_from r.body_repr body;
        })
        request body
  handle_action stop r body res target = ready (ok res)
  handle_action (error text) r body res target = ready (err (inner text))
  handle_action (pending future) r body res target = panicked

  -- The action of the policy is awaited if it is pending, and taken otherwise.
  unfoldable pub on_action :
      Result Action
      → Redirecting HeaderMap Url
      → Body
      → Response HeaderMap
      → Uri
      → Poll HeaderMap Url
  on_action (err e) r body res target = ready (err e)
  on_action (ok (pending future)) r body res target = waiting (record r {
    pending_future = some (record { future = future; location = target; body = body; res = res });
  })
  on_action (ok action) r body res target = handle_action action r body res target

  -- A redirect status, once the method and the headers are rewritten.
  unfoldable pub on_redirect_response :
      Redirecting HeaderMap Url → Response HeaderMap → Poll HeaderMap Url
  on_redirect_response r res =
      let (body_repr, body?) = take r.body_repr in
      elim body? [
        | none ↦ ready (ok res)
        | some body ↦ elim (location_of res.headers r.request.uri) [
          | none ↦ ready (ok res)
          | some target ↦
              let (policy, action) =
                redirect api r.policy res.status res.headers target r.request.uri in
              on_action action (record r { policy = policy; body_repr = body_repr }) body res target
        ]
      ]

  unfoldable pub on_ready : Redirecting HeaderMap Url → Response HeaderMap → Poll HeaderMap Url
  on_ready r response =
      let res : Response HeaderMap = record response { request_uri = some r.request.uri } in
      elim (rewrite res.status r.request r.body_repr) [
        | none ↦ ready (ok (on_response r.policy res).1)
        | some (request, body_repr) ↦
            on_redirect_response (record r { request = request; body_repr = body_repr }) res
      ]

  -- A pending future is polled instead of the service's.
  abbrev pub poll_pending :
      Redirecting HeaderMap Url → Option (Pending HeaderMap) → Event HeaderMap → Poll HeaderMap Url
  poll_pending r (some state) (decided action) =
      handle_action action (record r { pending_future = none }) state.body state.res state.location
  poll_pending r (some state) (responded res) = waiting r
  poll_pending r none (decided action) = waiting r
  poll_pending r none (responded (err e)) = ready (err e)
  poll_pending r none (responded (ok res)) = on_ready r res

  unfoldable pub poll : Redirecting HeaderMap Url → Event HeaderMap → Poll HeaderMap Url
  poll r event = poll_pending r r.pending_future event

  -- The requests that the service gets, in order, and the outcome, if there is one.
  unfoldable pub run :
      Redirecting HeaderMap Url
      → List (Event HeaderMap)
      → List (Request HeaderMap × Body) × Option (Result (Response HeaderMap))
  run r [] = ([], none)
  run r (event ∷ events) = elim (poll r event) [
    | waiting r' ↦ run r' events
    | sent r' request body ↦
        let (requests, outcome) = run r' events in ((request, body) ∷ requests, outcome)
    | ready result ↦ ([], some result)
    | panicked ↦ ([], none)
  ]

  -- `FollowRedirect::call`: what is left of the layer's policy, the first request, and the future
  -- that follows redirects, or none where the response is passed on as it is.
  unfoldable pub call :
      FollowPolicy api
      → Option (PolicyKind HeaderMap)
      → Request HeaderMap
      → Body
      → FollowPolicy api × Request HeaderMap × Option (Redirecting HeaderMap Url)
  call layer override req body =
      let (layer', chain) = for_request api layer override req in
      elim chain [
        | none ↦ (layer', req, none)
        | some policy ↦
            let (policy', request) = on_request api policy req in
            (
              layer',
              request,
              some (record {
                pending_future = none;
                policy = policy';
                request = request;
                body_repr = try_clone_from gone body;
              }),
            )
      ]
