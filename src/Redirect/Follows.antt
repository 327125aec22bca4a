-- ===== src/Redirect/Follows.antt =====
-- src/client/layer/redirect/future.rs: a chain of redirects that nothing forbids is followed to its
-- end.
use tlsurl.Base.{
  ℕ, suc, ◌+◌, ◌≤◌, ◌≡◌, refl, sym, ◌∙◌, ap, inl, inr, Bool, true, false, ◌||◌, Option, none, some,
  Text, List, [], ◌∷◌, ◌++◌, map, arith, unwrap_or, length, length-append, Option-cases, ◌≢◌, ◌⊎◌,
  subst, if◌then◌else◌,
}
use tlsurl.Uri.{Uri, is_http, is_https}
use tlsurl.Body
use tlsurl.Body.{Body, reusable, streaming}
use tlsurl.Http.{HttpApi, Request}
use tlsurl.Redirect.{follow, PolicyKind, limit, ok}
use tlsurl.Redirect.Policy.{FollowPolicy, Response, redirect, on_response}
use tlsurl.Redirect.Requests.{on_request-uri}
use tlsurl.Redirect.Decisions.{redirect-follows, rewrite-uri}
use tlsurl.Redirect.Future.{
  BodyRepr, kept, emptied, gone, take, try_clone_from, Event, responded, sent, ready, is_redirect,
  rewrite, location_of, handle_action, on_action, on_redirect_response, on_ready, poll, run, call,
}
use tlsurl.Redirect.Steps.{State, follow_hop, seen, Answered, answered_state, poll-pending}
use tlsurl.Redirect.Calls.{call-Starts}
use tlsurl.Redirect.Chains.{run-poll}
use tlsurl.Redirect.Schemes.{Immediate, hop-Immediate}
use tlsurl.Redirect.Limits.{hop-uris}
use tlsurl.Redirect.Histories.{sent_uris}

-- A body that can be sent again and again.
abbrev IsReplayable : BodyRepr → Type 0
IsReplayable (kept (reusable chunk)) = Unit {0}
IsReplayable (kept (streaming size frames)) = ⊥
IsReplayable emptied = Unit {0}
IsReplayable gone = ⊥

-- A copy of an empty chunk is the empty body.
copy-IsReplayable :
    (chunk : Text) (c : Bool) → IsReplayable (if c then kept Body.empty else kept (reusable chunk))
copy-IsReplayable chunk true = tt
copy-IsReplayable chunk false = tt

replay :
    (br : BodyRepr)
    → IsReplayable br
    → (body : Body) × ((take br).1 ≡ some body) × IsReplayable (try_clone_from (take br).0 body)
unfolding try_clone_from
replay (kept (reusable chunk)) v = (reusable chunk, refl, copy-IsReplayable chunk _)
replay (kept (streaming size frames)) v = absurd v
replay emptied v = (reusable [], refl, tt)
replay gone v = absurd v

module _ (api : HttpApi) where
  open api use {HeaderMap}

  -- The targets to which a list of redirect responses leads from a URI, each of them allowed.
  unfoldable pub Leads : Bool → Uri → List (Response HeaderMap) → List Uri → Type 0
  Leads https_only base [] [] = Unit {0}
  Leads https_only base (res ∷ rest) (target ∷ targets) =
      (is_redirect res.status ≡ true)
      × (location_of api res.headers base ≡ some target)
      × ((is_http target || is_https target) ≡ true)
      × (https_only ≡ true → is_https target ≡ true)
      × Leads https_only target rest targets
  Leads https_only base _ _ = ⊥

  abbrev pub replies : List (Response HeaderMap) → List (Event HeaderMap)
  replies = map (λ res. responded (ok res))

  rewrite-some :
      (status : ℕ) (req : Request HeaderMap) (br : BodyRepr)
      → is_redirect status ≡ true
      → rewrite api status req br ≢ none
  unfolding rewrite
  rewrite-some status req br web e = ground arith

  rewrite-body :
      (status : ℕ) (req req' : Request HeaderMap) (br br' : BodyRepr)
      → rewrite api status req br ≡ some (req', br')
      → (br ≡ br') ⊎ (emptied ≡ br')
  unfolding rewrite
  rewrite-body status req req' br br' e = ground arith

  rewrite-IsReplayable :
      (status : ℕ) (req req' : Request HeaderMap) (br br' : BodyRepr)
      → rewrite api status req br ≡ some (req', br')
      → IsReplayable br
      → IsReplayable br'
  rewrite-IsReplayable status req req' br br' e v = elim (rewrite-body status req req' br br' e) [
    | inl same ↦ subst IsReplayable same v
    | inr dropped ↦ subst IsReplayable dropped tt
  ]

  poll-Answered :
      (r : State api) (res : Response HeaderMap) (a : Answered api r res follow)
      → r.pending_future ≡ none
      → (let r' = follow_hop api (answered_state api r res follow a) a.target a.body in
          poll api r (responded (ok res)) ≡ sent r' r'.request a.body)
  unfolding on_ready on_redirect_response on_action handle_action
  poll-Answered r res a free =
      poll-pending api r none (responded (ok res)) free
      ∙ rw (a.rewritten, a.has_body, a.has_location, a.chosen, on_ready, on_redirect_response) refl

  poll-final :
      (r : State api) (res : Response HeaderMap)
      → r.pending_future ≡ none
      → is_redirect res.status ≡ false
      → poll api r (responded (ok res)) ≡ ready (ok (on_response r.policy (seen api r res)).1)
  unfolding on_ready rewrite
  poll-final r res free plain =
      poll-pending api r none (responded (ok res)) free ∙ ground (arith, plain)

  response-status :
      (p : FollowPolicy api) (res : Response HeaderMap) → (on_response p res).1.status ≡ res.status
  unfolding on_response
  response-status p res = ground arith

  module _ (max : ℕ) (https_only : Bool) where
    -- A redirect response that nothing forbids is followed.
    answer :
        (r : State api) (res : Response HeaderMap) (base target : Uri)
        → Immediate api (limit max) https_only r
        → IsReplayable r.body_repr
        → r.request.uri ≡ base
        → suc (length r.policy.uris) ≤ max
        → is_redirect res.status ≡ true
        → location_of api res.headers base ≡ some target
        → (is_http target || is_https target) ≡ true
        → (https_only ≡ true → is_https target ≡ true)
        → (a : Answered api r res follow) × (a.target ≡ target)
          × IsReplayable (try_clone_from (take a.body_repr).0 a.body)
    answer r res base target v replayable at within web leads scheme secure =
        elim (Option-cases (rewrite api res.status r.request r.body_repr)) [
          | inl e ↦ absurd (rewrite-some res.status r.request r.body_repr web e)
          | inr ((req', br'), e) ↦
              let kept_body =
                rewrite-IsReplayable res.status r.request req' r.body_repr br' e replayable in
              let (body, has, again) = replay br' kept_body in
              let here = rewrite-uri api res.status r.request r.body_repr req' br' e ∙ at in
              let chosen =
                redirect-follows api r.policy max res.status res.headers target req'.uri v.policy_is
                  (omega (arith, within, length-append r.policy.uris (req'.uri ∷ []))) scheme
                  (λ only. secure (sym v.https_only_is ∙ only)) in
              (
                record {
                  request = req';
                  body_repr = br';
                  body = body;
                  target = target;
                  policy = (redirect api r.policy res.status res.headers target req'.uri).0;
                  rewritten = e;
                  has_body = has;
                  has_location = ap (location_of api res.headers) here ∙ leads;
                  chosen =
                      ap
                        (λ x. ((redirect api r.policy res.status res.headers target req'.uri).0, x))
                        chosen;
                },
                refl,
                again,
              )
        ]

    EndsWith : State api → List (Response HeaderMap) → List Uri → Response HeaderMap → Type 0
    EndsWith r rs targets final =
        (sent_uris (run api r (replies (rs ++ final ∷ []))).0 ≡ targets)
        × (res : Response HeaderMap) × ((run api r (replies (rs ++ final ∷ []))).1 ≡ some (ok res))
        × (res.status ≡ final.status)

    run-follows_from :
        (rs : List (Response HeaderMap)) (targets : List Uri) (base : Uri)
        (final : Response HeaderMap) (r : State api)
        → Immediate api (limit max) https_only r
        → IsReplayable r.body_repr
        → r.request.uri ≡ base
        → length rs + length r.policy.uris ≤ max
        → Leads https_only base rs targets
        → is_redirect final.status ≡ false
        → EndsWith r rs targets final
    unfolding Leads EndsWith
    run-follows_from [] [] base final r v replayable at within leads plain =
        let step = run-poll api r _ [] _ (poll-final r final v.no_pending plain) in
        rw (step) (refl, _, refl, response-status r.policy (seen api r final))
    run-follows_from [] (t ∷ ts) base final r v replayable at within leads plain = absurd leads
    run-follows_from (res ∷ rs) [] base final r v replayable at within leads plain = absurd leads
    run-follows_from (res ∷ rs) (t ∷ ts) base final r v replayable at within
          (web, location, scheme, secure, rest) plain =
        let (a, target, again) =
          answer r res base t v replayable at (omega (arith, within)) web location scheme secure in
        let longer = hop-uris api max https_only r v res a in
        let step =
          run-poll api r _ (replies (rs ++ final ∷ [])) _ (poll-Answered r res a v.no_pending) in
        let moved = on_request-uri api a.policy (record a.request { uri = a.target }) ∙ target in
        let (uris, end, out, status) =
          run-follows_from rs ts t final _ (hop-Immediate api (limit max) https_only r v res a)
            again moved (omega (arith, within, longer)) rest plain in
        rw (step) ((λ i. moved i ∷ uris i), end, out, status)

  -- Under `Policy::limited(max)` a call with a body that can be sent again follows up to `max`
  -- redirect responses in a row, each of them to an allowed URI: the requests after the first go to
  -- these URIs, in this order, and the response that is no redirect is the outcome.
  pub run-follows :
      (layer : FollowPolicy api) (override : Option (PolicyKind HeaderMap))
      (req : Request HeaderMap) (chunk : Text) (r : State api) (max : ℕ)
      (rs : List (Response HeaderMap)) (targets : List Uri) (final : Response HeaderMap)
      → (call api layer override req (reusable chunk)).2 ≡ some r
      → unwrap_or override layer.policy ≡ limit max
      → layer.uris ≡ []
      → length rs ≤ max
      → Leads layer.https_only req.uri rs targets
      → is_redirect final.status ≡ false
      → (sent_uris (run api r (replies (rs ++ final ∷ []))).0 ≡ targets)
        × (res : Response HeaderMap) × ((run api r (replies (rs ++ final ∷ []))).1 ≡ some (ok res))
        × (res.status ≡ final.status)
  unfolding EndsWith try_clone_from
  run-follows layer override req chunk r max rs targets final e limited fresh short leads plain =
      let starts = call-Starts api layer override req (reusable chunk) r e in
      let none_before : length r.policy.uris ≡ 0 = ap length (starts.uris ∙ fresh) in
      run-follows_from max layer.https_only rs targets req.uri final r
        (record {
          no_pending = starts.no_pending;
          policy_is = starts.policy ∙ limited;
          https_only_is = starts.https_only;
        })
        (subst IsReplayable (sym starts.body_repr) (copy-IsReplayable chunk _)) starts.uri
        (omega (arith, short, none_before)) leads plain
