-- ===== src/Redirect/Histories.antt =====
-- src/redirect.rs, `on_response`: the history of redirects that a response carries.
use tlsurl.Base.{
  ℕ, ◌≡◌, ◌≢◌, refl, sym, ◌∙◌, ap, ◌⊎◌, inl, inr, Bool, true, false, Option, none, some, List, [],
  ◌∷◌, ◌++◌, map, append-nil, Option-cases, subst, arith, unwrap_or,
}
use tlsurl.Uri.{Uri}
use tlsurl.Body.{Body}
use tlsurl.Http.{HttpApi, Request}
use tlsurl.Redirect.{follow, PolicyKind, HistoryEntry, Result, ok}
use tlsurl.Redirect.Policy.{FollowPolicy, Response, on_response, is_disabled, push_history}
use tlsurl.Redirect.Requests.{on_request-uri, on_request-keeps}
use tlsurl.Redirect.Decisions.{redirect-follow}
use tlsurl.Redirect.Future.{BodyRepr, Event, is_redirect, rewrite, run, call}
use tlsurl.Redirect.Steps.{
  State, follow_hop, seen, Answered, answered_state, Outcome, Step, poll-Step,
}
use tlsurl.Redirect.Calls.{call-Starts}
use tlsurl.Redirect.Chains.{run-poll}
use tlsurl.Redirect.Schemes.{IsImmediate, Immediate, hop-Immediate, never-asks}

abbrev pub entry_uris : {H : Type 0} → List (HistoryEntry H) → List Uri
entry_uris = map (λ e. e.uri)

abbrev pub sent_uris : {H : Type 0} → List (Request H × Body) → List Uri
sent_uris = map (λ q. q.0.uri)

ok_injective : {A : Type 0} {a b : A} → ok a ≡ ok b → a ≡ b
ok_injective e = cc e

entry_uris-append :
    {H : Type 0} (entries : List (HistoryEntry H)) (e : HistoryEntry H) (rest : List Uri)
    → entry_uris (entries ++ e ∷ []) ++ rest ≡ entry_uris entries ++ e.uri ∷ rest
entry_uris-append [] e rest = refl
entry_uris-append (x ∷ entries) e rest = ap (◌∷◌ x.uri) (entry_uris-append entries e rest)

push_history-uris :
    {H : Type 0} (h : Option (List (HistoryEntry H))) (e : HistoryEntry H) (rest : List Uri)
    → entry_uris (unwrap_or (push_history h e) []) ++ rest
      ≡ entry_uris (unwrap_or h []) ++ e.uri ∷ rest
push_history-uris none e rest = refl
push_history-uris (some entries) e rest = entry_uris-append entries e rest

push_history-some :
    {H : Type 0} (h : Option (List (HistoryEntry H))) (e : HistoryEntry H) → push_history h e ≢ none
push_history-some none e n = cc n
push_history-some (some entries) e n = cc n

module _ (api : HttpApi) where
  open api use {HeaderMap}

  rewrite-is_redirect :
      (status : ℕ) (req : Request HeaderMap) (br : BodyRepr) (out : Request HeaderMap × BodyRepr)
      → rewrite api status req br ≡ some out
      → is_redirect status ≡ true
  unfolding rewrite
  rewrite-is_redirect status req br out e = ground arith

  -- The history of the response, given the entries before and the requests that were sent.
  abbrev pub Records :
      Option (List (HistoryEntry HeaderMap))
      → List (Request HeaderMap × Body)
      → Response HeaderMap
      → Type 0
  Records before requests res =
      ((entries : List (HistoryEntry HeaderMap)) × (res.history ≡ some entries)
        × (entry_uris entries ≡ entry_uris (unwrap_or before []) ++ sent_uris requests))
      ⊎ ((before ≡ none) × (requests ≡ []))

  final-Records :
      (p : FollowPolicy api) (res : Response HeaderMap) → Records p.history [] (on_response p res).1
  unfolding on_response
  final-Records p res = elim (Option-cases p.history) [
    | inl e ↦ inr (e, refl)
    | inr (entries, e) ↦ inl (entries, ground (arith, e), rw (e) (sym (append-nil _)))
  ]

  Outcome-Records :
      (policy : PolicyKind HeaderMap) (https_only : Bool) (r : State api)
      → Immediate api policy https_only r
      → (x : Result (Response HeaderMap)) → Outcome api r x
      → (res : Response HeaderMap) → x ≡ ok res
      → is_redirect res.status ≡ false
      → Records r.policy.history [] res
  Outcome-Records policy https_only r v _ (Outcome.final reply n) res e plain =
      let same : (on_response r.policy (seen api r reply)).1 ≡ res = ok_injective e in
      subst (Records r.policy.history []) same (final-Records r.policy (seen api r reply))
  Outcome-Records policy https_only r v _ (Outcome.unfollowed reply request br w) res e plain =
      let same : reply.status ≡ res.status = ap (λ q. q.status) (ok_injective e) in
      cc (plain, same, rewrite-is_redirect reply.status r.request r.body_repr (request, br) w)
  Outcome-Records policy https_only r v _ (Outcome.stopped state p) res e plain =
      absurd (ground (arith, v.no_pending, p))
  Outcome-Records policy https_only r v _ (Outcome.failed x) res e plain = cc e

  hop-Records :
      (policy : PolicyKind HeaderMap) (https_only : Bool) (r : State api)
      → Immediate api policy https_only r
      → is_disabled policy ≡ false
      → (reply : Response HeaderMap) (a : Answered api r reply follow)
      → (requests : List (Request HeaderMap × Body)) (res : Response HeaderMap)
      → (let r' = follow_hop api (answered_state api r reply follow a) a.target a.body in
          Records r'.policy.history requests res
          → Records r.policy.history ((r'.request, a.body) ∷ requests) res)
  hop-Records policy https_only r v enabled reply a requests res h =
      let moved : Request HeaderMap = record a.request { uri = a.target } in
      let entry : HistoryEntry HeaderMap = record {
        status = reply.status;
        uri = a.target;
        previous = a.request.uri;
        headers = reply.headers;
      } in
      let (followed, scheme, secure, recorded) =
        redirect-follow api r.policy reply.status reply.headers a.target a.request.uri a.policy
          a.chosen in
      let pushed =
        (on_request-keeps api a.policy moved).3 ∙ recorded (ap is_disabled v.policy_is ∙ enabled) in
      elim h [
        | inl (entries, has, uris) ↦ inl (
          entries,
          has,
          uris
              ∙ ap (λ o. entry_uris (unwrap_or o []) ++ sent_uris requests) pushed
              ∙ push_history-uris r.policy.history entry (sent_uris requests)
              ∙ ap (λ u. entry_uris (unwrap_or r.policy.history []) ++ u ∷ sent_uris requests)
                  (sym (on_request-uri api a.policy moved)),
        )
        | inr (empty, nothing) ↦
            absurd (push_history-some r.policy.history entry (sym pushed ∙ empty))
      ]

  run-Records :
      (policy : PolicyKind HeaderMap) (https_only : Bool)
      → IsImmediate policy
      → is_disabled policy ≡ false
      → (events : List (Event HeaderMap)) (r : State api) (res : Response HeaderMap)
      → Immediate api policy https_only r
      → (run api r events).1 ≡ some (ok res)
      → is_redirect res.status ≡ false
      → Records r.policy.history (run api r events).0 res
  unfolding run
  run-Records policy https_only immediate enabled [] r res v e plain = cc e
  run-Records policy https_only immediate enabled (event ∷ events) r res v e plain =
      elim (poll-Step api r event) [
        | Step.idle p ↦
            let step = run-poll api r event events _ p in
            rw (step) (
              run-Records policy https_only immediate enabled events r res v (rw (step) at e) plain)
        | Step.done x p how ↦
            let step = run-poll api r event events _ p in
            rw (step) (Outcome-Records policy https_only r v x how res (cc (rw (step) at e)) plain)
        | Step.crashed p ↦ cc (rw (run-poll api r event events _ p) at e)
        | Step.hops reply a found free p ↦
            let step = run-poll api r event events _ p in
            rw (step) (
              hop-Records policy https_only r v enabled reply a _ res (
                run-Records policy https_only immediate enabled events _ res
                  (hop-Immediate api policy https_only r v reply a) (rw (step) at e) plain))
        | Step.asks reply future a found free p ↦
            absurd (never-asks api policy https_only r v reply immediate future a)
        | Step.resumes state found e_p p ↦ absurd (ground (arith, v.no_pending, e_p))
      ]

  -- Where the policy of the call does not decide by futures, a response that is no redirect comes
  -- with a history whose URIs are those of the requests after the first, in the order in which
  -- they were sent, if there are any.
  pub run-history :
      (layer : FollowPolicy api) (override : Option (PolicyKind HeaderMap))
      (req : Request HeaderMap) (body : Body) (r : State api) (events : List (Event HeaderMap))
      (res : Response HeaderMap)
      → (call api layer override req body).2 ≡ some r
      → IsImmediate (unwrap_or override layer.policy)
      → layer.history ≡ none
      → (run api r events).1 ≡ some (ok res)
      → is_redirect res.status ≡ false
      → ((entries : List (HistoryEntry HeaderMap)) × (res.history ≡ some entries)
          × (entry_uris entries ≡ sent_uris (run api r events).0))
        ⊎ ((run api r events).0 ≡ [])
  run-history layer override req body r events res e immediate fresh out plain =
      let starts = call-Starts api layer override req body r e in
      let records =
        run-Records (unwrap_or override layer.policy) layer.https_only immediate
          (ap is_disabled (sym starts.policy) ∙ starts.enabled) events r res
          (record {
            no_pending = starts.no_pending;
            policy_is = starts.policy;
            https_only_is = starts.https_only;
          })
          out plain in
      elim records [
        | inl (entries, has, uris) ↦ inl (
          entries,
          has,
          uris
              ∙ ap (λ o. entry_uris (unwrap_or o []) ++ sent_uris (run api r events).0)
                  (starts.history ∙ fresh),
        )
        | inr (empty, nothing) ↦ inr nothing
      ]
