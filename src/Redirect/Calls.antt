-- ===== src/Redirect/Calls.antt =====
-- src/client/layer/redirect.rs, `FollowRedirect::call`: the state that a call starts in.
use tlsurl.Base.{
  ◌≡◌, refl, ap, sym, ◌∙◌, inl, inr, false, Option, none, some, unwrap_or, arith, Option-cases,
}
use mathlib.Core.Option
use tlsurl.Body.{Body}
use tlsurl.Http.{HttpApi, Request}
use tlsurl.Redirect.{PolicyKind}
use tlsurl.Redirect.Policy.{FollowPolicy, for_request, on_request, is_disabled}
use tlsurl.Redirect.Requests.{on_request-keeps, on_request-uri}
use tlsurl.Redirect.Future.{call, gone, try_clone_from}
use tlsurl.Redirect.Steps.{State}

module _ (api : HttpApi) where
  open api use {HeaderMap}

  pub record Starts (layer : FollowPolicy api) (override : Option (PolicyKind HeaderMap))
      (req : Request HeaderMap) (body : Body) (r : State api) : Type 0 where
    pub no_pending : r.pending_future ≡ none
    pub request : r.request ≡ (call api layer override req body).1
    pub uri : r.request.uri ≡ req.uri
    pub body_repr : r.body_repr ≡ try_clone_from gone body
    pub policy : r.policy.policy ≡ unwrap_or override layer.policy
    pub uris : r.policy.uris ≡ layer.uris
    pub https_only : r.policy.https_only ≡ layer.https_only
    pub history : r.policy.history ≡ layer.history
    pub enabled : is_disabled r.policy.policy ≡ false

  for_request-chain :
      (layer : FollowPolicy api) (override : Option (PolicyKind HeaderMap))
      (req : Request HeaderMap) (p : FollowPolicy api)
      → (for_request api layer override req).1 ≡ some p
      → (p.policy ≡ unwrap_or override layer.policy)
        × (p.uris ≡ layer.uris)
        × (p.https_only ≡ layer.https_only)
        × (p.history ≡ layer.history)
        × (is_disabled p.policy ≡ false)
  unfolding for_request
  for_request-chain layer none req p e = ground arith
  for_request-chain layer (some policy) req p e = ground arith

  -- The state that `call` builds around the policy of the chain.
  abbrev chain_state : FollowPolicy api → Request HeaderMap → Body → State api
  chain_state p req body = record {
    pending_future = none;
    policy = (on_request api p req).0;
    request = (on_request api p req).1;
    body_repr = try_clone_from gone body;
  }

  call-chain :
      (layer : FollowPolicy api) (override : Option (PolicyKind HeaderMap))
      (req : Request HeaderMap) (body : Body) (chain : Option (FollowPolicy api))
      → (for_request api layer override req).1 ≡ chain
      → (call api layer override req body).1 ≡ (elim chain as (λ _. Request HeaderMap) [
        | none ↦ req
        | some p ↦ (on_request api p req).1
      ])
        × ((call api layer override req body).2 ≡ Option.map (λ p. chain_state p req body) chain)
  unfolding call
  call-chain layer override req body none e = (rw (e, call) refl, rw (e, call) refl)
  call-chain layer override req body (some p) e = (rw (e, call) refl, rw (e, call) refl)

  pub call-Starts :
      (layer : FollowPolicy api) (override : Option (PolicyKind HeaderMap))
      (req : Request HeaderMap) (body : Body) (r : State api)
      → (call api layer override req body).2 ≡ some r
      → Starts layer override req body r
  call-Starts layer override req body r e =
      elim (Option-cases (for_request api layer override req).1) [
        | inl direct ↦ cc (e, (call-chain layer override req body none direct).1)
        | inr (p, chain) ↦
            let (sends, starts) = call-chain layer override req body (some p) chain in
            let (policy, uris, https_only, history, enabled) =
              for_request-chain layer override req p chain in
            let (k_policy, k_uris, k_https, k_history) = on_request-keeps api p req in
            let is_chain : r ≡ chain_state p req body = cc (e, starts) in
            record {
              no_pending = ap (λ q. q.pending_future) is_chain;
              request = ap (λ q. q.request) is_chain ∙ sym sends;
              uri = ap (λ q. q.request.uri) is_chain ∙ on_request-uri api p req;
              body_repr = ap (λ q. q.body_repr) is_chain;
              policy = ap (λ q. q.policy.policy) is_chain ∙ k_policy ∙ policy;
              uris = ap (λ q. q.policy.uris) is_chain ∙ k_uris ∙ uris;
              https_only = ap (λ q. q.policy.https_only) is_chain ∙ k_https ∙ https_only;
              history = ap (λ q. q.policy.history) is_chain ∙ k_history ∙ history;
              enabled =
                  ap (λ q. is_disabled q.policy.policy) is_chain
                  ∙ ap is_disabled k_policy
                  ∙ enabled;
            }
      ]
