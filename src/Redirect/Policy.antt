-- ===== src/Redirect/Policy.antt =====
-- src/redirect.rs: `Policy` and `FollowRedirectPolicy`, the state of one chain of redirects.
use tlsurl.Base.{
  ℕ, Bool, true, false, not, ◌&&◌, ◌||◌, Option, none, some, List, [], ◌∷◌, ◌++◌, if◌then◌else◌,
  ltb, is_nil, length,
}
use tlsurl.Uri.{Uri, is_http, is_https}
use tlsurl.Http.{HttpApi, Request}
use tlsurl.Redirect.{
  Action, follow, stop, error, Attempt, PolicyKind, custom, limit, disabled, HistoryEntry,
  redirect_error, uri_bad_scheme, redirect_bad_scheme, Result, ok, err, too_many_redirects,
}
use tlsurl.Redirect.Origin.{remove_sensitive_headers}
use tlsurl.Redirect.Referrer.{Referrer, default_referrer, on_redirect, referrer_new, apply}

unfoldable pub policy_redirect : {H : Type 0} → PolicyKind H → Attempt H → Action
policy_redirect (custom f) attempt = f attempt
policy_redirect (limit max) attempt =
    if ltb max (length attempt.previous) then error too_many_redirects else follow
policy_redirect disabled attempt = stop

abbrev pub default_policy : {H : Type 0} → PolicyKind H
default_policy = limit 10

abbrev pub is_disabled : {H : Type 0} → PolicyKind H → Bool
is_disabled disabled = true
is_disabled _ = false

-- A history that is missing is an empty one from here on (`get_or_insert_default`).
abbrev pub push_history : {H : Type 0} → Option (List H) → H → Option (List H)
push_history none entry = some (entry ∷ [])
push_history (some entries) entry = some (entries ++ entry ∷ [])

-- `policy` is never empty in the source: `new` sets it, and only another policy replaces it.
pub record FollowRedirectPolicy (H U : Type 0) : Type 0 where
  pub policy : PolicyKind H
  pub referrer : Option (Referrer U)
  pub uris : List Uri
  pub https_only : Bool
  pub history : Option (List (HistoryEntry H))

abbrev pub new : {H U : Type 0} → PolicyKind H → FollowRedirectPolicy H U
new policy = record {
  policy = policy;
  referrer = none;
  uris = [];
  https_only = false;
  history = none;
}

abbrev pub with_referer :
    {H U : Type 0} → FollowRedirectPolicy H U → Bool → FollowRedirectPolicy H U
with_referer p referer = record p { referrer = if referer then some default_referrer else none }

abbrev pub with_https_only :
    {H U : Type 0} → FollowRedirectPolicy H U → Bool → FollowRedirectPolicy H U
with_https_only p https_only = record p { https_only = https_only }

-- What `redirect` makes of the outcome of the policy.
unfoldable pub decide :
    {H U : Type 0}
    → FollowRedirectPolicy H U
    → ℕ
    → H
    → Uri
    → Uri
    → Action
    → FollowRedirectPolicy H U × Result Action
decide p status headers next previous (error text) = (p, err (redirect_error text previous))
decide p status headers next previous follow =
    if not (is_http next || is_https next)
    then (p, err (uri_bad_scheme next))
    else if p.https_only && not (is_https next)
    then (p, err (redirect_bad_scheme next))
    else if is_disabled p.policy
    then (p, ok follow)
    else (
      record p {
        history =
            push_history p.history
              (record { status = status; uri = next; previous = previous; headers = headers });
      },
      ok follow,
    )
decide p status headers next previous action = (p, ok action)

module _ (api : HttpApi) where
  open api use {HeaderMap, Url}

  abbrev pub FollowPolicy : Type 0
  FollowPolicy = FollowRedirectPolicy HeaderMap Url

  abbrev pub on_referrer : Option (Referrer Url) → HeaderMap → Option (Referrer Url)
  on_referrer none h = none
  on_referrer (some r) h = some (on_redirect api r h)

  -- The URI is recorded, and the referrer policy read, before the policy is asked.
  unfoldable pub note_hop : FollowPolicy → HeaderMap → Uri → FollowPolicy
  note_hop p headers previous = record p {
    uris = p.uris ++ previous ∷ [];
    referrer = on_referrer p.referrer headers;
  }

  unfoldable pub redirect : FollowPolicy → ℕ → HeaderMap → Uri → Uri → FollowPolicy × Result Action
  redirect p status headers next previous =
      let p' = note_hop p headers previous in
      decide p' status headers next previous (
        policy_redirect p.policy
          (record { status = status; headers = headers; uri = next; previous = p'.uris }))

  abbrev pub fresh_referrer : Option (Referrer Url) → HeaderMap → Option (Referrer Url)
  fresh_referrer none h = none
  fresh_referrer (some r) h = some (referrer_new api h)

  -- `override` is the policy among the request's extensions, which the call takes out.  The first
  -- result is what is left of the layer's own policy.
  unfoldable pub for_request :
      FollowPolicy
      → Option (PolicyKind HeaderMap)
      → Request HeaderMap
      → FollowPolicy × Option FollowPolicy
  for_request p override req =
      let p' : FollowPolicy = elim override [
        | none ↦ p
        | some policy ↦ record p { policy = policy }
      ] in
      if is_disabled p'.policy
      then (p', none)
      else (p', some (record p' { referrer = fresh_referrer p'.referrer req.headers }))

  abbrev pub apply_referrer : FollowPolicy → Request HeaderMap → FollowPolicy × Request HeaderMap
  apply_referrer p req = elim p.referrer [
    | none ↦ (p, req)
    | some r ↦ let (r', req') = apply api r req in (record p { referrer = some r' }, req')
  ]

  unfoldable pub on_request : FollowPolicy → Request HeaderMap → FollowPolicy × Request HeaderMap
  on_request p req =
      let req' = remove_sensitive_headers api req p.uris in
      if is_nil p.uris then (p, req') else apply_referrer p req'

-- A response, with the two extensions that this layer writes.
pub record Response (H : Type 0) : Type 0 where
  pub status : ℕ
  pub headers : H
  pub request_uri : Option Uri
  pub history : Option (List (HistoryEntry H))

unfoldable pub on_response :
    {H U : Type 0} → FollowRedirectPolicy H U → Response H → FollowRedirectPolicy H U × Response H
on_response p res = elim p.history [
  | none ↦ (p, res)
  | some entries ↦ (record p { history = none }, record res { history = some entries })
]
