-- ===== src/Retry.antt =====
-- src/retry.rs and src/client/layer/retry.rs with its two modules: when a request is sent again.
-- The token budget is tower's, an interface.
pub mod Limits
pub mod Nacks
mod Tests
use tlsurl.Base.{
  ℕ, ◌+◌, ◌%◌, Bool, true, false, not, ◌&&◌, ◌||◌, Option, none, some, Text, List, [], ◌∷◌, ◌==◌,
  ltb, leb, text_eq, if◌then◌else◌, is_some_and,
}
use mathlib.Core.Option
use tlsurl.Uri.{host}
use tlsurl.Body.{Body, try_clone}
use tlsurl.Http.{Request}

pub data Action : Type 0 where
  success retryable : Action

pub data Reason : Type 0 where
  no_error refused_stream : Reason
  other : ℕ → Reason

pub record Http2Error : Type 0 where
  pub is_go_away : Bool
  pub is_reset : Bool
  pub is_remote : Bool
  pub reason : Option Reason

-- An error with its chain of sources.
pub data Failure : Type 0 where
  plain : Failure
  caused_by : Failure → Failure
  http2 : Http2Error → Failure

pub data Outcome : Type 0 where
  status : ℕ → Outcome
  failure : Failure → Outcome

pub data Classifier (H : Type 0) : Type 0 where
  never protocol_nacks : Classifier H
  dyn : (Request H → Outcome → Action) → Classifier H

pub data Scoped (H : Type 0) : Type 0 where
  unscoped : Scoped H
  scope : (Request H → Bool) → Scoped H

-- tower's `Budget`: the tokens after a call, and whether one was there.
pub record Budget (B : Type 0) : Type 0 where
  pub deposit : B → B
  pub withdraw : B → B × Bool

-- `max_retries_per_request` and `retry_cnt` are `u32`.
pub record RetryPolicy (H B : Type 0) : Type 0 where
  pub budget : Option B
  pub classifier : Classifier H
  pub max_retries_per_request : ℕ
  pub retry_cnt : ℕ
  pub scope : Scoped H

abbrev pub source : Failure → Option Failure
source plain = none
source (caused_by f) = some f
source (http2 e) = none

abbrev pub has_reason : Reason → Option Reason → Bool
has_reason no_error (some no_error) = true
has_reason refused_stream (some refused_stream) = true
has_reason _ _ = false

abbrev pub is_nack : Failure → Bool
is_nack (http2 e) =
    (e.is_go_away && (e.is_remote && has_reason no_error e.reason))
    || (e.is_reset && (e.is_remote && has_reason refused_stream e.reason))
is_nack _ = false

unfoldable pub is_retryable_error : Failure → Bool
is_retryable_error f = elim (source f) [
  | none ↦ false
  | some cause ↦ is_some_and (source cause) is_nack
]

-- Without a budget there is always a token.
abbrev pub take_token : {B : Type 0} → Budget B → Option B → Option B × Bool
take_token tokens none = (none, true)
take_token tokens (some b) = let (b', granted) = tokens.withdraw b in (some b', granted)

module _ {H : Type 0} where
  unfoldable pub classify : Classifier H → Request H → Outcome → Action
  classify never req result = success
  classify protocol_nacks req (status n) = success
  classify protocol_nacks req (failure f) = if is_retryable_error f then retryable else success
  classify (dyn f) req result = f req result

  unfoldable pub applies_to : Scoped H → Request H → Bool
  applies_to unscoped req = true
  applies_to (scope f) req = f req

  -- `Policy::for_host`, and the defaults of a scoped policy.
  abbrev pub for_host : {B : Type 0} → Option B → Text → RetryPolicy H B
  for_host budget name = record {
    budget = budget;
    classifier = never;
    max_retries_per_request = 2;
    retry_cnt = 0;
    scope = scope (λ req. is_some_and (host req.uri) (λ h. name == h));
  }

  abbrev pub default_policy : {B : Type 0} → RetryPolicy H B
  default_policy = record {
    budget = none;
    classifier = protocol_nacks;
    max_retries_per_request = 2;
    retry_cnt = 0;
    scope = unscoped;
  }

  unfoldable pub clone_request :
      {B : Type 0} → RetryPolicy H B → Request H → Body → Option (Request H × Body)
  clone_request p req body =
      if ltb 0 p.retry_cnt && not (applies_to p.scope req)
      then none
      else if leb p.max_retries_per_request p.retry_cnt
      then none
      else Option.map (λ copy. (req, copy)) (try_clone body)

  unfoldable pub retry :
      {B : Type 0} → Budget B → RetryPolicy H B → Request H → Outcome → RetryPolicy H B × Bool
  retry tokens p req result = elim (classify p.classifier req result) [
    | success ↦ (record p { budget = Option.map tokens.deposit p.budget }, false)
    | retryable ↦
        let (budget', granted) = take_token tokens p.budget in
        if granted
        then (record p { budget = budget'; retry_cnt = (p.retry_cnt + 1) % 4294967296 }, true)
        else (record p { budget = budget' }, false)
  ]

  -- The calls that tower's retry service makes, by its documentation: the request is copied before
  -- it is sent, and its outcome is put to `retry` if there is a copy to send.  The result is the
  -- number of requests that are sent again.
  unfoldable pub session :
      {B : Type 0}
      → Budget B
      → RetryPolicy H B
      → Request H
      → Body
      → List Outcome
      → RetryPolicy H B × ℕ
  session tokens p req body [] = (p, 0)
  session tokens p req body (result ∷ results) = elim (clone_request p req body) [
    | none ↦ (p, 0)
    | some copy ↦
        let (p', again) = retry tokens p req result in
        let rest = session tokens p' req body results in
        if again then (rest.0, rest.1 + 1) else (p', 0)
  ]
