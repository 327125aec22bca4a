-- ===== src/Retry/Tests.antt =====
-- Runs of the retry policy, and the theorems at inputs that meet their hypotheses.
use tlsurl.Base.{
  ℕ, ◌+◌, ◌-◌, none, some, Text, List, [], ◌∷◌, refl, ◌≡◌, ◌≤◌, arith, ltb, codes, inr, false, true,
  if◌then◌else◌,
}
use tlsurl.Body.{reusable}
use tlsurl.Http.{Request, get}
use tlsurl.Uri.{https}
use tlsurl.Retry.{
  Http2Error, refused_stream, caused_by, http2, protocol_nacks, Outcome, status, failure,
  Classifier, dyn, retryable, success, Budget, RetryPolicy, for_host, session, classify, applies_to,
  is_retryable_error, default_policy, clone_request, retry,
}
use tlsurl.Retry.Nacks.{classify-protocol_nacks_iff}
use tlsurl.Retry.Limits.{session-within_limit, session-out_of_scope}

abbrev counter : Budget ℕ
counter = record { deposit = λ n. n + 1; withdraw = λ n. (n - 1, ltb 0 n) }

-- Server errors are tried again.
abbrev server_errors : Classifier ℕ
server_errors = dyn (λ req result. elim result [
  | status n ↦ if ltb 499 n then retryable else success
  | failure f ↦ success
])

abbrev policy : RetryPolicy ℕ ℕ
policy = record (for_host none (codes "a.com")) { classifier = server_errors }

abbrev request : Text → Request ℕ
request name = record {
  method = get;
  uri = record {
    scheme = some https;
    authority = some (record { text = name; host = name; port = none });
    path = codes "/";
    query = none;
  };
  headers = 0;
}

abbrev unavailable : List Outcome
unavailable = status 503 ∷ status 503 ∷ status 503 ∷ status 503 ∷ []

session-in_scope :
    (session counter policy (request (codes "a.com")) (reusable []) unavailable).1 ≡ 2
unfolding session clone_request retry classify applies_to
session-in_scope = refl

session-one_token :
    (session counter
      (record policy { budget = some 1 })
      (request (codes "a.com"))
      (reusable [])
      unavailable).1
    ≡ 1
unfolding session clone_request retry classify applies_to
session-one_token = refl

session-within_limit_example :
    0 + (session counter policy (request (codes "a.com")) (reusable []) unavailable).1 ≤ 2
session-within_limit_example =
    session-within_limit counter unavailable policy (request (codes "a.com")) (reusable [])
      (omega arith) (omega arith)

session-out_of_scope_example :
    (session counter policy (request (codes "b.com")) (reusable []) unavailable).1 ≡ 1
unfolding applies_to classify
session-out_of_scope_example =
    session-out_of_scope counter policy (request (codes "b.com")) [] (status 503)
      (status 503 ∷ status 503 ∷ status 503 ∷ []) refl refl (omega arith) (omega arith) refl refl

abbrev refused : Http2Error
refused = record {
  is_go_away = false;
  is_reset = true;
  is_remote = true;
  reason = some refused_stream;
}

abbrev refusal : Outcome
refusal = failure (caused_by (caused_by (http2 refused)))

session-default :
    (session counter default_policy
      (request (codes "a.com"))
      (reusable [])
      (refusal ∷ status 503 ∷ refusal ∷ [])).1
    ≡ 1
unfolding session clone_request retry classify applies_to is_retryable_error
session-default = refl

classify-protocol_nacks_iff_example :
    classify protocol_nacks (request (codes "a.com")) refusal ≡ retryable
classify-protocol_nacks_iff_example =
    (classify-protocol_nacks_iff (request (codes "a.com")) refusal).1
      (refused, refl, (refl, inr (refl, refl)))
