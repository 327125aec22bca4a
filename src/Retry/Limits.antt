-- ===== src/Retry/Limits.antt =====
-- src/client/layer/retry.rs: how often a request is sent again.
use tlsurl.Base.{
  ℕ, ◌+◌, ◌%◌, ◌≤◌, ◌<◌, ◌≡◌, refl, ◌∙◌, ap, inl, inr, true, false, none, some, Text, List, [], ◌∷◌,
  arith, ltb, Option-cases, Bool-cases,
}
use tlsurl.Body.{Body, reusable}
use tlsurl.Http.{Request}
use tlsurl.Retry.{
  Outcome, Budget, RetryPolicy, retryable, classify, applies_to, clone_request, retry, session,
}

wrap : (n m : ℕ) → n < m → m < 4294967296 → (n + 1) % 4294967296 ≡ n + 1
wrap n m below small = omega arith

module _ {H B : Type 0} (tokens : Budget B) where
  clone_request-limit :
      (p : RetryPolicy H B) (req : Request H) (body : Body) (copy : Request H × Body)
      → clone_request p req body ≡ some copy
      → (p.retry_cnt < p.max_retries_per_request)
        × (ltb 0 p.retry_cnt ≡ true → applies_to p.scope req ≡ true)
  unfolding clone_request
  clone_request-limit p req body copy e = ground (arith, e)

  retry-counts :
      (p : RetryPolicy H B) (req : Request H) (result : Outcome)
      → p.retry_cnt < p.max_retries_per_request
      → p.max_retries_per_request < 4294967296
      → (retry tokens p req result).1 ≡ true
      → ((retry tokens p req result).0.retry_cnt ≡ p.retry_cnt + 1)
        × ((retry tokens p req result).0.max_retries_per_request ≡ p.max_retries_per_request)
        × ((retry tokens p req result).0.scope ≡ p.scope)
  unfolding retry
  retry-counts p req result below small again =
      ground (arith, again, wrap p.retry_cnt p.max_retries_per_request below small)

  -- A request is sent again at most as often as the policy allows.
  pub session-within_limit :
      (results : List Outcome) (p : RetryPolicy H B) (req : Request H) (body : Body)
      → p.max_retries_per_request < 4294967296
      → p.retry_cnt ≤ p.max_retries_per_request
      → p.retry_cnt + (session tokens p req body results).1 ≤ p.max_retries_per_request
  unfolding session
  session-within_limit [] p req body small within = omega (arith, within)
  session-within_limit (result ∷ results) p req body small within =
      elim (Option-cases (clone_request p req body)) [
        | inl no_copy ↦ rw (no_copy, session) (omega (arith, within))
        | inr (copy, there) ↦ elim (Bool-cases (retry tokens p req result).1) [
          | inr done ↦ rw (there, done, session) (omega (arith, within))
          | inl again ↦
              let below = (clone_request-limit p req body copy there).0 in
              let (count, same, scope) = retry-counts p req result below small again in
              let p' = (retry tokens p req result).0 in
              let rest =
                session-within_limit results p' req body (omega (arith, same, small))
                  (omega (arith, count, same, below)) in
              rw (there, again, session) (omega (arith, rest, count, same))
        ]
      ]

  clone_request-out_of_scope :
      (p : RetryPolicy H B) (req : Request H) (body : Body)
      → applies_to p.scope req ≡ false
      → p.retry_cnt ≡ 1
      → clone_request p req body ≡ none
  unfolding clone_request
  clone_request-out_of_scope p req body outside once = ground (arith, outside, once)

  session-stops :
      (results : List Outcome) (p : RetryPolicy H B) (req : Request H) (body : Body)
      → clone_request p req body ≡ none
      → (session tokens p req body results).1 ≡ 0
  unfolding session
  session-stops [] p req body no_copy = refl
  session-stops (result ∷ results) p req body no_copy = rw (no_copy, session) refl

  retry-granted :
      (p : RetryPolicy H B) (req : Request H) (result : Outcome)
      → p.budget ≡ none
      → classify p.classifier req result ≡ retryable
      → (retry tokens p req result).1 ≡ true
  unfolding retry
  retry-granted p req result free again = ground (arith, free, again)

  -- A request outside the policy's scope is sent again once, if it can be and the classifier says so:
  -- the scope is looked at only after the first retry.
  pub session-out_of_scope :
      (p : RetryPolicy H B) (req : Request H) (chunk : Text) (result : Outcome)
      (results : List Outcome)
      → applies_to p.scope req ≡ false
      → p.retry_cnt ≡ 0
      → 0 < p.max_retries_per_request
      → p.max_retries_per_request < 4294967296
      → p.budget ≡ none
      → classify p.classifier req result ≡ retryable
      → (session tokens p req (reusable chunk) (result ∷ results)).1 ≡ 1
  unfolding session clone_request
  session-out_of_scope p req chunk result results outside unused allowed small free again =
      let granted = retry-granted p req result free again in
      let (count, same, scope) =
        retry-counts p req result (omega (arith, unused, allowed)) small granted in
      let stops = session-stops results (retry tokens p req result).0 req (reusable chunk) (
        clone_request-out_of_scope ((retry tokens p req result).0) req (reusable chunk)
          (ap (λ s. applies_to s req) scope ∙ outside) (omega (arith, count, unused))) in
      ground (arith, unused, allowed, granted, stops)
