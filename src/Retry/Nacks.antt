-- ===== src/Retry/Nacks.antt =====
-- src/client/layer/retry/classify.rs: which outcomes the default classifier retries.
use tlsurl.Base.{◌≡◌, refl, sym, ap, subst, ◌↔◌, ◌⊎◌, true, Option, none, some, arith}
use tlsurl.Http.{Request}
use tlsurl.Retry.{
  retryable, Reason, no_error, refused_stream, other, Http2Error, Failure, plain, caused_by, http2,
  Outcome, status, failure, protocol_nacks, classify, is_retryable_error, has_reason, is_nack,
}

-- A remote HTTP/2 error that says that the request was not processed.
abbrev pub Nack : Http2Error → Type 0
Nack e =
    (e.is_remote ≡ true)
    × (((e.is_go_away ≡ true) × (e.reason ≡ some no_error))
        ⊎ ((e.is_reset ≡ true) × (e.reason ≡ some refused_stream)))

has_reason-no_error : (r : Option Reason) → (has_reason no_error r ≡ true) ↔ (r ≡ some no_error)
has_reason-no_error none = ground arith
has_reason-no_error (some no_error) = ground arith
has_reason-no_error (some refused_stream) = ground arith
has_reason-no_error (some (other n)) = ground arith

has_reason-refused_stream :
    (r : Option Reason) → (has_reason refused_stream r ≡ true) ↔ (r ≡ some refused_stream)
has_reason-refused_stream none = ground arith
has_reason-refused_stream (some no_error) = ground arith
has_reason-refused_stream (some refused_stream) = ground arith
has_reason-refused_stream (some (other n)) = ground arith

is_nack_iff : (e : Http2Error) → (is_nack (http2 e) ≡ true) ↔ Nack e
is_nack_iff e = ground (arith, has_reason-no_error e.reason, has_reason-refused_stream e.reason)

is_retryable_error-cause :
    (f : Failure)
    → is_retryable_error f ≡ true
    → (e : Http2Error) × (f ≡ caused_by (caused_by (http2 e))) × Nack e
unfolding is_retryable_error
is_retryable_error-cause plain h = ground (arith, h)
is_retryable_error-cause (http2 e) h = ground (arith, h)
is_retryable_error-cause (caused_by plain) h = ground (arith, h)
is_retryable_error-cause (caused_by (http2 e)) h = ground (arith, h)
is_retryable_error-cause (caused_by (caused_by plain)) h = ground (arith, h)
is_retryable_error-cause (caused_by (caused_by (caused_by f))) h = ground (arith, h)
is_retryable_error-cause (caused_by (caused_by (http2 e))) h = (e, refl, (is_nack_iff e).0 h)

is_retryable_error-Nack :
    (e : Http2Error) → Nack e → is_retryable_error (caused_by (caused_by (http2 e))) ≡ true
unfolding is_retryable_error
is_retryable_error-Nack e nack = (is_nack_iff e).1 nack

-- The default classifier asks for a retry exactly when the outcome is an error whose second source is a
-- remote HTTP/2 error: a GOAWAY with NO_ERROR or a stream reset with REFUSED_STREAM.
pub classify-protocol_nacks_iff :
    {H : Type 0} (req : Request H) (result : Outcome)
    → (classify protocol_nacks req result ≡ retryable)
      ↔ ((e : Http2Error) × (result ≡ failure (caused_by (caused_by (http2 e)))) × Nack e)
unfolding classify
classify-protocol_nacks_iff req (status n) =
    (λ h. ground (arith, h), λ (e, same, nack). ground (arith, same))
classify-protocol_nacks_iff req (failure f) = (
  λ h.
      let (e, same, nack) = is_retryable_error-cause f (ground (arith, h)) in
      (e, ap failure same, nack),
  λ (e, same, nack).
      subst (λ result. classify protocol_nacks req result ≡ retryable) (sym same)
        (ground (arith, is_retryable_error-Nack e nack)),
)
