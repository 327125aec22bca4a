-- ===== src/Timeout/Durations.antt =====
-- src/client/layer/timeout.rs: whose durations apply, those of the request or those of the client.
use tlsurl.Base.{ℕ, ◌≡◌, ◌∙◌, refl, sym, inl, inr, Option, none, some, arith, Option-cases}
use tlsurl.Timeout.{TimeoutOptions, or, fetch_timeout_options}

-- What options, if there are any, say of a duration.
abbrev asked : (TimeoutOptions → Option ℕ) → Option TimeoutOptions → Option ℕ
asked field none = none
asked field (some opts) = field opts

-- A duration of the request's own, or else the client's.
abbrev pub duration :
    (TimeoutOptions → Option ℕ) → Option TimeoutOptions → Option TimeoutOptions → Option ℕ
duration field client own = elim (asked field own) [ some t ↦ some t | none ↦ asked field client ]

or-duration :
    (field : TimeoutOptions → Option ℕ) (client : Option TimeoutOptions) (own : TimeoutOptions)
    → or (field own) (asked field client) ≡ duration field client (some own)
or-duration field client own = elim (Option-cases (field own)) [
  | inl unset ↦ ground (arith, unset)
  | inr (t, set) ↦ ground (arith, set)
]

or_self : (a : Option ℕ) → or a a ≡ a
or_self none = refl
or_self (some t) = refl

or_none : (a : Option ℕ) → or a none ≡ a
or_none none = refl
or_none (some t) = refl

pair-eq : (a a' b b' : Option ℕ) → a ≡ a' → b ≡ b' → ◌≡◌ {A = Option ℕ × Option ℕ} (a, b) (a', b')
pair-eq a a' b b' h k = ground (arith, h, k)

pub fetch_timeout_options-duration :
    (client own : Option TimeoutOptions)
    → fetch_timeout_options client own
      ≡ (duration (λ o. o.total_timeout) client own, duration (λ o. o.read_timeout) client own)
unfolding fetch_timeout_options
fetch_timeout_options-duration none none = refl
fetch_timeout_options-duration none (some own) =
    pair-eq _ _ _ _ (sym (or_none own.total_timeout) ∙ or-duration (λ o. o.total_timeout) none own)
      (sym (or_none own.read_timeout) ∙ or-duration (λ o. o.read_timeout) none own)
fetch_timeout_options-duration (some client) none =
    pair-eq _ _ _ _ (or_self client.total_timeout) (or_self client.read_timeout)
fetch_timeout_options-duration (some client) (some own) =
    pair-eq _ _ _ _ (or-duration (λ o. o.total_timeout) (some client) own)
      (or-duration (λ o. o.read_timeout) (some client) own)
