-- ===== src/Tcp/Replies.antt =====
-- src/conn/net/tcp.rs: what a poll of the connecting in order leaves.
use tlsurl.Base.{
  ℕ, ◌+◌, ◌≡◌, ◌∙◌, sym, refl, ap, subst, ◌⊎◌, inl, inr, Option, none, some, List, [], ◌∷◌,
  unwrap_or, arith, Option-cases,
}
use tlsurl.Tcp.{SocketAddr, Cause, ConnectError, tcp, network_unreachable, with_addr}
use tlsurl.Tcp.Racing.{Polled, pending, succeeded, refused, Outcome, ok, err}
use tlsurl.Tcp.Sequential.{Walk, Walking, ready, trying, finished, first_or, walk}

abbrev first_success : {C : Type 0} → List (C ⊎ ConnectError) → Option C
first_success [] = none
first_success (inl c ∷ replies) = some c
first_success (inr e ∷ replies) = first_success replies

abbrev first_failure : {C : Type 0} → List (C ⊎ ConnectError) → Option ConnectError
first_failure [] = none
first_failure (inl c ∷ replies) = first_failure replies
first_failure (inr e ∷ replies) = some e

-- After an earlier failure, if there is one.
abbrev pub best_after : {C : Type 0} → Option ConnectError → List (C ⊎ ConnectError) → Outcome C
best_after earlier replies = elim (first_success replies) [
  | some c ↦ ok c
  | none ↦ err (unwrap_or earlier (unwrap_or (first_failure replies) network_unreachable))
]

-- The first success, or else the first failure.
abbrev pub best : {C : Type 0} → List (C ⊎ ConnectError) → Outcome C
best replies = best_after none replies

best_after-failure :
    (C : Type 0) (earlier : Option ConnectError) (e : ConnectError)
    (replies : List (C ⊎ ConnectError))
    → best_after (first_or earlier e) replies ≡ best_after earlier (inr e ∷ replies)
best_after-failure C none e replies = refl
best_after-failure C (some e') e replies = refl

abbrev pub settled : {C : Type 0} → C ⊎ Cause → Polled C
settled (inl c) = succeeded c
settled (inr cause) = refused cause

Either-cases :
    {A : Type 0} → {B : Type 0} → (s : A ⊎ B) → ((a : A) × (s ≡ inl a)) ⊎ ((b : B) × (s ≡ inr b))
Either-cases (inl a) = inl (a, refl)
Either-cases (inr b) = inr (b, refl)

module _ (setup : ℕ → SocketAddr → Option ConnectError) where
  module _ (C : Type 0) (answer : ℕ → C ⊎ Cause) where
    -- What the attempt of a position comes to.
    abbrev reply : ℕ → SocketAddr → C ⊎ ConnectError
    reply order addr = elim (setup order addr) [
      | some e ↦ inr (with_addr e addr)
      | none ↦ elim (answer order) [ inl c ↦ inl c | inr cause ↦ inr (with_addr (tcp cause) addr) ]
    ]

    abbrev pub replies : ℕ → List SocketAddr → List (C ⊎ ConnectError)
    replies order [] = []
    replies order (addr ∷ addrs) = reply order addr ∷ replies (order + 1) addrs

    -- At a poll each attempt is pending or has its answer.
    abbrev pub IsTruthful : (ℕ → Polled C) → Type 0
    IsTruthful polled =
        (order : ℕ) → (polled order ≡ pending) ⊎ (polled order ≡ settled (answer order))

    -- What is left to do comes to the outcome.
    abbrev pub Reaches : Outcome C → Walking C → Type 0
    Reaches outcome (ready addrs) = best_after none (replies 0 addrs) ≡ outcome
    Reaches outcome (trying w) =
        (setup w.order w.addr ≡ none)
        × (best_after w.first_error (replies w.order (w.addr ∷ w.addrs)) ≡ outcome)
    Reaches outcome (finished outcome') = outcome' ≡ outcome

    -- The attempt that is left in flight was pending.
    abbrev WasPending : (ℕ → Polled C) → Walking C → Type 0
    WasPending polled (trying w) = polled w.order ≡ pending
    WasPending polled (ready addrs) = ⊥
    WasPending polled (finished outcome) = Unit

    -- After a poll, what is left to do comes to the outcome.
    abbrev pub Follows : (ℕ → Polled C) → Outcome C → Walking C → Type 0
    Follows polled outcome r = Reaches outcome r × WasPending polled r

    failed-Follows :
        (polled : ℕ → Polled C) (addr : SocketAddr) (addrs : List SocketAddr) (order : ℕ)
        (earlier : Option ConnectError) (e : ConnectError)
        → reply order addr ≡ inr e
        → walk setup polled (order + 1) addrs (first_or earlier e)
          ≡ walk setup polled order (addr ∷ addrs) earlier
        → Follows polled
            (best_after (first_or earlier e) (replies (order + 1) addrs))
            (walk setup polled (order + 1) addrs (first_or earlier e))
        → Follows polled
            (best_after earlier (replies order (addr ∷ addrs)))
            (walk setup polled order (addr ∷ addrs) earlier)
    failed-Follows polled addr addrs order earlier e failed next h =
        let rest = replies (order + 1) addrs in
        subst (Follows polled (best_after earlier (replies order (addr ∷ addrs)))) next (
          subst (λ o. Follows polled o (walk setup polled (order + 1) addrs (first_or earlier e)))
            (best_after-failure C earlier e rest
              ∙ ap (λ x. best_after earlier (x ∷ rest)) (sym failed))
            h)

    pub walk-Follows :
        (polled : ℕ → Polled C)
        → IsTruthful polled
        → (addrs : List SocketAddr) (order : ℕ) (earlier : Option ConnectError)
        → Follows polled
            (best_after earlier (replies order addrs))
            (walk setup polled order addrs earlier)
    unfolding walk
    walk-Follows polled truthful [] order earlier = (refl, tt)
    walk-Follows polled truthful (addr ∷ addrs) order earlier =
        let failed = failed-Follows polled addr addrs order earlier in
        let next = λ (e : ConnectError).
          walk-Follows polled truthful addrs (order + 1) (first_or earlier e) in
        let outcome = best_after earlier (replies order (addr ∷ addrs)) in
        elim (Option-cases (setup order addr)) [
          | inr (e, unset) ↦
              failed (with_addr e addr) (ground (arith, unset)) (ground (arith, unset))
                (next (with_addr e addr))
          | inl free ↦ elim (truthful order) [
            | inl waits ↦
                let w : Walk = record {
                  addr = addr;
                  order = order;
                  addrs = addrs;
                  first_error = earlier;
                } in
                subst (Follows polled outcome) {x = trying w} (ground (arith, free, waits))
                  ((free, refl), waits)
            | inr answered ↦ elim (Either-cases (answer order)) [
              | inl (c, won) ↦
                  subst (Follows polled outcome) {x = finished (ok c)}
                    (ground (arith, free, answered, won)) (ground (arith, free, won), tt)
              | inr (cause, lost) ↦
                  failed (with_addr (tcp cause) addr) (ground (arith, free, lost))
                    (ground (arith, free, answered, lost)) (next (with_addr (tcp cause) addr))
            ]
          ]
        ]
