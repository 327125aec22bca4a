-- ===== src/Tcp/InOrder.antt =====
-- src/conn/net/tcp.rs: what the connecting in order comes to.
use tlsurl.Base.{
  ℕ, ◌≡◌, ◌∙◌, sym, refl, ap, subst, ◌⊎◌, inl, inr, true, ◌&&◌, Option, none, List, [], ◌∷◌, ◌++◌,
  is_some, arith, Bool-cases,
}
use tlsurl.Tcp.{SocketAddr, Cause, timed_out, ConnectError, tcp, TcpOptions, ConnectingTcp}
use tlsurl.Tcp.Racing.{Polled, pending, Outcome, err, Event}
use tlsurl.Tcp.Sequential.{
  Walk, Walking, ready, trying, finished, sequential, is_sequential, walk, poll_walk,
  end_at_deadline, run_walk, connect,
}
use tlsurl.Tcp.Replies.{best, replies, settled, IsTruthful, Reaches, Follows, walk-Follows}

module _ (setup : ℕ → SocketAddr → Option ConnectError) where
  module _ (C : Type 0) (answer : ℕ → C ⊎ Cause) where
    -- The poll of an attempt in flight is that of the rounds from its address on.
    poll_walk-walk :
        (polled : ℕ → Polled C) (w : Walk)
        → setup w.order w.addr ≡ none
        → walk setup polled w.order (w.addr ∷ w.addrs) w.first_error
          ≡ poll_walk setup polled (trying w)
    unfolding walk poll_walk
    poll_walk-walk polled w free = ground (arith, free)

    poll_walk-Follows :
        (polled : ℕ → Polled C)
        → IsTruthful setup C answer polled
        → (outcome : Outcome C) (r : Walking C) → Reaches setup C answer outcome r
        → Follows setup C answer polled outcome (poll_walk setup polled r)
    unfolding poll_walk
    poll_walk-Follows polled truthful outcome (ready addrs) h =
        subst (λ o. Follows setup C answer polled o (walk setup polled 0 addrs none)) h
          (walk-Follows setup C answer polled truthful addrs 0 none)
    poll_walk-Follows polled truthful outcome (finished outcome') h = (h, tt)
    poll_walk-Follows polled truthful outcome (trying w) (free, h) =
        subst (Follows setup C answer polled outcome) (poll_walk-walk polled w free) (
          subst
            (λ o.
              Follows setup C answer polled o
                (walk setup polled w.order (w.addr ∷ w.addrs) w.first_error))
            h
            (walk-Follows setup C answer polled truthful (w.addr ∷ w.addrs) w.order w.first_error))

    -- Each attempt has its answer.
    abbrev pub IsAnswering : (ℕ → Polled C) → Type 0
    IsAnswering polled = (order : ℕ) → polled order ≡ settled (answer order)

    settled-pending : (s : C ⊎ Cause) → settled s ≡ pending → ⊥
    settled-pending (inl c) e = ground (arith, e)
    settled-pending (inr cause) e = ground (arith, e)

    answered-finished :
        (polled : ℕ → Polled C)
        → IsAnswering polled
        → (outcome : Outcome C) (r : Walking C) → Follows setup C answer polled outcome r
        → r ≡ finished outcome
    answered-finished polled answers outcome (ready addrs) (h, pends) = absurd pends
    answered-finished polled answers outcome (trying w) (h, pends) =
        absurd (settled-pending (answer w.order) (sym (answers w.order) ∙ pends))
    answered-finished polled answers outcome (finished outcome') (h, pends) = ap finished h

    module _ (connect_timeout : Option ℕ) where
      run_walk-finished :
          (events : List (Event C)) (outcome : Outcome C)
          → run_walk setup connect_timeout events (finished outcome) ≡ finished outcome
      unfolding run_walk poll_walk
      run_walk-finished [] outcome = refl
      run_walk-finished (event ∷ events) outcome = run_walk-finished events outcome

      -- The run has come to the outcome, or to its deadline.
      abbrev ComesTo : Outcome C → Walking C → Type 0
      ComesTo outcome r =
          (r ≡ finished outcome)
          ⊎ ((is_some connect_timeout ≡ true) × (r ≡ finished (err (tcp timed_out))))

      end_at_deadline-cases :
          (event : Event C) (r : Walking C)
          → (end_at_deadline setup connect_timeout event r ≡ r)
            ⊎ ((is_some connect_timeout ≡ true)
                × (end_at_deadline setup connect_timeout event r ≡ finished (err (tcp timed_out))))
      end_at_deadline-cases event (finished outcome) = inl refl
      end_at_deadline-cases event (ready addrs) =
          elim (Bool-cases (is_some connect_timeout && event.deadline_over)) [
            | inl late ↦ inr (ground (arith, late), ground (arith, late))
            | inr early ↦ inl (ground (arith, early))
          ]
      end_at_deadline-cases event (trying w) =
          elim (Bool-cases (is_some connect_timeout && event.deadline_over)) [
            | inl late ↦ inr (ground (arith, late), ground (arith, late))
            | inr early ↦ inl (ground (arith, early))
          ]

      abbrev pub AllTruthful : List (Event C) → Type 0
      AllTruthful [] = Unit
      AllTruthful (event ∷ events) = IsTruthful setup C answer event.polled × AllTruthful events

      run_walk-ComesTo :
          (events : List (Event C)) (last : Event C) (outcome : Outcome C) (r : Walking C)
          → AllTruthful events
          → IsAnswering last.polled
          → Reaches setup C answer outcome r
          → ComesTo outcome (run_walk setup connect_timeout (events ++ last ∷ []) r)
      unfolding run_walk
      run_walk-ComesTo [] last outcome r truthful answers h = inl (
          ap (end_at_deadline setup connect_timeout last) (
            answered-finished last.polled answers outcome (poll_walk setup last.polled r)
              (poll_walk-Follows last.polled (λ order. inr (answers order)) outcome r h)))
      run_walk-ComesTo (event ∷ events) last outcome r (now, later) answers h =
          let polled = poll_walk setup event.polled r in
          elim (end_at_deadline-cases event polled) [
            | inl same ↦
                subst
                  (λ next.
                    ComesTo outcome (run_walk setup connect_timeout (events ++ last ∷ []) next))
                  (sym same)
                  (run_walk-ComesTo events last outcome polled later answers
                    (poll_walk-Follows event.polled now outcome r h).0)
            | inr (limited, late) ↦ inr (
              limited,
              ap (run_walk setup connect_timeout (events ++ last ∷ [])) late
                  ∙ run_walk-finished (events ++ last ∷ []) (err (tcp timed_out)),
            )
          ]

  -- Without a race the connecting comes to the first address, in the order of resolution, that can be
  -- connected to, and where there is none to the error of the first address, unless its deadline ends it
  -- before: once every attempt has been answered it is over with that outcome or with a timeout, and the
  -- latter only if a timeout is configured.
  pub connect-best :
      (C : Type 0) (answer : ℕ → C ⊎ Cause) (config : TcpOptions) (connecting : ConnectingTcp)
      (events : List (Event C)) (last : Event C)
      → is_sequential config connecting ≡ true
      → AllTruthful C answer config.connect_timeout events
      → IsAnswering C answer last.polled
      → (connect setup config connecting (events ++ last ∷ [])
          ≡ sequential (finished (best (replies setup C answer 0 connecting.preferred))))
        ⊎ ((is_some config.connect_timeout ≡ true)
            × (connect setup config connecting (events ++ last ∷ [])
                ≡ sequential (finished (err (tcp timed_out)))))
  unfolding connect
  connect-best C answer config connecting events last in_order truthful answers =
      let addrs = connecting.preferred in
      elim (run_walk-ComesTo C answer config.connect_timeout events last
        (best (replies setup C answer 0 addrs)) (ready addrs) truthful answers refl) [
          | inl settles ↦ inl (rw (in_order, connect) (ap sequential settles))
          | inr (limited, late) ↦ inr (limited, rw (in_order, connect) (ap sequential late))
        ]
