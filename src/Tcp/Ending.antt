-- ===== src/Tcp/Ending.antt =====
-- src/conn/net/tcp.rs: a race in which something happens at each poll comes to an end.
use tlsurl.Base.{
  ℕ, ◌+◌, ◌*◌, ◌≤◌, ◌<◌, ◌≡◌, ◌∙◌, refl, ap, ◌⊎◌, inl, inr, true, false, ◌&&◌, Option, none, some,
  List, [], ◌∷◌, is_nil, is_some, length, arith, Bool-cases, Option-cases,
}
use tlsurl.Tcp.{SocketAddr, ConnectError, State, TcpOptions, connecting_new, state_new}
use tlsurl.Tcp.Racing.{
  delay_elapsed, Event, Race, waiting, over, poll_attempts, enter, on_event, poll, check_deadline,
  run, race,
}
use tlsurl.Tcp.Schedule.{schedule}
use tlsurl.Tcp.Plan.{plan, schedule-start}
use tlsurl.Tcp.Work.{work, any_answered, poll_rest-Moves}
use tlsurl.Tcp.Within.{
  left_over, IsOver, IsValid, Within, Within-le, enter-Within, on_event-Within, delay-Within,
}

module _ (setup : ℕ → SocketAddr → Option ConnectError) where
  module _ (C : Type 0) where
    -- Something happens at a poll: an attempt is answered, or the delay that is waited for is over.
    abbrev pub IsProgress : Event C → Option ℕ → State → Type 0
    IsProgress event sleep s =
        (any_answered event.polled s.attempts ≡ true) ⊎ (is_some sleep && event.delay_over ≡ true)

    IsValid-schedule :
        (sleep : Option ℕ) (s : State)
        → IsValid setup C (waiting sleep s)
        → is_some sleep ≡ true
        → is_nil (schedule s) ≡ false
    IsValid-schedule none s valid on = absurd (ground (arith, on))
    IsValid-schedule (some d) s valid on = valid

    IsValid-same :
        (sleep : Option ℕ) (s t : State)
        → schedule t ≡ schedule s
        → IsValid setup C (waiting sleep s)
        → IsValid setup C (waiting sleep t)
    IsValid-same none s t same valid = tt
    IsValid-same (some d) s t same valid = ap is_nil same ∙ valid

    answered-Within :
        (event : Event C) (sleep : Option ℕ) (s : State)
        → IsValid setup C (waiting sleep s)
        → schedule (poll_attempts setup event.polled s).0 ≡ schedule s
        → length (poll_attempts setup event.polled s).0.attempts < length s.attempts
        → Within setup C (work s) (poll setup event sleep s)
    unfolding poll
    answered-Within event sleep s valid same less =
        let t = (poll_attempts setup event.polled s).0 in
        let smaller : 1 + work t ≤ work s = ground (arith, same, less) in
        elim (Option-cases (poll_attempts setup event.polled s).1) [
          | inl unready ↦ elim (Bool-cases (is_some sleep && event.delay_over)) [
            | inl elapsed ↦
                rw (unready, elapsed, poll)
                  (Within-le setup C (1 + work t) (work s) (on_event setup delay_elapsed t) smaller
                    (on_event-Within setup C delay_elapsed t))
            | inr early ↦ rw (unready, early, poll) (smaller, IsValid-same sleep s t same valid)
          ]
          | inr (e, ready) ↦
              rw (ready, poll)
                (Within-le setup C (1 + work t) (work s) (on_event setup e t) smaller
                  (on_event-Within setup C e t))
        ]

    poll-Within :
        (event : Event C) (sleep : Option ℕ) (s : State)
        → IsValid setup C (waiting sleep s)
        → IsProgress event sleep s
        → Within setup C (work s) (poll setup event sleep s)
    unfolding poll on_event
    poll-Within event sleep s valid progress =
        let t = (poll_attempts setup event.polled s).0 in
        let (same, fewer, moved, quiet) =
          poll_rest-Moves setup C event.polled [] false s.attempts s in
        elim (Bool-cases (any_answered event.polled s.attempts)) [
          | inl answered ↦ elim (moved answered) [
            | inl (c, ready) ↦ rw (ready, poll) (ground arith, tt)
            | inr less ↦ answered-Within event sleep s valid same (ground (arith, less))
          ]
          | inr none_yet ↦ elim progress [
            | inl answered ↦ absurd (ground (arith, none_yet, answered))
            | inr elapsed ↦
                rw (quiet refl none_yet, elapsed, poll)
                  (Within-le setup C (work t) (work s) (on_event setup delay_elapsed t)
                    (ground (arith, same, fewer))
                    (delay-Within setup C t
                      (ap is_nil same ∙ IsValid-schedule sleep s valid (ground (arith, elapsed)))))
          ]
        ]

    module _ (connect_timeout : Option ℕ) where
      check_deadline-Within :
          (n : ℕ) (event : Event C) (r : Race C)
          → Within setup C n r
          → Within setup C n (check_deadline setup connect_timeout event r)
      check_deadline-Within n event (over outcome s) h = h
      check_deadline-Within n event (waiting sleep s) h =
          elim (Bool-cases (is_some connect_timeout && event.deadline_over)) [
            | inl late ↦ rw late (ground arith, tt)
            | inr early ↦ rw early h
          ]

      -- Something happens at each poll, as long as the race is not over.
      abbrev pub Progresses : List (Event C) → Race C → Type 0
      Progresses [] r = Unit
      Progresses (event ∷ events) (over outcome s) = Unit
      Progresses (event ∷ events) (waiting sleep s) =
          IsProgress event sleep s
          × Progresses events
              (check_deadline setup connect_timeout event (poll setup event sleep s))

      run-IsOver :
          (events : List (Event C)) (r : Race C)
          → IsValid setup C r
          → Progresses events r
          → left_over r ≤ length events
          → IsOver (run setup connect_timeout events r)
      unfolding run
      run-IsOver [] (waiting sleep s) valid h few = absurd (ground (arith, few))
      run-IsOver [] (over outcome s) valid h few = tt
      run-IsOver (event ∷ events) (over outcome s) valid h few = tt
      run-IsOver (event ∷ events) (waiting sleep s) valid (now, later) few =
          let (less, valid') =
            check_deadline-Within (work s) event (poll setup event sleep s)
              (poll-Within event sleep s valid now) in
          run-IsOver events (check_deadline setup connect_timeout event (poll setup event sleep s))
            valid' later (ground (arith, less, few))

  -- A race is over after two polls for each address and one more, if at each poll an attempt is answered
  -- or the delay that is waited for is over.
  pub race-ends :
      (C : Type 0) (addrs : List SocketAddr) (config : TcpOptions) (events : List (Event C))
      → Progresses C config.connect_timeout events
          (enter setup (state_new (connecting_new addrs config) config.happy_eyeballs_timeout))
      → 2 * length (plan addrs config) + 1 ≤ length events
      → IsOver (race setup config (connecting_new addrs config) events)
  race-ends C addrs config events progress many =
      let start = state_new (connecting_new addrs config) config.happy_eyeballs_timeout in
      let (few, valid) = enter-Within setup C start in
      run-IsOver C config.connect_timeout events (enter setup start) valid progress (
        ground (
          arith,
          few,
          many,
          schedule-start (connecting_new addrs config) config.happy_eyeballs_timeout,
        ))
