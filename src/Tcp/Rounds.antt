-- ===== src/Tcp/Rounds.antt =====
-- src/conn/net/tcp.rs: what a round of the race keeps, and a whole run.
use tlsurl.Base.{
  ℕ, ◌≤◌, ◌<◌, ◌≡◌, ◌∙◌, refl, sym, ap, subst, ◌⊎◌, inl, inr, Bool, true, false, ◌&&◌, Option, none,
  some, List, [], ◌∷◌, if◌then◌else◌, is_nil, is_some, unwrap_or, length, ltb, arith, Bool-cases,
  Option-cases, ltb→lt, All,
}
use tlsurl.Tcp.{
  SocketAddr, timed_out, ConnectError, tcp, Attempt, State, usize_max, has_remaining_addrs,
  max_parallel_connect_attempts,
}
use tlsurl.Tcp.Racing.{
  TcpEvent, connected, all_attempts_failed, delay_elapsed, ok, err, Event, Race, waiting, over,
  remaining, drop_front, launch_next, make_room_for_next_attempt, take_error, poll_attempts,
  await_event, enter, on_event, poll, check_deadline, run,
}
use tlsurl.Tcp.Schedule.{schedule, length-schedule}
use tlsurl.Tcp.Launching.{IsPlaced, Tracks, Launched, launch-Launched}
use tlsurl.Tcp.Polling.{Sound, with_attempts, poll_attempts-Sound}

module _ (plan : List SocketAddr) (small : length plan ≤ usize_max)
    (setup : ℕ → SocketAddr → Option ConnectError) (C : Type 0) (connect_timeout : Option ℕ) where
  -- All that could be tried has been, and the error is the one that was remembered.
  abbrev pub IsSpent : ConnectError → State → Type 0
  IsSpent e s = (schedule s ≡ []) × (s.attempts ≡ []) × (e ≡ take_error setup s)

  -- An error is the deadline's, or nothing is left to try.
  abbrev pub IsGood : Race C → Type 0
  IsGood (waiting sleep s) = Sound plan s
  IsGood (over (ok c) s) = Sound plan s
  IsGood (over (err e) s) =
      Sound plan s × (((e ≡ tcp timed_out) × (is_some connect_timeout ≡ true)) ⊎ IsSpent e s)

  drop_front-All :
      (attempts : List Attempt)
      → All (IsPlaced plan) attempts
      → All (IsPlaced plan) (drop_front attempts)
  drop_front-All [] h = tt
  drop_front-All (a ∷ attempts) (here, h) = h

  drop_front-length :
      (attempts : List Attempt)
      → length attempts ≤ max_parallel_connect_attempts
      → length (drop_front attempts) < max_parallel_connect_attempts
  drop_front-length [] few = ground arith
  drop_front-length (a ∷ attempts) few = ground (arith, few)

  launch_next-Launched :
      (s : State) → Tracks plan s → Launched plan small setup s (launch_next setup s)
  launch_next-Launched s h =
      launch-Launched plan small setup (remaining s) s h (ground (arith, length-schedule s))

  Launched-Sound :
      (s : State) (r : Bool × State)
      → length s.attempts < max_parallel_connect_attempts
      → Launched plan small setup s r
      → Sound plan r.1
  Launched-Sound s (true, t) few (h, n) = (h, ground (arith, few, n))
  Launched-Sound s (false, t) few (h, n, left) = (h, ground (arith, few, n))

  launch_next-Sound :
      (s : State)
      → Tracks plan s
      → length s.attempts < max_parallel_connect_attempts
      → Sound plan (launch_next setup s).1
  launch_next-Sound s h few = Launched-Sound s (launch_next setup s) few (launch_next-Launched s h)

  await_event-cases :
      (s : State)
      → (await_event setup {C = C} s ≡ waiting none s)
        ⊎ ((d : ℕ) × (await_event setup {C = C} s
              ≡ waiting (some d) (record s { initial_delay = none })))
  await_event-cases s = elim (Option-cases s.happy_eyeballs_timeout) [
    | inl off ↦ inl (ground (arith, off))
    | inr (delay, on) ↦ elim (Bool-cases (has_remaining_addrs s)) [
      | inl more ↦ inr (unwrap_or s.initial_delay delay, ground (arith, on, more))
      | inr last ↦ inl (ground (arith, on, last))
    ]
  ]

  await_event-IsGood : (s : State) → Sound plan s → IsGood (await_event setup s)
  await_event-IsGood s (h, few) = elim (await_event-cases s) [
    | inl e ↦ subst IsGood (sym e) (h, few)
    | inr (d, e) ↦
        subst IsGood (sym e)
          (record { position = h.position; placed = h.placed; blamed = h.blamed }, few)
  ]

  -- The head of the loop after a launch.
  abbrev entered : Bool × State → Race C
  entered (true, t) = await_event setup t
  entered (false, t) = over (err (take_error setup t)) t

  entered-IsGood :
      (s : State) (r : Bool × State)
      → s.attempts ≡ []
      → Launched plan small setup s r
      → IsGood (entered r)
  entered-IsGood s (true, t) idle (h, n) = await_event-IsGood t (h, ground (arith, n, idle))
  entered-IsGood s (false, t) idle (h, n, left) =
      ((h, ground (arith, n, idle)), inr (left, n ∙ idle, refl))

  entered-eq :
      (r : Bool × State)
      → entered r ≡ (if r.0 then await_event setup r.1 else over (err (take_error setup r.1)) r.1)
  entered-eq (true, t) = refl
  entered-eq (false, t) = refl

  pub enter-IsGood : (s : State) → Sound plan s → IsGood (enter setup s)
  unfolding enter
  enter-IsGood s (h, few) = elim (Bool-cases (is_nil s.attempts)) [
    | inl idle ↦
        rw (idle, enter)
          (subst IsGood (entered-eq (launch_next setup s)) (
            entered-IsGood s (launch_next setup s) (ground (arith, idle))
              (launch_next-Launched s h)))
    | inr busy ↦ rw (busy, enter) (await_event-IsGood s (h, few))
  ]

  make_room-fewer :
      (s : State)
      → Sound plan s
      → Tracks plan (make_room_for_next_attempt setup s)
        × (length (make_room_for_next_attempt setup s).attempts < max_parallel_connect_attempts)
  make_room-fewer s (h, few) =
      elim (Bool-cases (ltb (length s.attempts) max_parallel_connect_attempts)) [
        | inl room ↦ rw room (h, ltb→lt _ _ room)
        | inr full ↦ rw full (
          with_attempts plan s (drop_front s.attempts) h (drop_front-All s.attempts h.placed),
          drop_front-length s.attempts few,
        )
      ]

  on_event-IsGood :
      (event : TcpEvent C) (s : State)
      → Sound plan s
      → (event ≡ all_attempts_failed → s.attempts ≡ [])
      → IsGood (on_event setup event s)
  unfolding on_event
  on_event-IsGood (connected c) s h empty = h
  on_event-IsGood all_attempts_failed s (h, few) empty =
      enter-IsGood (launch_next setup s).1 (launch_next-Sound s h (ground (arith, empty refl)))
  on_event-IsGood delay_elapsed s h empty =
      let (h', few) = make_room-fewer s h in
      enter-IsGood (launch_next setup (make_room_for_next_attempt setup s)).1
        (launch_next-Sound (make_room_for_next_attempt setup s) h' few)

  poll-IsGood :
      (event : Event C) (sleep : Option ℕ) (s : State)
      → Sound plan s
      → IsGood (poll setup event sleep s)
  unfolding poll
  poll-IsGood event sleep s h =
      let (h', empty) = poll_attempts-Sound plan setup C event.polled s h in
      elim (Option-cases (poll_attempts setup event.polled s).1) [
        | inl unready ↦ elim (Bool-cases (is_some sleep && event.delay_over)) [
          | inl elapsed ↦
              rw (unready, elapsed, poll)
                (on_event-IsGood delay_elapsed (poll_attempts setup event.polled s).0 h'
                  (λ e. cc e))
          | inr early ↦ rw (unready, early, poll) h'
        ]
        | inr (e, ready) ↦
            rw (ready, poll)
              (on_event-IsGood e (poll_attempts setup event.polled s).0 h'
                (λ same. empty (ready ∙ ap some same)))
      ]

  check_deadline-IsGood :
      (event : Event C) (r : Race C)
      → IsGood r
      → IsGood (check_deadline setup connect_timeout event r)
  check_deadline-IsGood event (over outcome s) h = h
  check_deadline-IsGood event (waiting sleep s) h =
      elim (Bool-cases (is_some connect_timeout && event.deadline_over)) [
        | inl late ↦ rw late (h, inl (refl, ground (arith, late)))
        | inr early ↦ rw early h
      ]

  pub run-IsGood :
      (events : List (Event C)) (r : Race C)
      → IsGood r
      → IsGood (run setup connect_timeout events r)
  unfolding run
  run-IsGood [] r h = h
  run-IsGood (event ∷ events) (over outcome s) h = h
  run-IsGood (event ∷ events) (waiting sleep s) h =
      run-IsGood events (check_deadline setup connect_timeout event (poll setup event sleep s))
        (check_deadline-IsGood event (poll setup event sleep s) (poll-IsGood event sleep s h))
