-- ===== src/Tcp/Racing.antt =====
-- src/conn/net/tcp.rs: the race between the addresses, `ConnectingTcpState`.
use tlsurl.Base.{
  ℕ, zero, suc, ◌+◌, Bool, true, false, ◌&&◌, Option, none, some, List, [], ◌∷◌, ◌++◌,
  if◌then◌else◌, is_nil, is_some, unwrap_or, length, ltb,
}
use tlsurl.Tcp.{
  SocketAddr, Cause, timed_out, ConnectError, tcp, network_unreachable, with_addr,
  max_parallel_connect_attempts, saturating_inc, TcpOptions, ConnectingTcp, Attempt, State,
  state_new, has_remaining_addrs, next_remote, connect_next, record_error, push_attempt,
}

-- What an attempt comes to when it is polled.
pub data Polled (C : Type 0) : Type 0 where
  pending : Polled C
  succeeded : C → Polled C
  refused : Cause → Polled C

pub data TcpEvent (C : Type 0) : Type 0 where
  connected : C → TcpEvent C
  all_attempts_failed delay_elapsed : TcpEvent C

pub data Outcome (C : Type 0) : Type 0 where
  ok : C → Outcome C
  err : ConnectError → Outcome C

-- A poll: what each attempt comes to, by its position, and whether the delay and the deadline are over.
pub record Event (C : Type 0) : Type 0 where
  pub polled : ℕ → Polled C
  pub delay_over : Bool
  pub deadline_over : Bool

-- The loop of `connect_inner` waits, perhaps for a delay, or is over in a last state.
pub data Race (C : Type 0) : Type 0 where
  waiting : Option ℕ → State → Race C
  over : Outcome C → State → Race C

-- As many addresses are left.
abbrev pub remaining : State → ℕ
remaining s = length s.preferred + length (unwrap_or s.fallback [])

-- `pop_front` of the attempts.
abbrev pub drop_front : List Attempt → List Attempt
drop_front [] = []
drop_front (a ∷ attempts) = attempts

-- What setting a socket up for the attempt of a position fails with, if it fails.
module _ (setup : ℕ → SocketAddr → Option ConnectError) where
  -- Each round takes an address away.
  unfoldable pub launch : ℕ → State → Bool × State
  launch zero s = (false, s)
  launch (suc n) s = elim (next_remote s) [
    | none ↦ (false, s)
    | some (use_fallback, t) ↦ elim (connect_next use_fallback t) [
      | none ↦ launch n t
      | some (addr, u) ↦
          let order = u.next_attempt_order in
          let v = record u { next_attempt_order = saturating_inc order } in
          elim (setup order addr) [
            | none ↦ (true, push_attempt addr order v)
            | some e ↦ launch n (record_error order (with_addr e addr) v)
          ]
    ]
  ]

  abbrev pub launch_next : State → Bool × State
  launch_next s = launch (remaining s) s

  -- The first of the attempts that are kept goes.
  abbrev pub make_room_for_next_attempt : State → State
  make_room_for_next_attempt s =
      if ltb (length s.attempts) max_parallel_connect_attempts
      then s
      else record s { attempts = drop_front s.attempts }

  abbrev pub take_error : State → ConnectError
  take_error s = elim s.first_error [ none ↦ network_unreachable | some (order, e) ↦ e ]

  module _ {C : Type 0} where
    -- The attempts before the index have been kept.
    unfoldable pub poll_rest :
        (ℕ → Polled C) → List Attempt → Bool → List Attempt → State → State × Option (TcpEvent C)
    poll_rest polled kept failed [] s = (
      record s { attempts = kept },
      if failed && is_nil kept then some all_attempts_failed else none,
    )
    poll_rest polled kept failed (a ∷ attempts) s = elim (polled a.order) [
      | pending ↦ poll_rest polled (kept ++ a ∷ []) failed attempts s
      | succeeded c ↦ (record s { attempts = kept ++ attempts }, some (connected c))
      | refused cause ↦
          poll_rest polled kept true attempts
            (record_error a.order (with_addr (tcp cause) a.addr) s)
    ]

    abbrev pub poll_attempts : (ℕ → Polled C) → State → State × Option (TcpEvent C)
    poll_attempts polled s = poll_rest polled [] false s.attempts s

    -- What the loop waits for.
    abbrev pub await_event : State → Race C
    await_event s = elim s.happy_eyeballs_timeout [
      | none ↦ waiting none s
      | some delay ↦
          if has_remaining_addrs s
          then waiting (some (unwrap_or s.initial_delay delay)) (record s { initial_delay = none })
          else waiting none s
    ]

    -- The head of the loop.
    unfoldable pub enter : State → Race C
    enter s =
        if is_nil s.attempts
        then (let (launched, t) = launch_next s in
            if launched then await_event t else over (err (take_error t)) t)
        else await_event s

    -- The rest of a round.
    unfoldable pub on_event : TcpEvent C → State → Race C
    on_event (connected c) s = over (ok c) s
    on_event all_attempts_failed s = enter (launch_next s).1
    on_event delay_elapsed s = enter (launch_next (make_room_for_next_attempt s)).1

    unfoldable pub poll : Event C → Option ℕ → State → Race C
    poll event sleep s =
        let (t, ready) = poll_attempts event.polled s in
        elim ready [
          | some e ↦ on_event e t
          | none ↦
              if is_some sleep && event.delay_over
              then on_event delay_elapsed t
              else waiting sleep t
        ]

    -- `connect_with_timeout`: the attempts are polled first.
    abbrev pub check_deadline : Option ℕ → Event C → Race C → Race C
    check_deadline connect_timeout event (over outcome s) = over outcome s
    check_deadline connect_timeout event (waiting sleep s) =
        if is_some connect_timeout && event.deadline_over
        then over (err (tcp timed_out)) s
        else waiting sleep s

    unfoldable pub run : Option ℕ → List (Event C) → Race C → Race C
    run connect_timeout [] race = race
    run connect_timeout (event ∷ events) (over outcome s) = over outcome s
    run connect_timeout (event ∷ events) (waiting sleep s) =
        run connect_timeout events (check_deadline connect_timeout event (poll event sleep s))

    -- `ConnectingTcpState::connect`
    abbrev pub race : TcpOptions → ConnectingTcp → List (Event C) → Race C
    race config connecting events =
        run config.connect_timeout events
          (enter (state_new connecting config.happy_eyeballs_timeout))
