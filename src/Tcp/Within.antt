-- ===== src/Tcp/Within.antt =====
-- src/conn/net/tcp.rs: how much is left to do when the loop waits, after a round.
use tlsurl.Base.{
  ℕ, ◌+◌, ◌≤◌, ◌<◌, ◌≡◌, ◌∙◌, refl, ap, subst, inl, inr, Bool, true, false, Option, none, some,
  List, [], ◌∷◌, if◌then◌else◌, is_nil, unwrap_or, length, arith, Bool-cases, Option-cases,
}
use tlsurl.Tcp.{SocketAddr, ConnectError, State, has_remaining_addrs}
use tlsurl.Tcp.Racing.{
  TcpEvent, connected, all_attempts_failed, delay_elapsed, err, Race, waiting, over, remaining,
  launch_next, make_room_for_next_attempt, take_error, await_event, enter, on_event,
}
use tlsurl.Tcp.Schedule.{schedule, length-schedule}
use tlsurl.Tcp.Work.{work, launch_next-Shrinks, Shrinks-work, make_room-work}

abbrev pub left_over : {C : Type 0} → Race C → ℕ
left_over (waiting sleep s) = 1 + work s
left_over (over outcome s) = 0

abbrev pub IsOver : {C : Type 0} → Race C → Type 0
IsOver (waiting sleep s) = ⊥
IsOver (over outcome s) = Unit

positive-nonempty : {A : Type 0} (xs : List A) → 0 < length xs → is_nil xs ≡ false
positive-nonempty [] h = absurd (ground (arith, h))
positive-nonempty (x ∷ xs) h = refl

remaining-positive : (s : State) → has_remaining_addrs s ≡ true → 0 < remaining s
remaining-positive s more = ground (arith, more)

has_remaining-schedule : (s : State) → has_remaining_addrs s ≡ true → is_nil (schedule s) ≡ false
has_remaining-schedule s more =
    positive-nonempty (schedule s) (ground (arith, length-schedule s, remaining-positive s more))

module _ (setup : ℕ → SocketAddr → Option ConnectError) where
  module _ (C : Type 0) where
    -- While the loop waits for a delay, an address is left.
    abbrev pub IsValid : Race C → Type 0
    IsValid (waiting (some delay) s) = is_nil (schedule s) ≡ false
    IsValid (waiting none s) = Unit
    IsValid (over outcome s) = Unit

    -- A race that has at most so much left to do.
    abbrev pub Within : ℕ → Race C → Type 0
    Within n r = (left_over r ≤ n) × IsValid r

    waiting-Within :
        (s : State) (sleep : Option ℕ)
        → IsValid (waiting sleep s)
        → Within (1 + work s) (waiting sleep s)
    waiting-Within s sleep valid = (ground arith, valid)

    await_event-Within : (s : State) → Within (1 + work s) (await_event setup s)
    await_event-Within s = elim (Option-cases s.happy_eyeballs_timeout) [
      | inl off ↦
          subst (Within (1 + work s)) {x = waiting none s} (ground (arith, off))
            (waiting-Within s none tt)
      | inr (delay, on) ↦ elim (Bool-cases (has_remaining_addrs s)) [
        | inl more ↦
            subst (Within (1 + work s))
              {x = waiting (some (unwrap_or s.initial_delay delay))
                (record s { initial_delay = none })}
              (ground (arith, on, more))
              (waiting-Within (record s { initial_delay = none })
                (some (unwrap_or s.initial_delay delay)) (has_remaining-schedule s more))
        | inr last ↦
            subst (Within (1 + work s)) {x = waiting none s} (ground (arith, on, last))
              (waiting-Within s none tt)
      ]
    ]

    pub Within-le : (n m : ℕ) (r : Race C) → n ≤ m → Within n r → Within m r
    Within-le n m r le (h, valid) = (ground (arith, h, le), valid)

    entered-Within :
        (s : State) (r : Bool × State)
        → work r.1 ≤ work s
        → Within
            (1 + work s)
            (if r.0 then await_event setup r.1 else over (err (take_error setup r.1)) r.1)
    entered-Within s (true, t) less =
        Within-le (1 + work t) (1 + work s) (await_event setup t) (ground (arith, less))
          (await_event-Within t)
    entered-Within s (false, t) less = (ground arith, tt)

    pub enter-Within : (s : State) → Within (1 + work s) (enter setup s)
    unfolding enter
    enter-Within s = elim (Bool-cases (is_nil s.attempts)) [
      | inl idle ↦
          rw (idle, enter)
            (entered-Within s (launch_next setup s)
              (Shrinks-work setup s (launch_next setup s) (launch_next-Shrinks setup s)).0)
      | inr busy ↦ rw (busy, enter) (await_event-Within s)
    ]

    launched-Within :
        (s t : State) → work t ≤ work s → Within (1 + work s) (enter setup (launch_next setup t).1)
    launched-Within s t less =
        let u = (launch_next setup t).1 in
        Within-le (1 + work u) (1 + work s) (enter setup u)
          (ground (
            arith,
            less,
            (Shrinks-work setup t (launch_next setup t) (launch_next-Shrinks setup t)).0,
          ))
          (enter-Within u)

    pub on_event-Within : (e : TcpEvent C) (s : State) → Within (1 + work s) (on_event setup e s)
    unfolding on_event
    on_event-Within (connected c) s = (ground arith, tt)
    on_event-Within all_attempts_failed s = launched-Within s s (ground arith)
    on_event-Within delay_elapsed s =
        launched-Within s (make_room_for_next_attempt setup s) (make_room-work setup s).0

    pub delay-Within :
        (s : State) → is_nil (schedule s) ≡ false → Within (work s) (on_event setup delay_elapsed s)
    unfolding on_event
    delay-Within s some_left =
        let t = make_room_for_next_attempt setup s in
        let (less, same) = make_room-work setup s in
        let u = (launch_next setup t).1 in
        let strict =
          (Shrinks-work setup t (launch_next setup t) (launch_next-Shrinks setup t)).1
            (ap is_nil same ∙ some_left) in
        Within-le (1 + work u) (work s) (enter setup u) (ground (arith, less, strict))
          (enter-Within u)
