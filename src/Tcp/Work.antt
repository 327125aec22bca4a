-- ===== src/Tcp/Work.antt =====
-- src/conn/net/tcp.rs: the work that a launch or a poll takes from a race.
use tlsurl.Base.{
  ℕ, zero, suc, ◌+◌, ◌*◌, ◌≤◌, ◌<◌, ◌≡◌, ◌∙◌, refl, ap, ◌⊎◌, inl, inr, Bool, true, false, ◌||◌,
  Option, none, some, List, [], ◌∷◌, ◌++◌, is_nil, length, ltb, arith, Bool-cases, Option-cases,
  length-append,
}
use tlsurl.Tcp.{
  SocketAddr, ConnectError, tcp, with_addr, Attempt, State, record_error, saturating_inc,
  max_parallel_connect_attempts,
}
use tlsurl.Tcp.Racing.{
  Polled, pending, TcpEvent, connected, remaining, drop_front, launch, launch_next,
  make_room_for_next_attempt, poll_rest,
}
use tlsurl.Tcp.Schedule.{schedule, length-schedule, Takes-cases}
use tlsurl.Tcp.Launching.{record_error-attempts, record_error-schedule}
use tlsurl.Tcp.Polling.{Polled-cases}

-- What is left to do: each address counts for being launched and for being answered.
abbrev pub work : State → ℕ
work s = 2 * length (schedule s) + length s.attempts

-- Whether an attempt is answered at a poll.
abbrev pub is_answered : {C : Type 0} → Polled C → Bool
is_answered pending = false
is_answered _ = true

abbrev pub any_answered : {C : Type 0} → (ℕ → Polled C) → List Attempt → Bool
any_answered polled [] = false
any_answered polled (a ∷ attempts) = is_answered (polled a.order) || any_answered polled attempts

nonempty-length : {A : Type 0} (xs : List A) → is_nil xs ≡ false → 0 < length xs
nonempty-length [] h = absurd (ground (arith, h))
nonempty-length (x ∷ xs) h = ground arith

drop_front-length : (attempts : List Attempt) → length (drop_front attempts) ≤ length attempts
drop_front-length [] = ground arith
drop_front-length (a ∷ attempts) = ground arith

module _ (setup : ℕ → SocketAddr → Option ConnectError) where
  -- A launch takes at least one address, or none is left.
  abbrev Shrinks : State → Bool × State → Type 0
  Shrinks s (true, t) =
      (length (schedule t) < length (schedule s)) × (length t.attempts ≡ length s.attempts + 1)
  Shrinks s (false, t) = (schedule t ≡ []) × (t.attempts ≡ s.attempts)

  Shrinks-later :
      (s u : State) (r : Bool × State)
      → u.attempts ≡ s.attempts
      → length (schedule u) ≤ length (schedule s)
      → Shrinks u r
      → Shrinks s r
  Shrinks-later s u (true, t) same fewer (less, n) =
      (ground (arith, less, fewer), n ∙ ap (λ l. length l + 1) same)
  Shrinks-later s u (false, t) same fewer (done, n) = (done, n ∙ same)

  launch-Shrinks : (n : ℕ) (s : State) → length (schedule s) ≤ n → Shrinks s (launch setup n s)
  unfolding launch
  launch-Shrinks zero s enough = (ground (arith, enough), refl)
  launch-Shrinks (suc n) s enough = elim (Takes-cases s) [
    | inl (done, turn) ↦ rw (turn, launch) (done, refl)
    | inr t ↦
        let order = t.left.next_attempt_order in
        let counted = record t.left { next_attempt_order = saturating_inc order } in
        let first : length (schedule s) ≡ suc (length (schedule t.left)) = ap length t.first in
        elim (Option-cases (setup order t.addr)) [
          | inl opened ↦
              rw (t.turn, t.taken, opened, launch)
                (
                  ground (arith, first),
                  length-append t.left.attempts (record { addr = t.addr; order = order } ∷ [])
                      ∙ ap (λ l. length l + 1) t.others.0,
                )
          | inr (e, failed) ↦
              let u = record_error order (with_addr e t.addr) counted in
              let same = record_error-schedule order (with_addr e t.addr) counted in
              rw (t.turn, t.taken, failed, launch)
                (Shrinks-later s u (launch setup n u)
                  (record_error-attempts order (with_addr e t.addr) counted ∙ t.others.0)
                  (ground (arith, first, same))
                  (launch-Shrinks n u (ground (arith, enough, first, same))))
        ]
  ]

  pub launch_next-Shrinks : (s : State) → Shrinks s (launch_next setup s)
  launch_next-Shrinks s = launch-Shrinks (remaining s) s (ground (arith, length-schedule s))

  -- A launch does not add to the work, and takes some of it if an address is left.
  pub Shrinks-work :
      (s : State) (r : Bool × State)
      → Shrinks s r
      → (work r.1 ≤ work s) × (is_nil (schedule s) ≡ false → work r.1 < work s)
  Shrinks-work s (true, t) (less, n) = (ground (arith, less, n), λ _. ground (arith, less, n))
  Shrinks-work s (false, t) (done, n) = (
    ground (arith, done, n),
    λ some_left. ground (arith, done, n, nonempty-length (schedule s) some_left),
  )

  pub make_room-work :
      (s : State)
      → (work (make_room_for_next_attempt setup s) ≤ work s)
        × (schedule (make_room_for_next_attempt setup s) ≡ schedule s)
  make_room-work s = elim (Bool-cases (ltb (length s.attempts) max_parallel_connect_attempts)) [
    | inl room ↦ rw room (ground arith, refl)
    | inr full ↦ rw full (ground (arith, drop_front-length s.attempts), refl)
  ]

  module _ (C : Type 0) where
    -- A poll takes nothing from the schedule, and an attempt less is in flight if one is answered.
    abbrev Moves :
        (ℕ → Polled C) → ℕ → Bool → List Attempt → State → State × Option (TcpEvent C) → Type 0
    Moves polled n failed rest s (t, ready) =
        (schedule t ≡ schedule s)
        × (length t.attempts ≤ n)
        × (any_answered polled rest ≡ true
            → ((c : C) × (ready ≡ some (connected c))) ⊎ (length t.attempts < n))
        × (failed ≡ false → any_answered polled rest ≡ false → ready ≡ none)

    pub poll_rest-Moves :
        (polled : ℕ → Polled C) (kept : List Attempt) (failed : Bool) (rest : List Attempt)
        (s : State)
        → Moves polled
            (length kept + length rest)
            failed
            rest
            s
            (poll_rest setup polled kept failed rest s)
    unfolding poll_rest
    poll_rest-Moves polled kept failed [] s =
        (refl, ground arith, λ e. cc e, λ fine quiet. ground (arith, fine))
    poll_rest-Moves polled kept failed (a ∷ rest) s = elim (Polled-cases C (polled a.order)) [
      | inl wait ↦
          let (same, fewer, moved, quiet) = poll_rest-Moves polled (kept ++ a ∷ []) failed rest s in
          let n = length-append kept (a ∷ []) in
          rw (wait, poll_rest)
            (
              same,
              ground (arith, fewer, n),
              λ e. elim (moved e) [
                | inl done ↦ inl done
                | inr less ↦ inr (ground (arith, less, n))
              ],
              quiet,
            )
      | inr (inl (c, opened)) ↦
          rw (opened, poll_rest)
            (refl, ground (arith, length-append kept rest), λ e. inl (c, refl), λ fine e. cc e)
      | inr (inr (cause, refusal)) ↦
          let u = record_error a.order (with_addr (tcp cause) a.addr) s in
          let (same, fewer, moved, quiet) = poll_rest-Moves polled kept true rest u in
          rw (refusal, poll_rest)
            (
              same ∙ record_error-schedule a.order (with_addr (tcp cause) a.addr) s,
              ground (arith, fewer),
              λ e. inr (ground (arith, fewer)),
              λ fine e. cc e,
            )
    ]
