-- ===== src/Tcp/Polling.antt =====
-- src/conn/net/tcp.rs: what a poll of the attempts keeps.
use tlsurl.Base.{
  ℕ, suc, ◌+◌, ◌≤◌, ◌≡◌, refl, ◌⊎◌, inl, inr, Bool, true, false, ◌&&◌, Option, none, some, List, [],
  ◌∷◌, ◌++◌, if◌then◌else◌, is_nil, length, arith, All, All-append, length-append,
}
use tlsurl.Tcp.{
  SocketAddr, Cause, ConnectError, tcp, with_addr, Attempt, State, record_error,
  max_parallel_connect_attempts,
}
use tlsurl.Tcp.Racing.{
  Polled, pending, succeeded, refused, TcpEvent, all_attempts_failed, poll_rest, poll_attempts,
}
use tlsurl.Tcp.Launching.{IsPlaced, Tracks, Tracks-record_error}

pub Polled-cases :
    (C : Type 0) (p : Polled C)
    → (p ≡ pending) ⊎ ((c : C) × (p ≡ succeeded c)) ⊎ ((cause : Cause) × (p ≡ refused cause))
Polled-cases C pending = inl refl
Polled-cases C (succeeded c) = inr (inl (c, refl))
Polled-cases C (refused cause) = inr (inr (cause, refl))

module _ (plan : List SocketAddr) where
  abbrev pub Sound : State → Type 0
  Sound s = Tracks plan s × (length s.attempts ≤ max_parallel_connect_attempts)

  pub with_attempts :
      (s : State) (attempts : List Attempt)
      → Tracks plan s
      → All (IsPlaced plan) attempts
      → Tracks plan (record s { attempts = attempts })
  with_attempts s attempts h placed = record {
    position = h.position;
    placed = placed;
    blamed = h.blamed;
  }

  module _ (setup : ℕ → SocketAddr → Option ConnectError) (C : Type 0) where
    -- After a poll of the attempts no more are in flight than before, and none if all failed.
    abbrev IsPolled : ℕ → State × Option (TcpEvent C) → Type 0
    IsPolled n (t, ready) =
        Tracks plan t
        × (length t.attempts ≤ n)
        × (ready ≡ some all_attempts_failed → t.attempts ≡ [])

    IsPolled-le : (n m : ℕ) (r : State × Option (TcpEvent C)) → n ≤ m → IsPolled n r → IsPolled m r
    IsPolled-le n m (t, ready) le (h, few, empty) = (h, ground (arith, few, le), empty)

    abbrev failed_if : List Attempt → Bool → Option (TcpEvent C)
    failed_if kept failed = if failed && is_nil kept then some all_attempts_failed else none

    none_kept :
        (kept : List Attempt) (failed : Bool)
        → failed_if kept failed ≡ some all_attempts_failed
        → kept ≡ []
    none_kept [] failed e = refl
    none_kept (a ∷ kept) failed e = ground (arith, e)

    poll_rest-IsPolled :
        (polled : ℕ → Polled C) (kept : List Attempt) (failed : Bool) (rest : List Attempt)
        (s : State)
        → Tracks plan s
        → All (IsPlaced plan) kept
        → All (IsPlaced plan) rest
        → IsPolled (length kept + length rest) (poll_rest setup polled kept failed rest s)
    unfolding poll_rest
    poll_rest-IsPolled polled kept failed [] s h k r =
        (with_attempts s kept h k, ground arith, none_kept kept failed)
    poll_rest-IsPolled polled kept failed (a ∷ rest) s h k (here, r) =
        elim (Polled-cases C (polled a.order)) [
          | inl wait ↦
              rw (wait, poll_rest)
                (IsPolled-le (length (kept ++ a ∷ []) + length rest)
                  (length kept + suc (length rest)) _ (ground (arith, length-append kept (a ∷ [])))
                  (poll_rest-IsPolled polled (kept ++ a ∷ []) failed rest s h
                    (All-append (IsPlaced plan) kept (a ∷ []) k (here, tt)) r))
          | inr (inl (c, opened)) ↦
              rw (opened, poll_rest)
                (
                  with_attempts s (kept ++ rest) h (All-append (IsPlaced plan) kept rest k r),
                  ground (arith, length-append kept rest),
                  λ e. cc e,
                )
          | inr (inr (cause, failed')) ↦
              rw (failed', poll_rest)
                (IsPolled-le (length kept + length rest) (length kept + suc (length rest)) _
                  (ground arith)
                  (poll_rest-IsPolled polled kept true rest
                    (record_error a.order (with_addr (tcp cause) a.addr) s)
                    (Tracks-record_error plan s a.order a.addr (tcp cause) h here) k r))
        ]

    pub poll_attempts-Sound :
        (polled : ℕ → Polled C) (s : State)
        → Sound s
        → Sound (poll_attempts setup polled s).0
          × ((poll_attempts setup polled s).1 ≡ some all_attempts_failed
              → (poll_attempts setup polled s).0.attempts ≡ [])
    poll_attempts-Sound polled s (h, few) =
        let (h', fewer, empty) = poll_rest-IsPolled polled [] false s.attempts s h tt h.placed in
        ((h', ground (arith, fewer, few)), empty)
