-- ===== src/Tcp/Sequential.antt =====
-- src/conn/net/tcp.rs: the connecting to the addresses one after the other, without a race, and the choice
-- between the two.
use tlsurl.Base.{
  ℕ, ◌+◌, Bool, ◌&&◌, ◌||◌, not, Option, none, some, List, [], ◌∷◌, if◌then◌else◌, is_some,
  unwrap_or, length, leb,
}
use tlsurl.Tcp.{
  SocketAddr, timed_out, ConnectError, tcp, network_unreachable, with_addr, TcpOptions,
  ConnectingTcp,
}
use tlsurl.Tcp.Racing.{Polled, pending, succeeded, refused, Outcome, ok, err, Event, Race, race}

-- The address that is being tried and its position, with the addresses that follow.
pub record Walk : Type 0 where
  pub addr : SocketAddr
  pub order : ℕ
  pub addrs : List SocketAddr
  pub first_error : Option ConnectError

-- `connect_inner` before its first poll, between two polls, and at its end.
pub data Walking (C : Type 0) : Type 0 where
  ready : List SocketAddr → Walking C
  trying : Walk → Walking C
  finished : Outcome C → Walking C

-- A connecting in order or a race.
pub data TcpConnecting (C : Type 0) : Type 0 where
  sequential : Walking C → TcpConnecting C
  racing : Race C → TcpConnecting C

-- `ConnectingTcp::connect` takes the addresses in order if there is nothing to race.
abbrev pub is_sequential : TcpOptions → ConnectingTcp → Bool
is_sequential config connecting =
    not (is_some connecting.fallback)
    && (not (is_some config.happy_eyeballs_timeout) || leb (length connecting.preferred) 1)

abbrev pub first_or : Option ConnectError → ConnectError → Option ConnectError
first_or first_error e = some (unwrap_or first_error e)

module _ (setup : ℕ → SocketAddr → Option ConnectError) where
  module _ {C : Type 0} where
    -- The rounds of a poll: an attempt is polled at once, and the next address is tried when it fails.
    unfoldable pub walk : (ℕ → Polled C) → ℕ → List SocketAddr → Option ConnectError → Walking C
    walk polled order [] first_error = finished (err (unwrap_or first_error network_unreachable))
    walk polled order (addr ∷ addrs) first_error = elim (setup order addr) [
      | some e ↦ walk polled (order + 1) addrs (first_or first_error (with_addr e addr))
      | none ↦ elim (polled order) [
        | pending ↦
            trying (record { addr = addr; order = order; addrs = addrs; first_error = first_error })
        | succeeded c ↦ finished (ok c)
        | refused cause ↦
            walk polled (order + 1) addrs (first_or first_error (with_addr (tcp cause) addr))
      ]
    ]

    -- A poll of `connect_inner`.
    unfoldable pub poll_walk : (ℕ → Polled C) → Walking C → Walking C
    poll_walk polled (ready addrs) = walk polled 0 addrs none
    poll_walk polled (finished outcome) = finished outcome
    poll_walk polled (trying w) = elim (polled w.order) [
      | pending ↦ trying w
      | succeeded c ↦ finished (ok c)
      | refused cause ↦
          walk polled (w.order + 1) w.addrs (first_or w.first_error (with_addr (tcp cause) w.addr))
    ]

    -- `connect_with_timeout`: the connecting is polled first.
    abbrev pub end_at_deadline : Option ℕ → Event C → Walking C → Walking C
    end_at_deadline connect_timeout event (finished outcome) = finished outcome
    end_at_deadline connect_timeout event (ready addrs) =
        if is_some connect_timeout && event.deadline_over
        then finished (err (tcp timed_out))
        else ready addrs
    end_at_deadline connect_timeout event (trying w) =
        if is_some connect_timeout && event.deadline_over
        then finished (err (tcp timed_out))
        else trying w

    unfoldable pub run_walk : Option ℕ → List (Event C) → Walking C → Walking C
    run_walk connect_timeout [] r = r
    run_walk connect_timeout (event ∷ events) r =
        run_walk connect_timeout events
          (end_at_deadline connect_timeout event (poll_walk event.polled r))

    -- `ConnectingTcp::connect`, for the polls of the future that it returns.
    unfoldable pub connect : TcpOptions → ConnectingTcp → List (Event C) → TcpConnecting C
    connect config connecting events =
        if is_sequential config connecting
        then sequential (run_walk config.connect_timeout events (ready connecting.preferred))
        else racing (race setup config connecting events)
