-- ===== src/Tcp.antt =====
-- src/conn/net/tcp.rs: how a connection is opened to one of the addresses of a host. What a socket does
-- is the environment's: whether one can be set up, and what each attempt comes to when it is polled.
pub mod Racing
pub mod Schedule
pub mod Launching
pub mod Polling
pub mod Rounds
pub mod Plan
pub mod Runs
pub mod Work
pub mod Within
pub mod Ending
pub mod Sequential
pub mod Replies
pub mod InOrder
mod Tests
use tlsurl.Base.{
  ℕ, ◌+◌, Bool, true, false, ◌&&◌, ◌||◌, not, Option, none, some, Text, List, [], ◌∷◌, ◌++◌, codes,
  if◌then◌else◌, is_nil, is_some, is_some_and, unwrap_or, length, filter, nat_beq, ltb, leb,
}

-- An address with its port.
pub data SocketAddr : Type 0 where
  v4 v6 : Text → SocketAddr

pub data Cause : Type 0 where
  io : Text → Cause
  not_connected timed_out : Cause

pub record ConnectError : Type 0 where
  pub msg : Text
  pub addr : Option SocketAddr
  pub cause : Cause

abbrev pub tcp : Cause → ConnectError
tcp cause = record { msg = codes "tcp connect error"; addr = none; cause = cause }

abbrev pub network_unreachable : ConnectError
network_unreachable = tcp not_connected

abbrev pub with_addr : ConnectError → SocketAddr → ConnectError
with_addr e addr = record e { addr = some addr }

abbrev pub max_parallel_connect_attempts : ℕ
max_parallel_connect_attempts = 6

abbrev pub usize_max : ℕ
usize_max = 18446744073709551615

unfoldable pub saturating_inc : ℕ → ℕ
saturating_inc n = if ltb n usize_max then n + 1 else usize_max

abbrev pub is_ipv6 : SocketAddr → Bool
is_ipv6 (v6 a) = true
is_ipv6 (v4 a) = false

abbrev pub same_family : Bool → SocketAddr → Bool
same_family is_v6 a = if is_v6 then is_ipv6 a else not (is_ipv6 a)

-- The family of the first address.
abbrev pub preferring_v6 : List SocketAddr → Bool
preferring_v6 [] = false
preferring_v6 (a ∷ rest) = is_ipv6 a

-- src/dns.rs: `SocketAddrs::split_by_preference`. The local addresses are asked only whether they are set.
unfoldable pub split_by_preference :
    List SocketAddr → Bool → Bool → List SocketAddr × List SocketAddr
split_by_preference addrs local_ipv4 local_ipv6 =
    if local_ipv4 && not local_ipv6
    then (filter (same_family false) addrs, [])
    else if not local_ipv4 && local_ipv6
    then (filter (same_family true) addrs, [])
    else (let v6_first = preferring_v6 addrs in
        (filter (same_family v6_first) addrs, filter (same_family (not v6_first)) addrs))

-- The durations that a connection is configured with, and whether a local address is set.
pub record TcpOptions : Type 0 where
  pub connect_timeout : Option ℕ
  pub happy_eyeballs_timeout : Option ℕ
  pub local_ipv4 : Bool
  pub local_ipv6 : Bool

-- The fallback has its first delay.
pub record ConnectingTcp : Type 0 where
  pub preferred : List SocketAddr
  pub fallback : Option (ℕ × List SocketAddr)

-- `ConnectingTcp::new`
unfoldable pub connecting_new : List SocketAddr → TcpOptions → ConnectingTcp
connecting_new addrs config = elim config.happy_eyeballs_timeout [
  | none ↦ record { preferred = addrs; fallback = none }
  | some fallback_timeout ↦
      let (preferred, fallback) = split_by_preference addrs config.local_ipv4 config.local_ipv6 in
      if is_nil fallback
      then record { preferred = preferred; fallback = none }
      else record { preferred = preferred; fallback = some (fallback_timeout, fallback) }
]

-- An attempt in flight, with its position in the order of launches.
pub record Attempt : Type 0 where
  pub addr : SocketAddr
  pub order : ℕ

-- `ConnectingTcpState`
pub record State : Type 0 where
  pub preferred : List SocketAddr
  pub fallback : Option (List SocketAddr)
  pub initial_delay : Option ℕ
  pub next_fallback : Bool
  pub happy_eyeballs_timeout : Option ℕ
  pub attempts : List Attempt
  pub next_attempt_order : ℕ
  pub first_error : Option (ℕ × ConnectError)

-- `ConnectingTcpState::new`
abbrev pub state_new : ConnectingTcp → Option ℕ → State
state_new connecting timeout = record {
  preferred = connecting.preferred;
  fallback = (elim connecting.fallback [ none ↦ none | some (delay, addrs) ↦ some addrs ]);
  initial_delay = (elim connecting.fallback [ none ↦ none | some (delay, addrs) ↦ some delay ]);
  next_fallback = false;
  happy_eyeballs_timeout = timeout;
  attempts = [];
  next_attempt_order = 0;
  first_error = none;
}

abbrev pub has_fallback : State → Bool
has_fallback s = is_some_and s.fallback (λ addrs. not (is_nil addrs))

abbrev pub has_remaining_addrs : State → Bool
has_remaining_addrs s = not (is_nil s.preferred) || has_fallback s

-- `next_remote`, which says whether it is the fallback.
unfoldable pub next_remote : State → Option (Bool × State)
next_remote s =
    if not (has_remaining_addrs s)
    then none
    else (let use_fallback = has_fallback s && (s.next_fallback || is_nil s.preferred) in
        some (use_fallback, record s { next_fallback = not use_fallback }))

-- The address that `connect_next` takes from a list.
abbrev pub take_addr : List SocketAddr → Option (SocketAddr × List SocketAddr)
take_addr [] = none
take_addr (addr ∷ addrs) = some (addr, addrs)

unfoldable pub connect_next : Bool → State → Option (SocketAddr × State)
connect_next use_fallback s =
    if use_fallback
    then (elim (take_addr (unwrap_or s.fallback [])) [
      | none ↦ none
      | some (addr, addrs) ↦ some (addr, record s { fallback = some addrs })
    ])
    else (elim (take_addr s.preferred) [
      | none ↦ none
      | some (addr, addrs) ↦ some (addr, record s { preferred = addrs })
    ])

abbrev pub record_error : ℕ → ConnectError → State → State
record_error order e s =
    if is_some_and s.first_error (λ (first_order, _). leb first_order order)
    then s
    else record s { first_error = some (order, e) }

abbrev pub push_attempt : SocketAddr → ℕ → State → State
push_attempt addr order s = record s {
  initial_delay = (if nat_beq order 0 then s.initial_delay else none);
  attempts = s.attempts ++ record { addr = addr; order = order } ∷ [];
}
