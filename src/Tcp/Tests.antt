-- ===== src/Tcp/Tests.antt =====
-- src/conn/net/tcp.rs: races between a few addresses.
use tlsurl.Base.{
  ℕ, ◌≤◌, ◌<◌, ◌≡◌, refl, ◌⊎◌, inl, inr, true, false, Bool-cases, Option, none, some, List, [], ◌∷◌,
  codes, length, is_some, arith, if◌then◌else◌, nat_beq, All, drop, get_elem?, Elem,
}
use tlsurl.Tcp.{
  SocketAddr, v4, v6, Cause, io, timed_out, ConnectError, tcp, with_addr, network_unreachable,
  State, TcpOptions, connecting_new, split_by_preference, next_remote, connect_next, saturating_inc,
  max_parallel_connect_attempts,
}
use tlsurl.Tcp.Racing.{
  race, pending, succeeded, refused, Outcome, ok, err, Event, Race, waiting, over, run, enter, poll,
  on_event, poll_rest, launch,
}
use tlsurl.Tcp.Schedule.{schedule}
use tlsurl.Tcp.Launching.{IsPlaced}
use tlsurl.Tcp.Plan.{plan_of, plan, is_wanted}
use tlsurl.Tcp.Sequential.{connect, sequential, finished}
use tlsurl.Tcp.InOrder.{connect-best}
use tlsurl.Tcp.Within.{IsOver}
use tlsurl.Tcp.Ending.{race-ends}
use tlsurl.Tcp.Runs.{state_of, connect_all, race-within_limit, race-tries_all}

abbrev first : SocketAddr
first = v6 (codes "::1")

abbrev second : SocketAddr
second = v6 (codes "::2")

abbrev third : SocketAddr
third = v4 (codes "127.0.0.1")

abbrev addrs : List SocketAddr
addrs = first ∷ second ∷ third ∷ []

abbrev config : TcpOptions
config = record {
  connect_timeout = some 5000;
  happy_eyeballs_timeout = some 300;
  local_ipv4 = false;
  local_ipv6 = false;
}

plan-families : plan_of (connecting_new addrs config) ≡ first ∷ third ∷ second ∷ []
unfolding connecting_new split_by_preference
plan-families = refl

-- The socket of the second attempt cannot be set up.
abbrev setup : ℕ → SocketAddr → Option ConnectError
setup k addr =
    if nat_beq k 1
    then some (record { msg = codes "tcp open error"; addr = none; cause = io (codes "EMFILE") })
    else none

abbrev quiet_delay : Event ℕ
quiet_delay = record { polled = λ k. pending; delay_over = true; deadline_over = false }

abbrev all_refused : Event ℕ
all_refused = record {
  polled = λ k. refused (io (codes "refused"));
  delay_over = false;
  deadline_over = false;
}

abbrev last_connected : Event ℕ
last_connected = record {
  polled = λ k. if nat_beq k 2 then succeeded 7 else pending;
  delay_over = false;
  deadline_over = false;
}

abbrev outcome_of : Race ℕ → Option (Outcome ℕ)
outcome_of (waiting sleep s) = none
outcome_of (over outcome s) = some outcome

race-third :
    outcome_of (connect_all addrs config setup (quiet_delay ∷ last_connected ∷ [])) ≡ some (ok 7)
unfolding connecting_new split_by_preference run enter launch next_remote connect_next
    saturating_inc poll poll_rest on_event
race-third = refl

-- The error is that of the first attempt, although the second failed before it.
race-refused :
    outcome_of (connect_all addrs config setup (quiet_delay ∷ all_refused ∷ []))
    ≡ some (err (with_addr (tcp (io (codes "refused"))) first))
unfolding connecting_new split_by_preference run enter launch next_remote connect_next
    saturating_inc poll poll_rest on_event
race-refused = refl

abbrev after_delay : State
after_delay = state_of (connect_all addrs config setup (quiet_delay ∷ []))

race-within_limit_example :
    (length after_delay.attempts ≤ max_parallel_connect_attempts)
    × All (IsPlaced (plan addrs config)) after_delay.attempts
    × (schedule after_delay ≡ drop after_delay.next_attempt_order (plan addrs config))
unfolding connecting_new split_by_preference
race-within_limit_example = race-within_limit addrs config setup (quiet_delay ∷ []) (ground arith)

abbrev spent : State
spent = state_of (connect_all addrs config setup (quiet_delay ∷ all_refused ∷ []))

race-tries_all_example :
    ((with_addr (tcp (io (codes "refused"))) first ≡ tcp timed_out)
      × (is_some config.connect_timeout ≡ true))
    ⊎ ((spent.attempts ≡ [])
        × ((a : SocketAddr)
            → Elem a addrs
            → is_wanted config a ≡ true
            → (k : ℕ) × (k < spent.next_attempt_order) × (get_elem? (plan addrs config) k ≡ some a))
        × ((with_addr (tcp (io (codes "refused"))) first ≡ network_unreachable)
            ⊎ ((a : SocketAddr) × Elem a (plan addrs config)
                × ((with_addr (tcp (io (codes "refused"))) first).addr ≡ some a))))
unfolding connecting_new split_by_preference run enter launch next_remote connect_next
    saturating_inc poll poll_rest on_event
race-tries_all_example =
    race-tries_all addrs config setup (quiet_delay ∷ all_refused ∷ [])
      (with_addr (tcp (io (codes "refused"))) first) spent (ground arith) refl

abbrev refusals : List (Event ℕ)
refusals = all_refused ∷ all_refused ∷ all_refused ∷ []

race-ends_example : IsOver (race setup config (connecting_new (first ∷ []) config) refusals)
unfolding connecting_new split_by_preference run enter launch next_remote connect_next
    saturating_inc poll poll_rest on_event
race-ends_example = race-ends setup ℕ (first ∷ []) config refusals (inl refl, tt) (ground arith)

-- The same attempts one after the other.
abbrev in_order : TcpOptions
in_order = record config { happy_eyeballs_timeout = none }

abbrev answer : ℕ → ℕ ⊎ Cause
answer k = if nat_beq k 2 then inl 7 else inr (io (codes "refused"))

abbrev all_answered : Event ℕ
all_answered = record {
  polled = λ k. if nat_beq k 2 then succeeded 7 else refused (io (codes "refused"));
  delay_over = false;
  deadline_over = false;
}

connect-best_example :
    (connect setup in_order (connecting_new addrs in_order) (quiet_delay ∷ all_answered ∷ [])
      ≡ sequential (finished (ok 7)))
    ⊎ ((is_some config.connect_timeout ≡ true)
        × (connect setup in_order (connecting_new addrs in_order) (quiet_delay ∷ all_answered ∷ [])
            ≡ sequential (finished (err (tcp timed_out)))))
unfolding connecting_new
connect-best_example =
    connect-best setup ℕ answer in_order (connecting_new addrs in_order) (quiet_delay ∷ [])
      all_answered refl ((λ k. inl refl), tt)
      (λ k. elim (Bool-cases (nat_beq k 2)) [
        | inl hit ↦ ground (arith, hit)
        | inr miss ↦ ground (arith, miss)
      ])
