-- ===== src/Tcp/Runs.antt =====
-- src/conn/net/tcp.rs and src/dns.rs: what a whole race does.
use tlsurl.Base.{
  ℕ, ◌≤◌, ◌<◌, ◌≡◌, ◌∙◌, sym, ap, subst, ◌⊎◌, inl, inr, true, Option, some, List, [], is_some,
  length, arith, Option-cases, All, drop, get_elem?, Elem,
}
use tlsurl.Tcp.{
  SocketAddr, timed_out, ConnectError, tcp, network_unreachable, State, usize_max,
  max_parallel_connect_attempts, TcpOptions, connecting_new, state_new,
}
use tlsurl.Tcp.Racing.{ok, err, Event, Race, waiting, over, take_error, race}
use tlsurl.Tcp.Schedule.{schedule}
use tlsurl.Tcp.Launching.{IsPlaced, Tracks}
use tlsurl.Tcp.Polling.{Sound}
use tlsurl.Tcp.Rounds.{IsGood, enter-IsGood, run-IsGood}
use tlsurl.Tcp.Plan.{
  plan, is_wanted, index_of_Elem, Elem-of_get, length-drop_nil, plan-wanted, schedule-start,
}

abbrev pub state_of : {C : Type 0} → Race C → State
state_of (waiting sleep s) = s
state_of (over outcome s) = s

module _ (addrs : List SocketAddr) (config : TcpOptions)
    (setup : ℕ → SocketAddr → Option ConnectError) {C : Type 0} (events : List (Event C)) where
  -- The whole race.
  abbrev pub connect_all : Race C
  connect_all = race setup config (connecting_new addrs config) events

  race-IsGood :
      (small : length (plan addrs config) ≤ usize_max)
      → IsGood (plan addrs config) small setup C config.connect_timeout connect_all
  race-IsGood small = run-IsGood (plan addrs config) small setup C config.connect_timeout events _ (
      enter-IsGood (plan addrs config) small setup C config.connect_timeout
        (state_new (connecting_new addrs config) config.happy_eyeballs_timeout)
        (
          record {
            position = schedule-start (connecting_new addrs config) config.happy_eyeballs_timeout;
            placed = tt;
            blamed = λ k e same. cc same;
          },
          ground arith,
        ))

  Good-Sound :
      (small : length (plan addrs config) ≤ usize_max) (r : Race C)
      → IsGood (plan addrs config) small setup C config.connect_timeout r
      → Sound (plan addrs config) (state_of r)
  Good-Sound small (waiting sleep s) h = h
  Good-Sound small (over (ok c) s) h = h
  Good-Sound small (over (err e) s) h = h.0

  -- At most six attempts are in flight at any time; each is for the address that stands at its position
  -- in the plan, in which the two families alternate, and the addresses that are left are the plan's from
  -- the number of attempts so far on, provided that they can be counted.
  pub race-within_limit :
      length (plan addrs config) ≤ usize_max
      → (length (state_of connect_all).attempts ≤ max_parallel_connect_attempts)
        × All (IsPlaced (plan addrs config)) (state_of connect_all).attempts
        × (schedule (state_of connect_all)
            ≡ drop (state_of connect_all).next_attempt_order (plan addrs config))
  race-within_limit small =
      let (h, few) = Good-Sound small connect_all (race-IsGood small) in (few, h.placed, h.position)

  tried :
      (s : State)
      → Tracks (plan addrs config) s
      → schedule s ≡ []
      → (a : SocketAddr) → Elem a addrs
      → is_wanted config a ≡ true
      → (k : ℕ) × (k < s.next_attempt_order) × (get_elem? (plan addrs config) k ≡ some a)
  tried s h done a there wanted =
      let (k, inside, found) =
        index_of_Elem a (plan addrs config) (plan-wanted addrs config a there wanted) in
      (
        k,
        ground (
          arith,
          inside,
          length-drop_nil s.next_attempt_order (plan addrs config) (sym h.position ∙ done),
        ),
        found,
      )

  blame :
      (s : State)
      → Tracks (plan addrs config) s
      → (take_error setup s ≡ network_unreachable)
        ⊎ ((a : SocketAddr) × Elem a (plan addrs config) × ((take_error setup s).addr ≡ some a))
  blame s h = elim (Option-cases s.first_error) [
    | inl clean ↦ inl (ground (arith, clean))
    | inr ((k, d), first) ↦
        let (a, found, at) = h.blamed k d first in
        inr (a, Elem-of_get (plan addrs config) k a found, ground (arith, first, at))
  ]

  -- A race that fails has met its deadline, or it has tried each resolved address of a wanted family and
  -- has none in flight, and its error is that of an address of the plan, if it is not that there is none,
  -- provided that the addresses can be counted.
  pub race-tries_all :
      (e : ConnectError) (s : State)
      → length (plan addrs config) ≤ usize_max
      → connect_all ≡ over (err e) s
      → ((e ≡ tcp timed_out) × (is_some config.connect_timeout ≡ true))
        ⊎ ((s.attempts ≡ [])
            × ((a : SocketAddr)
                → Elem a addrs
                → is_wanted config a ≡ true
                → (k : ℕ) × (k < s.next_attempt_order) × (get_elem? (plan addrs config) k ≡ some a))
            × ((e ≡ network_unreachable)
                ⊎ ((a : SocketAddr) × Elem a (plan addrs config) × (e.addr ≡ some a))))
  race-tries_all e s small failed =
      let good =
        subst (IsGood (plan addrs config) small setup C config.connect_timeout) failed
          (race-IsGood small) in
      elim good.1 [
        | inl late ↦ inl late
        | inr (done, idle, e') ↦ inr (
          idle,
          tried s good.0.0 done,
          elim (blame s good.0.0) [
            | inl none_failed ↦ inl (e' ∙ none_failed)
            | inr (a, there, at) ↦ inr (a, there, ap (λ d. d.addr) e' ∙ at)
          ],
        )
      ]
