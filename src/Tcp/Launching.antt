-- ===== src/Tcp/Launching.antt =====
-- src/conn/net/tcp.rs: which addresses `launch_next` takes.
use tlsurl.Base.{
  ℕ, zero, suc, ◌+◌, ◌≤◌, ◌<◌, ◌≡◌, ◌∙◌, refl, sym, ap, subst, inl, inr, Bool, true, false, Option,
  some, List, [], ◌∷◌, is_some_and, length, leb, arith, Bool-cases, Option-cases, drop, get_elem?,
  All, All-append, length-append,
}
use tlsurl.Tcp.{
  SocketAddr, Attempt, ConnectError, with_addr, State, saturating_inc, usize_max, record_error,
  push_attempt,
}
use tlsurl.Tcp.Racing.{launch}
use tlsurl.Tcp.Schedule.{schedule, Takes, Takes-cases}

drop-cons :
    {A : Type 0} (n : ℕ) (xs : List A) (x : A) (rest : List A)
    → drop n xs ≡ x ∷ rest
    → (get_elem? xs n ≡ some x) × (drop (n + 1) xs ≡ rest) × (n < length xs)
drop-cons zero [] x rest h = absurd (ground (arith, h))
drop-cons (suc n) [] x rest h = absurd (ground (arith, h))
drop-cons zero (y ∷ xs) x rest h = (ground (arith, h), ground (arith, h), ground arith)
drop-cons (suc n) (y ∷ xs) x rest h =
    let (found, left, inside) = drop-cons n xs x rest h in
    (found, ground (arith, left), ground (arith, inside))

pub record_error-attempts :
    (k : ℕ) (e : ConnectError) (s : State) → (record_error k e s).attempts ≡ s.attempts
record_error-attempts k e s = ground arith

pub record_error-schedule :
    (k : ℕ) (e : ConnectError) (s : State) → schedule (record_error k e s) ≡ schedule s
record_error-schedule k e s =
    elim (Bool-cases (is_some_and s.first_error (λ (first, _). leb first k))) [
      | inl kept ↦ rw kept refl
      | inr new ↦ rw new refl
    ]

module _ (plan : List SocketAddr) where
  -- An address stands in the plan where its attempt's position says.
  abbrev pub IsPlaced : Attempt → Type 0
  IsPlaced a = get_elem? plan a.order ≡ some a.addr

  -- The addresses that are left are those of the plan from the counter on, and what is remembered of the
  -- earlier ones is true.
  pub record Tracks (s : State) : Type 0 where
    pub position : schedule s ≡ drop s.next_attempt_order plan
    pub placed : All IsPlaced s.attempts
    pub blamed :
        (k : ℕ) (e : ConnectError)
        → s.first_error ≡ some (k, e)
        → (a : SocketAddr) × (get_elem? plan k ≡ some a) × (e.addr ≡ some a)

  pub Tracks-record_error :
      (s : State) (k : ℕ) (a : SocketAddr) (e : ConnectError)
      → Tracks s
      → get_elem? plan k ≡ some a
      → Tracks (record_error k (with_addr e a) s)
  Tracks-record_error s k a e h there =
      elim (Bool-cases (is_some_and s.first_error (λ (first, _). leb first k))) [
        | inl kept ↦ rw kept h
        | inr new ↦ rw new (record {
          position = h.position;
          placed = h.placed;
          blamed = λ j d same. (a, ground (arith, same, there), ground (arith, same));
        })
      ]

  -- The state once the counter has moved on.
  abbrev counted : State → State
  counted s = record s { next_attempt_order = saturating_inc s.next_attempt_order }

  module _ (small : length plan ≤ usize_max) where
    saturating_inc-small : (n : ℕ) → n < length plan → saturating_inc n ≡ n + 1
    unfolding saturating_inc
    saturating_inc-small n inside = ground (arith, inside, small)

    take-Tracks :
        (s : State) (t : Takes s)
        → Tracks s
        → (get_elem? plan t.left.next_attempt_order ≡ some t.addr) × Tracks (counted t.left)
    take-Tracks s t h =
        let (in_flight, order, errors) = t.others in
        let (found, rest, inside) =
          drop-cons s.next_attempt_order plan t.addr (schedule t.left) (sym h.position ∙ t.first) in
        (
          ap (get_elem? plan) order ∙ found,
          record {
            position =
                sym rest
                ∙ ap (λ n. drop n plan)
                    (sym
                      (ap saturating_inc order ∙ saturating_inc-small s.next_attempt_order inside));
            placed = subst (All IsPlaced) (sym in_flight) h.placed;
            blamed = λ k e same. h.blamed k e (sym errors ∙ same);
          },
        )

    push-Tracks :
        (s : State) (addr : SocketAddr) (order : ℕ)
        → Tracks s
        → get_elem? plan order ≡ some addr
        → Tracks (push_attempt addr order s)
    push-Tracks s addr order h there = record {
      position = h.position;
      placed =
          All-append IsPlaced s.attempts (record { addr = addr; order = order } ∷ []) h.placed
            (there, tt);
      blamed = h.blamed;
    }

    module _ (setup : ℕ → SocketAddr → Option ConnectError) where
      -- What a launch comes to: one more attempt, or no address is left.
      abbrev pub Launched : State → Bool × State → Type 0
      Launched s (true, t) = Tracks t × (length t.attempts ≡ length s.attempts + 1)
      Launched s (false, t) = Tracks t × (t.attempts ≡ s.attempts) × (schedule t ≡ [])

      Launched-same :
          (s u : State) (r : Bool × State) → u.attempts ≡ s.attempts → Launched u r → Launched s r
      Launched-same s u (true, t) same (h, n) = (h, n ∙ ap (λ l. length l + 1) same)
      Launched-same s u (false, t) same (h, n, none_left) = (h, n ∙ same, none_left)

      pub launch-Launched :
          (n : ℕ) (s : State) → Tracks s → length (schedule s) ≤ n → Launched s (launch setup n s)
      unfolding launch
      launch-Launched zero s h enough = (h, refl, ground (arith, enough))
      launch-Launched (suc n) s h enough = elim (Takes-cases s) [
        | inl (done, turn) ↦ rw (turn, launch) (h, refl, done)
        | inr t ↦
            let order = t.left.next_attempt_order in
            let (found, h') = take-Tracks s t h in
            elim (Option-cases (setup order t.addr)) [
              | inl opened ↦
                  rw (t.turn, t.taken, opened, launch)
                    (
                      push-Tracks (counted t.left) t.addr order h' found,
                      length-append t.left.attempts (record { addr = t.addr; order = order } ∷ [])
                          ∙ ap (λ l. length l + 1) t.others.0,
                    )
              | inr (e, failed) ↦
                  let u = record_error order (with_addr e t.addr) (counted t.left) in
                  rw (t.turn, t.taken, failed, launch)
                    (Launched-same s u (launch setup n u)
                      (record_error-attempts order (with_addr e t.addr) (counted t.left)
                        ∙ t.others.0)
                      (launch-Launched n u
                        (Tracks-record_error (counted t.left) order t.addr e h' found)
                        (ground (
                          arith,
                          enough,
                          t.first,
                          record_error-schedule order (with_addr e t.addr) (counted t.left),
                        ))))
            ]
      ]
