-- ===== src/Pool/Preserve.antt =====
-- src/client/layer/client/pool.rs: each operation keeps the idle lists within their bounds.
use tlsurl.Base.{
  ℕ, ◌≤◌, ◌≡◌, sym, subst, ◌∙◌, inl, inr, Bool, Option, none, some, List, arith, length, leb,
  is_nil, is_some, unwrap_or, Eq, Bool-cases, Option-cases, ◌&&◌, any, ◌==◌,
}
use tlsurl.HashMap
use tlsurl.Pool.{Poolable, Idle, LruApi, Connecting, Pooled, Ver, auto, http2}
use tlsurl.Pool.Inner.{
  Inner, pop, idle_list, spawn_idle_interval, add_idle, put, offer, connected, clean_waiters,
  set_waiters, clear_expired, connecting, drop_connecting, pooled, drop_pooled,
}
use tlsurl.Pool.Checkout.{checkout, add_waiter}
use tlsurl.Pool.Popping.{length-pop}
use tlsurl.Pool.Bounds.{
  AllWithin, length_of_nil, insert-AllWithin, pop-AllWithin, pop-insert-AllWithin, evict-AllWithin,
}

module _ {T K : Type 0} ⦃e : Eq K⦄ (poolable : Poolable T) (lru : LruApi K (List (Idle T))) where
  spawn-keeps :
      (s : Inner poolable lru)
      → ((spawn_idle_interval poolable lru s).idle ≡ s.idle)
        × ((spawn_idle_interval poolable lru s).max_idle_per_host ≡ s.max_idle_per_host)
  unfolding spawn_idle_interval
  spawn-keeps s = ground arith

  module _ (max : ℕ) (positive : 1 ≤ max) where
    unfoldable pub Bounded : Inner poolable lru → Type 0
    Bounded s = (s.max_idle_per_host ≡ max) × AllWithin poolable lru max s.idle

    spawn-Bounded :
        (s : Inner poolable lru) → Bounded s → Bounded (spawn_idle_interval poolable lru s)
    unfolding Bounded
    spawn-Bounded s (is_max, w) =
        let (same_idle, same_max) = spawn-keeps s in
        (same_max ∙ is_max, subst (AllWithin poolable lru max) (sym same_idle) w)

    length-idle_list :
        (s : Inner poolable lru) (key : K) → Bounded s → length (idle_list poolable lru s key) ≤ max
    unfolding AllWithin Bounded
    length-idle_list s key (is_max, w) = elim (Option-cases (lru.peek s.idle key)) [
      | inl nothing ↦ rw (nothing) (omega arith)
      | inr (list, there) ↦ rw (there) (w key list there).1
    ]

    add_idle-Bounded :
        (s : Inner poolable lru) (key : K) (value : T) (now : ℕ)
        → Bounded s
        → Bounded (add_idle poolable lru s key value now)
    unfolding add_idle Bounded
    add_idle-Bounded s key value now (is_max, w) =
        let list = idle_list poolable lru s key in
        let within = length-idle_list s key (is_max, w) in
        elim (Bool-cases (leb s.max_idle_per_host (length list))) [
          | inl full ↦
              rw (full, add_idle)
                (
                  is_max,
                  insert-AllWithin poolable lru max s.idle key list w
                      (ground (arith, full, is_max, positive)) within,
                )
          | inr room ↦
              rw (room, add_idle)
                (spawn-Bounded _ (
                  is_max,
                  insert-AllWithin poolable lru max s.idle key _ w (omega arith)
                      (ground (arith, room, is_max)),
                ))
        ]

    set_waiters-Bounded :
        (s : Inner poolable lru) (key : K) (ws : List ℕ)
        → Bounded s
        → Bounded (set_waiters poolable lru s key ws)
    unfolding Bounded
    set_waiters-Bounded s key ws v = v

    pub put-Bounded :
        (is_closed fails : ℕ → Bool) (s : Inner poolable lru) (key : K) (value : T) (now : ℕ)
        → Bounded s
        → Bounded (put poolable lru is_closed fails s key value now).0
    unfolding put
    put-Bounded is_closed fails s key value now v =
        elim (Bool-cases (poolable.can_share value && is_some (lru.peek s.idle key))) [
          | inl there ↦ rw (there, put) v
          | inr free ↦ elim (Option-cases (HashMap.get key s.waiters)) [
            | inl nobody ↦ rw (free, nobody, put) (add_idle-Bounded s key value now v)
            | inr (ws, waiting) ↦
                let others = (offer poolable lru is_closed fails value ws).1 in
                let v' = set_waiters-Bounded s key others v in
                elim (Option-cases (offer poolable lru is_closed fails value ws).0) [
                  | inl given ↦ rw (free, waiting, given, put) v'
                  | inr (left, kept) ↦
                      rw (free, waiting, kept, put)
                        (add_idle-Bounded (set_waiters poolable lru s key others) key left now v')
                ]
          ]
        ]

    add_waiter-Bounded :
        (s : Inner poolable lru) (key : K) (waiter : Option ℕ) (channel : ℕ)
        → Bounded s
        → Bounded (add_waiter poolable lru s key waiter channel).0
    unfolding Bounded
    add_waiter-Bounded s key none channel v = v
    add_waiter-Bounded s key (some tx) channel v = v

    pub checkout-Bounded :
        (is_open : T → Bool) (now channel : ℕ) (s : Inner poolable lru) (key : K)
        (waiter : Option ℕ)
        → Bounded s
        → Bounded (checkout poolable lru is_open now channel s key waiter).0
    unfolding checkout Bounded AllWithin
    checkout-Bounded is_open now channel s key waiter (is_max, w) =
        elim (Option-cases (lru.peek s.idle key)) [
          | inl nothing ↦
              rw (nothing, checkout)
                (add_waiter-Bounded (record s { idle = lru.pop s.idle key }) key waiter channel
                  (is_max, pop-AllWithin poolable lru max s.idle key w))
          | inr (list, there) ↦
              let left = (pop poolable lru is_open s.timeout now list).1 in
              let shorter = length-pop poolable lru is_open s.timeout now list in
              let emptied = pop-insert-AllWithin poolable lru max s.idle key left w in
              let (low, high) = w key list there in
              elim (Option-cases (pop poolable lru is_open s.timeout now list).0) [
                | inl none_left ↦
                    rw (there, none_left, checkout)
                      (add_waiter-Bounded
                        (record s { idle = lru.pop (lru.insert s.idle key left) key }) key waiter
                        channel (is_max, emptied))
                | inr (entry, found) ↦ elim (Bool-cases (is_nil left)) [
                  | inl empty ↦ rw (there, found, empty, checkout) (is_max, emptied)
                  | inr more ↦
                      rw (there, found, more, checkout)
                        (
                          is_max,
                          insert-AllWithin poolable lru max s.idle key left w
                              (length_of_nil left more) (omega (arith, shorter, high)),
                        )
                ]
              ]
        ]

    pub drop_pooled-Bounded :
        (is_open : T → Bool) (is_closed fails : ℕ → Bool) (s : Inner poolable lru) (p : Pooled T K)
        (now : ℕ)
        → Bounded s
        → Bounded (drop_pooled poolable lru is_open is_closed fails s p now).0
    unfolding drop_pooled
    drop_pooled-Bounded is_open is_closed fails s p now v = elim (Bool-cases (is_open p.value)) [
      | inr dead ↦ rw (dead, drop_pooled) v
      | inl alive ↦ elim (Bool-cases p.pool) [
        | inr detached ↦ rw (alive, detached, drop_pooled) v
        | inl attached ↦
            rw (alive, attached, drop_pooled) (put-Bounded is_closed fails s p.key p.value now v)
      ]
    ]

    pub drop_connecting-Bounded :
        (s : Inner poolable lru) (c : Connecting K)
        → Bounded s
        → Bounded (drop_connecting poolable lru s c)
    unfolding drop_connecting connected Bounded
    drop_connecting-Bounded s c v = elim (Bool-cases c.pool) [
      | inl holds ↦ rw (holds, drop_connecting) v
      | inr free ↦ rw (free, drop_connecting) v
    ]

    pub pooled-Bounded :
        (is_closed fails : ℕ → Bool) (s : Inner poolable lru) (c : Connecting K) (value : T)
        (now : ℕ)
        → Bounded s
        → Bounded (pooled poolable lru is_closed fails s c value now).0
    unfolding pooled connected Bounded
    pooled-Bounded is_closed fails s c value now v = elim (Bool-cases (poolable.can_share value)) [
      | inl s_able ↦
          rw (poolable.reserve_shared value s_able, pooled)
            (put-Bounded is_closed fails s c.key value now v)
      | inr alone ↦ rw (poolable.reserve_unique value alone, pooled) (drop_connecting-Bounded s c v)
    ]

    pub connecting-Bounded :
        (s : Inner poolable lru) (key : K) (ver : Ver)
        → Bounded s
        → Bounded (connecting poolable lru s key ver).0
    unfolding connecting Bounded
    connecting-Bounded s key auto v = v
    connecting-Bounded s key http2 v = elim (Bool-cases (any (λ k. k == key) s.connecting)) [
      | inl busy ↦ rw (busy, connecting) v
      | inr free ↦ rw (free, connecting) v
    ]

    pub clean_waiters-Bounded :
        (is_closed : ℕ → Bool) (s : Inner poolable lru) (key : K)
        → Bounded s
        → Bounded (clean_waiters poolable lru is_closed s key)
    unfolding clean_waiters
    clean_waiters-Bounded is_closed s key v = elim (Option-cases (HashMap.get key s.waiters)) [
      | inl nobody ↦ rw (nobody, clean_waiters) v
      | inr (ws, there) ↦ rw (there, clean_waiters) (set_waiters-Bounded s key _ v)
    ]

    pub clear_expired-Bounded :
        (is_open : T → Bool) (now : ℕ) (s : Inner poolable lru)
        → Bounded s
        → Bounded (unwrap_or (clear_expired poolable lru is_open now s) s)
    unfolding clear_expired Bounded
    clear_expired-Bounded is_open now s (is_max, w) = elim (Option-cases s.timeout) [
      | inl forever ↦ rw (forever, clear_expired) (is_max, w)
      | inr (dur, timed) ↦
          rw (timed, clear_expired) (is_max, evict-AllWithin poolable lru max _ s.idle w)
    ]
