-- ===== src/Pool/Runs.antt =====
-- src/client/layer/client/pool.rs: any sequence of steps on an enabled pool.
use tlsurl.Base.{
  ℕ, ◌≤◌, ◌≡◌, sym, subst, inl, inr, Bool, Option, some, List, [], ◌∷◌, arith, length, ltb,
  unwrap_or, Eq, Bool-cases,
}
use tlsurl.Pool.{Poolable, Idle, LruApi, Config, Connecting, Pooled, Ver}
use tlsurl.Pool.Inner.{
  Inner, pool_new, clean_waiters, clear_expired, connecting, drop_connecting, pooled, drop_pooled,
}
use tlsurl.Pool.Checkout.{checkout}
use tlsurl.Pool.Bounds.{AllWithin}
use tlsurl.Pool.Preserve.{
  Bounded, checkout-Bounded, drop_pooled-Bounded, pooled-Bounded, connecting-Bounded,
  drop_connecting-Bounded, clean_waiters-Bounded, clear_expired-Bounded,
}

-- Each step with what the world answers during it: which connections are open, which channels are
-- closed, which sendings fail, and the time.
pub data PoolCall (T K : Type 0) : Type 0 where
  checks_out : (T → Bool) → ℕ → ℕ → K → Option ℕ → PoolCall T K
  returns : (T → Bool) → (ℕ → Bool) → (ℕ → Bool) → Pooled T K → ℕ → PoolCall T K
  opens : (ℕ → Bool) → (ℕ → Bool) → Connecting K → T → ℕ → PoolCall T K
  starts : K → Ver → PoolCall T K
  gives_up : Connecting K → PoolCall T K
  cancels : (ℕ → Bool) → K → PoolCall T K
  ticks : (T → Bool) → ℕ → PoolCall T K

module _ {T K : Type 0} ⦃e : Eq K⦄ (poolable : Poolable T) (lru : LruApi K (List (Idle T))) where
  unfoldable pub step : Inner poolable lru → PoolCall T K → Inner poolable lru
  step s (checks_out is_open now channel key waiter) =
      (checkout poolable lru is_open now channel s key waiter).0
  step s (returns is_open is_closed fails p now) =
      (drop_pooled poolable lru is_open is_closed fails s p now).0
  step s (opens is_closed fails c value now) = (pooled poolable lru is_closed fails s c value now).0
  step s (starts key ver) = (connecting poolable lru s key ver).0
  step s (gives_up c) = drop_connecting poolable lru s c
  step s (cancels is_closed key) = clean_waiters poolable lru is_closed s key
  step s (ticks is_open now) = unwrap_or (clear_expired poolable lru is_open now s) s

  unfoldable pub run : Inner poolable lru → List (PoolCall T K) → Inner poolable lru
  run s [] = s
  run s (c ∷ cs) = run (step s c) cs

  module _ (max : ℕ) (positive : 1 ≤ max) where
    step-Bounded :
        (s : Inner poolable lru) (c : PoolCall T K)
        → Bounded poolable lru max positive s
        → Bounded poolable lru max positive (step s c)
    unfolding step
    step-Bounded s (checks_out is_open now channel key waiter) v =
        checkout-Bounded poolable lru max positive is_open now channel s key waiter v
    step-Bounded s (returns is_open is_closed fails p now) v =
        drop_pooled-Bounded poolable lru max positive is_open is_closed fails s p now v
    step-Bounded s (opens is_closed fails c value now) v =
        pooled-Bounded poolable lru max positive is_closed fails s c value now v
    step-Bounded s (starts key ver) v = connecting-Bounded poolable lru max positive s key ver v
    step-Bounded s (gives_up c) v = drop_connecting-Bounded poolable lru max positive s c v
    step-Bounded s (cancels is_closed key) v =
        clean_waiters-Bounded poolable lru max positive is_closed s key v
    step-Bounded s (ticks is_open now) v =
        clear_expired-Bounded poolable lru max positive is_open now s v

    run-Bounded :
        (cs : List (PoolCall T K)) (s : Inner poolable lru)
        → Bounded poolable lru max positive s
        → Bounded poolable lru max positive (run s cs)
    unfolding run
    run-Bounded [] s v = v
    run-Bounded (c ∷ cs) s v = run-Bounded cs (step s c) (step-Bounded s c v)

  new-AllWithin : (max : ℕ) (size : Option ℕ) → AllWithin poolable lru max (lru.new size)
  unfolding AllWithin
  new-AllWithin max size k list at = cc (lru.peek-new size k, at)

  -- Whatever happens to a new pool: a key that has a list of idle connections has at least one in
  -- it, and at most the configured number.
  pub run-within_bounds :
      (config : Config) (timer_is_empty : Bool) (s : Inner poolable lru) (cs : List (PoolCall T K))
      (key : K) (list : List (Idle T))
      → pool_new poolable lru config timer_is_empty ≡ some s
      → lru.peek (run s cs).idle key ≡ some list
      → (1 ≤ length list) × (length list ≤ config.max_idle_per_host)
  unfolding pool_new AllWithin Bounded
  run-within_bounds config timer_is_empty s cs key list made at =
      elim (Bool-cases (ltb 0 config.max_idle_per_host)) [
        | inr disabled ↦ cc (rw (disabled, pool_new) at made)
        | inl enabled ↦
            let max = config.max_idle_per_host in
            let positive : 1 ≤ max = ground (arith, enabled) in
            let is_max : s.max_idle_per_host ≡ max = ground (arith, made, enabled) in
            let is_new : s.idle ≡ lru.new config.max_pool_size = ground (arith, made, enabled) in
            let start : Bounded poolable lru max positive s = (
              is_max,
              subst (AllWithin poolable lru max) (sym is_new)
                  (new-AllWithin max config.max_pool_size),
            ) in
            (run-Bounded max positive cs s start).1 key list at
      ]
