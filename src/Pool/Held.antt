-- ===== src/Pool/Held.antt =====
-- src/client/layer/client/pool.rs: one HTTP/2 connection at a time is being opened for a key, whatever
-- happens to the pool in the meantime.
use tlsurl.Base.{
  ℕ, ◌≡◌, refl, ◌∙◌, ap, inl, inr, Bool, true, false, ◌&&◌, ◌||◌, Option, none, some, List, [], ◌∷◌,
  arith, any, is_some, unwrap_or, Eq, ◌==◌, Option-cases, Bool-cases,
}
use tlsurl.HashMap
use tlsurl.Pool.{Poolable, Idle, LruApi, Connecting, Pooled, http2, auto, Ver}
use tlsurl.Pool.Inner.{
  Inner, erase, connected, connecting, drop_connecting, clear_expired, add_idle,
  spawn_idle_interval, set_waiters, put, offer, drop_pooled, pooled, clean_waiters,
}
use tlsurl.Pool.Checkout.{checkout}
use tlsurl.Pool.Locks.{any-erase, connecting-held, connecting-busy, connecting-free}
use tlsurl.Pool.Runs.{
  PoolCall, checks_out, returns, opens, starts, gives_up, cancels, ticks, step, run,
}

-- A key that is taken out of the list leaves the others in it.
any-erase_other :
    {K : Type 0} ⦃e : Eq K⦄ (key other : K) (ks : List K)
    → (other == key) ≡ false
    → any (λ k. k == key) (erase other ks) ≡ any (λ k. k == key) ks
unfolding erase
any-erase_other key other [] differ = refl
any-erase_other ⦃e = e⦄ key other (k ∷ ks) differ =
    ground (arith, any-erase_other key other ks differ, e.beq_iff k other, differ)

module _ {T K : Type 0} ⦃e : Eq K⦄ (poolable : Poolable T) (lru : LruApi K (List (Idle T))) where
  add_idle-connecting :
      (s : Inner poolable lru) (key : K) (value : T) (now : ℕ)
      → (add_idle poolable lru s key value now).connecting ≡ s.connecting
  unfolding add_idle spawn_idle_interval
  add_idle-connecting s key value now = ground arith

  put-connecting :
      (is_closed fails : ℕ → Bool) (s : Inner poolable lru) (key : K) (value : T) (now : ℕ)
      → (put poolable lru is_closed fails s key value now).0.connecting ≡ s.connecting
  unfolding put
  put-connecting is_closed fails s key value now =
      elim (Bool-cases (poolable.can_share value && is_some (lru.peek s.idle key))) [
        | inl there ↦ rw (there, put) refl
        | inr free ↦ elim (Option-cases (HashMap.get key s.waiters)) [
          | inl nobody ↦ rw (free, nobody, put) (add_idle-connecting s key value now)
          | inr (ws, waiting) ↦
              elim (Option-cases (offer poolable lru is_closed fails value ws).0) [
                | inl given ↦ rw (free, waiting, given, put) refl
                | inr (left, kept) ↦
                    rw (free, waiting, kept, put)
                      (add_idle-connecting
                        (set_waiters poolable lru s key
                          (offer poolable lru is_closed fails value ws).1)
                        key left now)
              ]
        ]
      ]

  drop_pooled-connecting :
      (is_open : T → Bool) (is_closed fails : ℕ → Bool) (s : Inner poolable lru) (p : Pooled T K)
      (now : ℕ)
      → (drop_pooled poolable lru is_open is_closed fails s p now).0.connecting ≡ s.connecting
  unfolding drop_pooled
  drop_pooled-connecting is_open is_closed fails s p now =
      ground (arith, put-connecting is_closed fails s p.key p.value now)

  checkout-connecting :
      (is_open : T → Bool) (now channel : ℕ) (s : Inner poolable lru) (key : K) (waiter : Option ℕ)
      → (checkout poolable lru is_open now channel s key waiter).0.connecting ≡ s.connecting
  unfolding checkout
  checkout-connecting is_open now channel s key waiter = ground arith

  clean_waiters-connecting :
      (is_closed : ℕ → Bool) (s : Inner poolable lru) (key : K)
      → (clean_waiters poolable lru is_closed s key).connecting ≡ s.connecting
  unfolding clean_waiters
  clean_waiters-connecting is_closed s key = ground arith

  clear_expired-connecting :
      (is_open : T → Bool) (now : ℕ) (s : Inner poolable lru)
      → (unwrap_or (clear_expired poolable lru is_open now s) s).connecting ≡ s.connecting
  unfolding clear_expired
  clear_expired-connecting is_open now s = ground arith

  -- An HTTP/2 connection to the key is being opened.
  abbrev IsBusy : K → Inner poolable lru → Type 0
  IsBusy key s = any (λ k. k == key) s.connecting ≡ true

  -- The step neither drops a guard that the pool counts for the key nor ends the connecting to it with
  -- a connection that is shared.
  abbrev pub Leaves : K → PoolCall T K → Type 0
  Leaves key (opens is_closed fails c value now) =
      c.pool || poolable.can_share value ≡ true → (c.key == key) ≡ false
  Leaves key (gives_up c) = c.pool ≡ true → (c.key == key) ≡ false
  Leaves key _ = Unit

  connecting-IsBusy :
      (key other : K) (ver : Ver) (s : Inner poolable lru)
      → IsBusy key s
      → IsBusy key (connecting poolable lru s other ver).0
  unfolding connecting
  connecting-IsBusy key other auto s busy = busy
  connecting-IsBusy key other http2 s busy = ground (arith, busy)

  connected-IsBusy :
      (key other : K) (s : Inner poolable lru)
      → (other == key) ≡ false
      → IsBusy key s
      → IsBusy key (connected poolable lru s other)
  unfolding connected
  connected-IsBusy key other s differ busy = any-erase_other key other s.connecting differ ∙ busy

  drop_connecting-IsBusy :
      (key : K) (c : Connecting K) (s : Inner poolable lru)
      → (c.pool ≡ true → (c.key == key) ≡ false)
      → IsBusy key s
      → IsBusy key (drop_connecting poolable lru s c)
  unfolding drop_connecting
  drop_connecting-IsBusy key c s differ busy = elim (Bool-cases c.pool) [
    | inl holds ↦ rw (holds, drop_connecting) (connected-IsBusy key c.key s (differ holds) busy)
    | inr free ↦ rw (free, drop_connecting) busy
  ]

  pooled-IsBusy :
      (is_closed fails : ℕ → Bool) (key : K) (c : Connecting K) (value : T) (now : ℕ)
      (s : Inner poolable lru)
      → (c.pool || poolable.can_share value ≡ true → (c.key == key) ≡ false)
      → IsBusy key s
      → IsBusy key (pooled poolable lru is_closed fails s c value now).0
  unfolding pooled
  pooled-IsBusy is_closed fails key c value now s differ busy =
      elim (Bool-cases (poolable.can_share value)) [
        | inl both ↦
            rw (poolable.reserve_shared value both, pooled)
              (connected-IsBusy key c.key (put poolable lru is_closed fails s c.key value now).0
                (differ (ground (arith, both)))
                (ap (any (λ k. k == key)) (put-connecting is_closed fails s c.key value now)
                  ∙ busy))
        | inr alone ↦
            rw (poolable.reserve_unique value alone, pooled)
              (drop_connecting-IsBusy key c s (λ holds. differ (ground (arith, holds))) busy)
      ]

  step-IsBusy :
      (key : K) (s : Inner poolable lru) (call : PoolCall T K)
      → Leaves key call
      → IsBusy key s
      → IsBusy key (step poolable lru s call)
  unfolding step
  step-IsBusy key s (checks_out is_open now channel k waiter) h busy =
      ap (any (λ k. k == key)) (checkout-connecting is_open now channel s k waiter) ∙ busy
  step-IsBusy key s (returns is_open is_closed fails p now) h busy =
      ap (any (λ k. k == key)) (drop_pooled-connecting is_open is_closed fails s p now) ∙ busy
  step-IsBusy key s (opens is_closed fails c value now) h busy =
      pooled-IsBusy is_closed fails key c value now s h busy
  step-IsBusy key s (starts other ver) h busy = connecting-IsBusy key other ver s busy
  step-IsBusy key s (gives_up c) h busy = drop_connecting-IsBusy key c s h busy
  step-IsBusy key s (cancels is_closed k) h busy =
      ap (any (λ k. k == key)) (clean_waiters-connecting is_closed s k) ∙ busy
  step-IsBusy key s (ticks is_open now) h busy =
      ap (any (λ k. k == key)) (clear_expired-connecting is_open now s) ∙ busy

  abbrev pub AllLeave : K → List (PoolCall T K) → Type 0
  AllLeave key [] = Unit
  AllLeave key (call ∷ calls) = Leaves key call × AllLeave key calls

  run-IsBusy :
      (key : K) (s : Inner poolable lru) (calls : List (PoolCall T K))
      → AllLeave key calls
      → IsBusy key s
      → IsBusy key (run poolable lru s calls)
  unfolding run
  run-IsBusy key s [] h busy = busy
  run-IsBusy key s (call ∷ calls) (now, later) busy =
      run-IsBusy key (step poolable lru s call) calls later (step-IsBusy key s call now busy)

  -- While a guard for an HTTP/2 connection to a key is held, whatever else happens to the pool, no other
  -- is given for the key; once it is dropped another is given, and nobody waits for the key any more.
  -- What happens is any calls but the drop of a guard that the pool counts for that key, and the end of
  -- a connecting to that key with a connection that is shared.
  pub connecting-once :
      (s s' : Inner poolable lru) (key : K) (c : Connecting K) (calls : List (PoolCall T K))
      → connecting poolable lru s key http2 ≡ (s', some c)
      → AllLeave key calls
      → (let t = run poolable lru s' calls in
          ((connecting poolable lru t key http2).1 ≡ none)
          × (is_some (connecting poolable lru (drop_connecting poolable lru t c) key http2).1
              ≡ true)
          × (HashMap.get key (drop_connecting poolable lru t c).waiters ≡ none))
  unfolding drop_connecting connected
  connecting-once s s' key c calls given h =
      let (held, holds, named) = connecting-held poolable lru s s' key c given in
      let t = run poolable lru s' calls in
      (
        connecting-busy poolable lru t key (run-IsBusy key s' calls h held),
        connecting-free poolable lru (drop_connecting poolable lru t c) key
            (rw (holds, named, drop_connecting) (any-erase key t.connecting)),
        rw (holds, named, drop_connecting) (HashMap.get-remove_self key t.waiters),
      )
