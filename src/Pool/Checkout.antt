-- ===== src/Pool/Checkout.antt =====
-- src/client/layer/client/pool.rs: `Checkout`, the future that takes a connection or waits for one.
use tlsurl.Base.{
  ℕ, Bool, true, not, Option, none, some, List, [], ◌∷◌, ◌++◌, is_nil, unwrap_or, if◌then◌else◌, Eq,
}
use tlsurl.HashMap
use tlsurl.Pool.{
  Poolable, Idle, LruApi, Pooled, Error, pool_disabled, checkout_no_longer_wanted,
  checked_out_closed_value,
}
use tlsurl.Pool.Inner.{Inner, pop}

-- What the receiver of a channel has: nothing yet, a connection, or no sender any more.
pub data Received (T : Type 0) : Type 0 where
  nothing : Received T
  connection : T → Received T
  canceled : Received T

pub data Poll (A : Type 0) : Type 0 where
  pending : Poll A
  ready : A → Poll A
  failed : Error → Poll A

module _ {T K : Type 0} ⦃e : Eq K⦄ (poolable : Poolable T) (lru : LruApi K (List (Idle T))) where
  open poolable use {can_share}

  unfoldable pub reuse : K → T → Pooled T K
  reuse key value = record {
    value = value;
    is_reused = true;
    key = key;
    pool = not (can_share value);
  }

  -- The end of a checkout without an entry: the channel is a new one, unless one is there.
  abbrev pub add_waiter : Inner poolable lru → K → Option ℕ → ℕ → Inner poolable lru × Option ℕ
  add_waiter s key (some tx) channel = (s, some tx)
  add_waiter s key none channel = (
    record s {
      waiters =
          HashMap.insert key (unwrap_or (HashMap.get key s.waiters) [] ++ channel ∷ []) s.waiters;
    },
    some channel,
  )

  -- `Checkout::checkout`: the pool, the waiter and the connection.
  unfoldable pub checkout :
      (T → Bool)
      → ℕ
      → ℕ
      → Inner poolable lru
      → K
      → Option ℕ
      → Inner poolable lru × Option ℕ × Option (Pooled T K)
  checkout is_open now channel s key waiter = elim (lru.peek s.idle key) [
    | none ↦
        let (s', waiter') =
          add_waiter (record s { idle = lru.pop s.idle key }) key waiter channel in
        (s', waiter', none)
    | some list ↦
        let (found, left) = pop poolable lru is_open s.timeout now list in
        let idle' = lru.insert s.idle key left in
        elim found [
          | none ↦
              let (s', waiter') =
                add_waiter (record s { idle = lru.pop idle' key }) key waiter channel in
              (s', waiter', none)
          | some entry ↦ (
            record s { idle = if is_nil left then lru.pop idle' key else idle' },
            waiter,
            some (reuse key entry.value),
          )
        ]
  ]

  -- `Checkout::poll_waiter`, once there is a waiter.
  unfoldable pub poll_waiter : (T → Bool) → K → Received T → Poll (Pooled T K)
  poll_waiter is_open key nothing = pending
  poll_waiter is_open key (connection value) =
      if is_open value then ready (reuse key value) else failed checked_out_closed_value
  poll_waiter is_open key canceled = failed checkout_no_longer_wanted

  -- `Checkout::poll`: `none` is a pool that is disabled.
  unfoldable pub poll_checkout :
      (T → Bool)
      → ℕ
      → ℕ
      → Option (Inner poolable lru)
      → K
      → Option (ℕ × Received T)
      → Option (Inner poolable lru) × Option ℕ × Poll (Pooled T K)
  poll_checkout is_open now channel pool key (some (tx, received)) =
      (pool, elim received [ nothing ↦ some tx | _ ↦ none ], poll_waiter is_open key received)
  poll_checkout is_open now channel none key none = (none, none, failed pool_disabled)
  poll_checkout is_open now channel (some s) key none =
      let (s', waiter, found) = checkout is_open now channel s key none in
      (some s', waiter, elim found [ none ↦ pending | some p ↦ ready p ])
