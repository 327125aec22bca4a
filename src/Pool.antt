-- ===== src/Pool.antt =====
-- src/client/layer/client/pool.rs: the types of the connection pool. The cache of the `lru` crate
-- is an interface.
pub mod Inner
pub mod Checkout
pub mod Popping
pub mod Bounds
pub mod Preserve
pub mod Runs
pub mod Handover
pub mod Reuse
pub mod Locks
pub mod Held
pub mod Client
mod Tests
use tlsurl.Base.{
  ℕ, ◌≡◌, ◌≢◌, ◌⊎◌, ◌-◌, Bool, true, false, Option, none, some, Text, List, ltb, is_some, Eq, ◌==◌,
  if◌then◌else◌, Elem, ◌↔◌,
}
use tlsurl.HashMap.{HashMap}

pub data Ver : Type 0 where
  auto http2 : Ver

pub data Reservation (T : Type 0) : Type 0 where
  shared : T → T → Reservation T
  unique : T → Reservation T

-- A clone is its original here. Whether a connection is open changes by itself, so that the
-- operations that ask take the answers as an argument.
pub record Poolable (T : Type 0) : Type 0 where
  pub can_share : T → Bool
  pub reserve : T → Reservation T
  pub reserve_unique : (v : T) → can_share v ≡ false → reserve v ≡ unique v
  pub reserve_shared : (v : T) → can_share v ≡ true → reserve v ≡ shared v v

pub record Idle (T : Type 0) : Type 0 where
  pub idle_at : ℕ
  pub value : T

-- `insert` is `get_or_insert_mut` or `get_mut` with what is written through the reference; where
-- the key is new it may evict another.
pub record LruApi (K V : Type 0) ⦃e : Eq K⦄ : Type 1 where
  pub Cache : Type 0
  -- `unbounded`, or `new` with a capacity
  pub new : Option ℕ → Cache
  pub peek : Cache → K → Option V
  pub insert : Cache → K → V → Cache
  pub pop : Cache → K → Cache
  -- `iter_mut` with one write to each value
  pub map_values : (V → V) → Cache → Cache
  pub keys : Cache → List K
  pub peek-new : (size : Option ℕ) (k : K) → peek (new size) k ≡ none
  pub peek-insert_same : (c : Cache) (k : K) (v : V) → peek (insert c k v) k ≡ some v
  pub peek-insert_other :
      (c : Cache) (k k' : K) (v : V)
      → k ≢ k'
      → (peek (insert c k v) k' ≡ peek c k') ⊎ (peek (insert c k v) k' ≡ none)
  pub peek-pop : (c : Cache) (k k' : K) → peek (pop c k) k' ≡ (if k == k' then none else peek c k')
  pub peek-map_values :
      (f : V → V) (c : Cache) (k : K)
      → peek (map_values f c) k
        ≡ (elim (peek c k) as (λ o. Option V) [ none ↦ none | some v ↦ some (f v) ])
  pub Elem-keys_iff : (c : Cache) (k : K) → Elem k (keys c) ↔ (is_some (peek c k) ≡ true)

-- A waiter is the number of its channel. The timeout is in milliseconds, and so are the times.
pub record PoolInner (C K : Type 0) : Type 0 where
  pub connecting : List K
  pub idle : C
  pub max_idle_per_host : ℕ
  pub waiters : HashMap K (List ℕ)
  -- the duration of the idle task, once it runs
  pub idle_interval : Option ℕ
  pub timer_is_empty : Bool
  pub timeout : Option ℕ

pub record Config : Type 0 where
  pub idle_timeout : Option ℕ
  pub max_idle_per_host : ℕ
  pub max_pool_size : Option ℕ

-- `Config::is_enabled`
abbrev pub is_enabled : Config → Bool
is_enabled config = ltb 0 config.max_idle_per_host

-- `pool` tells whether the guard holds a reference to the pool.
pub record Connecting (K : Type 0) : Type 0 where
  pub key : K
  pub pool : Bool

pub record Pooled (T K : Type 0) : Type 0 where
  pub value : T
  pub is_reused : Bool
  pub key : K
  pub pool : Bool

pub data Error : Type 0 where
  pool_disabled checkout_no_longer_wanted checked_out_closed_value : Error

-- `Expiration::expires`; the subtraction saturates.
unfoldable pub expires : Option ℕ → ℕ → ℕ → Bool
expires none instant now = false
expires (some timeout) instant now = ltb timeout (now - instant)
