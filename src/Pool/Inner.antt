-- ===== src/Pool/Inner.antt =====
-- src/client/layer/client/pool.rs: `IdlePopper`, and the methods of `PoolInner` and of the guards
-- that call them under the lock. A list of idle connections has the end of the `Vec` first.
use tlsurl.Base.{
  ℕ, ◌-◌, Bool, true, false, not, ◌&&◌, ◌||◌, Option, none, some, List, [], ◌∷◌, ltb, leb, nat_beq,
  is_nil, is_some, any, filter, length, unwrap_or, if◌then◌else◌, Eq, ◌==◌,
}
use tlsurl.HashMap
use tlsurl.Pool.{
  Ver, auto, http2, shared, unique, Poolable, Idle, LruApi, PoolInner, Config, is_enabled,
  Connecting, Pooled, expires,
}

-- What is sent to waiting checkouts: the channel and the connection.
abbrev pub Sent : Type 0 → Type 0
Sent T = List (ℕ × T)

-- The list without a key (`HashSet::remove`).
unfoldable pub erase : {K : Type 0} ⦃e : Eq K⦄ → K → List K → List K
erase key [] = []
erase key (k ∷ ks) = if k == key then erase key ks else k ∷ erase key ks

module _ {T K : Type 0} ⦃e : Eq K⦄ (poolable : Poolable T) (lru : LruApi K (List (Idle T))) where
  open poolable use {can_share, reserve}
  open lru use {Cache, peek}

  abbrev pub Inner : Type 0
  Inner = PoolInner Cache K

  -- `Pool::new`: `none` is a pool that is disabled.
  unfoldable pub pool_new : Config → Bool → Option Inner
  pool_new config timer_is_empty =
      if is_enabled config
      then some (record {
        connecting = [];
        idle = lru.new config.max_pool_size;
        max_idle_per_host = config.max_idle_per_host;
        waiters = [];
        idle_interval = none;
        timer_is_empty = timer_is_empty;
        timeout = config.idle_timeout;
      })
      else none

  unfoldable pub pop : (T → Bool) → Option ℕ → ℕ → List (Idle T) → Option (Idle T) × List (Idle T)
  pop is_open expiration now [] = (none, [])
  pop is_open expiration now (entry ∷ list) =
      let rest = pop is_open expiration now list in
      if not (is_open entry.value)
      then rest
      else if expires expiration entry.idle_at now
      then rest
      else elim (reserve entry.value) [
        | shared to_reinsert to_checkout ↦ (
          some (record { idle_at = entry.idle_at; value = to_checkout }),
          record { idle_at = now; value = to_reinsert } ∷ list,
        )
        | unique value ↦ (some (record { idle_at = entry.idle_at; value = value }), list)
      ]

  -- The loop of `put` over the waiters: what is left of the value, the waiters that are left, and
  -- what is sent. A channel can close between the test and the sending.
  unfoldable pub offer : (ℕ → Bool) → (ℕ → Bool) → T → List ℕ → Option T × List ℕ × Sent T
  offer is_closed fails value [] = (some value, [], [])
  offer is_closed fails value (tx ∷ waiters) =
      if is_closed tx then offer is_closed fails value waiters else elim (reserve value) [
        | shared to_keep to_send ↦
            if fails tx
            then offer is_closed fails to_send waiters
            else let (left, others, sends) = offer is_closed fails to_keep waiters in
              (left, others, (tx, to_send) ∷ sends)
        | unique value' ↦
            if fails tx
            then offer is_closed fails value' waiters
            else (none, waiters, (tx, value') ∷ [])
      ]

  unfoldable pub spawn_idle_interval : Inner → Inner
  spawn_idle_interval s = if is_some s.idle_interval then s else elim s.timeout [
    | none ↦ s
    | some dur ↦
        if nat_beq dur 0 || s.timer_is_empty
        then s
        else record s { idle_interval = some (if ltb dur 90 then 90 else dur) }
  ]

  abbrev pub idle_list : Inner → K → List (Idle T)
  idle_list s key = unwrap_or (peek s.idle key) []

  unfoldable pub add_idle : Inner → K → T → ℕ → Inner
  add_idle s key value now =
      let list = idle_list s key in
      if leb s.max_idle_per_host (length list)
      then record s { idle = lru.insert s.idle key list }
      else spawn_idle_interval (record s {
        idle = lru.insert s.idle key (record { idle_at = now; value = value } ∷ list);
      })

  -- The waiters of a key are taken out of the map once there are none.
  abbrev pub set_waiters : Inner → K → List ℕ → Inner
  set_waiters s key waiters = record s {
    waiters =
        if is_nil waiters
        then HashMap.remove key s.waiters
        else HashMap.insert key waiters s.waiters;
  }

  unfoldable pub put : (ℕ → Bool) → (ℕ → Bool) → Inner → K → T → ℕ → Inner × Sent T
  put is_closed fails s key value now =
      if can_share value && is_some (peek s.idle key)
      then (s, [])
      else elim (HashMap.get key s.waiters) [
        | none ↦ (add_idle s key value now, [])
        | some waiters ↦
            let (left, others, sends) = offer is_closed fails value waiters in
            let s' = set_waiters s key others in
            elim left [ none ↦ (s', sends) | some v ↦ (add_idle s' key v now, sends) ]
      ]

  unfoldable pub connected : Inner → K → Inner
  connected s key = record s {
    connecting = erase key s.connecting;
    waiters = HashMap.remove key s.waiters;
  }

  unfoldable pub clean_waiters : (ℕ → Bool) → Inner → K → Inner
  clean_waiters is_closed s key = elim (HashMap.get key s.waiters) [
    | none ↦ s
    | some waiters ↦ set_waiters s key (filter (λ tx. not (is_closed tx)) waiters)
  ]

  abbrev pub is_fresh : (T → Bool) → ℕ → ℕ → Idle T → Bool
  is_fresh is_open dur now entry = is_open entry.value && not (ltb dur (now - entry.idle_at))

  unfoldable pub pop_empty : Cache → List K → Cache
  pop_empty c [] = c
  pop_empty c (k ∷ ks) =
      let rest = pop_empty c ks in if is_nil (unwrap_or (peek c k) []) then lru.pop rest k else rest

  -- `none` is the panic where no timeout is set.
  unfoldable pub clear_expired : (T → Bool) → ℕ → Inner → Option Inner
  clear_expired is_open now s = elim s.timeout [
    | none ↦ none
    | some dur ↦
        let c = lru.map_values (filter (is_fresh is_open dur now)) s.idle in
        some (record s { idle = pop_empty c (lru.keys c) })
  ]

  -- `Pool::connecting` and `Drop for Connecting`, where the pool is enabled.
  unfoldable pub connecting : Inner → K → Ver → Inner × Option (Connecting K)
  connecting s key auto = (s, some (record { key = key; pool = false }))
  connecting s key http2 =
      if any (λ k. k == key) s.connecting
      then (s, none)
      else (record s { connecting = key ∷ s.connecting }, some (record { key = key; pool = true }))

  unfoldable pub drop_connecting : Inner → Connecting K → Inner
  drop_connecting s c = if c.pool then connected s c.key else s

  -- `Pool::pooled`; a guard that is handed over is not dropped with effect.
  unfoldable pub pooled :
      (ℕ → Bool) → (ℕ → Bool) → Inner → Connecting K → T → ℕ → Inner × Sent T × Pooled T K
  pooled is_closed fails s c value now = elim (reserve value) [
    | shared to_insert to_return ↦
        let (s', sends) = put is_closed fails s c.key to_insert now in
        (
          connected s' c.key,
          sends,
          record { value = to_return; is_reused = false; key = c.key; pool = false },
        )
    | unique value' ↦ (
      drop_connecting s c,
      [],
      record { value = value'; is_reused = false; key = c.key; pool = true },
    )
  ]

  -- `Drop for Pooled`, while the pool lives.
  unfoldable pub drop_pooled :
      (T → Bool) → (ℕ → Bool) → (ℕ → Bool) → Inner → Pooled T K → ℕ → Inner × Sent T
  drop_pooled is_open is_closed fails s p now =
      if not (is_open p.value)
      then (s, [])
      else if p.pool
      then put is_closed fails s p.key p.value now
      else (s, [])
