-- ===== src/Pool/Tests.antt =====
-- The connection pool with HTTP clients and an unbounded cache, and the theorems at inputs that meet
-- their hypotheses.
use tlsurl.Base.{
  ℕ, ◌≤◌, ◌≡◌, ◌≢◌, ◌↔◌, refl, inl, Bool, true, false, Option, none, some, List, [], ◌∷◌, arith,
  Elem, is_some, Eq, ==_refl, ==_ne, nat_eq, length,
}
use tlsurl.HashMap.{HashMap, get-insert, get-remove}
use tlsurl.HashMap
use tlsurl.Pool.{Idle, LruApi, Config, Connecting, Pooled, expires, http2 as h2}
use tlsurl.Pool.Inner.{
  Inner, pool_new, pop, put, add_idle, spawn_idle_interval, connecting, drop_connecting,
  drop_pooled, clear_expired, pop_empty, idle_list,
}
use tlsurl.Pool.Checkout.{checkout, reuse}
use tlsurl.Pool.Client.{PoolClient, http1, http2, pool_client}
use tlsurl.Pool.Runs.{PoolCall, returns, starts, step, run, run-within_bounds}
use tlsurl.Pool.Reuse.{checkout-IsUsable, checkout-drop_pooled}
use tlsurl.Pool.Held.{connecting-once}

module _ {K V : Type 0} ⦃e : Eq K⦄ where
  abbrev map_values : (V → V) → HashMap K V → HashMap K V
  map_values f [] = []
  map_values f ((k, v) ∷ m) = (k, f v) ∷ map_values f m

  abbrev keys : HashMap K V → List K
  keys [] = []
  keys ((k, v) ∷ m) = k ∷ keys m

  get-map_values :
      (f : V → V) (m : HashMap K V) (k : K)
      → HashMap.get k (map_values f m)
        ≡ (elim (HashMap.get k m) as (λ o. Option V) [ none ↦ none | some v ↦ some (f v) ])
  unfolding HashMap.get
  get-map_values f [] k = refl
  get-map_values f ((j, v) ∷ m) k = ground (arith, get-map_values f m k)

  Elem-keys : (m : HashMap K V) (k : K) → Elem k (keys m) ↔ (is_some (HashMap.get k m) ≡ true)
  unfolding HashMap.get
  Elem-keys [] k = ground arith
  Elem-keys ((j, v) ∷ m) k = ground (arith, Elem-keys m k, e.beq_iff j k)

  insert_other :
      (m : HashMap K V) (k k' : K) (v : V)
      → k ≢ k'
      → HashMap.get k' (HashMap.insert k v m) ≡ HashMap.get k' m
  insert_other m k k' v ne = rw (get-insert k' k v m, ==_ne k k' ne) refl

  insert_same : (m : HashMap K V) (k : K) (v : V) → HashMap.get k (HashMap.insert k v m) ≡ some v
  insert_same m k v = rw (get-insert k k v m, ==_refl k) refl

get-nil : {V : Type 0} (k : ℕ) → HashMap.get {V = V} k [] ≡ none
unfolding HashMap.get
get-nil k = refl

-- A cache without a limit.
abbrev unbounded : {V : Type 0} → LruApi ℕ V
unbounded {V} = record {
  Cache = HashMap ℕ V;
  new = λ size. [];
  peek = λ c k. HashMap.get k c;
  insert = λ c k v. HashMap.insert k v c;
  pop = λ c k. HashMap.remove k c;
  map_values = map_values;
  keys = keys;
  peek-new = λ size k. get-nil k;
  peek-insert_same = insert_same;
  peek-insert_other = λ c k k' v ne. inl (insert_other c k k' v ne);
  peek-pop = λ c k k'. get-remove k' k c;
  peek-map_values = get-map_values;
  Elem-keys_iff = Elem-keys;
}

abbrev lru : LruApi ℕ (List (Idle PoolClient))
lru = unbounded

abbrev DemoPool : Type 0
DemoPool = Inner pool_client lru

abbrev config : Config
config = record { idle_timeout = some 1000; max_idle_per_host = 1; max_pool_size = none }

abbrev fresh : DemoPool
fresh = record {
  connecting = [];
  idle = [];
  max_idle_per_host = 1;
  waiters = [];
  idle_interval = none;
  timer_is_empty = false;
  timeout = some 1000;
}

abbrev first_client : PoolClient
first_client = record { conn_info = 0; tx = http1 0 }

abbrev second_client : PoolClient
second_client = record { conn_info = 1; tx = http2 1 }

abbrev never : ℕ → Bool
never tx = false

abbrev always : PoolClient → Bool
always c = true

abbrev lent : Pooled PoolClient ℕ
lent = record { value = first_client; is_reused = false; key = 7; pool = true }

made : pool_new pool_client lru config false ≡ some fresh
unfolding pool_new
made = refl

abbrev calls : List (PoolCall PoolClient ℕ)
calls = returns always never never lent 10 ∷ returns always never never lent 20 ∷ []

abbrev kept_list : List (Idle PoolClient)
kept_list = record { idle_at = 10; value = first_client } ∷ []

-- The second connection finds no room.
run-calls : HashMap.get 7 (run pool_client lru fresh calls).idle ≡ some kept_list
unfolding run step drop_pooled put add_idle spawn_idle_interval HashMap.get HashMap.insert
run-calls = refl

run-within_bounds_example : (1 ≤ length kept_list) × (length kept_list ≤ 1)
run-within_bounds_example =
    run-within_bounds pool_client lru config false fresh calls 7 kept_list made run-calls

abbrev awaited : DemoPool
awaited = record fresh { waiters = (7, 3 ∷ 4 ∷ []) ∷ [] }

checkout-drop_pooled_example :
    (checkout pool_client lru always 500 0
      (drop_pooled pool_client lru always never never fresh lent 10).0
      7
      none).2
    ≡ some (record lent { is_reused = true })
unfolding HashMap.get expires
checkout-drop_pooled_example =
    checkout-drop_pooled pool_client lru always 500 0 always never never fresh lent 10 none refl
      refl refl refl (omega arith) refl refl

abbrev stocked : DemoPool
stocked = record fresh { idle = (7, kept_list) ∷ [] }

checkout-stocked :
    (checkout pool_client lru always 500 0 stocked 7 none).2
    ≡ some (record lent { is_reused = true })
unfolding checkout pop reuse expires HashMap.get HashMap.insert HashMap.remove
checkout-stocked = refl

checkout-IsUsable_example :
    (entry : Idle PoolClient) × Elem entry (idle_list pool_client lru stocked 7)
    × (first_client ≡ entry.value)
    × (always entry.value ≡ true)
    × (expires (some 1000) entry.idle_at 500 ≡ false)
checkout-IsUsable_example =
    checkout-IsUsable pool_client lru always 500 0 stocked 7 none (record lent { is_reused = true })
      checkout-stocked

abbrev guarded : DemoPool
guarded = record fresh { connecting = 7 ∷ [] }

abbrev guard : Connecting ℕ
guard = record { key = 7; pool = true }

connecting-fresh : connecting pool_client lru fresh 7 h2 ≡ (guarded, some guard)
unfolding connecting
connecting-fresh = refl

-- While the guard is held a connection is given back and another checkout begins.
abbrev meanwhile : List (PoolCall PoolClient ℕ)
meanwhile = returns always never never lent 10 ∷ starts 7 h2 ∷ []

connecting-once_example :
    (let t = run pool_client lru guarded meanwhile in
      ((connecting pool_client lru t 7 h2).1 ≡ none)
      × (is_some (connecting pool_client lru (drop_connecting pool_client lru t guard) 7 h2).1
          ≡ true)
      × (HashMap.get 7 (drop_connecting pool_client lru t guard).waiters ≡ none))
connecting-once_example =
    connecting-once pool_client lru fresh guarded 7 guard meanwhile connecting-fresh (tt, (tt, tt))

clear_expired-stocked :
    clear_expired pool_client lru always 2000 stocked ≡ some (record stocked { idle = [] })
unfolding clear_expired pop_empty HashMap.get HashMap.remove
clear_expired-stocked = refl
