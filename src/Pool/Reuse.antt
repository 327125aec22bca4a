-- ===== src/Pool/Reuse.antt =====
-- src/client/layer/client/pool.rs: a connection that is given back is the next one taken, and none
-- that is closed or too old is taken.
use tlsurl.Base.{
  ℕ, ◌<◌, ◌≡◌, refl, sym, ◌∙◌, ap, inl, inr, Bool, true, false, Option, none, some, List, ◌∷◌,
  arith, length, leb, Elem, Eq, Option-cases,
}
use tlsurl.HashMap
use tlsurl.Pool.{Poolable, Idle, LruApi, Pooled, expires}
use tlsurl.Pool.Inner.{Inner, pop, idle_list, spawn_idle_interval, add_idle, put, drop_pooled}
use tlsurl.Pool.Checkout.{checkout, reuse}
use tlsurl.Pool.Popping.{pop-IsUsable, pop-first}

module _ {T K : Type 0} ⦃e : Eq K⦄ (poolable : Poolable T) (lru : LruApi K (List (Idle T)))
    (is_open : T → Bool) (now channel : ℕ) where
  -- A connection that a checkout takes stood among the key's idle connections, and it is open and
  -- not idle for longer than the timeout.
  pub checkout-IsUsable :
      (s : Inner poolable lru) (key : K) (waiter : Option ℕ) (p : Pooled T K)
      → (checkout poolable lru is_open now channel s key waiter).2 ≡ some p
      → (entry : Idle T) × Elem entry (idle_list poolable lru s key)
        × (p.value ≡ entry.value)
        × (is_open entry.value ≡ true)
        × (expires s.timeout entry.idle_at now ≡ false)
  unfolding checkout reuse
  checkout-IsUsable s key waiter p h = elim (Option-cases (lru.peek s.idle key)) [
    | inl nothing ↦ cc (rw (nothing, checkout) at h)
    | inr (list, there) ↦ elim (Option-cases (pop poolable lru is_open s.timeout now list).0) [
      | inl missing ↦ cc (rw (there, missing, checkout) at h)
      | inr (entry, found) ↦
          let (among, usable) = pop-IsUsable poolable lru is_open s.timeout now list entry found in
          let taken : reuse poolable lru key entry.value ≡ p =
            cc (rw (there, found, checkout) at h) in
          (entry, rw (there) among, ap (λ q. q.value) (sym taken), usable.0, usable.1)
    ]
  ]

  spawn-timeout :
      (s : Inner poolable lru)
      → ((spawn_idle_interval poolable lru s).idle ≡ s.idle)
        × ((spawn_idle_interval poolable lru s).timeout ≡ s.timeout)
  unfolding spawn_idle_interval
  spawn-timeout s = ground arith

  add_idle-peek :
      (s : Inner poolable lru) (key : K) (value : T) (then : ℕ)
      → length (idle_list poolable lru s key) < s.max_idle_per_host
      → (lru.peek (add_idle poolable lru s key value then).idle key
          ≡ some (record { idle_at = then; value = value } ∷ idle_list poolable lru s key))
        × ((add_idle poolable lru s key value then).timeout ≡ s.timeout)
  unfolding add_idle
  add_idle-peek s key value then room =
      let list = idle_list poolable lru s key in
      let full : leb s.max_idle_per_host (length list) ≡ false = ground (arith, room) in
      let added : Inner poolable lru = record s {
        idle = lru.insert s.idle key (record { idle_at = then; value = value } ∷ list);
      } in
      let (same_idle, same_timeout) = spawn-timeout added in
      rw (full, add_idle)
        (ap (λ c. lru.peek c key) same_idle ∙ lru.peek-insert_same s.idle key _, same_timeout)

  checkout-first :
      (s : Inner poolable lru) (key : K) (waiter : Option ℕ) (entry : Idle T) (list : List (Idle T))
      → lru.peek s.idle key ≡ some (entry ∷ list)
      → is_open entry.value ≡ true
      → expires s.timeout entry.idle_at now ≡ false
      → (checkout poolable lru is_open now channel s key waiter).2
        ≡ some (reuse poolable lru key entry.value)
  unfolding checkout
  checkout-first s key waiter entry list there alive in_time =
      rw (there, pop-first poolable lru is_open s.timeout now entry list (alive, in_time), checkout)
        refl

  drop_pooled-idle :
      (still_open : T → Bool) (is_closed fails : ℕ → Bool) (s : Inner poolable lru) (p : Pooled T K)
      (back : ℕ)
      → p.pool ≡ true
      → poolable.can_share p.value ≡ false
      → still_open p.value ≡ true
      → HashMap.get p.key s.waiters ≡ none
      → (drop_pooled poolable lru still_open is_closed fails s p back).0
        ≡ add_idle poolable lru s p.key p.value back
  unfolding drop_pooled put
  drop_pooled-idle still_open is_closed fails s p back attached alone alive nobody =
      ground (arith, attached, alone, alive, nobody)

  -- A connection that is given back while it is open, nobody waits for its key and there is room for
  -- it is the one that the next checkout of the key takes, if it is still open and in time.
  pub checkout-drop_pooled :
      (still_open : T → Bool) (is_closed fails : ℕ → Bool) (s : Inner poolable lru) (p : Pooled T K)
      (back : ℕ) (waiter : Option ℕ)
      → p.pool ≡ true
      → poolable.can_share p.value ≡ false
      → still_open p.value ≡ true
      → HashMap.get p.key s.waiters ≡ none
      → length (idle_list poolable lru s p.key) < s.max_idle_per_host
      → is_open p.value ≡ true
      → expires s.timeout back now ≡ false
      → (let s' = (drop_pooled poolable lru still_open is_closed fails s p back).0 in
          (checkout poolable lru is_open now channel s' p.key waiter).2
          ≡ some (record p { is_reused = true }))
  unfolding reuse
  checkout-drop_pooled still_open is_closed fails s p back waiter attached alone alive nobody room
        alive_now in_time =
      let s' = (drop_pooled poolable lru still_open is_closed fails s p back).0 in
      let same = drop_pooled-idle still_open is_closed fails s p back attached alone alive nobody in
      let (there, timeout) = add_idle-peek s p.key p.value back room in
      checkout-first s' p.key waiter (record { idle_at = back; value = p.value }) _
        (ap (λ q. lru.peek q.idle p.key) same ∙ there) alive_now
        (ap (λ o. expires o back now) (ap (λ q. q.timeout) same ∙ timeout) ∙ in_time)
      ∙ ground (arith, alone, attached)
