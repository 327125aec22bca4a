-- ===== src/Pool/Handover.antt =====
-- src/client/layer/client/pool.rs, `put`: who gets a connection that comes free.
use tlsurl.Base.{
  ℕ, ◌≡◌, refl, ltb, length, unwrap_or, Bool, true, false, not, ◌&&◌, Option, none, some, List, [],
  ◌∷◌, map, arith, Eq, is_some, filter, if◌then◌else◌,
}
use tlsurl.HashMap
use tlsurl.Pool.{Poolable, Idle, LruApi}
use tlsurl.Pool.Inner.{Inner, Sent, offer, put, add_idle, set_waiters}

-- A waiter that takes what is sent to it.
abbrev pub listens : (ℕ → Bool) → (ℕ → Bool) → ℕ → Bool
listens is_closed fails tx = not (is_closed tx) && not (fails tx)

module _ {T K : Type 0} ⦃e : Eq K⦄ (poolable : Poolable T) (lru : LruApi K (List (Idle T)))
    (is_closed fails : ℕ → Bool) where
  open poolable use {can_share, reserve}

  -- The first waiter that listens, and those behind it.
  abbrev pub first_listening : List ℕ → Option (ℕ × List ℕ)
  first_listening [] = none
  first_listening (tx ∷ waiters) =
      if listens is_closed fails tx then some (tx, waiters) else first_listening waiters

  -- What `offer` does with a connection that is not shared.
  abbrev pub unique_offer : T → Option (ℕ × List ℕ) → Option T × List ℕ × Sent T
  unique_offer value none = (some value, [], [])
  unique_offer value (some (tx, waiters)) = (none, waiters, (tx, value) ∷ [])

  -- A shared connection goes to every waiter that listens, and stays.
  offer-shared :
      (value : T) (waiters : List ℕ)
      → can_share value ≡ true
      → offer poolable lru is_closed fails value waiters
        ≡ (some value, [], map (λ tx. (tx, value)) (filter (listens is_closed fails) waiters))
  unfolding offer
  offer-shared value [] both = refl
  offer-shared value (tx ∷ waiters) both =
      ground (arith, poolable.reserve_shared value both, offer-shared value waiters both)

  -- What `put` does with a connection that is not shared, given the first waiter that listens.
  abbrev pub handed :
      Inner poolable lru → K → T → ℕ → Option (ℕ × List ℕ) → Inner poolable lru × Sent T
  handed s key value now none =
      (add_idle poolable lru (set_waiters poolable lru s key []) key value now, [])
  handed s key value now (some (tx, others)) =
      (set_waiters poolable lru s key others, (tx, value) ∷ [])

  -- The end of `put`, after the loop over the waiters.
  abbrev finish :
      Inner poolable lru → K → ℕ → Option T × List ℕ × Sent T → Inner poolable lru × Sent T
  finish s key now (none, others, sends) = (set_waiters poolable lru s key others, sends)
  finish s key now (some value, others, sends) =
      (add_idle poolable lru (set_waiters poolable lru s key others) key value now, sends)

  put-finish :
      (s : Inner poolable lru) (key : K) (value : T) (now : ℕ) (waiters : List ℕ)
      (offered : Option T × List ℕ × Sent T)
      → (poolable.can_share value && is_some (lru.peek s.idle key)) ≡ false
      → HashMap.get key s.waiters ≡ some waiters
      → offer poolable lru is_closed fails value waiters ≡ offered
      → put poolable lru is_closed fails s key value now ≡ finish s key now offered
  unfolding put
  put-finish s key value now waiters (none, others, sends) free there o =
      ground (arith, free, there, o)
  put-finish s key value now waiters (some left, others, sends) free there o =
      ground (arith, free, there, o)

  -- The waiters of a key, of which there is no list without any.
  abbrev pub some_waiters : List ℕ → Option (List ℕ)
  some_waiters [] = none
  some_waiters (tx ∷ others) = some (tx ∷ others)

  -- The idle connections of a key with one more at the end, if there is room.
  abbrev pub with_idle : Inner poolable lru → K → Idle T → List (Idle T)
  with_idle s key entry =
      let old = unwrap_or (lru.peek s.idle key) [] in
      if ltb (length old) s.max_idle_per_host then entry ∷ old else old

  -- Where a connection that is not shared goes, given the first waiter that listens.
  abbrev pub GoesTo :
      Inner poolable lru → K → T → ℕ → Option (ℕ × List ℕ) → Inner poolable lru × Sent T → Type 0
  GoesTo s key value now none (s', sends) =
      (sends ≡ [])
      × (HashMap.get key s'.waiters ≡ none)
      × (lru.peek s'.idle key ≡ some (with_idle s key (record { idle_at = now; value = value })))
  GoesTo s key value now (some (tx, others)) (s', sends) =
      (sends ≡ (tx, value) ∷ [])
      × (HashMap.get key s'.waiters ≡ some_waiters others)
      × (s'.idle ≡ s.idle)

  -- A shared connection, where the key has no idle one yet, goes to every waiter that listens, and to
  -- the idle connections; nobody goes on waiting.
  pub put-shared :
      (s : Inner poolable lru) (key : K) (value : T) (now : ℕ) (waiters : List ℕ)
      → can_share value ≡ true
      → lru.peek s.idle key ≡ none
      → HashMap.get key s.waiters ≡ some waiters
      → put poolable lru is_closed fails s key value now ≡ (
        add_idle poolable lru (set_waiters poolable lru s key []) key value now,
        map (λ tx. (tx, value)) (filter (listens is_closed fails) waiters),
      )
  put-shared s key value now waiters both empty there =
      put-finish s key value now waiters _ (ground (arith, empty)) there
        (offer-shared value waiters both)
