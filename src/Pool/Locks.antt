-- ===== src/Pool/Locks.antt =====
-- src/client/layer/client/pool.rs: the guards of the HTTP/2 connections that are being opened, and what the
-- idle task evicts.
use tlsurl.Base.{
  ℕ, ◌≡◌, refl, ◌∙◌, ap, inl, inr, Bool, true, false, ◌&&◌, none, some, List, [], ◌∷◌, arith, any,
  any_of_Elem, filter, is_nil, is_some, unwrap_or, Eq, ◌==◌, ==_refl, if◌then◌else◌, Option-cases,
}
use tlsurl.Pool.{Poolable, Idle, LruApi, Connecting, http2}
use tlsurl.Pool.Inner.{Inner, erase, connecting, pop_empty, clear_expired, is_fresh, idle_list}

pub any-erase :
    {K : Type 0} ⦃e : Eq K⦄ (key : K) (ks : List K) → any (λ k. k == key) (erase key ks) ≡ false
unfolding erase
any-erase key [] = refl
any-erase key (k ∷ ks) = ground (arith, any-erase key ks)

module _ {T K : Type 0} ⦃e : Eq K⦄ (poolable : Poolable T) (lru : LruApi K (List (Idle T))) where
  pub connecting-held :
      (s s' : Inner poolable lru) (key : K) (c : Connecting K)
      → connecting poolable lru s key http2 ≡ (s', some c)
      → (any (λ k. k == key) s'.connecting ≡ true) × (c.pool ≡ true) × (c.key ≡ key)
  unfolding connecting
  connecting-held s s' key c h = ground (arith, ==_refl key)

  pub connecting-busy :
      (s : Inner poolable lru) (key : K)
      → any (λ k. k == key) s.connecting ≡ true
      → (connecting poolable lru s key http2).1 ≡ none
  unfolding connecting
  connecting-busy s key busy = ground (arith, busy)

  pub connecting-free :
      (s : Inner poolable lru) (key : K)
      → any (λ k. k == key) s.connecting ≡ false
      → is_some (connecting poolable lru s key http2).1 ≡ true
  unfolding connecting
  connecting-free s key free = ground (arith, free)

  peek-pop_empty :
      (c : lru.Cache) (ks : List K) (k : K)
      → lru.peek (pop_empty poolable lru c ks) k ≡ (
          if any (λ j. j == k) ks && is_nil (unwrap_or (lru.peek c k) [])
          then none
          else lru.peek c k)
  unfolding pop_empty
  peek-pop_empty c [] k = refl
  peek-pop_empty c (x ∷ ks) k =
      ground (
        arith,
        peek-pop_empty c ks k,
        lru.peek-pop (pop_empty poolable lru c ks) x k,
        e.beq_iff x k,
      )

  left-eq :
      (fresh : Idle T → Bool) (c : lru.Cache) (key : K)
      → (let c' = lru.map_values (filter fresh) c in
          let left = filter fresh (unwrap_or (lru.peek c key) []) in
          (if any (λ j. j == key) (lru.keys c') && is_nil (unwrap_or (lru.peek c' key) [])
            then none
            else lru.peek c' key)
          ≡ (if is_nil left then none else some left))
  left-eq fresh c key =
      let c' = lru.map_values (filter fresh) c in
      elim (Option-cases (lru.peek c key)) [
        | inl nothing ↦
            let gone : lru.peek c' key ≡ none =
              lru.peek-map_values (filter fresh) c key ∙ rw (nothing) refl in
            ground (arith, nothing, gone)
        | inr (old, there) ↦
            let kept : lru.peek c' key ≡ some (filter fresh old) =
              lru.peek-map_values (filter fresh) c key ∙ rw (there) refl in
            let member =
              any_of_Elem (λ j. j == key) key (lru.keys c')
                ((lru.Elem-keys_iff c' key).1 (rw (kept) refl)) (==_refl key) in
            ground (arith, there, kept, member)
      ]

  -- The idle task keeps exactly the idle connections that are open and in time, and takes a key out
  -- that has none.
  pub peek-clear_expired :
      (is_open : T → Bool) (now dur : ℕ) (s s' : Inner poolable lru) (key : K)
      → s.timeout ≡ some dur
      → clear_expired poolable lru is_open now s ≡ some s'
      → (let left = filter (is_fresh poolable lru is_open dur now) (idle_list poolable lru s key) in
          lru.peek s'.idle key ≡ (if is_nil left then none else some left))
  unfolding clear_expired
  peek-clear_expired is_open now dur s s' key timed h =
      let fresh = is_fresh poolable lru is_open dur now in
      let c = lru.map_values (filter fresh) s.idle in
      let idle : s'.idle ≡ pop_empty poolable lru c (lru.keys c) = ground (arith, timed, h) in
      ap (λ q. lru.peek q key) idle ∙ peek-pop_empty c (lru.keys c) key ∙ left-eq fresh s.idle key
