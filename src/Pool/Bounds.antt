-- ===== src/Pool/Bounds.antt =====
-- src/client/layer/client/pool.rs: the idle lists through every operation of the pool.
use tlsurl.Base.{
  ℕ, ◌≤◌, ◌≡◌, refl, sym, subst, ◌∙◌, ap, inl, inr, Bool, false, some, List, [], ◌∷◌, arith, length,
  is_nil, filter, unwrap_or, Elem, Eq, ◌==◌, ==_refl, eq_of_==, Bool-cases, Option-cases,
}
use tlsurl.Pool.{Poolable, Idle, LruApi}
use tlsurl.Pool.Inner.{pop_empty}

length-filter : {A : Type 0} (p : A → Bool) (xs : List A) → length (filter p xs) ≤ length xs
length-filter p [] = omega arith
length-filter p (x ∷ xs) = ground (arith, length-filter p xs)

pub length_of_nil : {A : Type 0} (xs : List A) → is_nil xs ≡ false → 1 ≤ length xs
length_of_nil [] h = cc h
length_of_nil (x ∷ xs) h = omega arith

module _ {T K : Type 0} ⦃e : Eq K⦄ (poolable : Poolable T) (lru : LruApi K (List (Idle T)))
    (max : ℕ) where
  open lru use {Cache, peek, insert}

  -- Each key has a list of at least one and at most `max` connections.
  unfoldable pub AllWithin : Cache → Type 0
  AllWithin c =
      (k : K) (list : List (Idle T))
      → peek c k ≡ some list
      → (1 ≤ length list) × (length list ≤ max)

  pub insert-AllWithin :
      (c : Cache) (k : K) (v : List (Idle T))
      → AllWithin c
      → 1 ≤ length v
      → length v ≤ max
      → AllWithin (insert c k v)
  unfolding AllWithin
  insert-AllWithin c k v w low high k' list at = elim (Bool-cases (k == k')) [
    | inl same ↦
        let is_v : v ≡ list =
          cc (lru.peek-insert_same c k v, ap (peek (insert c k v)) (eq_of_== k k' same), at) in
        subst (λ l. (1 ≤ length l) × (length l ≤ max)) is_v (low, high)
    | inr other ↦ elim (lru.peek-insert_other c k k' v (λ q. ground (arith, ==_refl k, other, q))) [
      | inl kept ↦ w k' list (sym kept ∙ at)
      | inr gone ↦ cc (gone, at)
    ]
  ]

  -- A key is taken out, whatever was written under it just before.
  pub pop-insert-AllWithin :
      (c : Cache) (k : K) (v : List (Idle T)) → AllWithin c → AllWithin (lru.pop (insert c k v) k)
  unfolding AllWithin
  pop-insert-AllWithin c k v w k' list at = elim (Bool-cases (k == k')) [
    | inl same ↦ ground (arith, lru.peek-pop (insert c k v) k k', same, at)
    | inr other ↦
        let through : peek (insert c k v) k' ≡ some list =
          ground (arith, lru.peek-pop (insert c k v) k k', other, at) in
        elim (lru.peek-insert_other c k k' v (λ q. ground (arith, ==_refl k, other, q))) [
          | inl kept ↦ w k' list (sym kept ∙ through)
          | inr gone ↦ cc (gone, through)
        ]
  ]

  pub pop-AllWithin : (c : Cache) (k : K) → AllWithin c → AllWithin (lru.pop c k)
  unfolding AllWithin
  pop-AllWithin c k w k' list at = ground (arith, lru.peek-pop c k k', at, w k' list)

  peek-pop_empty :
      (c : Cache) (ks : List K) (k : K) (list : List (Idle T))
      → peek (pop_empty poolable lru c ks) k ≡ some list
      → (peek c k ≡ some list) × (Elem k ks → is_nil list ≡ false)
  unfolding pop_empty
  peek-pop_empty c [] k list at = (at, λ m. absurd m)
  peek-pop_empty c (x ∷ ks) k list at =
      let rest = pop_empty poolable lru c ks in
      elim (Bool-cases (is_nil (unwrap_or (peek c x) []))) [
        | inl empty ↦ elim (Bool-cases (x == k)) [
          | inl same ↦ ground (arith, lru.peek-pop rest x k, empty, same, at)
          | inr other ↦
              let through : peek rest k ≡ some list =
                ground (arith, lru.peek-pop rest x k, empty, other, at) in
              let (there, clean) = peek-pop_empty c ks k list through in
              (
                there,
                λ m. elim m [ inl q ↦ ground (arith, ==_refl k, other, q) | inr m' ↦ clean m' ],
              )
        ]
        | inr full ↦
            let (there, clean) = peek-pop_empty c ks k list (ground (arith, full, at)) in
            (there, λ m. elim m [ inl q ↦ ground (arith, full, there, q) | inr m' ↦ clean m' ])
      ]

  filter-map :
      (p : Idle T → Bool) (c : Cache) (k : K) (list : List (Idle T))
      → peek (lru.map_values (filter p) c) k ≡ some list
      → (old : List (Idle T)) × (peek c k ≡ some old) × (filter p old ≡ list)
  filter-map p c k list at = elim (Option-cases (peek c k)) [
    | inl nothing ↦ cc (rw (lru.peek-map_values (filter p) c k, nothing) at at)
    | inr (old, there) ↦ (old, there, cc (rw (lru.peek-map_values (filter p) c k, there) at at))
  ]

  -- The eviction keeps the lists within their bounds and leaves no empty one.
  pub evict-AllWithin :
      (p : Idle T → Bool) (c : Cache)
      → AllWithin c
      → (let c' = lru.map_values (filter p) c in
          AllWithin (pop_empty poolable lru c' (lru.keys c')))
  unfolding AllWithin
  evict-AllWithin p c w k list at =
      let c' = lru.map_values (filter p) c in
      let (there, clean) = peek-pop_empty c' (lru.keys c') k list at in
      let (old, before, filtered) = filter-map p c k list there in
      let (low, high) = w k old before in
      let member = (lru.Elem-keys_iff c' k).1 (rw (there) refl) in
      (
        length_of_nil list (clean member),
        subst (λ l. length l ≤ max) filtered (omega (arith, high, length-filter p old)),
      )
