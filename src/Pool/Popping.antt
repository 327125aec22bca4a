-- ===== src/Pool/Popping.antt =====
-- src/client/layer/client/pool.rs, `IdlePopper::pop`: which idle connection is taken.
use tlsurl.Base.{
  ℕ, ◌≤◌, ◌≡◌, sym, subst, inl, inr, Bool, true, false, Option, some, List, [], ◌∷◌, arith, length,
  Elem, Eq, Bool-cases,
}
use tlsurl.Pool.{Poolable, Idle, LruApi, expires}
use tlsurl.Pool.Inner.{pop}

module _ {T K : Type 0} ⦃e : Eq K⦄ (poolable : Poolable T) (lru : LruApi K (List (Idle T)))
    (is_open : T → Bool) (timeout : Option ℕ) (now : ℕ) where
  open poolable use {can_share, reserve}

  abbrev taken : List (Idle T) → Option (Idle T) × List (Idle T)
  taken list = pop poolable lru is_open timeout now list

  -- A connection that can be used at this time.
  abbrev pub IsUsable : Idle T → Type 0
  IsUsable entry = (is_open entry.value ≡ true) × (expires timeout entry.idle_at now ≡ false)

  -- Taking never makes the list longer.
  pub length-pop : (list : List (Idle T)) → length (taken list).1 ≤ length list
  unfolding pop
  length-pop [] = omega arith
  length-pop (entry ∷ list) = ground (arith, length-pop list)

  -- The first connection of the list is taken if it can be used.
  pub pop-first :
      (entry : Idle T) (list : List (Idle T))
      → IsUsable entry
      → (taken (entry ∷ list)).0 ≡ some entry
  unfolding pop
  pop-first entry list (open_now, in_time) = elim (Bool-cases (can_share entry.value)) [
    | inl s ↦ ground (arith, open_now, in_time, poolable.reserve_shared entry.value s)
    | inr u ↦ ground (arith, open_now, in_time, poolable.reserve_unique entry.value u)
  ]

  -- What is taken stood in the list, open and in time.
  pub pop-IsUsable :
      (list : List (Idle T)) (entry : Idle T)
      → (taken list).0 ≡ some entry
      → Elem entry list × IsUsable entry
  unfolding pop
  pop-IsUsable [] entry h = cc h
  pop-IsUsable (x ∷ list) entry h = elim (Bool-cases (is_open x.value)) [
    | inr closed ↦
        let (there, usable) = pop-IsUsable list entry (ground (arith, closed, h)) in
        (inr there, usable)
    | inl open_now ↦ elim (Bool-cases (expires timeout x.idle_at now)) [
      | inl late ↦
          let (there, usable) = pop-IsUsable list entry (ground (arith, open_now, late, h)) in
          (inr there, usable)
      | inr in_time ↦
          let same : x ≡ entry = cc (pop-first x list (open_now, in_time), h) in
          (inl (sym same), subst IsUsable same (open_now, in_time))
    ]
  ]
