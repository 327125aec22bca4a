-- ===== src/HashMap.antt =====
-- Rust's `std::collections::HashMap`, as an association list whose order is the order of iteration.
-- The maps of the cookie store and of the connection pool are values of this type.
use tlsurl.Base.{
  ◌≡◌, ◌↔◌, refl, sym, subst, All, All-Elem, ◌≢◌, inl, inr, Bool, true, false, Option, none, some,
  List, [], ◌∷◌, arith, if◌then◌else◌, Eq, ◌==◌, ==_refl, ==_ne, Elem, Bool-cases, Option-cases,
}

abbrev pub HashMap {ℓ} : Type ℓ → Type ℓ → Type ℓ
HashMap K V = List (K × V)

-- What a changed slot holds.
abbrev pub updated : {V : Type 0} → (V → V) → (V → Bool) → Option V → Option V
updated f empty none = none
updated f empty (some v) = if empty (f v) then none else some (f v)

module _ {K V : Type 0} ⦃e : Eq K⦄ where
  unfoldable pub get : K → HashMap K V → Option V
  get k [] = none
  get k ((j, v) ∷ m) = if j == k then some v else get k m

  -- An occupied slot is overwritten in place.
  unfoldable pub insert : K → V → HashMap K V → HashMap K V
  insert k v [] = (k, v) ∷ []
  insert k v ((j, w) ∷ m) = if j == k then (j, v) ∷ m else (j, w) ∷ insert k v m

  unfoldable pub remove : K → HashMap K V → HashMap K V
  remove k [] = []
  remove k ((j, v) ∷ m) = if j == k then remove k m else (j, v) ∷ remove k m

  -- A slot changed in place by `f`, and removed if that leaves it `empty`.
  unfoldable pub update_or_remove : (V → V) → (V → Bool) → K → HashMap K V → HashMap K V
  update_or_remove f empty k m = elim (get k m) [
    | none ↦ m
    | some v ↦ let v' = f v in if empty v' then remove k m else insert k v' m
  ]

  abbrev pub is_empty : HashMap K V → Bool
  is_empty [] = true
  is_empty (b ∷ m) = false

  -- Each key has one slot.
  abbrev pub IsMap : HashMap K V → Type 0
  IsMap [] = Unit
  IsMap ((k, v) ∷ m) = (get k m ≡ none) × IsMap m

  pub get-insert :
      (j k : K) (v : V) (m : HashMap K V)
      → get j (insert k v m) ≡ (if k == j then some v else get j m)
  unfolding get insert
  get-insert j k v [] = refl
  get-insert j k v ((i, w) ∷ m) =
      ground (arith, e.beq_iff i k, e.beq_iff i j, e.beq_iff k j, get-insert j k v m)

  pub get-remove :
      (j k : K) (m : HashMap K V) → get j (remove k m) ≡ (if k == j then none else get j m)
  unfolding get remove
  get-remove j k [] = ground arith
  get-remove j k ((i, w) ∷ m) =
      ground (arith, e.beq_iff i k, e.beq_iff i j, e.beq_iff k j, get-remove j k m)

  pub get-update_or_remove :
      (f : V → V) (empty : V → Bool) (j k : K) (m : HashMap K V)
      → get j (update_or_remove f empty k m)
        ≡ (if k == j then updated f empty (get k m) else get j m)
  unfolding update_or_remove
  get-update_or_remove f empty j k m = elim (Option-cases (get k m)) [
    | inl found ↦ rw (found, update_or_remove) (missed found (e.beq_iff k j))
    | inr (v, found) ↦
        rw (found, update_or_remove)
          (elim (Bool-cases (empty (f v))) [
            | inl t ↦ rw (t, get-remove j k m)
            | inr t ↦ rw (t, get-insert j k (f v) m)
          ])
  ]
    where
      missed :
          get k m ≡ none
          → ((k == j) ≡ true) ↔ (k ≡ j)
          → get j m ≡ (if k == j then none else get j m)
      missed found same = elim (Bool-cases (k == j)) [
        | inl t ↦ rw t (rw (← same.0 t) found)
        | inr t ↦ rw t
      ]

  pub get-insert_self : (k : K) (v : V) (m : HashMap K V) → get k (insert k v m) ≡ some v
  get-insert_self k v m = simp (get-insert, ==_refl)

  pub get-insert_ne : (j k : K) (v : V) (m : HashMap K V) → k ≢ j → get j (insert k v m) ≡ get j m
  get-insert_ne j k v m h = rw (get-insert j k v m, ==_ne k j h)

  pub get-remove_self : (k : K) (m : HashMap K V) → get k (remove k m) ≡ none
  get-remove_self k m = simp (get-remove, ==_refl)

  pub get-remove_ne : (j k : K) (m : HashMap K V) → k ≢ j → get j (remove k m) ≡ get j m
  get-remove_ne j k m h = rw (get-remove j k m, ==_ne k j h)

  pub insert-IsMap : (k : K) (v : V) (m : HashMap K V) → IsMap m → IsMap (insert k v m)
  unfolding insert get
  insert-IsMap k v [] h = ground arith
  insert-IsMap k v ((i, w) ∷ m) h =
      ground (arith, e.beq_iff i k, e.beq_iff k i, get-insert i k v m, insert-IsMap k v m h.1)

  pub remove-IsMap : (k : K) (m : HashMap K V) → IsMap m → IsMap (remove k m)
  unfolding remove
  remove-IsMap k [] h = tt
  remove-IsMap k ((i, w) ∷ m) h =
      ground (arith, e.beq_iff k i, get-remove i k m, remove-IsMap k m h.1)

  -- A map whose removal of a key leaves nothing held that key at most.
  pub get-none_of_is_empty : (k : K) (m : HashMap K V) → is_empty m ≡ true → get k m ≡ none
  unfolding get
  get-none_of_is_empty k [] h = refl
  get-none_of_is_empty k (b ∷ m) h = cc

  -- What a lookup finds is among the entries.
  pub Elem-of_get : (k : K) (v : V) (m : HashMap K V) → get k m ≡ some v → Elem (k, v) m
  unfolding get
  Elem-of_get k v [] h = cc
  Elem-of_get k v ((i, w) ∷ m) h = elim (Bool-cases (i == k)) [
    | inl same ↦ inl (ground (arith, e.beq_iff i k))
    | inr other ↦ inr (Elem-of_get k v m (rw other at h))
  ]

  -- Each entry is what the lookup of its key finds.
  pub get_of_Elem : (k : K) (v : V) (m : HashMap K V) → IsMap m → Elem (k, v) m → get k m ≡ some v
  unfolding get
  get_of_Elem k v [] h x = absurd x
  get_of_Elem k v ((i, w) ∷ m) h (inl x) = ground (arith, e.beq_iff i k)
  get_of_Elem k v ((i, w) ∷ m) h (inr x) = ground (arith, e.beq_iff i k, get_of_Elem k v m h.1 x)

  pub is_empty-insert : (k : K) (v : V) (m : HashMap K V) → is_empty (insert k v m) ≡ false
  unfolding insert
  is_empty-insert k v [] = refl
  is_empty-insert k v ((i, w) ∷ m) = ground arith

  pub update_or_remove-IsMap :
      (f : V → V) (empty : V → Bool) (k : K) (m : HashMap K V)
      → IsMap m
      → IsMap (update_or_remove f empty k m)
  unfolding update_or_remove
  update_or_remove-IsMap f empty k m h = elim (Option-cases (get k m)) [
    | inl found ↦ rw (found, update_or_remove) h
    | inr (v, found) ↦
        rw (found, update_or_remove)
          (elim (Bool-cases (empty (f v))) [
            | inl t ↦ rw t (remove-IsMap k m h)
            | inr t ↦ rw t (insert-IsMap k (f v) m h)
          ])
  ]

  -- A predicate of every slot, through the operations.
  module _ (P : K × V → Type 0) where
    pub All-insert : (k : K) (v : V) (m : HashMap K V) → All P m → P (k, v) → All P (insert k v m)
    unfolding insert
    All-insert k v [] h p = (p, tt)
    All-insert k v ((i, w) ∷ m) h p = elim (Bool-cases (i == k)) [
      | inl t ↦ rw t (subst (λ j. P (j, v)) (sym ((e.beq_iff i k).0 t)) p, h.1)
      | inr t ↦ rw t (h.0, All-insert k v m h.1 p)
    ]

    pub All-remove : (k : K) (m : HashMap K V) → All P m → All P (remove k m)
    unfolding remove
    All-remove k [] h = tt
    All-remove k ((i, w) ∷ m) h = elim (Bool-cases (i == k)) [
      | inl t ↦ rw t (All-remove k m h.1)
      | inr t ↦ rw t (h.0, All-remove k m h.1)
    ]

    pub All-get : (k : K) (v : V) (m : HashMap K V) → All P m → get k m ≡ some v → P (k, v)
    All-get k v m h found = All-Elem P m (k, v) h (Elem-of_get k v m found)

    pub All-update_or_remove :
        (f : V → V) (empty : V → Bool) (k : K) (m : HashMap K V)
        → All P m
        → ((v : V) → P (k, v) → empty (f v) ≡ false → P (k, f v))
        → All P (update_or_remove f empty k m)
    unfolding update_or_remove
    All-update_or_remove f empty k m h keep = elim (Option-cases (get k m)) [
      | inl found ↦ rw (found, update_or_remove) h
      | inr (v, found) ↦
          rw (found, update_or_remove)
            (elim (Bool-cases (empty (f v))) [
              | inl t ↦ rw t (All-remove k m h)
              | inr t ↦ rw t (All-insert k (f v) m h (keep v (All-get k v m h found) t))
            ])
    ]

pub ruleset map_laws = (get-insert, get-remove)
