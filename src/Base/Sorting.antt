-- ===== src/Base/Sorting.antt =====
-- `slice::sort_unstable_by` and `Iterator::min_by_key`: a sort by insertion, one of the sorted
-- orders that the library may return.
use Prim.Native.Nat.{ℕ, suc}
use mathlib.Core.Path.{◌≡◌, refl}
use mathlib.Core.Logic.{inl, inr}
use mathlib.Core.Bool.{Bool, true, false}
use mathlib.Core.Option.{Option, none, some}
use mathlib.Core.List.{List, [], ◌∷◌, Perm}
use mathlib.Core.List.Perm
use native.Mathlib.Omega.{arith}
use tlsurl.Base.Tests.{leb, if◌then◌else◌, Bool-cases}
use tlsurl.Base.Lists.{length, All}

module _ {A : Type 0} (before : A → A → Bool) where
  insert_sorted : A → List A → List A
  insert_sorted a [] = a ∷ []
  insert_sorted a (x ∷ xs) = if before a x then a ∷ x ∷ xs else x ∷ insert_sorted a xs

  unfoldable pub sort_by : List A → List A
  unfolding insert_sorted
  sort_by [] = []
  sort_by (x ∷ xs) = insert_sorted x (sort_by xs)

  length-insert_sorted : (a : A) (xs : List A) → length (insert_sorted a xs) ≡ suc (length xs)
  unfolding insert_sorted
  length-insert_sorted a [] = refl
  length-insert_sorted a (x ∷ xs) = ground (arith, length-insert_sorted a xs)

  pub length-sort_by : (xs : List A) → length (sort_by xs) ≡ length xs
  unfolding sort_by
  length-sort_by [] = refl
  length-sort_by (x ∷ xs) = omega (arith, length-insert_sorted x (sort_by xs), length-sort_by xs)

  insert_sorted-perm : (a : A) (xs : List A) → Perm (insert_sorted a xs) (a ∷ xs)
  unfolding insert_sorted
  insert_sorted-perm a [] = Perm.rfl
  insert_sorted-perm a (x ∷ xs) = elim (Bool-cases (before a x)) [
    | inl t ↦ rw (t, insert_sorted) Perm.rfl
    | inr t ↦
        rw (t, insert_sorted)
          (Perm.trans (Perm.cons x (insert_sorted-perm a xs)) (Perm.swap a x xs))
  ]

  pub sort_by-perm : (xs : List A) → Perm (sort_by xs) xs
  unfolding sort_by
  sort_by-perm [] = Perm.rfl
  sort_by-perm (x ∷ xs) =
      Perm.trans (insert_sorted-perm x (sort_by xs)) (Perm.cons x (sort_by-perm xs))

  -- Each element stands before all that follow it.
  abbrev pub IsSorted : List A → Type 0
  IsSorted [] = Unit
  IsSorted (x ∷ xs) = All (λ y. before x y ≡ true) xs × IsSorted xs

  module _ (total : (a b : A) → before a b ≡ false → before b a ≡ true)
      (trans : (a b c : A) → before a b ≡ true → before b c ≡ true → before a c ≡ true) where
    All-before :
        (a x : A) (xs : List A)
        → before a x ≡ true
        → All (λ y. before x y ≡ true) xs
        → All (λ y. before a y ≡ true) xs
    All-before a x [] t h = tt
    All-before a x (y ∷ ys) t h = (trans a x y t h.0, All-before a x ys t h.1)

    All-insert_sorted :
        (x a : A) (xs : List A)
        → before x a ≡ true
        → All (λ y. before x y ≡ true) xs
        → All (λ y. before x y ≡ true) (insert_sorted a xs)
    unfolding insert_sorted
    All-insert_sorted x a [] t h = (t, tt)
    All-insert_sorted x a (y ∷ ys) t h = elim (Bool-cases (before a y)) [
      | inl b ↦ rw b (t, h)
      | inr b ↦ rw b (h.0, All-insert_sorted x a ys t h.1)
    ]

    insert_sorted-IsSorted : (a : A) (xs : List A) → IsSorted xs → IsSorted (insert_sorted a xs)
    unfolding insert_sorted
    insert_sorted-IsSorted a [] h = (tt, tt)
    insert_sorted-IsSorted a (x ∷ xs) h = elim (Bool-cases (before a x)) [
      | inl b ↦ rw b ((b, All-before a x xs b h.0), h)
      | inr b ↦ rw b (All-insert_sorted x a xs (total a x b) h.0, insert_sorted-IsSorted a xs h.1)
    ]

    pub sort_by-IsSorted : (xs : List A) → IsSorted (sort_by xs)
    unfolding sort_by
    sort_by-IsSorted [] = tt
    sort_by-IsSorted (x ∷ xs) = insert_sorted-IsSorted x (sort_by xs) (sort_by-IsSorted xs)

-- The first element whose key is least.
module _ {A : Type 0} (key : A → ℕ) where
  unfoldable pub min_by_key : List A → Option A
  min_by_key [] = none
  min_by_key (x ∷ xs) = elim (min_by_key xs) [
    | none ↦ some x
    | some m ↦ if leb (key x) (key m) then some x else some m
  ]
