-- ===== src/Base/Lists.antt =====
-- Lists measured by native numbers, membership and pointwise predicates that compute.
use Prim.Native.Nat.{ℕ, zero, suc, ◌+◌}
use mathlib.Core.Path.{◌≡◌, refl, ap, subst}
use mathlib.Core.Logic.{◌⊎◌, inl, inr}
use mathlib.Core.Bool.{Bool, true, false, ◌||◌}
use mathlib.Core.Option.{Option, none, some}
use mathlib.Core.List.{List, [], ◌∷◌, ◌++◌, map}
use native.Mathlib.Omega.{arith}
use tlsurl.Base.Tests.{if◌then◌else◌, Bool-cases}

module _ {ℓ} {A : Type ℓ} where
  abbrev pub length : List A → ℕ
  length [] = 0
  length (x ∷ xs) = suc (length xs)

  -- `is_empty` of a `Vec` or a `String`.
  abbrev pub is_nil : List A → Bool
  is_nil [] = true
  is_nil (x ∷ xs) = false

  abbrev pub get_elem? : List A → ℕ → Option A
  get_elem? [] i = none
  get_elem? (x ∷ xs) zero = some x
  get_elem? (x ∷ xs) (suc i) = get_elem? xs i

  abbrev pub take : ℕ → List A → List A
  take zero xs = []
  take (suc n) [] = []
  take (suc n) (x ∷ xs) = x ∷ take n xs

  abbrev pub drop : ℕ → List A → List A
  drop zero xs = xs
  drop (suc n) [] = []
  drop (suc n) (x ∷ xs) = drop n xs

  pub length-append : (xs ys : List A) → length (xs ++ ys) ≡ length xs + length ys
  length-append [] ys = omega arith
  length-append (x ∷ xs) ys = omega (arith, length-append xs ys)

  pub take-append-drop : (n : ℕ) (xs : List A) → take n xs ++ drop n xs ≡ xs
  take-append-drop zero xs = refl
  take-append-drop (suc n) [] = refl
  take-append-drop (suc n) (x ∷ xs) = ap (◌∷◌ x) (take-append-drop n xs)

  -- What is dropped at the length of a prefix is the rest.
  pub drop-append_length : (xs ys : List A) → drop (length xs) (xs ++ ys) ≡ ys
  drop-append_length [] ys = refl
  drop-append_length (x ∷ xs) ys = drop-append_length xs ys

  pub get_elem?-append_length :
      (xs ys : List A) (y : A) → get_elem? (xs ++ y ∷ ys) (length xs) ≡ some y
  get_elem?-append_length [] ys y = refl
  get_elem?-append_length (x ∷ xs) ys y = get_elem?-append_length xs ys y

  -- A position that holds an element splits the list there.
  pub split_at_elem :
      (xs : List A) (n : ℕ) (y : A)
      → get_elem? xs n ≡ some y
      → xs ≡ take n xs ++ y ∷ drop (suc n) xs
  split_at_elem [] zero y h = cc
  split_at_elem [] (suc n) y h = cc
  split_at_elem (x ∷ xs) zero y h = cc
  split_at_elem (x ∷ xs) (suc n) y h = ap (◌∷◌ x) (split_at_elem xs n y h)

-- Membership, as a sum that computes.
module _ {A : Type 0} where
  abbrev pub Elem : A → List A → Type 0
  Elem a [] = ⊥
  Elem a (x ∷ xs) = (a ≡ x) ⊎ Elem a xs

  pub Elem-append_left : (a : A) (xs ys : List A) → Elem a xs → Elem a (xs ++ ys)
  Elem-append_left a [] ys h = absurd h
  Elem-append_left a (x ∷ xs) ys (inl e) = inl e
  Elem-append_left a (x ∷ xs) ys (inr h) = inr (Elem-append_left a xs ys h)

  pub Elem-append_right : (a : A) (xs ys : List A) → Elem a ys → Elem a (xs ++ ys)
  Elem-append_right a [] ys h = h
  Elem-append_right a (x ∷ xs) ys h = inr (Elem-append_right a xs ys h)

  pub Elem-append : (a : A) (xs ys : List A) → Elem a (xs ++ ys) → Elem a xs ⊎ Elem a ys
  Elem-append a [] ys h = inr h
  Elem-append a (x ∷ xs) ys (inl e) = inl (inl e)
  Elem-append a (x ∷ xs) ys (inr h) = elim (Elem-append a xs ys h) [
    | inl l ↦ inl (inr l)
    | inr r ↦ inr r
  ]

  -- `Iterator::any`.
  abbrev pub any : (A → Bool) → List A → Bool
  any p [] = false
  any p (x ∷ xs) = p x || any p xs

  pub any_of_Elem : (p : A → Bool) (a : A) (xs : List A) → Elem a xs → p a ≡ true → any p xs ≡ true
  any_of_Elem p a [] h e = absurd h
  any_of_Elem p a (x ∷ xs) (inl h) e = ground arith
  any_of_Elem p a (x ∷ xs) (inr h) e = ground (arith, any_of_Elem p a xs h e)

  pub Elem-of_any :
      (p : A → Bool) (xs : List A) → any p xs ≡ true → (a : A) × Elem a xs × (p a ≡ true)
  Elem-of_any p [] h = cc
  Elem-of_any p (x ∷ xs) h = elim (Bool-cases (p x)) [
    | inl e ↦ (x, inl refl, e)
    | inr e ↦ let (a, m, t) = Elem-of_any p xs (rw e at h) in (a, inr m, t)
  ]

  -- `Iterator::filter`.
  abbrev pub filter : (A → Bool) → List A → List A
  filter p [] = []
  filter p (x ∷ xs) = if p x then x ∷ filter p xs else filter p xs

  abbrev pub All {κ} : (A → Type κ) → List A → Type κ
  All P [] = Unit
  All P (x ∷ xs) = P x × All P xs

  pub All-append {κ} : (P : A → Type κ) (xs ys : List A) → All P xs → All P ys → All P (xs ++ ys)
  All-append P [] ys h k = k
  All-append P (x ∷ xs) ys h k = (h.0, All-append P xs ys h.1 k)

  pub All-Elem {κ} : (P : A → Type κ) (xs : List A) (a : A) → All P xs → Elem a xs → P a
  All-Elem P [] a h m = absurd m
  All-Elem P (x ∷ xs) a h (inl e) = rw e h.0
  All-Elem P (x ∷ xs) a h (inr m) = All-Elem P xs a h.1 m

module _ {A B : Type 0} where
  -- `Iterator::flat_map`.
  abbrev pub flat_map : (A → List B) → List A → List B
  flat_map f [] = []
  flat_map f (x ∷ xs) = f x ++ flat_map f xs

  pub Elem-map : (f : A → B) (a : A) (xs : List A) → Elem a xs → Elem (f a) (map f xs)
  Elem-map f a [] h = absurd h
  Elem-map f a (x ∷ xs) (inl e) = inl (ap f e)
  Elem-map f a (x ∷ xs) (inr h) = inr (Elem-map f a xs h)

  pub Elem-of_map :
      (f : A → B) (b : B) (xs : List A) → Elem b (map f xs) → (a : A) × Elem a xs × (b ≡ f a)
  Elem-of_map f b [] h = absurd h
  Elem-of_map f b (x ∷ xs) (inl e) = (x, inl refl, e)
  Elem-of_map f b (x ∷ xs) (inr h) = let (a, m, e) = Elem-of_map f b xs h in (a, inr m, e)

  pub Elem-flat_map :
      (f : A → List B) (x : A) (b : B) (xs : List A)
      → Elem x xs
      → Elem b (f x)
      → Elem b (flat_map f xs)
  Elem-flat_map f x b [] m h = absurd m
  Elem-flat_map f x b (y ∷ ys) (inl e) h =
      Elem-append_left b (f y) (flat_map f ys) (subst (λ z. Elem b (f z)) e h)
  Elem-flat_map f x b (y ∷ ys) (inr m) h =
      Elem-append_right b (f y) (flat_map f ys) (Elem-flat_map f x b ys m h)

  pub Elem-of_flat_map :
      (f : A → List B) (b : B) (xs : List A)
      → Elem b (flat_map f xs)
      → (x : A) × Elem x xs × Elem b (f x)
  Elem-of_flat_map f b [] h = absurd h
  Elem-of_flat_map f b (y ∷ ys) h = elim (Elem-append b (f y) (flat_map f ys) h) [
    | inl l ↦ (y, inl refl, l)
    | inr r ↦ let (x, m, k) = Elem-of_flat_map f b ys r in (x, inr m, k)
  ]

module _ {A : Type 0} where
  pub Elem-filter :
      (p : A → Bool) (a : A) (xs : List A) → Elem a xs → p a ≡ true → Elem a (filter p xs)
  Elem-filter p a [] m h = absurd m
  Elem-filter p a (x ∷ xs) (inl e) h = rw (← e, h) (inl refl)
  Elem-filter p a (x ∷ xs) (inr m) h = elim (Bool-cases (p x)) [
    | inl t ↦ rw t (inr (Elem-filter p a xs m h))
    | inr t ↦ rw t (Elem-filter p a xs m h)
  ]

  pub Elem-of_filter :
      (p : A → Bool) (a : A) (xs : List A) → Elem a (filter p xs) → Elem a xs × (p a ≡ true)
  Elem-of_filter p a [] m = absurd m
  Elem-of_filter p a (x ∷ xs) m = elim (Bool-cases (p x)) [
    | inl t ↦ elim (let k : Elem a (x ∷ filter p xs) = rw t at m in k) [
      | inl e ↦ (inl e, rw e t)
      | inr k ↦ let (k', h) = Elem-of_filter p a xs k in (inr k', h)
    ]
    | inr t ↦ let (k', h) = Elem-of_filter p a xs (rw t at m) in (inr k', h)
  ]

  pub All-map {κ μ} :
      (P : A → Type κ) (Q : A → Type μ) (xs : List A) → ((a : A) → P a → Q a) → All P xs → All Q xs
  All-map P Q [] f h = tt
  All-map P Q (x ∷ xs) f h = (f x h.0, All-map P Q xs f h.1)
