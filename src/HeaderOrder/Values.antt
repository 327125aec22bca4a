-- ===== src/HeaderOrder/Values.antt =====
-- src/header.rs and src/util.rs: the values of each name, when groups are moved or replaced.
use tlsurl.Base.{
  ◌≡◌, refl, ◌⊎◌, inl, inr, false, ◌||◌, Text, List, [], ◌∷◌, ◌++◌, append-nil, append_assoc, ◌==◌,
  text_eq, text_beq_iff, if◌then◌else◌, is_nil, leb, arith, Bool-cases,
}
use tlsurl.Http.{HttpApi, HeaderValue, values_at, Distinct}
use tlsurl.Client.Headers.{append_all, replace_group, replace_groups}
use tlsurl.HeaderOrder.{OrderApi, count_values, move_named, call}

module _ (http : HttpApi) where
  open http use {HeaderMap, get_all, remove, insert, append, groups}

  pub get_all-append_all :
      (h : HeaderMap) (n m : Text) (vs : List HeaderValue)
      → get_all (append_all http h n vs) m ≡ (if n == m then get_all h m ++ vs else get_all h m)
  get_all-append_all h n m [] = ground (arith, append-nil (get_all h m))
  get_all-append_all h n m (v ∷ vs) = ground (
    arith,
    get_all-append_all (append h n v) n m vs,
    http.get_all-append h n m v,
    append_assoc (get_all h m) (v ∷ []) vs,
  )

  get_all-replace_group :
      (h : HeaderMap) (n m : Text) (vs : List HeaderValue)
      → is_nil vs ≡ false
      → get_all (replace_group http h n vs) m ≡ (if n == m then vs else get_all h m)
  get_all-replace_group h n m [] some_value = absurd (ground (arith, some_value))
  get_all-replace_group h n m (v ∷ vs) some_value =
      ground (arith, get_all-append_all (insert h n v) n m vs, http.get_all-insert h n m v)

  -- The groups replace the values of their names.
  pub get_all-replace_groups :
      (h : HeaderMap) (gs : List (Text × List HeaderValue)) (m : Text)
      → Distinct gs
      → get_all (replace_groups http h gs) m
        ≡ (if is_nil (values_at gs m) then get_all h m else values_at gs m)
  unfolding replace_groups
  get_all-replace_groups h [] m d = refl
  get_all-replace_groups h ((n, vs) ∷ gs) m (fresh, some_value, d) = ground (
    arith,
    get_all-replace_groups (replace_group http h n vs) gs m d,
    get_all-replace_group h n m vs some_value,
    fresh,
    some_value,
    text_beq_iff n m,
  )

  -- The values of a name are all in one of the two maps.
  abbrev IsSplit : HeaderMap → Text → HeaderMap × HeaderMap → Type 0
  IsSplit h m (rest, sorted) =
      ((get_all rest m ≡ get_all h m) × (get_all sorted m ≡ []))
      ⊎ ((get_all rest m ≡ []) × (get_all sorted m ≡ get_all h m))

  move_one-IsSplit :
      (h rest sorted : HeaderMap) (n m : Text)
      → IsSplit h m (rest, sorted)
      → IsSplit h m (remove rest n, append_all http sorted n (get_all rest n))
  move_one-IsSplit h rest sorted n m k = elim (Bool-cases (n == m)) [
    | inl same ↦
        let e = (text_beq_iff n m).0 same in
        let gone = http.get_all-remove rest n m in
        let moved = get_all-append_all sorted n m (get_all rest n) in
        elim k [
          | inl (there, none_yet) ↦
              inr (ground (arith, gone, same), ground (arith, moved, same, e, there, none_yet))
          | inr (none_left, there) ↦ inr (
            ground (arith, gone, same),
            ground (arith, moved, same, e, there, none_left, append-nil (get_all h m)),
          )
        ]
    | inr different ↦
        let gone = http.get_all-remove rest n m in
        let moved = get_all-append_all sorted n m (get_all rest n) in
        elim k [
          | inl (there, none_yet) ↦
              inl
                (ground (arith, gone, different, there), ground (arith, moved, different, none_yet))
          | inr (none_left, there) ↦
              inr (
                ground (arith, gone, different, none_left),
                ground (arith, moved, different, there),
              )
        ]
  ]

  module _ (order : OrderApi http) where
    move_named-IsSplit :
        (h : HeaderMap) (m : Text) (names : List Text) (rest sorted : HeaderMap)
        → IsSplit h m (rest, sorted)
        → IsSplit h m (move_named http order names rest sorted)
    unfolding move_named
    move_named-IsSplit h m [] rest sorted k = k
    move_named-IsSplit h m (n ∷ names) rest sorted k =
        move_named-IsSplit h m names (remove rest n) (append_all http sorted n (get_all rest n))
          (move_one-IsSplit h rest sorted n m k)

    joined :
        (h : HeaderMap) (m : Text) (r : HeaderMap × HeaderMap)
        → IsSplit h m r
        → get_all (replace_groups http r.1 (groups r.0)) m ≡ get_all h m
    joined h m (rest, sorted) k =
        let all_of = get_all-replace_groups sorted (groups rest) m (http.groups-Distinct rest) in
        elim k [
          | inl (there, none_yet) ↦
              ground (arith, all_of, http.values_at-groups rest m, there, none_yet)
          | inr (none_left, there) ↦
              ground (arith, all_of, http.values_at-groups rest m, there, none_left)
        ]

    -- Sorting keeps the values of each name.
    pub get_all-call :
        (m : order.NameMap) (h : HeaderMap) (n : Text)
        → get_all (call http order m h) n ≡ get_all h n
    unfolding call
    get_all-call m h n =
        elim (Bool-cases (leb (count_values http order (groups h)) 1 || is_nil (order.iter m))) [
          | inl untouched ↦ rw (untouched, call) refl
          | inr sorted ↦
              rw (sorted, call)
                (joined h n (move_named http order (order.keys m) h http.empty) (
                  move_named-IsSplit h n (order.keys m) h http.empty
                    (inl (refl, http.get_all-empty n))))
        ]
