-- ===== src/HeaderOrder/Spelling.antt =====
-- src/header.rs: what `call_visit` writes, and the spellings that a map is made of.
use tlsurl.Base.{
  ◌≡◌, ◌∙◌, refl, sym, ap, subst, inl, inr, Bool, false, none, some, Text, List, [], ◌∷◌, ◌++◌,
  append-nil, append_assoc, ◌==◌, text_eq, text_beq_iff, if◌then◌else◌, arith, Bool-cases,
  Option-cases, Elem, All,
}
use tlsurl.Http.{HttpApi, HeaderValue, values_at, Distinct}
use tlsurl.HeaderOrder.{
  HeaderCaseName, cased, standard, as_ref, OrderApi, insert, with_name, visit_named, visit_rest,
  call, call_visit,
}
use tlsurl.HeaderOrder.Values.{get_all-call}

module _ (http : HttpApi) (order : OrderApi http) where
  open http use {HeaderMap, get_all, remove, groups}
  open order use {NameMap, header_name, iter}

  -- Whether the bytes are a spelling of the name.
  abbrev pub spells : Text → Text → Bool
  spells name bytes = elim (header_name bytes) [ none ↦ false | some k ↦ k == name ]

  -- The values that are written under a name, however it is spelled.
  abbrev pub values_under : Text → List (Text × HeaderValue) → List HeaderValue
  values_under name [] = []
  values_under name ((bytes, v) ∷ visited) =
      if spells name bytes then v ∷ values_under name visited else values_under name visited

  -- Each spelling in the map is one of its name.
  abbrev pub IsSpelled : NameMap → Type 0
  IsSpelled m =
      (k : Text) (c : HeaderCaseName) → Elem (k, c) (iter m) → header_name (as_ref c) ≡ some k

  -- A map made by insertions.
  abbrev pub insert_all : NameMap → List HeaderCaseName → NameMap
  insert_all m [] = m
  insert_all m (c ∷ cs) = insert_all (insert http order m c).0 cs

  -- A `HeaderName` in lower case is its own name.
  abbrev pub IsValid : HeaderCaseName → Type 0
  IsValid (cased bytes) = Unit
  IsValid (standard name) = header_name name ≡ some name

  append-IsSpelled :
      (m : NameMap) (n : Text) (c : HeaderCaseName)
      → header_name (as_ref c) ≡ some n
      → IsSpelled m
      → IsSpelled (order.append m n c).0
  append-IsSpelled m n c spelled h k d there = elim (order.Elem-iter_append m n k c d there) [
    | inl (same, new) ↦ ap (λ x. header_name (as_ref x)) new ∙ spelled ∙ ap some (sym same)
    | inr old ↦ h k d old
  ]

  insert-IsSpelled :
      (m : NameMap) (c : HeaderCaseName)
      → IsValid c
      → IsSpelled m
      → IsSpelled (insert http order m c).0
  unfolding insert
  insert-IsSpelled m (cased bytes) valid h = elim (Option-cases (header_name bytes)) [
    | inl bad ↦ rw (bad, insert) h
    | inr (name, good) ↦ rw (good, insert) (append-IsSpelled m name (cased bytes) good h)
  ]
  insert-IsSpelled m (standard name) valid h = append-IsSpelled m name (standard name) valid h

  insert_all-IsSpelled :
      (cs : List HeaderCaseName) (m : NameMap)
      → All IsValid cs
      → IsSpelled m
      → IsSpelled (insert_all m cs)
  insert_all-IsSpelled [] m valid h = h
  insert_all-IsSpelled (c ∷ cs) m (valid, rest) h =
      insert_all-IsSpelled cs (insert http order m c).0 rest (insert-IsSpelled m c valid h)

  values_under-append :
      (name : Text) (xs ys : List (Text × HeaderValue))
      → values_under name (xs ++ ys) ≡ values_under name xs ++ values_under name ys
  values_under-append name [] ys = refl
  values_under-append name ((b, v) ∷ xs) ys = elim (Bool-cases (spells name b)) [
    | inl spelled ↦ rw spelled (ap (λ l. v ∷ l) (values_under-append name xs ys))
    | inr foreign ↦ rw foreign (values_under-append name xs ys)
  ]

  values_under-with_name :
      (name bytes k : Text) (vs : List HeaderValue)
      → header_name bytes ≡ some k
      → values_under name (with_name http order bytes vs) ≡ (if k == name then vs else [])
  values_under-with_name name bytes k [] h = ground arith
  values_under-with_name name bytes k (v ∷ vs) h =
      ground (arith, h, values_under-with_name name bytes k vs h)

  visit_named-values :
      (name : Text) (names : List (Text × HeaderCaseName)) (h : HeaderMap)
      → ((k : Text) (c : HeaderCaseName) → Elem (k, c) names → header_name (as_ref c) ≡ some k)
      → values_under name (visit_named http order names h).0
          ++ get_all (visit_named http order names h).1 name
        ≡ get_all h name
  unfolding visit_named
  visit_named-values name [] h spelled = refl
  visit_named-values name ((k, c) ∷ names) h spelled =
      let visited = visit_named http order names (remove h k) in
      let rest =
        visit_named-values name names (remove h k) (λ j d there. spelled j d (inr there)) in
      let here = values_under-with_name name (as_ref c) k (get_all h k) (spelled k c (inl refl)) in
      let split =
        values_under-append name (with_name http order (as_ref c) (get_all h k)) visited.0 in
      let gone = http.get_all-remove h k name in
      elim (Bool-cases (k == name)) [
        | inl same ↦ ground (
          arith,
          split,
          here,
          rest,
          gone,
          same,
          (text_beq_iff k name).0 same,
          append-nil (get_all h k),
          append_assoc (get_all h k) (values_under name visited.0) (get_all visited.1 name),
        )
        | inr different ↦ ground (arith, split, here, rest, gone, different)
      ]

  visit_rest-values :
      (name : Text) (gs : List (Text × List HeaderValue))
      → All (λ g. header_name g.0 ≡ some g.0) gs
      → Distinct gs
      → values_under name (visit_rest http order gs) ≡ values_at gs name
  unfolding visit_rest
  visit_rest-values name [] named d = refl
  visit_rest-values name ((k, vs) ∷ gs) (named, more) (fresh, some_value, d) =
      let split = values_under-append name (with_name http order k vs) (visit_rest http order gs) in
      let here = values_under-with_name name k k vs named in
      let rest = visit_rest-values name gs more d in
      elim (Bool-cases (k == name)) [
        | inl same ↦
            ground
              (arith, split, here, rest, same, (text_beq_iff k name).0 same, fresh, append-nil vs)
        | inr different ↦ ground (arith, split, here, rest, different)
      ]

  -- Whatever names have been inserted: each value that is written stands under a spelling of its name,
  -- the values of a name are all written and in their order, and they are those that the sorted map has.
  pub call_visit-call :
      (cs : List HeaderCaseName) (h : HeaderMap) (name : Text)
      → All IsValid cs
      → (values_under name (call_visit http order (insert_all order.new cs) h) ≡ get_all h name)
        × (get_all (call http order (insert_all order.new cs) h) name ≡ get_all h name)
  unfolding call_visit
  call_visit-call cs h name valid =
      let m = insert_all order.new cs in
      let spelled =
        insert_all-IsSpelled cs order.new valid
          (λ k c there. absurd (subst (Elem (k, c)) order.iter-new there)) in
      let visited = visit_named http order (iter m) h in
      let named = visit_named-values name (iter m) h spelled in
      let rest =
        visit_rest-values name (groups visited.1) (order.header_name-groups visited.1)
          (http.groups-Distinct visited.1) in
      (
        values_under-append name visited.0 (visit_rest http order (groups visited.1))
            ∙ ap (λ l. values_under name visited.0 ++ l)
                (rest ∙ http.values_at-groups visited.1 name)
            ∙ named,
        get_all-call http order m h name,
      )
