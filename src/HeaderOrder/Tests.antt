-- ===== src/HeaderOrder/Tests.antt =====
-- src/header.rs: headers in an order, in a world where a name is spelled in one way.
use tlsurl.Base.{
  ◌≡◌, refl, ap, ◌⊎◌, inl, inr, not, Option, some, Text, List, [], ◌∷◌, ◌++◌, codes, ◌==◌, text_eq,
  map, is_nil, Elem, Elem-append, All, filter,
}
use tlsurl.Http.{HeaderValue}
use tlsurl.Http.Demo.{demo, Fields, group_all}
use tlsurl.Client.Headers.{header}
use tlsurl.HeaderOrder.{
  HeaderCaseName, cased, OrderApi, insert, call, visit_named, visit_rest, call_visit,
}
use tlsurl.HeaderOrder.Spelling.{values_under, insert_all, call_visit-call}

abbrev Names : Type 0
Names = List (Text × HeaderCaseName)

any_name :
    (gs : List (Text × List HeaderValue))
    → All (λ g. ◌≡◌ {A = Option Text} (some g.0) (some g.0)) gs
any_name [] = tt
any_name (g ∷ gs) = (refl, any_name gs)

split_added :
    (m : Names) (n k : Text) (c d : HeaderCaseName)
    → Elem (k, d) (m ++ (n, c) ∷ [])
    → ((k ≡ n) × (d ≡ c)) ⊎ Elem (k, d) m
split_added m n k c d there = elim (Elem-append (k, d) m ((n, c) ∷ []) there) [
  | inl old ↦ inr old
  | inr (inl new) ↦ inl (ap (λ p. p.0) new, ap (λ p. p.1) new)
  | inr (inr never) ↦ absurd never
]

abbrev names : OrderApi demo
names = record {
  NameMap = Names;
  new = [];
  append = λ m n c. (m ++ (n, c) ∷ [], not (is_nil (filter (λ e. e.0 == n) m)));
  keys = λ m. map (λ e. e.0) m;
  iter = λ m. m;
  header_name = λ bytes. some bytes;
  iter-new = refl;
  Elem-iter_append = split_added;
  header_name-groups = λ h. any_name (group_all h);
}

abbrev wanted : List HeaderCaseName
wanted = cased (codes "cookie") ∷ cased (codes "accept") ∷ []

abbrev fields : Fields
fields =
    (codes "host", header (codes "site.org"))
    ∷ (codes "cookie", header (codes "a=1"))
    ∷ (codes "accept", header (codes "*/*"))
    ∷ (codes "cookie", header (codes "b=2"))
    ∷ []

call_visit-fields :
    call_visit demo names (insert_all demo names [] wanted) fields
    ≡ (codes "cookie", header (codes "a=1"))
      ∷ (codes "cookie", header (codes "b=2"))
      ∷ (codes "accept", header (codes "*/*"))
      ∷ (codes "host", header (codes "site.org"))
      ∷ []
unfolding call_visit visit_named visit_rest insert
call_visit-fields = refl

call_visit-call_example :
    (values_under demo names
        (codes "cookie")
        (call_visit demo names (insert_all demo names [] wanted) fields)
      ≡ header (codes "a=1") ∷ header (codes "b=2") ∷ [])
    × (demo.get_all (call demo names (insert_all demo names [] wanted) fields) (codes "cookie")
        ≡ header (codes "a=1") ∷ header (codes "b=2") ∷ [])
call_visit-call_example = call_visit-call demo names wanted fields (codes "cookie") (tt, (tt, tt))
