-- ===== src/HeaderOrder.antt =====
-- src/header.rs: `OrigHeaderMap`, which puts the headers of a request into an order and spells their names.
pub mod Values
pub mod Spelling
mod Tests
use tlsurl.Base.{
  ℕ, ◌+◌, ◌≡◌, ◌⊎◌, Bool, true, false, ◌||◌, Option, none, some, Text, List, [], ◌∷◌, ◌++◌,
  if◌then◌else◌, is_nil, leb, map, length, Elem, All,
}
use tlsurl.Http.{HttpApi, HeaderValue}
use tlsurl.Client.Headers.{append_all, replace_groups}

-- The bytes as they were given, or a name in lower case.
pub data HeaderCaseName : Type 0 where
  cased standard : Text → HeaderCaseName

abbrev pub as_ref : HeaderCaseName → Text
as_ref (cased orig) = orig
as_ref (standard name) = name

-- `HeaderMap<HeaderCaseName>` of the `http` crate, with the order of its keys and of its iteration, and
-- `HeaderName::from_bytes`. The names in a header map are header names.
pub record OrderApi (http : HttpApi) : Type 1 where
  pub NameMap : Type 0
  pub new : NameMap
  pub append : NameMap → Text → HeaderCaseName → NameMap × Bool
  pub keys : NameMap → List Text
  pub iter : NameMap → List (Text × HeaderCaseName)
  pub header_name : Text → Option Text
  pub iter-new : iter new ≡ []
  pub Elem-iter_append :
      (m : NameMap) (n k : Text) (c d : HeaderCaseName)
      → Elem (k, d) (iter (append m n c).0)
      → ((k ≡ n) × (d ≡ c)) ⊎ Elem (k, d) (iter m)
  pub header_name-groups :
      (h : http.HeaderMap) → All (λ g. header_name g.0 ≡ some g.0) (http.groups h)

module _ (http : HttpApi) (order : OrderApi http) where
  open http use {HeaderMap, get_all, remove, groups}
  open order use {NameMap, header_name, iter, keys}

  -- `OrigHeaderMap::insert`
  unfoldable pub insert : NameMap → HeaderCaseName → NameMap × Bool
  insert m (cased bytes) = elim (header_name bytes) [
    | none ↦ (m, false)
    | some name ↦ order.append m name (cased bytes)
  ]
  insert m (standard name) = order.append m name (standard name)

  -- `HeaderMap::len`: the number of values.
  abbrev pub count_values : List (Text × List HeaderValue) → ℕ
  count_values [] = 0
  count_values ((n, vs) ∷ gs) = length vs + count_values gs

  -- The values of a name go to the end of the sorted map.
  unfoldable pub move_named : List Text → HeaderMap → HeaderMap → HeaderMap × HeaderMap
  move_named [] headers sorted = (headers, sorted)
  move_named (name ∷ names) headers sorted =
      move_named names (remove headers name) (append_all http sorted name (get_all headers name))

  -- `OnPreserveHeaderCallback::call`
  unfoldable pub call : NameMap → HeaderMap → HeaderMap
  call m headers =
      if leb (count_values (groups headers)) 1 || is_nil (iter m)
      then headers
      else (let (rest, sorted) = move_named (keys m) headers http.empty in
          replace_groups http sorted (groups rest))

  abbrev pub with_name : Text → List HeaderValue → List (Text × HeaderValue)
  with_name name vs = map (λ v. (name, v)) vs

  unfoldable pub visit_named :
      List (Text × HeaderCaseName) → HeaderMap → List (Text × HeaderValue) × HeaderMap
  visit_named [] headers = ([], headers)
  visit_named ((name, case_name) ∷ names) headers =
      let (visited, rest) = visit_named names (remove headers name) in
      (with_name (as_ref case_name) (get_all headers name) ++ visited, rest)

  unfoldable pub visit_rest : List (Text × List HeaderValue) → List (Text × HeaderValue)
  visit_rest [] = []
  visit_rest ((name, vs) ∷ gs) = with_name name vs ++ visit_rest gs

  -- `OnPreserveHeaderCallback::call_visit`: what `dst` is called with.
  unfoldable pub call_visit : NameMap → HeaderMap → List (Text × HeaderValue)
  call_visit m headers =
      let (visited, rest) = visit_named (iter m) headers in visited ++ visit_rest (groups rest)
