-- ===== src/Http/Demo.antt =====
-- A header map as a list of pairs, and a small parser: a world in which the theorems are tried.
use tlsurl.Base.{
  ◌≡◌, ◌∙◌, refl, inl, inr, Bool-cases, true, Option, none, some, Text, List, [], ◌∷◌, ◌++◌, codes,
  arith, ◌==◌, text_eq, text_beq_iff, if◌then◌else◌, drop, starts_with,
}
use tlsurl.Uri.{Uri, http, https}
use tlsurl.Http.{HttpApi, HeaderValue, values_at, Distinct}

abbrev pub Fields : Type 0
Fields = List (Text × HeaderValue)

abbrev pub values : Fields → Text → List HeaderValue
values [] n = []
values ((k, v) ∷ h) n = if k == n then v ∷ values h n else values h n

abbrev pub without : Fields → Text → Fields
without [] n = []
without ((k, v) ∷ h) n = if k == n then without h n else (k, v) ∷ without h n

pub values-without :
    (h : Fields) (n m : Text) → values (without h n) m ≡ (if n == m then [] else values h m)
values-without [] n m = ground arith
values-without ((k, v) ∷ h) n m =
    ground (arith, values-without h n m, text_beq_iff k n, text_beq_iff n m, text_beq_iff k m)

pub values-cons :
    (h : Fields) (n m : Text) (v : HeaderValue)
    → values ((n, v) ∷ without h n) m ≡ (if n == m then v ∷ [] else values h m)
values-cons h n m v = ground (arith, values-without h n m)

pub values-append :
    (h : Fields) (n m : Text) (v : HeaderValue)
    → values (h ++ (n, v) ∷ []) m ≡ (if n == m then values h m ++ v ∷ [] else values h m)
values-append [] n m v = ground arith
values-append ((k, w) ∷ h) n m v = ground (arith, values-append h n m v)

-- A value is put before those of its name.
abbrev pub group :
    Text → HeaderValue → List (Text × List HeaderValue) → List (Text × List HeaderValue)
group k v [] = (k, v ∷ []) ∷ []
group k v ((n, vs) ∷ gs) = if n == k then (n, v ∷ vs) ∷ gs else (n, vs) ∷ group k v gs

abbrev pub group_all : Fields → List (Text × List HeaderValue)
group_all [] = []
group_all ((k, v) ∷ h) = group k v (group_all h)

values_at-group :
    (k n : Text) (v : HeaderValue) (gs : List (Text × List HeaderValue))
    → values_at (group k v gs) n ≡ (if k == n then v ∷ values_at gs n else values_at gs n)
values_at-group k n v [] = ground arith
values_at-group k n v ((m, vs) ∷ gs) =
    ground (arith, values_at-group k n v gs, text_beq_iff m k, text_beq_iff m n, text_beq_iff k n)

group-Distinct :
    (k : Text) (v : HeaderValue) (gs : List (Text × List HeaderValue))
    → Distinct gs
    → Distinct (group k v gs)
group-Distinct k v [] d = (refl, refl, tt)
group-Distinct k v ((m, vs) ∷ gs) d = elim (Bool-cases (m == k)) [
  | inl same ↦ rw same (d.0, refl, d.2)
  | inr other ↦ rw other (
    values_at-group k m v gs ∙ ground (arith, other, d.0, text_beq_iff m k, text_beq_iff k m),
    d.1,
    group-Distinct k v gs d.2,
  )
]

pub values_at-group_all : (h : Fields) (n : Text) → values_at (group_all h) n ≡ values h n
values_at-group_all [] n = refl
values_at-group_all ((k, v) ∷ h) n =
    rw (values_at-group k n v (group_all h), values_at-group_all h n) refl

pub group_all-Distinct : (h : Fields) → Distinct (group_all h)
group_all-Distinct [] = tt
group_all-Distinct ((k, v) ∷ h) = group-Distinct k v (group_all h) (group_all-Distinct h)

abbrev pub at : Text → Option Uri
at t =
    if starts_with t (codes "https://")
    then some (record {
      scheme = some https;
      authority = some (record { text = drop 8 t; host = drop 8 t; port = none });
      path = codes "/";
      query = none;
    })
    else some (record {
      scheme = some http;
      authority = some (record { text = drop 7 t; host = drop 7 t; port = none });
      path = codes "/";
      query = none;
    })

-- A small world: every location is absolute, and URLs are their texts.
abbrev pub demo : HttpApi
demo = record {
  HeaderMap = Fields;
  get_all = values;
  remove = without;
  insert = λ h n v. (n, v) ∷ without h n;
  empty = [];
  groups = group_all;
  get_all-empty = λ n. refl;
  values_at-groups = values_at-group_all;
  groups-Distinct = group_all-Distinct;
  append = λ h n v. h ++ (n, v) ∷ [];
  get_all-append = values-append;
  get_all-remove = values-without;
  get_all-insert = values-cons;
  Url = Text;
  parse_url = λ t. some t;
  join = λ base relative. some relative;
  as_str = λ t. t;
  url_scheme = λ t. if starts_with t (codes "https://") then some https else some http;
  host_str = λ t. some (drop 8 t);
  port_or_known_default = λ t. some 443;
  clear_username = λ t. some t;
  clear_password = λ t. some t;
  clear_fragment = λ t. t;
  clear_query = λ t. t;
  clear_path = λ t. t;
  is_header_text = λ t. true;
  uri_text = λ u. u.path;
  parse_uri = at;
}
