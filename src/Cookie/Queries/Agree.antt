-- ===== src/Cookie/Queries/Agree.antt =====
-- src/cookie/jar.rs: the reading methods of `Jar` agree with one another.
use tlsurl.Base.{
  ◌>>=◌, >>=-eq-some, ℕ, suc, ◌≤◌, ◌≡◌, refl, sym, subst, ap, ◌∙◌, inl, inr, Bool, true, false, not,
  Option, none, some, Text, List, [], ◌∷◌, map, length, leb, nat_beq, arith, Elem, any, filter,
  length-sort_by, min_by_key, Option-cases, Bool-cases, is_some,
}
use tlsurl.Uri.{Uri, into_uri, into_uri-eq}
use tlsurl.Cookie.{RawCookie, CanonicalHost, Externals}
use tlsurl.Cookie.Scope.{CookieEntry}
use tlsurl.Cookie.Store.{Store}
use tlsurl.Cookie.Jar.{request_host}
use tlsurl.Cookie.Queries.{
  is_live, all_entries, scope_entries, get, contains, get_all, len, is_empty,
}

some_injective : {A : Type 0} {a b : A} → some a ≡ some b → a ≡ b
some_injective h = cc

is_some-min_by_key :
    {A : Type 0} (key : A → ℕ) (p : A → Bool) (xs : List A)
    → is_some (min_by_key key (filter p xs)) ≡ any p xs
unfolding min_by_key
is_some-min_by_key key p [] = refl
is_some-min_by_key key p (x ∷ xs) = ground (arith, is_some-min_by_key key p xs)

min_by_key-none :
    {A : Type 0} (key : A → ℕ) (xs : List A) (a : A) → min_by_key key xs ≡ none → ¬ Elem a xs
unfolding min_by_key
min_by_key-none key [] a h m = m
min_by_key-none key (x ∷ xs) a h m = elim (Option-cases (min_by_key key xs)) [
  | inl e ↦ cc (rw (min_by_key, e) at h)
  | inr (k, e) ↦ elim (Bool-cases (leb (key x) (key k))) [
    | inl t ↦ cc (rw (min_by_key, e, t) at h)
    | inr t ↦ cc (rw (min_by_key, e, t) at h)
  ]
]

-- A least element: in the list, and not above any other.
abbrev pub IsLeast : {A : Type 0} → (A → ℕ) → A → List A → Type 0
IsLeast {A} key m xs = Elem m xs × ((a : A) → Elem a xs → key m ≤ key a)

IsLeast-cons :
    {A : Type 0} (key : A → ℕ) (m x : A) (xs : List A)
    → IsLeast key m xs
    → leb (key x) (key m) ≡ false
    → IsLeast key m (x ∷ xs)
IsLeast-cons key m x xs v t =
    (inr v.0, λ a k. elim k [ inl e ↦ rw e (ground arith) | inr k' ↦ v.1 a k' ])

IsLeast-head :
    {A : Type 0} (key : A → ℕ) (m x : A) (xs : List A)
    → IsLeast key m xs
    → leb (key x) (key m) ≡ true
    → IsLeast key x (x ∷ xs)
IsLeast-head key m x xs v t =
    (inl refl, λ a k. elim k [ inl e ↦ rw e (omega arith) | inr k' ↦ ground (arith, v.1 a k') ])

min_by_key-IsLeast :
    {A : Type 0} (key : A → ℕ) (m : A) (xs : List A) → min_by_key key xs ≡ some m → IsLeast key m xs
unfolding min_by_key
min_by_key-IsLeast key m [] h = cc
min_by_key-IsLeast {A} key m (x ∷ xs) h = elim (Option-cases (min_by_key key xs)) [
  | inl e ↦
      let q : x ≡ m = some_injective (rw (min_by_key, e) at h) in
      (
        inl (sym q),
        λ a k. elim k [
          | inl w ↦ rw (w, q) (omega arith)
          | inr k' ↦ absurd (min_by_key-none key xs a e k')
        ],
      )
  | inr (b, e) ↦
      let v = min_by_key-IsLeast key b xs e in
      elim (Bool-cases (leb (key x) (key b))) [
        | inl t ↦
            let q : x ≡ m = some_injective (rw (min_by_key, e, t) at h) in
            subst (λ k. IsLeast key k (x ∷ xs)) q (IsLeast-head key b x xs v t)
        | inr t ↦
            let q : b ≡ m = some_injective (rw (min_by_key, e, t) at h) in
            subst (λ k. IsLeast key k (x ∷ xs)) q (IsLeast-cons key b x xs v t)
      ]
]

is_some-bind :
    {A B : Type 0} (f : A → B) (o : Option A) → is_some (o >>= λ a. some (f a)) ≡ is_some o
is_some-bind f none = refl
is_some-bind f (some a) = refl

module _ (ext : Externals) (s : Store) (name : Text) (uri : Uri) (now : ℕ) where
  -- `contains` tells whether `get` finds a cookie.
  pub contains-get : contains ext s name uri now ≡ is_some (get ext s name uri now)
  unfolding contains get
  contains-get = elim (Option-cases (into_uri uri)) [
    | inl e ↦ rw (contains, get, e)
    | inr (u, e) ↦ elim (Option-cases (request_host ext u)) [
      | inl k ↦ rw (contains, get, e) (rw k)
      | inr (d, k) ↦ elim (Option-cases (scope_entries s d u.path name)) [
        | inl q ↦ rw (contains, get, e) (rw k (rw q))
        | inr (es, q) ↦
            rw (contains, get, e)
              (rw k (
                rw q (
                  sym (
                    is_some-bind (λ v. v.cookie) _
                    ∙ is_some-min_by_key (λ v. v.creation_index) (is_live now) es))))
      ]
    ]
  ]

  -- `get` returns the oldest of the live cookies with the name in the exact scope of the URI, whether
  -- host-only or not.
  pub get-oldest :
      (c : RawCookie)
      → get ext s name uri now ≡ some c
      → (d : CanonicalHost) × (es : List CookieEntry) × (e : CookieEntry) × (request_host ext uri
          ≡ some d)
        × (scope_entries s d uri.path name ≡ some es)
        × (e.cookie ≡ c)
        × IsLeast (λ v. v.creation_index) e (filter (is_live now) es)
  unfolding get
  get-oldest c h =
      let (u, e_u, h_u) = >>=-eq-some (into_uri uri) _ c h in
      let (d, e_d, h_d) = >>=-eq-some (request_host ext u) _ c h_u in
      let (es, e_es, h_es) = >>=-eq-some (scope_entries s d u.path name) _ c h_d in
      let (e, e_e, h_e) =
        >>=-eq-some (min_by_key (λ v. v.creation_index) (filter (is_live now) es)) _ c h_es in
      let same = into_uri-eq uri u e_u in
      (
        d,
        es,
        e,
        subst (λ t. request_host ext t ≡ some d) same e_d,
        subst (λ t. scope_entries s d t.path name ≡ some es) same e_es,
        some_injective h_e,
        min_by_key-IsLeast (λ v. v.creation_index) e (filter (is_live now) es) e_e,
      )

length-map : {A B : Type 0} (f : A → B) (xs : List A) → length (map f xs) ≡ length xs
length-map f [] = refl
length-map f (x ∷ xs) = ap suc (length-map f xs)

is_nil-filter :
    {A : Type 0} (p : A → Bool) (xs : List A) → not (any p xs) ≡ nat_beq (length (filter p xs)) 0
is_nil-filter p [] = refl
is_nil-filter p (x ∷ xs) = ground (arith, is_nil-filter p xs)

-- `len` counts what `get_all` returns, and `is_empty` tells whether that is nothing.
pub len-get_all :
    (s : Store) (now : ℕ)
    → (length (get_all s now) ≡ len s now) × (is_empty s now ≡ nat_beq (len s now) 0)
unfolding get_all len is_empty
len-get_all s now =
    (length-map (λ e. e.cookie) _ ∙ length-sort_by _ _, is_nil-filter (is_live now) (all_entries s))
