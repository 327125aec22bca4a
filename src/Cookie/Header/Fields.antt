-- ===== src/Cookie/Header/Fields.antt =====
-- src/cookie/jar.rs, `CookieStore::cookies`: the order of the pairs and the text of the fields.
use tlsurl.Base.{
  ℕ, ◌≡◌, refl, sym, ap, ◌∙◌, true, false, Text, List, [], ◌∷◌, ◌++◌, map, append-nil, append_assoc,
  length, arith, is_nil, if◌then◌else◌, IsSorted, sort_by-IsSorted, sort_by-perm, ◌<◌, ◌≤◌, ◌⊎◌,
  inl, inr, Bool-cases, filter, some, nat_beq, All,
}
use mathlib.Core.List.{Perm}
use tlsurl.Uri.{Uri}
use tlsurl.Cookie.{RawCookie, CanonicalHost, Externals}
use tlsurl.Cookie.Jar.{request_host}
use tlsurl.Cookie.Store.{Store, Found, matching_cookies}
use tlsurl.Cookie.Header.{
  Cookies, uncompressed, cookies, http_2, http_3, Version, compressed, empty, request_order,
  pair_text, join_pairs, selected_entries, cookie_field,
}

request_order_total : (a b : Found) → request_order a b ≡ false → request_order b a ≡ true
unfolding request_order
request_order_total a b h = ground arith

request_order_trans :
    (a b c : Found) → request_order a b ≡ true → request_order b c ≡ true → request_order a c ≡ true
unfolding request_order
request_order_trans a b c h k = ground arith

-- The path of one is longer, or it is as long and the entry is not newer.
abbrev pub Precedes : Found → Found → Type 0
Precedes a b =
    (length b.1 < length a.1)
    ⊎ ((length a.1 ≡ length b.1) × (a.2.creation_index ≤ b.2.creation_index))

abbrev pub InOrder : List Found → Type 0
InOrder [] = Unit
InOrder (f ∷ fs) = All (Precedes f) fs × InOrder fs

request_order-Precedes : (a b : Found) → request_order a b ≡ true → Precedes a b
unfolding request_order
request_order-Precedes a b h = elim (Bool-cases (nat_beq (length a.1) (length b.1))) [
  | inl same ↦ inr (ground (arith, same), ground (arith, h, same))
  | inr other ↦ inl (ground (arith, h, other))
]

All-Precedes :
    (a : Found) (fs : List Found) → All (λ b. request_order a b ≡ true) fs → All (Precedes a) fs
All-Precedes a [] h = tt
All-Precedes a (b ∷ fs) (now, later) = (request_order-Precedes a b now, All-Precedes a fs later)

sorted-InOrder : (fs : List Found) → IsSorted request_order fs → InOrder fs
sorted-InOrder [] h = tt
sorted-InOrder (f ∷ fs) (first, rest) = (All-Precedes f fs first, sorted-InOrder fs rest)

-- The texts with a separator between each two.
abbrev pub intercalate : Text → List Text → Text
intercalate sep [] = []
intercalate sep (t ∷ []) = t
intercalate sep (t ∷ u ∷ ts) = t ++ (sep ++ intercalate sep (u ∷ ts))

abbrev pub separator : Text
separator = b';' ∷ b' ' ∷ []

is_nil-append : (s t : Text) → is_nil t ≡ false → is_nil (s ++ t) ≡ false
is_nil-append [] t h = h
is_nil-append (c ∷ s) t h = refl

is_nil-append_left : (s t : Text) → is_nil s ≡ false → is_nil (s ++ t) ≡ false
is_nil-append_left [] t h = cc
is_nil-append_left (c ∷ s) t h = refl

is_nil-pair_text : (c : RawCookie) → is_nil (pair_text c) ≡ false
is_nil-pair_text c = is_nil-append c.name (b'=' ∷ c.value) refl

-- What the fold adds to a field that is not empty.
abbrev rest_pairs : List RawCookie → Text
rest_pairs [] = []
rest_pairs (c ∷ cs) = separator ++ (pair_text c ++ rest_pairs cs)

join_pairs-append :
    (acc : Text) (cs : List RawCookie)
    → is_nil acc ≡ false
    → join_pairs acc cs ≡ acc ++ rest_pairs cs
unfolding join_pairs
join_pairs-append acc [] h = sym (append-nil acc)
join_pairs-append acc (c ∷ cs) h =
    rw (join_pairs, h)
      (join_pairs-append ((acc ++ separator) ++ pair_text c) cs
          (is_nil-append (acc ++ separator) (pair_text c) (is_nil-pair_text c))
        ∙ append_assoc (acc ++ separator) (pair_text c) (rest_pairs cs)
        ∙ append_assoc acc separator (pair_text c ++ rest_pairs cs))

rest_pairs-intercalate :
    (c : RawCookie) (cs : List RawCookie)
    → pair_text c ++ rest_pairs cs ≡ intercalate separator (map pair_text (c ∷ cs))
rest_pairs-intercalate c [] = append-nil (pair_text c)
rest_pairs-intercalate c (d ∷ cs) =
    ap (λ t. pair_text c ++ (separator ++ t)) (rest_pairs-intercalate d cs)

join_pairs-intercalate :
    (cs : List RawCookie) → join_pairs [] cs ≡ intercalate separator (map pair_text cs)
unfolding join_pairs
join_pairs-intercalate [] = refl
join_pairs-intercalate (c ∷ cs) =
    join_pairs-append (pair_text c) cs (is_nil-pair_text c) ∙ rest_pairs-intercalate c cs

is_nil-join_pairs : (cs : List RawCookie) → is_nil (join_pairs [] cs) ≡ is_nil cs
unfolding join_pairs
is_nil-join_pairs [] = refl
is_nil-join_pairs (c ∷ cs) =
    ap is_nil (join_pairs-append (pair_text c) cs (is_nil-pair_text c))
    ∙ is_nil-append_left (pair_text c) (rest_pairs cs) (is_nil-pair_text c)

module _ (ext : Externals) where
  -- The pairs from HTTP/2 on, each in a field of its own unless it is no header value, and before it
  -- in one field.
  abbrev pub rendered : Version → List Text → Cookies
  rendered http_2 pairs = uncompressed (filter ext.is_header_value pairs)
  rendered http_3 pairs = uncompressed (filter ext.is_header_value pairs)
  rendered _ [] = empty
  rendered _ (pair ∷ pairs) =
      let field = intercalate separator (pair ∷ pairs) in
      if ext.is_header_value field then compressed field else empty

  cookie_field-rendered :
      (cs : List RawCookie) (v : Version) → cookie_field ext cs v ≡ rendered v (map pair_text cs)
  unfolding cookie_field join_pairs
  cookie_field-rendered cs http_2 = refl
  cookie_field-rendered cs http_3 = refl
  cookie_field-rendered [] v = refl
  cookie_field-rendered (c ∷ cs) v =
      rw (is_nil-join_pairs (c ∷ cs), join_pairs-intercalate (c ∷ cs)) refl

  map-pair_text :
      (fs : List Found)
      → map pair_text (map (λ f. f.2.cookie) fs)
        ≡ map (λ f. f.2.cookie.name ++ b'=' ∷ f.2.cookie.value) fs
  map-pair_text [] = refl
  map-pair_text (f ∷ fs) = ap (λ ts. pair_text f.2.cookie ∷ ts) (map-pair_text fs)

  -- What `cookies` sends to a host is the pairs `name=value` of the matching cookies, none of them
  -- dropped, repeated or added, with longer paths first and, among paths of one length, in the order
  -- of creation: from HTTP/2 on each is a field of its own, less those that are no header values, and
  -- below they are one field, joined by "; ", if there are any and it is a header value.
  pub cookies-ordered :
      (s : Store) (uri : Uri) (d : CanonicalHost) (v : Version) (now : ℕ)
      → request_host ext uri ≡ some d
      → (fs : List Found) × Perm fs (matching_cookies s uri d now)
        × InOrder fs
        × (cookies ext s uri v now
            ≡ rendered v (map (λ f. f.2.cookie.name ++ b'=' ∷ f.2.cookie.value) fs))
  unfolding cookies selected_entries
  cookies-ordered s uri d v now origin =
      let found = matching_cookies s uri d now in
      let fs = selected_entries s uri d now in
      (
        fs,
        sort_by-perm request_order found,
        sorted-InOrder fs
            (sort_by-IsSorted request_order request_order_total request_order_trans found),
        rw (origin, cookies)
            (cookie_field-rendered (map (λ f. f.2.cookie) fs) v
              ∙ ap (rendered v) (map-pair_text fs)),
      )
