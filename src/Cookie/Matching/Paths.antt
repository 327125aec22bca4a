-- ===== src/Cookie/Matching/Paths.antt =====
-- src/cookie/store.rs, `path_match` and `normalize_path`, against RFC 6265 section 5.1.4.
use tlsurl.Base.{
  ℕ, suc, zero, ◌≡◌, refl, ◌↔◌, ◌⊎◌, inl, inr, true, false, some, Text, ◌++◌, ◌∷◌, [], length, take,
  drop, drop-append_length, starts_with, starts_with-append, starts_with_split, ends_with,
  ends_with-append, ends_with_split, rfind, rfind-last, text_beq_iff, arith, Bool-cases, ◌==◌,
  text_eq, Option-cases,
}
use tlsurl.Cookie.Matching.{path_match, normalize_path, default_path}

-- The paths are equal, or the cookie's is a prefix that ends in a slash or is followed by one.
abbrev pub PathMatches : Text → Text → Type 0
PathMatches r p =
    (r ≡ p)
    ⊎ ((rest : Text) × (r ≡ p ++ rest)
        × (((q : Text) × (p ≡ q ++ b'/' ∷ [])) ⊎ ((q : Text) × (rest ≡ b'/' ∷ q))))

ends_in_slash : (p : Text) → ends_with p default_path ≡ true → (q : Text) × (p ≡ q ++ b'/' ∷ [])
ends_in_slash p h = (_, ends_with_split p default_path h)

begins_with_slash : (s : Text) → starts_with s default_path ≡ true → (q : Text) × (s ≡ b'/' ∷ q)
begins_with_slash s h = (_, starts_with_split s default_path h)

path_match_sound : (r p : Text) → path_match r p ≡ true → PathMatches r p
unfolding path_match
path_match_sound r p h = elim (Bool-cases (r == p)) [
  | inl same ↦ inl ((text_beq_iff r p).0 same)
  | inr other ↦ inr (
    drop (length p) r,
    starts_with_split r p (ground arith),
    elim (Bool-cases (ends_with p default_path)) [
      | inl slash ↦ inl (ends_in_slash p slash)
      | inr open_end ↦ inr (begins_with_slash (drop (length p) r) (ground arith))
    ],
  )
]

path_match_complete : (r p : Text) → PathMatches r p → path_match r p ≡ true
unfolding path_match
path_match_complete r p (inl e) = ground (arith, text_beq_iff r p)
path_match_complete r p (inr (rest, e, inl (q, slash))) =
    rw (e, slash)
      (ground (arith, starts_with-append (q ++ b'/' ∷ []) rest, ends_with-append q default_path))
path_match_complete r p (inr (rest, e, inr (q, slash))) =
    rw (e, drop-append_length p rest, slash)
      (ground (arith, starts_with-append p (b'/' ∷ q), starts_with-append default_path q))

-- `path_match` decides RFC 6265's path-match.
pub path_match_iff : (r p : Text) → (path_match r p ≡ true) ↔ PathMatches r p
path_match_iff r p = (path_match_sound r p, path_match_complete r p)

starts_with-take :
    (n : ℕ) (s : Text)
    → starts_with s default_path ≡ true
    → starts_with (take (suc n) s) default_path ≡ true
unfolding starts_with
starts_with-take n [] h = h
starts_with-take n (c ∷ s) h = ground arith

-- The three results of `normalize_path`, each with what leads to it.
abbrev pub DefaultPath : Text → Text → Type 0
DefaultPath path p =
    ((p ≡ default_path) × ((starts_with path default_path ≡ false) ⊎ (rfind b'/' path ≡ some 0)))
    ⊎ ((pos : ℕ) × (rfind b'/' path ≡ some (suc pos))
        × (starts_with path default_path ≡ true)
        × (p ≡ take (suc pos) path))

rfind-slash :
    (path : Text) → starts_with path default_path ≡ true → (i : ℕ) × (rfind b'/' path ≡ some i)
unfolding starts_with rfind
rfind-slash [] h = cc
rfind-slash (c ∷ path) h = elim (Option-cases (rfind b'/' path)) [
  | inl e ↦ (0, ground arith)
  | inr (i, e) ↦ (suc i, ground arith)
]

normalize_path-cases : (path : Text) → DefaultPath path (normalize_path path)
unfolding normalize_path
normalize_path-cases path = elim (Bool-cases (starts_with path default_path)) [
  | inr relative ↦ inl (rw relative, inl relative)
  | inl absolute ↦ from_slash (rfind-slash path absolute) absolute
]
  where
    from_slash :
        (i : ℕ) × (rfind b'/' path ≡ some i)
        → starts_with path default_path ≡ true
        → DefaultPath path (normalize_path path)
    from_slash (zero, e) h = inl (rw (h, e), inr e)
    from_slash (suc i, e) h = inr (i, e, h, rw (h, e) (ground arith))

-- A default path is absolute, and the request path that it was computed from matches it, so a
-- cookie without a `Path` attribute goes back to the URI that set it.
pub normalize_path_lem :
    (path : Text)
    → (starts_with (normalize_path path) default_path ≡ true)
      × (starts_with path default_path ≡ true → path_match path (normalize_path path) ≡ true)
normalize_path_lem path = elim (normalize_path-cases path) [
  | inl (e, why) ↦ rw e (
    starts_with-append default_path [],
    λ h.
        path_match_complete path default_path
          (inr (_, starts_with_split path default_path h, inl ([], refl))),
  )
  | inr (i, e, h, p) ↦ rw p (
    starts_with-take i path h,
    λ _.
        path_match_complete path (take (suc i) path)
          (inr (b'/' ∷ drop (suc (suc i)) path, (rfind-last b'/' path (suc i) e).0, inr (_, refl))),
  )
]
