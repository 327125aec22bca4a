-- ===== src/Proxy/Suffixes.antt =====
-- Texts up to the case of their letters, and the suffixes of a host.
use mathlib.Core.List.{map-append}
use tlsurl.Base.{
  subst, ℕ, zero, suc, ◌-◌, ◌≡◌, refl, sym, ap, ◌∙◌, ◌↔◌, inl, inr, true, false, Option, none, some,
  Text, [], ◌∷◌, ◌++◌, codes, nat_beq, nat_beq_iff, length, length-append, get_elem?, is_some_and,
  drop, take, eq_ignore_ascii_case, ends_with, text_eq, text_beq_iff, map, to_lower, arith,
  Bool-cases, take-append-drop, drop-append_length, ltb,
}

abbrev pub lower : Text → Text
lower = map to_lower

pub same_lower : (a b : Text) → (eq_ignore_ascii_case a b ≡ true) ↔ (lower a ≡ lower b)
unfolding eq_ignore_ascii_case
same_lower a b = text_beq_iff (map to_lower a) (map to_lower b)

pub lower-dot : (c : ℕ) → to_lower c ≡ b'.' → c ≡ b'.'
unfolding to_lower
lower-dot c h = ground (arith, h)

pub lower-star : (c : ℕ) → to_lower c ≡ b'*' → c ≡ b'*'
unfolding to_lower
lower-star c h = ground (arith, h)

pub length-lower : (s : Text) → length (lower s) ≡ length s
length-lower [] = refl
length-lower (c ∷ s) = omega (arith, length-lower s)

pub drop-lower : (n : ℕ) (s : Text) → drop n (lower s) ≡ lower (drop n s)
drop-lower zero s = refl
drop-lower (suc n) [] = refl
drop-lower (suc n) (c ∷ s) = drop-lower n s

-- A suffix at its place splits the text.
pub lower-suffix :
    (domain d : Text)
    → lower (drop (length domain - length d) domain) ≡ lower d
    → lower domain ≡ lower (take (length domain - length d) domain) ++ lower d
lower-suffix domain d h =
    let k = length domain - length d in
    ap lower (sym (take-append-drop k domain))
    ∙ map-append to_lower (take k domain) (drop k domain)
    ∙ ap (◌++◌ (lower (take k domain))) h

-- The byte before a suffix is the dot.
pub lower-dotted :
    (domain : Text) (n : ℕ)
    → get_elem? domain n ≡ some b'.'
    → lower domain ≡ lower (take n domain) ++ b'.' ∷ lower (drop (suc n) domain)
unfolding to_lower
lower-dotted [] n h = cc h
lower-dotted (c ∷ s) zero h = ground (arith, h)
lower-dotted (c ∷ s) (suc n) h = ap (◌∷◌ (to_lower c)) (lower-dotted s n h)

pub get_elem?-lower :
    (domain sub r : Text)
    → lower domain ≡ sub ++ b'.' ∷ r
    → get_elem? domain (length sub) ≡ some b'.'
get_elem?-lower [] [] r h = cc h
get_elem?-lower [] (b ∷ sub) r h = cc h
get_elem?-lower (c ∷ s) [] r h = ap some (lower-dot c (cc h))
get_elem?-lower (c ∷ s) (b ∷ sub) r h = get_elem?-lower s sub r (cc h)

pub some_dot : (o : Option ℕ) → is_some_and o (λ c. nat_beq c b'.') ≡ true → o ≡ some b'.'
some_dot none h = cc h
some_dot (some c) h = ap some ((nat_beq_iff c b'.').0 h)

pub whole-suffix :
    (d domain : Text)
    → ltb (length d) (length domain) ≡ false
    → lower (drop (length domain - length d) domain) ≡ lower d
    → lower domain ≡ lower d
whole-suffix d domain long suffix =
    let zero_at : length domain - length d ≡ 0 = ground (arith, long) in
    subst (λ n. lower (drop n domain) ≡ lower d) zero_at suffix

pub not_star :
    (domain : Text)
    → eq_ignore_ascii_case (drop (length domain - 1) domain) (codes "*") ≡ false
    → ends_with domain (codes "*") ≡ false
unfolding ends_with
not_star domain h =
    let same = same_lower (drop (length domain - 1) domain) (codes "*") in
    ground (arith, h, same.1, text_beq_iff (drop (length domain - 1) domain) (codes "*"))

-- What stands behind a prefix is the suffix of its length.
pub suffix-at :
    (domain sub r : Text) (n : ℕ)
    → lower domain ≡ sub ++ r
    → length r ≡ n
    → lower (drop (length domain - n) domain) ≡ r
suffix-at domain sub r n e size =
    let place : length domain - n ≡ length sub =
      omega (arith, length-lower domain, ap length e, length-append sub r, size) in
    sym (drop-lower (length domain - n) domain)
    ∙ subst (λ m. drop m (lower domain) ≡ r) (sym place)
        (ap (drop (length sub)) e ∙ drop-append_length sub r)

pub star-lower : (t : Text) → lower t ≡ codes "*" → t ≡ codes "*"
star-lower [] h = cc h
star-lower (c ∷ []) h = ap (λ z. z ∷ []) (lower-star c (cc h))
star-lower (c ∷ d ∷ s) h = cc h

pub star_suffix :
    (domain : Text)
    → ends_with domain (codes "*") ≡ false
    → eq_ignore_ascii_case (drop (length domain - 1) domain) (codes "*") ≡ false
unfolding ends_with eq_ignore_ascii_case to_lower
star_suffix [] h = refl
star_suffix (c ∷ s) h =
    let last = drop (length (c ∷ s) - 1) (c ∷ s) in
    elim (Bool-cases (eq_ignore_ascii_case last (codes "*"))) [
      | inl star ↦
          let same =
            (text_beq_iff last (codes "*")).1
              (star-lower last ((same_lower last (codes "*")).0 star)) in
          ground (arith, h, same)
      | inr other ↦ other
    ]
