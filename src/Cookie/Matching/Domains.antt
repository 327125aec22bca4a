-- ===== src/Cookie/Matching/Domains.antt =====
-- src/cookie/store.rs, `domain_match`, against RFC 6265 section 5.1.3.
use tlsurl.Base.{
  ℕ, suc, ◌-◌, ◌≡◌, ◌<◌, refl, subst, ap, ◌∙◌, is_some_and, ◌↔◌, ◌⊎◌, inl, inr, true, ◌&&◌, Option,
  none, some, Text, ◌++◌, ◌∷◌, [], length, length-append, get_elem?, get_elem?-append_length, take,
  drop, ends_with, ends_with-append, text_beq_iff, nat_beq_iff, arith, append_assoc, Bool-cases,
  ltb, ◌==◌, text_eq, nat_beq, split_at_elem,
}
use tlsurl.Cookie.{CanonicalHost, domain, host_beq_iff}
use tlsurl.Cookie.Matching.{domain_match, dot_before}

-- The host is the domain, or both are names and the host is some labels, a dot and the domain.
abbrev pub DomainMatches : CanonicalHost → CanonicalHost → Type 0
DomainMatches h d =
    (h ≡ d) ⊎ ((pre a b : Text) × (h ≡ domain a) × (d ≡ domain b) × (a ≡ pre ++ b'.' ∷ b))

last_byte : (xs : Text) (b : ℕ) (ys : Text) → length (xs ++ b ∷ ys) - length ys - 1 ≡ length xs
last_byte xs b ys = omega (arith, length-append xs (b ∷ ys))

ends_with-label : (pre d : Text) (b : ℕ) → ends_with (pre ++ b ∷ d) d ≡ true
ends_with-label pre d b =
    subst (λ t. ends_with t d ≡ true) (append_assoc pre (b ∷ []) d)
      (ends_with-append (pre ++ b ∷ []) d)

dot_before-label : (pre d : Text) → dot_before (pre ++ b'.' ∷ d) d ≡ true
dot_before-label pre d = rw (last_byte pre b'.' d, get_elem?-append_length pre d b'.')

-- The three tests of the source hold of a proper subdomain.
subdomain_tests :
    (pre d : Text)
    → (ltb (length d) (length (pre ++ b'.' ∷ d))
        && (dot_before (pre ++ b'.' ∷ d) d && ends_with (pre ++ b'.' ∷ d) d))
      ≡ true
subdomain_tests pre d =
    ground (arith, dot_before-label pre d, ends_with-label pre d b'.', length-append pre (b'.' ∷ d))

domain_match_complete : (h d : CanonicalHost) → DomainMatches h d → domain_match h d ≡ true
unfolding domain_match
domain_match_complete (domain h) (domain d) (inl e) = ground (arith, text_beq_iff h d)
domain_match_complete (domain h) (domain d) (inr (pre, a, b, eh, ed, ea)) =
    let e : h ≡ pre ++ b'.' ∷ d = ground arith in rw e (ground (arith, subdomain_tests pre d))
domain_match_complete h d (inl e) = (host_beq_iff h d).1 e
domain_match_complete h d (inr (pre, a, b, eh, ed, ea)) = cc

byte_found : (o : Option ℕ) → is_some_and o (λ b. nat_beq b b'.') ≡ true → o ≡ some b'.'
byte_found none h = cc
byte_found (some b) h = ap some ((nat_beq_iff b b'.').0 h)

subdomain_split :
    (h d : Text)
    → length d < length h
    → dot_before h d ≡ true
    → ends_with h d ≡ true
    → h ≡ take (length h - length d - 1) h ++ b'.' ∷ d
unfolding ends_with
subdomain_split h d lt dot suffix =
    let n = length h - length d - 1 in
    let here : get_elem? h n ≡ some b'.' = byte_found (get_elem? h n) dot in
    let next : suc n ≡ length h - length d = omega arith in
    let rest : drop (suc n) h ≡ d =
      rw next (ground (arith, text_beq_iff (drop (length h - length d) h) d)) in
    split_at_elem h n b'.' here ∙ ap (λ t. take n h ++ b'.' ∷ t) rest

domain_match_sound : (h d : CanonicalHost) → domain_match h d ≡ true → DomainMatches h d
unfolding domain_match
domain_match_sound (domain h) (domain d) m = elim (Bool-cases (h == d)) [
  | inl same ↦ inl (ground (arith, text_beq_iff h d))
  | inr other ↦ inr (
    take (length h - length d - 1) h,
    h,
    d,
    refl,
    refl,
    subdomain_split h d (ground arith) (ground arith) (ground arith),
  )
]
domain_match_sound h d m = inl ((host_beq_iff h d).0 m)

-- `domain_match` decides RFC 6265's domain-match; addresses match only themselves.
pub domain_match_iff : (h d : CanonicalHost) → (domain_match h d ≡ true) ↔ DomainMatches h d
domain_match_iff h d = (domain_match_sound h d, domain_match_complete h d)
