-- ===== src/Proxy/Domains.antt =====
-- src/proxy/matcher.rs: which hosts an entry of a no-proxy list covers.
use tlsurl.Base.{
  subst, suc, ◌+◌, ◌-◌, ◌≡◌, refl, sym, ap, ◌∙◌, ◌⊎◌, ◌↔◌, inl, inr, true, false, ◌||◌, some, Text,
  [], ◌∷◌, ◌++◌, codes, if◌then◌else◌, nat_beq, length, length-append, get_elem?, is_some_and, drop,
  take, eq_ignore_ascii_case, starts_with, ends_with, text_eq, text_beq_iff, to_lower, arith,
  Bool-cases, append_assoc, ltb, ltb→lt,
}
use tlsurl.Proxy.Suffixes.{
  lower, same_lower, length-lower, lower-suffix, lower-dotted, get_elem?-lower, suffix-at,
  star_suffix, not_star, some_dot, whole-suffix,
}
use tlsurl.Proxy.{domain_entry, strip_dot}

-- An entry without the dot that it may start with.
abbrev pub bare : Text → Text
bare [] = []
bare (c ∷ s) = if nat_beq c b'.' then s else c ∷ s

-- The host is the entry's domain or one below it, whatever the case of its letters, or the entry is the
-- wildcard and the host does not end in a star.
abbrev pub Covers : Text → Text → Type 0
Covers d domain =
    (lower domain ≡ lower (bare d))
    ⊎ (((sub : Text) × (lower domain ≡ sub ++ b'.' ∷ lower (bare d)))
        ⊎ ((d ≡ codes "*") × (ends_with domain (codes "*") ≡ false)))

-- An entry starts with a dot or is its own domain.
entry_dot :
    (d : Text)
    → ((bare d ≡ d) × (starts_with d (codes ".") ≡ false))
      ⊎ ((d ≡ b'.' ∷ bare d) × (strip_dot d ≡ some (bare d)) × (starts_with d (codes ".") ≡ true))
unfolding starts_with
entry_dot [] = inl (refl, refl)
entry_dot (c ∷ s) = elim (Bool-cases (nat_beq c b'.')) [
  | inl dot ↦ inr (ground (arith, dot))
  | inr plain ↦ inl (ground (arith, plain))
]

strip_dot-bare :
    (d domain : Text)
    → is_some_and (strip_dot d) (λ s. eq_ignore_ascii_case s domain) ≡ true
    → lower (bare d) ≡ lower domain
strip_dot-bare [] domain h = cc h
strip_dot-bare (c ∷ s) domain h = elim (Bool-cases (nat_beq c b'.')) [
  | inl dot ↦ rw dot ((same_lower s domain).0 (rw dot at h))
  | inr plain ↦ cc (rw plain at h)
]

Covers-suffix :
    (d domain sub : Text)
    → lower domain ≡ sub ++ lower d
    → starts_with d (codes ".") ≡ true
    → Covers d domain
unfolding to_lower
Covers-suffix d domain sub e h = elim (entry_dot d) [
  | inl (same, plain) ↦ cc (h, plain)
  | inr (dotted, stripped, t) ↦ inr (inl (sub, e ∙ ap (λ z. sub ++ lower z) dotted))
]

Covers-same : (d domain : Text) → lower d ≡ lower domain → Covers d domain
unfolding to_lower
Covers-same d domain e = elim (entry_dot d) [
  | inl (same, plain) ↦ inl (sym e ∙ ap lower (sym same))
  | inr (dotted, stripped, t) ↦ Covers-suffix d domain [] (sym e) t
]

bare-plain : (d : Text) → starts_with d (codes ".") ≡ false → bare d ≡ d
bare-plain d plain = elim (entry_dot d) [
  | inl (same, e) ↦ same
  | inr (dotted, stripped, t) ↦ cc (plain, t)
]

Covers-dotted :
    (d domain : Text)
    → lower (drop (length domain - length d) domain) ≡ lower d
    → (lower d ≡ lower domain → ⊥)
    → starts_with d (codes ".") ≡ false
    → is_some_and (get_elem? domain (length domain - (length d + 1))) (λ c. nat_beq c b'.') ≡ true
    → Covers d domain
Covers-dotted d domain suffix other plain dot = elim (Bool-cases (ltb (length d) (length domain))) [
  | inl below ↦
      let j = length domain - (length d + 1) in
      let place : suc j ≡ length domain - length d =
        omega (arith, ltb→lt (length d) (length domain) below) in
      let rest : lower (drop (suc j) domain) ≡ lower d = rw place suffix in
      inr (
        inl (
          lower (take j domain),
          lower-dotted domain j (some_dot (get_elem? domain j) dot)
              ∙ ap (λ z. lower (take j domain) ++ b'.' ∷ z)
                  (rest ∙ ap lower (sym (bare-plain d plain))),
        ))
  | inr long ↦ absurd (other (sym (whole-suffix d domain long suffix)))
]

domain_entry-cases :
    (d domain : Text)
    → domain_entry domain d ≡ true
    → (eq_ignore_ascii_case d domain ≡ true)
      ⊎ ((is_some_and (strip_dot d) (λ s. eq_ignore_ascii_case s domain) ≡ true)
          ⊎ (((eq_ignore_ascii_case d domain ≡ false)
                × (eq_ignore_ascii_case (drop (length domain - length d) domain) d ≡ true)
                × ((starts_with d (codes ".") ≡ true)
                    ⊎ ((starts_with d (codes ".") ≡ false)
                        × (is_some_and
                              (get_elem? domain (length domain - (length d + 1)))
                              (λ c. nat_beq c b'.')
                            ≡ true))))
              ⊎ ((eq_ignore_ascii_case (drop (length domain - length d) domain) d ≡ false)
                  × (d ≡ codes "*"))))
unfolding domain_entry
domain_entry-cases d domain h = ground (arith, h, text_beq_iff d (codes "*"))

domain_entry-Covers : (d domain : Text) → domain_entry domain d ≡ true → Covers d domain
domain_entry-Covers d domain h = elim (domain_entry-cases d domain h) [
  | inl whole ↦ Covers-same d domain ((same_lower d domain).0 whole)
  | inr (inl stripped) ↦ inl (sym (strip_dot-bare d domain stripped))
  | inr (inr (inl (other, suffix, inl dotted))) ↦
      Covers-suffix d domain (lower (take (length domain - length d) domain))
        (lower-suffix domain d ((same_lower (drop (length domain - length d) domain) d).0 suffix))
        dotted
  | inr (inr (inl (other, suffix, inr (plain, dot)))) ↦
      Covers-dotted d domain ((same_lower (drop (length domain - length d) domain) d).0 suffix)
        (λ e. cc (other, (same_lower d domain).1 e)) plain dot
  | inr (inr (inr (other, star))) ↦ inr (
      inr (
        star,
        not_star domain (
            subst (λ z. eq_ignore_ascii_case (drop (length domain - length z) domain) z ≡ false)
              star other),
      ))
]

domain_entry-whole :
    (d domain : Text) → lower domain ≡ lower (bare d) → domain_entry domain d ≡ true
unfolding domain_entry
domain_entry-whole d domain e = elim (entry_dot d) [
  | inl (same, plain) ↦
      rw ((same_lower d domain).1 (ap lower (sym same) ∙ sym e), domain_entry) refl
  | inr (dotted, stripped, t) ↦ ground (arith, stripped, (same_lower (bare d) domain).1 (sym e))
]

domain_entry-suffix :
    (d domain : Text)
    → lower (drop (length domain - length d) domain) ≡ lower d
    → (starts_with d (codes ".")
        || is_some_and (get_elem? domain (length domain - (length d + 1))) (λ c. nat_beq c b'.'))
      ≡ true
    → domain_entry domain d ≡ true
unfolding domain_entry
domain_entry-suffix d domain e h =
    ground (arith, h, (same_lower (drop (length domain - length d) domain) d).1 e)

dot_before :
    (d domain sub : Text)
    → get_elem? domain (length sub) ≡ some b'.'
    → length domain - (length d + 1) ≡ length sub
    → (starts_with d (codes ".")
        || is_some_and (get_elem? domain (length domain - (length d + 1))) (λ c. nat_beq c b'.'))
      ≡ true
dot_before d domain sub dot place = rw (place, dot) (ground arith)

domain_entry-below :
    (d domain sub : Text)
    → lower domain ≡ sub ++ b'.' ∷ lower (bare d)
    → domain_entry domain d ≡ true
unfolding to_lower
domain_entry-below d domain sub e = elim (entry_dot d) [
  | inl (same, plain) ↦
      let e' : lower domain ≡ sub ++ b'.' ∷ lower d = e ∙ ap (λ z. sub ++ b'.' ∷ lower z) same in
      domain_entry-suffix d domain
        (suffix-at domain (sub ++ b'.' ∷ []) (lower d) (length d)
          (e' ∙ sym (append_assoc sub (b'.' ∷ []) (lower d))) (length-lower d))
        (dot_before d domain sub (get_elem?-lower domain sub (lower d) e') (
          omega (
            arith,
            length-lower domain,
            length-lower d,
            ap length e',
            length-append sub (b'.' ∷ lower d),
          )))
  | inr (dotted, stripped, t) ↦
      domain_entry-suffix d domain
        (suffix-at domain sub (lower d) (length d) (e ∙ ap (λ z. sub ++ z) (sym (ap lower dotted)))
          (length-lower d))
        (rw t refl)
]

domain_entry-star :
    (domain : Text) → ends_with domain (codes "*") ≡ false → domain_entry domain (codes "*") ≡ true
unfolding domain_entry
domain_entry-star domain h = ground (arith, star_suffix domain h)

-- An entry matches a host exactly when it covers it.
pub domain_entry_iff : (d domain : Text) → (domain_entry domain d ≡ true) ↔ Covers d domain
domain_entry_iff d domain = (
  domain_entry-Covers d domain,
  λ c. elim c [
    | inl whole ↦ domain_entry-whole d domain whole
    | inr (inl (sub, e)) ↦ domain_entry-below d domain sub e
    | inr (inr (star, plain)) ↦
        subst (λ z. domain_entry domain z ≡ true) (sym star) (domain_entry-star domain plain)
  ],
)
