-- ===== src/Multipart/Boundary.antt =====
-- src/client/multipart.rs: the random boundary.
use Prim.Native.Nat.{◌/◌}
use tlsurl.Base.{
  ℕ, zero, suc, ◌%◌, ◌<◌, ◌≡◌, refl, ap, sym, ◌∙◌, append-nil, append_assoc, Bool, true, false,
  ◌&&◌, ◌||◌, Option, none, some, Text, [], ◌∷◌, ◌++◌, leb, nat_beq, arith, get_elem?, length,
  length-append, All, All-append,
}
use tlsurl.Multipart.{draw, gen_boundary, alpha_numeric_encoding_map, prefix}

-- The bytes that RFC 2046 allows and that sites accept: letters, digits and the hyphen.
abbrev pub is_legal : ℕ → Bool
is_legal c =
    (leb b'0' c && leb c b'9')
    || ((leb b'A' c && leb c b'Z') || ((leb b'a' c && leb c b'z') || nat_beq c b'-'))

abbrev pub IsLegal : Text → Type 0
IsLegal = All (λ c. is_legal c ≡ true)

abbrev legal_letter : Option ℕ → Bool
legal_letter none = false
legal_letter (some c) = is_legal c

legal_letter-some :
    (o : Option ℕ) → legal_letter o ≡ true → (c : ℕ) × (o ≡ some c) × (is_legal c ≡ true)
legal_letter-some none h = cc h
legal_letter-some (some c) h = (c, refl, h)

all_below : ℕ → (ℕ → Bool) → Bool
all_below zero p = true
all_below (suc n) p = p n && all_below n p

all_below-apply : (n : ℕ) (p : ℕ → Bool) (x : ℕ) → all_below n p ≡ true → x < n → p x ≡ true
unfolding all_below
all_below-apply zero p x h lt = absurd (omega arith)
all_below-apply (suc n) p x h lt = ground (arith, all_below-apply n p x)

letters : all_below 64 (λ n. legal_letter (get_elem? alpha_numeric_encoding_map n)) ≡ true
unfolding all_below
letters = refl

letter :
    (n : ℕ)
    → n < 64
    → (c : ℕ) × (get_elem? alpha_numeric_encoding_map n ≡ some c) × (is_legal c ≡ true)
letter n h =
    legal_letter-some (get_elem? alpha_numeric_encoding_map n)
      (all_below-apply 64 (λ n. legal_letter (get_elem? alpha_numeric_encoding_map n)) n letters h)

draw_lem :
    (rounds randomness : ℕ) (boundary : Text)
    → (drawn : Text) × (draw rounds randomness boundary ≡ some (boundary ++ drawn))
      × (length drawn ≡ rounds)
      × IsLegal drawn
unfolding draw
draw_lem zero randomness boundary = ([], ap some (sym (append-nil boundary)), refl, tt)
draw_lem (suc rounds) randomness boundary =
    let (c, found, legal) = letter (randomness % 64) (omega arith) in
    let (drawn, e, size, all) = draw_lem rounds (randomness / 64) (boundary ++ c ∷ []) in
    (
      c ∷ drawn,
      rw (found, draw) (e ∙ ap some (append_assoc boundary (c ∷ []) drawn)),
      ap suc size,
      (legal, all),
    )

gen_boundary-draw :
    (random random' : ℕ) (half half' : Text)
    → draw 8 random prefix ≡ some (prefix ++ half)
    → draw 8 random' (prefix ++ half) ≡ some ((prefix ++ half) ++ half')
    → length half ≡ 8
    → length half' ≡ 8
    → gen_boundary random random' ≡ some (prefix ++ (half ++ half'))
unfolding gen_boundary
gen_boundary-draw random random' half half' e e' size size' =
    ground (arith, e, e', length-append half half')

-- Whatever the random numbers are, no read is out of bounds and the assertion holds: the boundary
-- is the prefix and sixteen letters or digits or hyphens.
pub gen_boundary_lem :
    (random random' : ℕ)
    → (drawn : Text) × (gen_boundary random random' ≡ some (prefix ++ drawn))
      × (length drawn ≡ 16)
      × IsLegal drawn
gen_boundary_lem random random' =
    let (half, e, size, legal) = draw_lem 8 random prefix in
    let (half', e', size', legal') = draw_lem 8 random' (prefix ++ half) in
    (
      half ++ half',
      gen_boundary-draw random random' half half' e e' size size',
      omega (arith, length-append half half', size, size'),
      All-append _ half half' legal legal',
    )
