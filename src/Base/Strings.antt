-- ===== src/Base/Strings.antt =====
-- The string operations of the standard library that the program uses, over bytes.
use Prim.Native.Nat.{ℕ, zero, suc, ◌+◌, ◌-◌}
use mathlib.Core.Path.{◌≡◌, refl, ap}
use mathlib.Core.Logic.{◌≢◌, inl, inr}
use mathlib.Core.Bool.{Bool, true, false, ◌&&◌, ◌||◌}
use mathlib.Core.Option.{Option, none, some}
use mathlib.Core.List.{List, [], ◌∷◌, ◌++◌, map}
use native.Mathlib.Omega.{arith}
use tlsurl.Base.Tests.{leb, if◌then◌else◌, nat_beq, nat_beq_iff, Option-cases}
use tlsurl.Base.Lists.{length, drop, take, take-append-drop, length-append, drop-append_length, All}
use tlsurl.Base.Equality.{◌==◌, text_eq, text_beq_iff, Text}

-- `str::starts_with`.
unfoldable pub starts_with : Text → Text → Bool
starts_with s [] = true
starts_with [] (p ∷ ps) = false
starts_with (c ∷ s) (p ∷ ps) = nat_beq c p && starts_with s ps

-- `str::ends_with`.
unfoldable pub ends_with : Text → Text → Bool
ends_with s p = leb (length p) (length s) && drop (length s - length p) s == p

-- `str::rfind` of one byte.
unfoldable pub rfind : ℕ → Text → Option ℕ
rfind b [] = none
rfind b (c ∷ s) = elim (rfind b s) [
  | some i ↦ some (suc i)
  | none ↦ if nat_beq c b then some 0 else none
]

-- `s.strip_prefix(b).unwrap_or(s)` for one byte.
unfoldable pub strip_prefix : ℕ → Text → Text
strip_prefix b [] = []
strip_prefix b (c ∷ s) = if nat_beq c b then s else c ∷ s

-- `u8::to_ascii_lowercase`.
unfoldable pub to_lower : ℕ → ℕ
to_lower c = if leb b'A' c && leb c b'Z' then c + 32 else c

-- `str::eq_ignore_ascii_case`.
unfoldable pub eq_ignore_ascii_case : Text → Text → Bool
eq_ignore_ascii_case a b = map to_lower a == map to_lower b

pub starts_with-append : (s rest : Text) → starts_with (s ++ rest) s ≡ true
unfolding starts_with
starts_with-append [] [] = refl
starts_with-append [] (r ∷ rest) = refl
starts_with-append (c ∷ s) rest = ground (arith, starts_with-append s rest)

pub starts_with_split : (s p : Text) → starts_with s p ≡ true → s ≡ p ++ drop (length p) s
unfolding starts_with
starts_with_split s [] h = refl
starts_with_split [] (p ∷ ps) h = cc
starts_with_split (c ∷ s) (p ∷ ps) h = ground (arith, nat_beq_iff c p, starts_with_split s ps)

pub ends_with-append : (pre s : Text) → ends_with (pre ++ s) s ≡ true
unfolding ends_with
ends_with-append pre s =
    rw (length-append pre s)
      (ground (arith, drop-append_length pre s, (text_beq_iff s s), sub_length pre s))
  where
    sub_length : (xs ys : Text) → length xs + length ys - length ys ≡ length xs
    sub_length xs ys = omega arith

pub ends_with_split : (s p : Text) → ends_with s p ≡ true → s ≡ take (length s - length p) s ++ p
unfolding ends_with
ends_with_split s p h =
    ground (
      arith,
      take-append-drop (length s - length p) s,
      text_beq_iff (drop (length s - length p) s) p,
    )

rfind-none : (b : ℕ) (s : Text) → rfind b s ≡ none → All (λ c. c ≢ b) s
unfolding rfind
rfind-none b [] h = tt
rfind-none b (c ∷ s) h = elim (Option-cases (rfind b s)) [
  | inl e ↦ (ground (arith, nat_beq_iff c b), rfind-none b s e)
  | inr (j, e) ↦ cc (rw (e, rfind) at h)
]

-- The last occurrence: the byte stands there, and nowhere behind it.
pub rfind-last :
    (b : ℕ) (s : Text) (i : ℕ)
    → rfind b s ≡ some i
    → (s ≡ take i s ++ b ∷ drop (suc i) s) × All (λ c. c ≢ b) (drop (suc i) s)
unfolding rfind
rfind-last b [] i h = cc
rfind-last b (c ∷ s) zero h = elim (Option-cases (rfind b s)) [
  | inl e ↦ (ground (arith, nat_beq_iff c b), rfind-none b s e)
  | inr (j, e) ↦ ground arith
]
rfind-last b (c ∷ s) (suc i) h = elim (Option-cases (rfind b s)) [
  | inl e ↦ ground arith
  | inr (j, e) ↦ let (split, clean) = rfind-last b s i (ground arith) in (ap (◌∷◌ c) split, clean)
]

-- `str::split` at one byte: there is always a first part.
unfoldable pub split : ℕ → Text → List Text
split b [] = [] ∷ []
split b (c ∷ s) = elim (split b s) [
  | [] ↦ [] ∷ []
  | p ∷ ps ↦ if nat_beq c b then [] ∷ p ∷ ps else (c ∷ p) ∷ ps
]

-- ASCII white space, all of it that a text from `HeaderValue::to_str` has.
abbrev pub is_whitespace : ℕ → Bool
is_whitespace c = nat_beq c 32 || (leb 9 c && leb c 13)

unfoldable pub trim_start : Text → Text
trim_start [] = []
trim_start (c ∷ s) = if is_whitespace c then trim_start s else c ∷ s

unfoldable pub trim_end : Text → Text
trim_end [] = []
trim_end (c ∷ s) = elim (trim_end s) [
  | [] ↦ if is_whitespace c then [] else c ∷ []
  | d ∷ r ↦ c ∷ d ∷ r
]

-- `str::trim`.
abbrev pub trim : Text → Text
trim s = trim_end (trim_start s)
