-- ===== src/Core/Limits.antt =====
-- crates/tlsurl-core/src/lib.rs: the body that `request_with_options` reads.
use tlsurl.Base.{
  ℕ, suc, ◌-◌, ◌≤◌, ◌≡◌, ◌≢◌, ◌∙◌, ◌↔◌, refl, sym, ap, inl, inr, false, none, some, Text, List, [],
  ◌∷◌, ◌++◌, append_assoc, append-nil, if◌then◌else◌, length, length-append, ltb, arith, Bool-cases,
  Option-cases,
}
use tlsurl.Body.{Frame, chunk, failed, collect}
use tlsurl.Core.{
  body_too_large, transport, Result, ok, err, stream_new, step, advance, run_read, read_body,
}

-- What is read of the frames after a body, within a limit.
abbrev outcome : ℕ → Text → List Frame → Result Text
outcome max body [] = ok body
outcome max body (failed ∷ frames) = err transport
outcome max body (chunk bytes ∷ frames) =
    if ltb (max - length body) (length bytes)
    then err body_too_large
    else outcome max (body ++ bytes) frames

read_body-outcome :
    (max : ℕ) (frames : List Frame) (body : Text)
    → read_body max (suc (length frames)) (stream_new frames) body ≡ some (outcome max body frames)
unfolding read_body run_read step advance
read_body-outcome max [] body = refl
read_body-outcome max (failed ∷ frames) body = refl
read_body-outcome max (chunk bytes ∷ frames) body =
    elim (Bool-cases (ltb (max - length body) (length bytes))) [
      | inl large ↦ rw (large, read_body) refl
      | inr small ↦ rw (small, read_body) (read_body-outcome max frames (body ++ bytes))
    ]

some-eq : (x y : Result Text) → some x ≡ some y → x ≡ y
some-eq x y e = ground (arith, e)

outcome-ok :
    (max : ℕ) (frames : List Frame) (body b : Text)
    → length body ≤ max
    → outcome max body frames ≡ ok b
    → (rest : Text) × (collect frames ≡ some rest) × (b ≡ body ++ rest) × (length b ≤ max)
outcome-ok max [] body b fits h =
    ([], refl, ground (arith, h, append-nil body), ground (arith, h, fits))
outcome-ok max (failed ∷ frames) body b fits h = absurd (ground (arith, h))
outcome-ok max (chunk bytes ∷ frames) body b fits h =
    elim (Bool-cases (ltb (max - length body) (length bytes))) [
      | inl large ↦ absurd (ground (arith, h, large))
      | inr small ↦
          let (rest, all, same, within) =
            outcome-ok max frames (body ++ bytes) b
              (ground (arith, small, fits, length-append body bytes)) (rw small at h) in
          (bytes ++ rest, ground (arith, all), same ∙ append_assoc body bytes rest, within)
    ]

ok-outcome :
    (max : ℕ) (frames : List Frame) (body rest : Text)
    → collect frames ≡ some rest
    → length (body ++ rest) ≤ max
    → outcome max body frames ≡ ok (body ++ rest)
ok-outcome max [] body rest h fits = ground (arith, h, append-nil body)
ok-outcome max (failed ∷ frames) body rest h fits = absurd (ground (arith, h))
ok-outcome max (chunk bytes ∷ frames) body rest h fits = elim (Option-cases (collect frames)) [
  | inl broken ↦ absurd (ground (arith, h, broken))
  | inr (more, all) ↦
      let same : bytes ++ more ≡ rest = ground (arith, h, all) in
      let whole = append_assoc body bytes more ∙ ap (λ l. body ++ l) same in
      let within : length ((body ++ bytes) ++ more) ≤ max = rw (← whole) at fits in
      let small : ltb (max - length body) (length bytes) ≡ false =
        ground (arith, within, length-append (body ++ bytes) more, length-append body bytes) in
      rw small (ok-outcome max frames (body ++ bytes) more all within ∙ ap ok whole)
]

-- As many reads are enough as there are frames, and one; and a body is read just when no frame fails and
-- the frames together are within the limit, and it is what they are together.
pub read_body-collect :
    (max : ℕ) (frames : List Frame) (b : Text)
    → (read_body max (suc (length frames)) (stream_new frames) [] ≢ none)
      × ((read_body max (suc (length frames)) (stream_new frames) [] ≡ some (ok b))
          ↔ ((collect frames ≡ some b) × (length b ≤ max)))
read_body-collect max frames b = (
  λ h. cc (h, read_body-outcome max frames []),
  (
    λ h.
        let (rest, all, same, within) =
          outcome-ok max frames [] b (ground arith)
            (some-eq _ _ (sym (read_body-outcome max frames []) ∙ h)) in
        (all ∙ ap some (sym same), within),
    λ (all, within).
        read_body-outcome max frames [] ∙ ap some (ok-outcome max frames [] b all within),
  ),
)
