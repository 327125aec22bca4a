-- ===== src/Core/Closing.antt =====
-- crates/tlsurl-core/src/stream.rs: what `close` comes to, whatever reads run on other threads.
use tlsurl.Base.{
  sym, subst, ◌≡◌, refl, inl, inr, ◌⊎◌, Bool, true, false, Option, none, some, List, [], ◌∷◌, ◌++◌,
  All, drop, arith, Bool-cases, Text,
}
use tlsurl.Body.{Frame}
use tlsurl.Core.{
  Result, StreamResponse, stream_new, cancel, try_clear, Phase, locked, admitted, waiting, selected,
  checked, advance, Step, begin, proceed, abandon, cancels, clears, step, run, answers,
}
use tlsurl.Core.Reading.{
  Slot, state, IsExclusive, is_past, IsLetGo, IsCancelled, IsQuiet, run-IsExclusive,
  step-IsQuiet_of, run-IsQuiet,
}

step-IsLetGo :
    (x : Step) (body : Slot) (reading : Option Phase)
    → is_past body reading ≡ false
    → IsExclusive body reading
    → IsLetGo body reading
    → (let s = (step x (state body true reading)).0 in IsLetGo s.body s.reading)
unfolding step advance try_clear
step-IsLetGo begin body none q h l = tt
step-IsLetGo begin body (some p) q h l = l
step-IsLetGo proceed body none q h l = l
step-IsLetGo proceed body (some locked) q h l = refl
step-IsLetGo proceed none (some admitted) q h l = absurd (ground (arith, q))
step-IsLetGo proceed (some frames) (some admitted) q h l = refl
step-IsLetGo proceed body (some (waiting frames)) q h l = h
step-IsLetGo proceed body (some (selected result frames)) q h l = h
step-IsLetGo proceed body (some (checked result frames)) q h l = absurd (ground (arith, q))
step-IsLetGo abandon body none q h l = l
step-IsLetGo abandon body (some locked) q h l = l
step-IsLetGo abandon body (some admitted) q h l = l
step-IsLetGo abandon body (some (waiting frames)) q h l = h
step-IsLetGo abandon body (some (selected result frames)) q h l = l
step-IsLetGo abandon body (some (checked result frames)) q h l = l
step-IsLetGo cancels body reading q h l = l
step-IsLetGo clears body none q h l = refl
step-IsLetGo clears body (some p) q h l = l

run-IsLetGo :
    (xs : List Step) (s : StreamResponse)
    → IsQuiet s
    → IsLetGo s.body s.reading
    → IsLetGo (run xs s).0.body (run xs s).0.reading
unfolding run
run-IsLetGo [] s h l = l
run-IsLetGo (x ∷ xs) s (off, q, h) l =
    run-IsLetGo xs (step x s).0 (step-IsQuiet_of x s (off, q, h)).0 (
      subst (λ c. let t = (step x (state s.body c s.reading)).0 in IsLetGo t.body t.reading)
        (sym off) (step-IsLetGo x s.body s.reading q h l))

-- `try_lock` empties the slot, or the read that holds the lock does.
try_clear-IsLetGo :
    (body : Slot) (off : Bool) (reading : Option Phase)
    → IsExclusive body reading
    → (let s = try_clear (state body off reading) in IsLetGo s.body s.reading)
unfolding try_clear
try_clear-IsLetGo body off none h = refl
try_clear-IsLetGo body off (some locked) h = tt
try_clear-IsLetGo body off (some admitted) h = tt
try_clear-IsLetGo body off (some (waiting frames)) h = h
try_clear-IsLetGo body off (some (selected result frames)) h = h
try_clear-IsLetGo body off (some (checked result frames)) h = h

cleared-IsLetGo :
    (between later : List Step) (s : StreamResponse)
    → IsQuiet s
    → (let t = (run (between ++ clears ∷ later) s).0 in IsLetGo t.body t.reading)
unfolding run step
cleared-IsLetGo [] later s (off, q, h) =
    run-IsLetGo later (try_clear s) (step-IsQuiet_of clears s (off, q, h)).0
      (try_clear-IsLetGo s.body s.is_cancelled s.reading h)
cleared-IsLetGo (x ∷ between) later s h =
    cleared-IsLetGo between later (step x s).0 (step-IsQuiet_of x s h).0

-- A read has looked for the last time, and has not answered yet.
abbrev IsLate : StreamResponse → Type 0
IsLate s =
    (s.is_cancelled ≡ true) × (is_past s.body s.reading ≡ true) × IsExclusive s.body s.reading

step-IsLate :
    (x : Step) (body : Slot) (reading : Option Phase)
    → is_past body reading ≡ true
    → IsExclusive body reading
    → (IsLate (step x (state body true reading)).0 × ((step x (state body true reading)).1 ≡ none))
      ⊎ IsQuiet (step x (state body true reading)).0
unfolding step advance try_clear
step-IsLate x body none q h = absurd (ground (arith, q))
step-IsLate x body (some locked) q h = absurd (ground (arith, q))
step-IsLate x body (some (waiting frames)) q h = absurd (ground (arith, q))
step-IsLate x body (some (selected result frames)) q h = absurd (ground (arith, q))
step-IsLate begin body (some admitted) q h = inl ((refl, q, h), refl)
step-IsLate begin body (some (checked result frames)) q h = inl ((refl, q, h), refl)
step-IsLate proceed none (some admitted) q h = inr (refl, refl, tt)
step-IsLate proceed (some frames) (some admitted) q h = absurd (ground (arith, q))
step-IsLate proceed body (some (checked result frames)) q h = inr (refl, refl, tt)
step-IsLate abandon body (some admitted) q h = inl ((refl, q, h), refl)
step-IsLate abandon body (some (checked result frames)) q h = inl ((refl, q, h), refl)
step-IsLate cancels body (some admitted) q h = inl ((refl, q, h), refl)
step-IsLate cancels body (some (checked result frames)) q h = inl ((refl, q, h), refl)
step-IsLate clears body (some admitted) q h = inl ((refl, q, h), refl)
step-IsLate clears body (some (checked result frames)) q h = inl ((refl, q, h), refl)

All-drop : (rs : List (Result (Option Text))) → All IsCancelled rs → All IsCancelled (drop 1 rs)
All-drop [] h = tt
All-drop (r ∷ rs) (first, rest) = rest

drop-answers :
    (answer : Option (Result (Option Text))) (rest : List (Result (Option Text)))
    → All IsCancelled rest
    → All IsCancelled (drop 1 (answers answer rest))
drop-answers none rest h = All-drop rest h
drop-answers (some r) rest h = h

run-IsLate :
    (xs : List Step) (s : StreamResponse) → IsLate s → All IsCancelled (drop 1 (run xs s).1)
unfolding run
run-IsLate [] s h = tt
run-IsLate (x ∷ xs) s (off, q, h) =
    let moved =
      subst
        (λ c.
          (IsLate (step x (state s.body c s.reading)).0
            × ((step x (state s.body c s.reading)).1 ≡ none))
          ⊎ IsQuiet (step x (state s.body c s.reading)).0)
        (sym off) (step-IsLate x s.body s.reading q h) in
    elim moved [
      | inl (late, silent) ↦
          subst (λ answer. All IsCancelled (drop 1 (answers answer (run xs (step x s).0).1)))
            (sym silent) (run-IsLate xs (step x s).0 late)
      | inr quiet ↦
          drop-answers (step x s).1 (run xs (step x s).0).1 (run-IsQuiet xs (step x s).0 quiet).1
    ]

-- Once a response is closed, whatever reads were made, run on other threads or follow, and whatever happens
-- between the two halves of `close`: if no read had looked at the cancellation for the last time, each
-- answer is that it was cancelled, and the body is gone, or a read that holds the lock is about to take it
-- out. If one had, it may answer as if the response were open; all answers after the first are that it was
-- cancelled.
pub close-cancels :
    (before between later : List Step) (frames : List Frame)
    → (let s = (run before (stream_new frames)).0 in
        let r = run (between ++ clears ∷ later) (cancel s) in
        ((is_past s.body s.reading ≡ false) × All IsCancelled r.1 × IsLetGo r.0.body r.0.reading)
        ⊎ ((is_past s.body s.reading ≡ true) × All IsCancelled (drop 1 r.1)))
close-cancels before between later frames =
    let s = (run before (stream_new frames)).0 in
    let xs = between ++ clears ∷ later in
    let h = run-IsExclusive before (stream_new frames) tt in
    elim (Bool-cases (is_past s.body s.reading)) [
      | inl past ↦ inr (past, run-IsLate xs (cancel s) (refl, past, h))
      | inr early ↦ inl (
        early,
        (run-IsQuiet xs (cancel s) (refl, early, h)).1,
        cleared-IsLetGo between later (cancel s) (refl, early, h),
      )
    ]
