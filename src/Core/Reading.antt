-- ===== src/Core/Reading.antt =====
-- crates/tlsurl-core/src/stream.rs: what is left of a response that has been closed, whatever reads run on
-- other threads.
use tlsurl.Base.{
  sym, subst, ◌≡◌, refl, Bool, true, false, not, Option, none, some, List, [], ◌∷◌, is_some, All,
  arith, Text,
}
use tlsurl.Body.{Frame}
use tlsurl.Core.{
  cancelled, Result, err, StreamResponse, try_clear, Phase, locked, admitted, waiting, selected,
  checked, advance, Step, begin, proceed, abandon, cancels, clears, step, run, answers,
}

abbrev pub Slot : Type 0
Slot = Option (List Frame)

abbrev pub state : Slot → Bool → Option Phase → StreamResponse
state body off reading = record { body = body; is_cancelled = off; reading = reading }

-- A read that has taken the body has left the slot empty.
abbrev pub IsExclusive : Slot → Option Phase → Type 0
IsExclusive body none = Unit
IsExclusive body (some locked) = Unit
IsExclusive body (some admitted) = Unit
IsExclusive body (some (waiting frames)) = body ≡ none
IsExclusive body (some (selected result frames)) = body ≡ none
IsExclusive body (some (checked result frames)) = body ≡ none

-- A read has looked at the cancellation for the last time before it answers.
abbrev pub is_past : Slot → Option Phase → Bool
is_past body (some admitted) = not (is_some body)
is_past body (some (checked result frames)) = true
is_past body _ = false

-- The slot is empty, unless a read holds the lock that is about to empty it.
abbrev pub IsLetGo : Slot → Option Phase → Type 0
IsLetGo body (some locked) = Unit
IsLetGo body (some admitted) = Unit
IsLetGo body _ = body ≡ none

abbrev pub IsCancelled : Result (Option Text) → Type 0
IsCancelled r = r ≡ err cancelled

step-IsExclusive :
    (x : Step) (body : Slot) (off : Bool) (reading : Option Phase)
    → IsExclusive body reading
    → (let s = (step x (state body off reading)).0 in IsExclusive s.body s.reading)
unfolding step advance try_clear
step-IsExclusive begin body off none h = tt
step-IsExclusive begin body off (some p) h = h
step-IsExclusive proceed body off none h = tt
step-IsExclusive proceed body true (some locked) h = tt
step-IsExclusive proceed body false (some locked) h = tt
step-IsExclusive proceed none off (some admitted) h = tt
step-IsExclusive proceed (some frames) off (some admitted) h = refl
step-IsExclusive proceed body true (some (waiting frames)) h = h
step-IsExclusive proceed body false (some (waiting frames)) h = h
step-IsExclusive proceed body true (some (selected result frames)) h = tt
step-IsExclusive proceed body false (some (selected result frames)) h = h
step-IsExclusive proceed body off (some (checked result frames)) h = tt
step-IsExclusive abandon body off none h = tt
step-IsExclusive abandon body off (some locked) h = tt
step-IsExclusive abandon body off (some admitted) h = tt
step-IsExclusive abandon body off (some (waiting frames)) h = tt
step-IsExclusive abandon body off (some (selected result frames)) h = h
step-IsExclusive abandon body off (some (checked result frames)) h = h
step-IsExclusive cancels body off reading h = h
step-IsExclusive clears body off none h = tt
step-IsExclusive clears body off (some p) h = h

pub run-IsExclusive :
    (xs : List Step) (s : StreamResponse)
    → IsExclusive s.body s.reading
    → IsExclusive (run xs s).0.body (run xs s).0.reading
unfolding run
run-IsExclusive [] s h = h
run-IsExclusive (x ∷ xs) s h =
    run-IsExclusive xs (step x s).0 (step-IsExclusive x s.body s.is_cancelled s.reading h)

-- The response is cancelled, and a read that holds the lock will see it.
abbrev pub IsQuiet : StreamResponse → Type 0
IsQuiet s =
    (s.is_cancelled ≡ true) × (is_past s.body s.reading ≡ false) × IsExclusive s.body s.reading

abbrev pub IsSilent : Option (Result (Option Text)) → Type 0
IsSilent none = Unit
IsSilent (some r) = IsCancelled r

-- A step of a response that is cancelled.
step-IsQuiet :
    (x : Step) (body : Slot) (reading : Option Phase)
    → is_past body reading ≡ false
    → IsExclusive body reading
    → IsQuiet (step x (state body true reading)).0 × IsSilent (step x (state body true reading)).1
unfolding step advance try_clear
step-IsQuiet begin body none q h = ((refl, refl, tt), tt)
step-IsQuiet begin body (some p) q h = ((refl, q, h), tt)
step-IsQuiet proceed body none q h = ((refl, refl, tt), tt)
step-IsQuiet proceed body (some locked) q h = ((refl, refl, tt), refl)
step-IsQuiet proceed none (some admitted) q h = absurd (ground (arith, q))
step-IsQuiet proceed (some frames) (some admitted) q h = ((refl, refl, refl), tt)
step-IsQuiet proceed body (some (waiting frames)) q h = ((refl, refl, h), tt)
step-IsQuiet proceed body (some (selected result frames)) q h = ((refl, refl, tt), refl)
step-IsQuiet proceed body (some (checked result frames)) q h = absurd (ground (arith, q))
step-IsQuiet abandon body none q h = ((refl, q, tt), tt)
step-IsQuiet abandon body (some locked) q h = ((refl, q, h), tt)
step-IsQuiet abandon body (some admitted) q h = ((refl, q, h), tt)
step-IsQuiet abandon body (some (waiting frames)) q h = ((refl, refl, tt), tt)
step-IsQuiet abandon body (some (selected result frames)) q h = ((refl, q, h), tt)
step-IsQuiet abandon body (some (checked result frames)) q h = ((refl, q, h), tt)
step-IsQuiet cancels body reading q h = ((refl, q, h), tt)
step-IsQuiet clears body none q h = ((refl, refl, tt), tt)
step-IsQuiet clears body (some p) q h = ((refl, q, h), tt)

pub step-IsQuiet_of :
    (x : Step) (s : StreamResponse) → IsQuiet s → IsQuiet (step x s).0 × IsSilent (step x s).1
step-IsQuiet_of x s (off, q, h) =
    subst
      (λ c.
        IsQuiet (step x (state s.body c s.reading)).0
        × IsSilent (step x (state s.body c s.reading)).1)
      (sym off) (step-IsQuiet x s.body s.reading q h)

answers-All :
    (answer : Option (Result (Option Text))) (rest : List (Result (Option Text)))
    → IsSilent answer
    → All IsCancelled rest
    → All IsCancelled (answers answer rest)
answers-All none rest h k = k
answers-All (some r) rest h k = (h, k)

pub run-IsQuiet :
    (xs : List Step) (s : StreamResponse)
    → IsQuiet s
    → IsQuiet (run xs s).0 × All IsCancelled (run xs s).1
unfolding run
run-IsQuiet [] s h = (h, tt)
run-IsQuiet (x ∷ xs) s h =
    let (h', silent) = step-IsQuiet_of x s h in
    let (end, all) = run-IsQuiet xs (step x s).0 h' in
    (end, answers-All (step x s).1 (run xs (step x s).0).1 silent all)
