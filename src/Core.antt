-- ===== src/Core.antt =====
-- crates/tlsurl-core/src/stream.rs and lib.rs: the pull-based response of the language bindings, and the
-- request that reads its body up to a limit.
pub mod Reading
pub mod Closing
pub mod Limits
mod Tests
use tlsurl.Base.{
  ℕ, zero, suc, ◌-◌, Bool, true, false, ◌||◌, Option, none, some, Text, List, [], ◌∷◌, ◌++◌,
  if◌then◌else◌, length, ltb, is_some, unwrap_or,
}
use tlsurl.Body.{Frame, chunk, failed}

pub data Error : Type 0 where
  cancelled body_too_large transport : Error

pub data Result (A : Type 0) : Type 0 where
  ok : A → Result A
  err : Error → Result A

-- What the stream yields, and the stream afterwards.
abbrev pub next : List Frame → Result (Option Text) × List Frame
next [] = (ok none, [])
next (chunk bytes ∷ frames) = (ok (some bytes), frames)
next (failed ∷ frames) = (err transport, frames)

-- How far the read is that holds the lock: before its first check, after it, waiting for the stream, which
-- it has taken, with what the `select` came to, and after its last check.
pub data Phase : Type 0 where
  locked admitted : Phase
  waiting : List Frame → Phase
  selected checked : Result (Option Text) → List Frame → Phase

-- The slot of the body, the cancellation, and the read that holds the lock, if one does.
pub record StreamResponse : Type 0 where
  pub body : Option (List Frame)
  pub is_cancelled : Bool
  pub reading : Option Phase

abbrev pub stream_new : List Frame → StreamResponse
stream_new frames = record { body = some frames; is_cancelled = false; reading = none }

-- The two halves of `close`, between which a read can run.
abbrev pub cancel : StreamResponse → StreamResponse
cancel s = record s { is_cancelled = true }

-- `try_lock` fails while a read holds the lock.
unfoldable pub try_clear : StreamResponse → StreamResponse
try_clear s = if is_some s.reading then s else record s { body = none }

-- The slot gets the stream back after a chunk.
abbrev pub put_back : Result (Option Text) → List Frame → Option (List Frame) → Option (List Frame)
put_back (ok (some bytes)) frames body = some frames
put_back _ frames body = body

abbrev pub to_phase : StreamResponse → Phase → StreamResponse
to_phase s phase = record s { reading = some phase }

-- The read that holds the lock goes on, perhaps to its end, where it releases the lock. Another thread can
-- close the response between two of these steps.
unfoldable pub advance : Phase → StreamResponse → StreamResponse × Option (Result (Option Text))
advance locked s =
    if s.is_cancelled
    then (record s { body = none; reading = none }, some (err cancelled))
    else (to_phase s admitted, none)
advance admitted s = elim s.body [
  | none ↦ (record s { reading = none }, some (ok none))
  | some frames ↦ (record s { body = none; reading = some (waiting frames) }, none)
]
advance (waiting frames) s =
    if s.is_cancelled
    then (to_phase s (selected (err cancelled) frames), none)
    else (to_phase s (selected (next frames).0 (next frames).1), none)
advance (selected result frames) s =
    if s.is_cancelled
    then (record s { reading = none }, some (err cancelled))
    else (to_phase s (checked result frames), none)
advance (checked result frames) s =
    (record s { reading = none; body = put_back result frames s.body }, some result)

-- The future of a read is dropped where it waits, with the body that it has taken.
abbrev pub drop_read : Phase → StreamResponse → StreamResponse
drop_read (waiting frames) s = record s { reading = none }
drop_read _ s = s

pub data Step : Type 0 where
  begin proceed abandon cancels clears : Step

-- A step, and what a read answers. A read begins when it gets the lock.
unfoldable pub step : Step → StreamResponse → StreamResponse × Option (Result (Option Text))
step begin s = (if is_some s.reading then s else to_phase s locked, none)
step proceed s = elim s.reading [ none ↦ (s, none) | some phase ↦ advance phase s ]
step abandon s = (elim s.reading [ none ↦ s | some phase ↦ drop_read phase s ], none)
step cancels s = (cancel s, none)
step clears s = (try_clear s, none)

abbrev pub answers :
    Option (Result (Option Text)) → List (Result (Option Text)) → List (Result (Option Text))
answers none rest = rest
answers (some r) rest = r ∷ rest

unfoldable pub run : List Step → StreamResponse → StreamResponse × List (Result (Option Text))
run [] s = (s, [])
run (x ∷ xs) s = let (t, answer) = step x s in let (u, rest) = run xs t in (u, answers answer rest)

-- The steps of a read without an interruption, at most so many.
unfoldable pub run_read : ℕ → StreamResponse → StreamResponse × Result (Option Text)
run_read zero s = (s, ok none)
run_read (suc n) s =
    let (t, answer) = step proceed s in
    let rest = run_read n t in elim answer [ some r ↦ (t, r) | none ↦ rest ]

-- `next_chunk` without an interruption has five steps once it has the lock.
abbrev pub next_chunk : StreamResponse → StreamResponse × Result (Option Text)
next_chunk s = run_read 5 (step begin s).0

-- The loop of `request_with_options`: the body so far, with as much fuel as there are frames.
unfoldable pub read_body : ℕ → ℕ → StreamResponse → Text → Option (Result Text)
read_body max zero s body = none
read_body max (suc n) s body =
    let (t, answer) = next_chunk s in
    elim answer [
      | err e ↦ some (err e)
      | ok none ↦ some (ok body)
      | ok (some bytes) ↦
          let rest = read_body max n t (body ++ bytes) in
          if ltb (max - length body) (length bytes) then some (err body_too_large) else rest
    ]
