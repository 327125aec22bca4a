-- ===== src/Core/Tests.antt =====
-- crates/tlsurl-core/src/stream.rs and lib.rs: a response in three frames.
use tlsurl.Base.{
  suc, ◌≤◌, ◌≡◌, ◌≢◌, ◌↔◌, ◌⊎◌, refl, true, false, Option, none, some, Text, List, [], ◌∷◌, ◌++◌,
  codes, length, All, drop,
}
use tlsurl.Body.{Frame, chunk, failed, collect}
use tlsurl.Core.{
  body_too_large, transport, Result, ok, err, StreamResponse, stream_new, cancel, try_clear,
  advance, step, run, Step, begin, proceed, abandon, cancels, clears, run_read, read_body,
}
use tlsurl.Core.Reading.{is_past, IsLetGo, IsCancelled}
use tlsurl.Core.Closing.{close-cancels}
use tlsurl.Core.Limits.{read_body-collect}

abbrev frames : List Frame
frames = chunk (codes "ab") ∷ chunk (codes "c") ∷ []

-- A read from its lock to its answer.
abbrev whole_read : List Step
whole_read = begin ∷ proceed ∷ proceed ∷ proceed ∷ proceed ∷ proceed ∷ []

run-frames :
    (run
      (whole_read ++ whole_read ++ whole_read ++ begin ∷ proceed ∷ proceed ∷ [])
      (stream_new frames)).1
    ≡ ok (some (codes "ab")) ∷ ok (some (codes "c")) ∷ ok none ∷ ok none ∷ []
unfolding run step advance
run-frames = refl

-- A pending read that is dropped takes the body with it.
run-abandoned :
    (run
      (begin ∷ proceed ∷ proceed ∷ abandon ∷ begin ∷ proceed ∷ proceed ∷ [])
      (stream_new frames)).1
    ≡ ok none ∷ []
unfolding run step advance
run-abandoned = refl

-- `close` between the last check of a read and its end: the chunk is answered, and the body stays.
run-late :
    run
      (begin ∷ proceed ∷ proceed ∷ proceed ∷ proceed ∷ cancels ∷ clears ∷ proceed ∷ [])
      (stream_new frames)
    ≡ (
      record { body = some (chunk (codes "c") ∷ []); is_cancelled = true; reading = none },
      ok (some (codes "ab")) ∷ [],
    )
unfolding run step advance try_clear
run-late = refl

read_body-large : read_body 2 3 (stream_new frames) [] ≡ some (err body_too_large)
unfolding read_body run_read step advance
read_body-large = refl

read_body-failed :
    read_body 9 3 (stream_new (chunk (codes "ab") ∷ failed ∷ [])) [] ≡ some (err transport)
unfolding read_body run_read step advance
read_body-failed = refl

abbrev opened : StreamResponse
opened = (run (begin ∷ proceed ∷ proceed ∷ []) (stream_new frames)).0

abbrev closed : StreamResponse × List (Result (Option Text))
closed = run (proceed ∷ clears ∷ proceed ∷ whole_read) (cancel opened)

close-cancels_example :
    ((is_past opened.body opened.reading ≡ false)
      × All IsCancelled closed.1
      × IsLetGo closed.0.body closed.0.reading)
    ⊎ ((is_past opened.body opened.reading ≡ true) × All IsCancelled (drop 1 closed.1))
close-cancels_example =
    close-cancels (begin ∷ proceed ∷ proceed ∷ []) (proceed ∷ []) (proceed ∷ whole_read) frames

read_body-collect_example :
    (read_body 3 (suc (length frames)) (stream_new frames) [] ≢ none)
    × ((read_body 3 (suc (length frames)) (stream_new frames) [] ≡ some (ok (codes "abc")))
        ↔ ((collect frames ≡ some (codes "abc")) × (length (codes "abc") ≤ 3)))
read_body-collect_example = read_body-collect 3 frames (codes "abc")
