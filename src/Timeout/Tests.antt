-- ===== src/Timeout/Tests.antt =====
-- src/client/layer/timeout.rs: a request and the polls of its body.
use tlsurl.Base.{
  ℕ, ◌≡◌, ◌↔◌, refl, true, ◌||◌, Option, none, some, Text, List, [], ◌∷◌, codes, unwrap_or,
}
use tlsurl.Timeout.{
  TimeoutOptions, decode, body_timed_out, Poll, pending, frame, error, TimeoutBody, combined,
  body_new, poll_read, poll_frame, fetch_timeout_options, call, not_yet, waiting, request_timed_out,
  poll,
}
use tlsurl.Timeout.Durations.{duration}
use tlsurl.Timeout.Deadlines.{
  is_timed_out, has_passed, last_activity, after_polls, body_timeout_iff,
}

abbrev client_options : Option TimeoutOptions
client_options = some (record { total_timeout = some 100; read_timeout = some 30 })

abbrev request_options : Option TimeoutOptions
request_options = some (record { total_timeout = none; read_timeout = some 40 })

-- The head comes 90 ticks after the start.
abbrev body : TimeoutBody
body = body_new 90 (some 100) (some 40)

abbrev polls : List (ℕ × Poll Text)
polls = (100, pending) ∷ (139, frame (codes "a")) ∷ []

-- Both are over in time, but not together: 185 ticks after the start the body is still read.
poll_frame-late :
    (poll_frame
      (combined 190 (record { timeout = 40; sleep = some 186 }))
      185
      (frame (codes "b"))).1
    ≡ frame (codes "b")
unfolding poll_frame poll_read
poll_frame-late = refl

-- A body that is not asked for 40 ticks is over although a frame is there.
poll_frame-idle :
    (poll_frame
      (combined 190 (record { timeout = 40; sleep = some 179 }))
      180
      (frame (codes "b"))).1
    ≡ error (decode body_timed_out)
unfolding poll_frame poll_read
poll_frame-idle = refl

poll-waiting : poll {R = ℕ} (call 0 client_options request_options) 39 not_yet ≡ waiting
unfolding poll call fetch_timeout_options
poll-waiting = refl

poll-read_timeout :
    poll {R = ℕ} (call 0 client_options request_options) 40 not_yet ≡ request_timed_out
unfolding poll call fetch_timeout_options
poll-read_timeout = refl

abbrev polled_body : TimeoutBody
polled_body = combined 190 (record { timeout = 40; sleep = some 179 })

body_timeout_iff_example :
    (is_timed_out (poll_frame polled_body 180 (frame (codes "b"))).1 ≡ true) ↔ (
      (has_passed (duration (λ o. o.total_timeout) client_options request_options) 90 180
        || has_passed
            (duration (λ o. o.read_timeout) client_options request_options)
            (unwrap_or (last_activity none polls) 180)
            180)
      ≡ true)
unfolding poll call fetch_timeout_options body_new after_polls poll_frame poll_read
body_timeout_iff_example =
    body_timeout_iff {R = ℕ} 0 90 180 client_options request_options 7 polls (frame (codes "b"))
      body polled_body refl refl
