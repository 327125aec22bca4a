-- ===== src/Timeout/Deadlines.antt =====
-- src/client/layer/timeout/body.rs: when a poll of a body meets a timeout.
use tlsurl.Base.{
  ℕ, ◌+◌, ◌≡◌, ◌∙◌, ◌↔◌, refl, sym, ap, inl, inr, Bool, true, false, ◌||◌, Option, none, some, Text,
  List, [], ◌∷◌, if◌then◌else◌, leb, unwrap_or, arith, Bool-cases,
}
use tlsurl.Timeout.{
  TimeoutOptions, poll_and_map_body, into, BodyError, inner, decode, body_timed_out, Poll, pending,
  finished, frame, error, ReadTimeoutBody, TimeoutBody, plain, total, read, combined, body_new,
  after_poll, poll_read, poll_frame, call, response, head, poll,
}
use tlsurl.Timeout.Durations.{duration, fetch_timeout_options-duration}

abbrev pub is_timed_out_error : BodyError → Bool
is_timed_out_error (inner e) = false
is_timed_out_error (decode e) = is_timed_out_error e
is_timed_out_error body_timed_out = true

abbrev pub is_timed_out : Poll BodyError → Bool
is_timed_out (error e) = is_timed_out_error e
is_timed_out _ = false

-- Whether a duration, if there is one, has passed since a time.
abbrev pub has_passed : Option ℕ → ℕ → ℕ → Bool
has_passed none from now = false
has_passed (some duration) from now = leb (from + duration) now

-- The time that counts as activity after a poll: its own for a frame or for the first poll.
abbrev pub activity : Option ℕ → ℕ → Poll Text → ℕ
activity last now (frame bytes) = now
activity last now _ = unwrap_or last now

-- The time of the last frame, or of the first poll if there has been no frame.
abbrev pub last_activity : Option ℕ → List (ℕ × Poll Text) → Option ℕ
last_activity last [] = last
last_activity last ((now, polled) ∷ polls) = last_activity (some (activity last now polled)) polls

-- The body after some polls, if none of them met a timeout.
unfoldable pub after_polls : TimeoutBody → List (ℕ × Poll Text) → Option TimeoutBody
after_polls body [] = some body
after_polls body ((now, polled) ∷ polls) =
    let rest = after_polls (poll_frame body now polled).0 polls in
    if is_timed_out (poll_frame body now polled).1 then none else rest

abbrev until : Option ℕ → ℕ → Option ℕ
until none duration = none
until (some last) duration = some (last + duration)

-- The body that was made at a time and has seen activity last.
abbrev body_at : ℕ → Option ℕ → Option ℕ → Option ℕ → TimeoutBody
body_at created none none last = plain
body_at created (some t) none last = total (created + t)
body_at created none (some r) last = read (record { timeout = r; sleep = until last r })
body_at created (some t) (some r) last =
    combined (created + t) (record { timeout = r; sleep = until last r })

-- When a poll meets a timeout.
abbrev passes : ℕ → Option ℕ → Option ℕ → Option ℕ → ℕ → Bool
passes created t r last now = has_passed t created now || has_passed r (unwrap_or last now) now

until-first :
    (last : Option ℕ) (r now : ℕ) → unwrap_or (until last r) (now + r) ≡ unwrap_or last now + r
until-first none r now = refl
until-first (some l) r now = refl

-- A poll of a body with a read timeout: the deadline is looked at, and the body is polled.
abbrev ReadPoll : ℕ → ℕ → Option ℕ → Poll Text → ReadTimeoutBody × Poll BodyError → Type 0
ReadPoll r now last polled (body, answer) =
    (is_timed_out answer ≡ leb (unwrap_or last now + r) now)
    × (leb (unwrap_or last now + r) now ≡ false
        → body ≡ record { timeout = r; sleep = until (some (activity last now polled)) r })

after_poll-ReadPoll :
    (r now : ℕ) (last : Option ℕ) (polled : Poll Text)
    → leb (unwrap_or last now + r) now ≡ false
    → ReadPoll r now last polled
        (after_poll (record { timeout = r; sleep = some (unwrap_or last now + r) }) now polled)
after_poll-ReadPoll r now last pending early = (sym early, λ _. refl)
after_poll-ReadPoll r now last finished early = (sym early, λ _. refl)
after_poll-ReadPoll r now last (frame bytes) early = (sym early, λ _. refl)
after_poll-ReadPoll r now last (error e) early = (sym early, λ _. refl)

poll_read-ReadPoll :
    (r now : ℕ) (last : Option ℕ) (polled : Poll Text)
    → ReadPoll r now last polled
        (poll_read (record { timeout = r; sleep = until last r }) now polled)
unfolding poll_read
poll_read-ReadPoll r now last polled =
    rw (until-first last r now, poll_read)
      (elim (Bool-cases (leb (unwrap_or last now + r) now)) [
        | inl late ↦ rw late (refl, λ early. cc early)
        | inr early ↦
            let (answer, body) = after_poll-ReadPoll r now last polled early in
            rw early (answer ∙ early, λ _. body early)
      ])

-- A poll meets a timeout when one has passed, and otherwise the body remembers its activity.
abbrev BodyPoll :
    ℕ → Option ℕ → Option ℕ → Option ℕ → ℕ → Poll Text → TimeoutBody × Poll BodyError → Type 0
BodyPoll created t r last now polled (body, answer) =
    (is_timed_out answer ≡ passes created t r last now)
    × (passes created t r last now ≡ false
        → body ≡ body_at created t r (some (activity last now polled)))

map_body-timed_out :
    (answer : Poll BodyError) → is_timed_out (poll_and_map_body answer) ≡ is_timed_out answer
map_body-timed_out pending = refl
map_body-timed_out finished = refl
map_body-timed_out (frame bytes) = refl
map_body-timed_out (error e) = refl

into-timed_out : (polled : Poll Text) → is_timed_out (into polled) ≡ false
into-timed_out pending = refl
into-timed_out finished = refl
into-timed_out (frame bytes) = refl
into-timed_out (error e) = refl

poll_frame-BodyPoll :
    (created : ℕ) (t r last : Option ℕ) (now : ℕ) (polled : Poll Text)
    → BodyPoll created t r last now polled (poll_frame (body_at created t r last) now polled)
unfolding poll_frame
poll_frame-BodyPoll created none none last now polled =
    (map_body-timed_out (into polled) ∙ into-timed_out polled, λ _. refl)
poll_frame-BodyPoll created (some t) none last now polled =
    elim (Bool-cases (leb (created + t) now)) [
      | inl late ↦ rw late (refl, λ early. absurd (ground (arith, early)))
      | inr early ↦ rw early (map_body-timed_out (into polled) ∙ into-timed_out polled, λ _. refl)
    ]
poll_frame-BodyPoll created none (some r) last now polled =
    let (answer, body) = poll_read-ReadPoll r now last polled in
    (answer, λ early. ap read (body early))
poll_frame-BodyPoll created (some t) (some r) last now polled =
    elim (Bool-cases (leb (created + t) now)) [
      | inl late ↦ rw late (refl, λ early. cc early)
      | inr early ↦
          let (answer, body) = poll_read-ReadPoll r now last polled in
          rw early (
            map_body-timed_out
                  (poll_read (record { timeout = r; sleep = until last r }) now polled).1
                ∙ answer,
            λ in_time. ap (combined (created + t)) (body in_time),
          )
    ]

after_polls-body_at :
    (created : ℕ) (t r last : Option ℕ) (polls : List (ℕ × Poll Text)) (body : TimeoutBody)
    → after_polls (body_at created t r last) polls ≡ some body
    → body ≡ body_at created t r (last_activity last polls)
unfolding after_polls
after_polls-body_at created t r last [] body h = ground (arith, h)
after_polls-body_at created t r last ((now, polled) ∷ polls) body h =
    let (answer, moved) = poll_frame-BodyPoll created t r last now polled in
    elim (Bool-cases (passes created t r last now)) [
      | inl late ↦ absurd (ground (arith, h, answer, late))
      | inr early ↦
          after_polls-body_at created t r (some (activity last now polled)) polls body
            (ap (λ b. after_polls b polls) (sym (moved early)) ∙ ground (arith, h, answer, early))
    ]

body_new-body_at : (now : ℕ) (t r : Option ℕ) → body_new now t r ≡ body_at now t r none
unfolding body_new
body_new-body_at now none none = refl
body_new-body_at now none (some r) = refl
body_new-body_at now (some t) none = refl
body_new-body_at now (some t) (some r) = refl

-- When the head of a response comes, the body's total timeout starts anew. Once the body has been polled
-- without a timeout, the next poll meets one just when the total timeout has passed since the head, or the
-- read timeout since the last frame, or since the first poll if there has been no frame, however long the
-- body was not polled; the durations are the request's own, or else the client's.
pub body_timeout_iff :
    {R : Type 0} (start arrival now : ℕ) (options in_request : Option TimeoutOptions) (r : R)
    (polls : List (ℕ × Poll Text)) (polled : Poll Text) (first body : TimeoutBody)
    → poll (call start options in_request) arrival (response r) ≡ head r first
    → after_polls first polls ≡ some body
    → (is_timed_out (poll_frame body now polled).1 ≡ true) ↔ (
        (has_passed (duration (λ o. o.total_timeout) options in_request) arrival now
          || has_passed
              (duration (λ o. o.read_timeout) options in_request)
              (unwrap_or (last_activity none polls) now)
              now)
        ≡ true)
unfolding poll call
body_timeout_iff start arrival now options in_request r polls polled first body came quiet =
    let t = duration (λ o. o.total_timeout) options in_request in
    let read_timeout = duration (λ o. o.read_timeout) options in_request in
    let made : body_at arrival t read_timeout none ≡ first =
      sym (body_new-body_at arrival t read_timeout)
      ∙ ap (λ d. body_new arrival d.0 d.1) (sym (fetch_timeout_options-duration options in_request))
      ∙ ground (arith, came) in
    let now_at =
      after_polls-body_at arrival t read_timeout none polls body
        (ap (λ b. after_polls b polls) made ∙ quiet) in
    let answer =
      ap (λ b. is_timed_out (poll_frame b now polled).1) now_at
      ∙ (poll_frame-BodyPoll arrival t read_timeout (last_activity none polls) now polled).0 in
    (λ late. sym answer ∙ late, λ late. answer ∙ late)
