-- ===== src/Timeout.antt =====
-- src/client/layer/timeout.rs and its two modules: the timeouts of a request and of a response's body. A
-- time is a number of ticks, a `Sleep` is the time at which it is ready, and each poll has its own time.
pub mod Durations
pub mod Deadlines
mod Tests
use tlsurl.Base.{
  ℕ, ◌+◌, Bool, true, false, Option, none, some, Text, List, [], ◌∷◌, if◌then◌else◌, leb, unwrap_or,
}

pub record TimeoutOptions : Type 0 where
  pub total_timeout : Option ℕ
  pub read_timeout : Option ℕ

-- `Option::or`
abbrev pub or : {A : Type 0} → Option A → Option A → Option A
or (some a) b = some a
or none b = b

-- src/config.rs: `RequestConfig::fetch`, with what the request's extensions hold.
abbrev pub fetch : {A : Type 0} → Option A → Option A → Option A
fetch own in_request = or in_request own

unfoldable pub fetch_timeout_options :
    Option TimeoutOptions → Option TimeoutOptions → Option ℕ × Option ℕ
fetch_timeout_options none in_request = elim (fetch none in_request) [
  | none ↦ (none, none)
  | some opts ↦ (opts.total_timeout, opts.read_timeout)
]
fetch_timeout_options (some opts) in_request = elim (fetch (some opts) in_request) [
  | none ↦ (opts.total_timeout, opts.read_timeout)
  | some request_opts ↦ (
    or request_opts.total_timeout opts.total_timeout,
    or request_opts.read_timeout opts.read_timeout,
  )
]

-- Whether a sleep, if there is one, is ready.
abbrev pub is_ready : Option ℕ → ℕ → Bool
is_ready none now = false
is_ready (some deadline) now = leb deadline now

-- A sleep of a duration, if there is one.
abbrev pub sleep : Option ℕ → ℕ → Option ℕ
sleep none now = none
sleep (some duration) now = some (now + duration)

-- The error of the body, that of a decoder around it, or the elapsed time.
pub data BodyError : Type 0 where
  inner : Text → BodyError
  decode : BodyError → BodyError
  body_timed_out : BodyError

-- What a body answers when it is polled.
pub data Poll (E : Type 0) : Type 0 where
  pending finished : Poll E
  frame : Text → Poll E
  error : E → Poll E

pub record ReadTimeoutBody : Type 0 where
  pub timeout : ℕ
  pub sleep : Option ℕ

pub data TimeoutBody : Type 0 where
  plain : TimeoutBody
  total : ℕ → TimeoutBody
  read : ReadTimeoutBody → TimeoutBody
  combined : ℕ → ReadTimeoutBody → TimeoutBody

abbrev pub read_new : ℕ → ReadTimeoutBody
read_new timeout = record { timeout = timeout; sleep = none }

-- `TimeoutBody::new`, at a time.
unfoldable pub body_new : ℕ → Option ℕ → Option ℕ → TimeoutBody
body_new now (some deadline) (some read_timeout) = combined (now + deadline) (read_new read_timeout)
body_new now (some deadline) none = total (now + deadline)
body_new now none (some read_timeout) = read (read_new read_timeout)
body_new now none none = plain

abbrev pub poll_and_map_body : Poll BodyError → Poll BodyError
poll_and_map_body (error e) = error (decode e)
poll_and_map_body polled = polled

abbrev pub into : Poll Text → Poll BodyError
into pending = pending
into finished = finished
into (frame bytes) = frame bytes
into (error e) = error (inner e)

-- `TotalTimeoutBody::poll_frame`, around what the body answers.
abbrev pub poll_total : ℕ → ℕ → Poll BodyError → Poll BodyError
poll_total deadline now polled =
    if leb deadline now then error body_timed_out else poll_and_map_body polled

-- The rest of `ReadTimeoutBody::poll_frame`: a frame puts the sleep off.
abbrev pub after_poll : ReadTimeoutBody → ℕ → Poll Text → ReadTimeoutBody × Poll BodyError
after_poll body now (frame bytes) = (record body { sleep = some (now + body.timeout) }, frame bytes)
after_poll body now polled = (body, into polled)

unfoldable pub poll_read : ReadTimeoutBody → ℕ → Poll Text → ReadTimeoutBody × Poll BodyError
poll_read body now polled =
    let deadline = unwrap_or body.sleep (now + body.timeout) in
    let started = record body { sleep = some deadline } in
    if leb deadline now then (started, error body_timed_out) else after_poll started now polled

-- The read timeout inside a total one is not polled once that is over.
abbrev pub poll_combined : ℕ → ReadTimeoutBody → ℕ → Poll Text → TimeoutBody × Poll BodyError
poll_combined deadline body now polled =
    if leb deadline now
    then (combined deadline body, error body_timed_out)
    else (let (body', answer) = poll_read body now polled in
        (combined deadline body', poll_and_map_body answer))

-- `TimeoutBody::poll_frame`
unfoldable pub poll_frame : TimeoutBody → ℕ → Poll Text → TimeoutBody × Poll BodyError
poll_frame plain now polled = (plain, poll_and_map_body (into polled))
poll_frame (total deadline) now polled = (total deadline, poll_total deadline now (into polled))
poll_frame (read body) now polled =
    let (body', answer) = poll_read body now polled in (read body', answer)
poll_frame (combined deadline body) now polled = poll_combined deadline body now polled

-- `ResponseFuture` around `ResponseBodyTimeoutFuture`.
pub record ResponseFuture : Type 0 where
  pub total_timeout : Option ℕ
  pub read_timeout : Option ℕ
  pub total_sleep : Option ℕ
  pub read_sleep : Option ℕ

-- `Timeout::call`, at a time.
unfoldable pub call : ℕ → Option TimeoutOptions → Option TimeoutOptions → ResponseFuture
call now options in_request =
    let (total_timeout, read_timeout) = fetch_timeout_options options in_request in
    record {
      total_timeout = total_timeout;
      read_timeout = read_timeout;
      total_sleep = sleep total_timeout now;
      read_sleep = sleep read_timeout now;
    }

-- What the service's future comes to.
pub data Answer (R : Type 0) : Type 0 where
  not_yet : Answer R
  response : R → Answer R
  failure : Text → Answer R

pub data Head (R : Type 0) : Type 0 where
  waiting : Head R
  head : R → TimeoutBody → Head R
  failed : Text → Head R
  request_timed_out : Head R

-- `ResponseFuture::poll`: the service is asked first.
unfoldable pub poll : {R : Type 0} → ResponseFuture → ℕ → Answer R → Head R
poll future now (response r) = head r (body_new now future.total_timeout future.read_timeout)
poll future now (failure e) = failed e
poll future now not_yet =
    if is_ready future.total_sleep now
    then request_timed_out
    else if is_ready future.read_sleep now
    then request_timed_out
    else waiting
