-- ===== src/Body.antt =====
-- src/client/body.rs: a request body, and whether it can be sent twice.
use tlsurl.Base.{ℕ, Option, none, some, Text, List, [], ◌∷◌, ◌++◌, length}
use mathlib.Core.Option

-- What a stream yields: bytes, or an error.
pub data Frame : Type 0 where
  chunk : Text → Frame
  failed : Frame

-- The bytes of a `Full`, or a boxed stream with its exact size, if that is known, and its frames.
pub data Body : Type 0 where
  reusable : Text → Body
  streaming : Option ℕ → List Frame → Body

abbrev pub empty : Body
empty = reusable []

abbrev pub try_clone : Body → Option Body
try_clone (reusable text) = some (reusable text)
try_clone (streaming size frames) = none

-- `size_hint().exact()`
abbrev pub content_length : Body → Option ℕ
content_length (reusable text) = some (length text)
content_length (streaming size frames) = size

-- `Body::stream`: a stream has no exact size.
abbrev pub stream : List Frame → Body
stream frames = streaming none frames

-- `into_data_stream`: a `Full` yields its bytes, if there are any.
abbrev pub into_data_stream : Body → List Frame
into_data_stream (reusable []) = []
into_data_stream (reusable (c ∷ text)) = chunk (c ∷ text) ∷ []
into_data_stream (streaming size frames) = frames

-- All that a stream yields, if it does not fail.
abbrev pub collect : List Frame → Option Text
collect [] = some []
collect (failed ∷ frames) = none
collect (chunk text ∷ frames) = Option.map (◌++◌ text) (collect frames)
