-- ===== src/Client.antt =====
-- src/client/layer/client.rs: the client service, from a request to what is sent on a connection. The
-- connector, the sending half of a connection and the responses are the environment's.
pub mod Forms
pub mod Connecting
pub mod Headers
pub mod Send
pub mod Targets
pub mod Rounds
pub mod Runs
pub mod Repeats
pub mod Ending
mod Tests
use tlsurl.Base.{ℕ, ◌≡◌, Bool, true, false, Option, none, some, Text, List, codes, ◌==◌, text_eq}
use tlsurl.Uri.{Uri}
use tlsurl.Body.{Body}
use tlsurl.Http.{Method, get, post, head, other, HeaderValue}
use tlsurl.Cookie.Header.{Version, Cookies}

pub data ErrorKind : Type 0 where
  canceled channel_closed connect proxy_connect : ErrorKind
  user_unsupported_request_method user_unsupported_version : ErrorKind
  user_absolute_uri_required send_request : ErrorKind

pub record Config : Type 0 where
  pub retry_canceled_requests : Bool
  pub set_host : Bool
  -- `ver` is `Ver::Http2`
  pub is_ver_h2 : Bool

pub record Request (H : Type 0) : Type 0 where
  pub method : Method
  pub uri : Uri
  pub version : Version
  pub headers : H
  pub body : Body

abbrev pub is_connect : Method → Bool
is_connect (other m) = m == codes "CONNECT"
is_connect _ = false

-- A pooled connection, as far as the client asks it.
pub record Conn (H : Type 0) : Type 0 where
  pub is_http2 : Bool
  pub is_reused : Bool
  pub is_proxied : Bool
  pub proxy_auth : Option HeaderValue
  pub proxy_headers : Option H

-- The cookie store of a request, with a state of its own.
pub record CookieApi (S : Type 0) : Type 0 where
  pub cookies : S → Uri → Version → Cookies
  pub set_cookies : S → List HeaderValue → Uri → S

-- What a connection answers to a request: a response with its `Set-Cookie` fields, an error that gives
-- the request back, or one that does not.
pub data Sent : Type 0 where
  answered : List HeaderValue → Sent
  returned lost : Sent
