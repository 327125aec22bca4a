-- ===== src/Client/Send.antt =====
-- src/client/layer/client.rs: `request`, `send_request` and `try_send_request`.
use tlsurl.Base.{
  ℕ, Bool, true, false, ◌&&◌, ◌||◌, not, Option, none, some, Text, List, [], ◌∷◌, if◌then◌else◌,
  is_nil, ◌>>=◌,
}
use tlsurl.Uri.{Uri}
use tlsurl.Http.{HttpApi, HeaderValue}
use tlsurl.Cookie.Header.{Version, http_10, http_11, http_2}
use tlsurl.Client.{
  ErrorKind, canceled, user_unsupported_request_method, user_unsupported_version,
  user_absolute_uri_required, send_request, Config, Request, is_connect, Conn, CookieApi, Sent,
  answered, returned, lost,
}
use tlsurl.Client.Connecting.{Race, found, normal, checkout_is_closed, connection_for}
use tlsurl.Client.Forms.{origin_form, absolute_form, authority_form, normalize_uri}
use tlsurl.Client.Headers.{add_host, add_proxy_auth, add_proxy_headers, add_cookies}

abbrev pub is_http_2 : Version → Bool
is_http_2 http_2 = true
is_http_2 _ = false

abbrev pub is_http_10 : Version → Bool
is_http_10 http_10 = true
is_http_10 _ = false

abbrev pub is_supported : Version → Bool
is_supported http_10 = true
is_supported http_11 = true
is_supported http_2 = true
is_supported _ = false

-- What an attempt comes to.
pub data Attempt (H : Type 0) : Type 0 where
  response : List HeaderValue → Attempt H
  retryable : Request H → Bool → Attempt H
  nope : ErrorKind → Attempt H

-- The cookie store after an attempt, and what was put on the connection, if anything was.
pub record Tried (H S : Type 0) : Type 0 where
  pub store : Option S
  pub wire : Option (Request H)
  pub attempt : Attempt H

pub data Outcome : Type 0 where
  pending panicked : Outcome
  replied : List HeaderValue → Outcome
  failed : ErrorKind → Outcome

-- A request on a connection, and what the connection answers.
pub record Wire (H : Type 0) : Type 0 where
  pub conn : Conn H
  pub message : Request H
  pub answer : Sent

-- All that was sent, in order, and the end.
pub record Run (H S : Type 0) : Type 0 where
  pub wires : List (Wire H)
  pub outcome : Outcome
  pub store : Option S

module _ (http : HttpApi) {S : Type 0} (jar : CookieApi S) (port_text : ℕ → Text) where
  open http use {HeaderMap}

  -- The target and the fields that depend on it.
  abbrev pub prepare_target :
      Conn HeaderMap → Request HeaderMap → HeaderMap → Option (Request HeaderMap)
  prepare_target conn req headers =
      if is_connect req.method
      then (authority_form req.uri >>= λ uri. some (record req { uri = uri; headers = headers }))
      else if conn.is_proxied
      then some (record req {
        uri = absolute_form req.uri;
        headers =
            add_proxy_headers http conn.proxy_headers (add_proxy_auth http conn.proxy_auth headers);
      })
      else some (record req { uri = origin_form req.uri; headers = headers })

  -- `none` is a panic.
  unfoldable pub prepare : Config → Conn HeaderMap → Request HeaderMap → Option (Request HeaderMap)
  prepare config conn req =
      if conn.is_http2
      then some req
      else add_host http port_text config.set_host req.headers req.uri >>= prepare_target conn req

  abbrev pub store_response : Option S → List HeaderValue → Uri → Option S
  store_response none fields uri = none
  store_response (some s) fields uri =
      if is_nil fields then some s else some (jar.set_cookies s fields uri)

  abbrev pub answer : Option S → Uri → Conn HeaderMap → Request HeaderMap → Sent → Tried HeaderMap S
  answer store uri conn wire (answered fields) = record {
    store = store_response store fields uri;
    wire = some wire;
    attempt = response fields;
  }
  answer store uri conn wire returned = record {
    store = store;
    wire = some wire;
    attempt = retryable wire conn.is_reused;
  }
  answer store uri conn wire lost = record {
    store = store;
    wire = some wire;
    attempt = nope send_request;
  }

  -- `try_send_request` on a connection; `none` is a panic.
  unfoldable pub try_send_request :
      Config → Option S → Conn HeaderMap → Request HeaderMap → Sent → Option (Tried HeaderMap S)
  try_send_request config store conn req sent =
      if not conn.is_http2 && is_http_2 req.version
      then some (record { store = store; wire = none; attempt = nope user_unsupported_version })
      else (prepare config conn req >>= λ ready.
          let wire = record ready {
            headers = add_cookies http jar store conn.is_http2 ready.headers req.uri;
          } in
          some (answer store req.uri conn wire sent))

  abbrev pub ended : Option S → Outcome → Run HeaderMap S
  ended store outcome = record { wires = []; outcome = outcome; store = store }

  -- What was sent before the rest of a run.
  abbrev pub sent_before :
      Conn HeaderMap → Sent → Option (Request HeaderMap) → Run HeaderMap S → Run HeaderMap S
  sent_before conn sent none rest = rest
  sent_before conn sent (some wire) rest = record rest {
    wires = record { conn = conn; message = wire; answer = sent } ∷ rest.wires;
  }

  -- What follows an attempt; `again` is the rest of the loop.
  unfoldable pub after :
      Config
      → Uri
      → (Option S → Request HeaderMap → Run HeaderMap S)
      → Tried HeaderMap S
      → Run HeaderMap S
  after config uri again t = elim t.attempt [
    | response fields ↦ ended t.store (replied fields)
    | nope kind ↦ ended t.store (failed kind)
    | retryable back connection_reused ↦
        if not config.retry_canceled_requests || not connection_reused
        then ended t.store (failed canceled)
        else again t.store (record back { uri = uri })
  ]

  -- A round of the loop on the connection that was found.
  unfoldable pub attempt_on :
      Config
      → Uri
      → (Option S → Request HeaderMap → Run HeaderMap S)
      → Option S
      → Request HeaderMap
      → Conn HeaderMap
      → Sent
      → Run HeaderMap S
  attempt_on config uri again store req conn sent =
      elim (try_send_request config store conn req sent) [
        | none ↦ ended store panicked
        | some t ↦ sent_before conn sent t.wire (after config uri again t)
      ]

  -- The loop of `send_request`: each round has the races for a connection and what the connection
  -- answers. `uri` is the target at the start.
  unfoldable pub send :
      Config
      → Bool
      → Uri
      → Option S
      → Request HeaderMap
      → List (List (Race (Conn HeaderMap)) × Sent)
      → Run HeaderMap S
  send config enabled uri store req [] = ended store pending
  send config enabled uri store req ((races, sent) ∷ rounds) =
      elim (connection_for config enabled races) [
        | none ↦ ended store pending
        | some (found conn) ↦
            attempt_on config uri (λ s r. send config enabled uri s r rounds) store req conn sent
        | some (normal kind) ↦ ended store (failed kind)
        | some checkout_is_closed ↦ ended store pending
      ]

  -- `request`
  unfoldable pub request :
      Config
      → Bool
      → Option S
      → Request HeaderMap
      → List (List (Race (Conn HeaderMap)) × Sent)
      → Run HeaderMap S
  request config enabled store req rounds =
      if is_http_10 req.version && is_connect req.method
      then ended store (failed user_unsupported_request_method)
      else if not (is_supported req.version)
      then ended store (failed user_unsupported_version)
      else elim (normalize_uri req.uri (is_connect req.method)) [
        | none ↦ ended store (failed user_absolute_uri_required)
        | some (base, uri) ↦ send config enabled uri store (record req { uri = uri }) rounds
      ]
