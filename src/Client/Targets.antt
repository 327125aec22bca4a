-- ===== src/Client/Targets.antt =====
-- src/client/layer/client.rs: the target of each request that is sent.
use tlsurl.Base.{
  ℕ, ◌≡◌, ◌≢◌, refl, subst, inl, inr, Bool, true, false, ◌&&◌, not, Option, none, some, Text, List,
  [], if◌then◌else◌, >>=-eq-some, Bool-cases, arith, ◌++◌, codes, ◌==◌, text_eq, append-nil,
  eq_of_==, ◌∷◌, sym, ap, ◌∙◌,
}
use tlsurl.Uri.{Uri, Authority, Scheme}
use tlsurl.Http.{HttpApi, HeaderValue, Method}
use tlsurl.Client.{
  ErrorKind, user_unsupported_version, Config, Request, is_connect, Conn, CookieApi, Sent, answered,
  returned, lost,
}
use tlsurl.Client.Forms.{root, origin_form, authority_form, generate_host_header}
use tlsurl.Client.Headers.{add_cookies}
use tlsurl.Client.Send.{
  response, retryable, nope, Tried, Wire, prepare, try_send_request, answer, is_http_2,
}

-- The target in the code's forms.
abbrev pub target : Bool → Bool → Method → Uri → Uri
target is_http2 is_proxied method uri =
    if is_http2
    then uri
    else if is_connect method
    then record { scheme = none; authority = uri.authority; path = []; query = none }
    else if is_proxied
    then uri
    else origin_form uri

-- What a connection's peer expects: an HTTP/2 request and one to a proxy name the whole URI, `CONNECT`
-- names the authority, and the others the path and the query.
abbrev pub address : Bool → Bool → Method → Uri → Uri
address is_http2 is_proxied method uri =
    if is_http2
    then uri
    else if is_connect method
    then record { scheme = none; authority = uri.authority; path = []; query = none }
    else if is_proxied
    then uri
    else record { scheme = none; authority = none; path = uri.path; query = uri.query }

append-slash : (path more : Text) → path ++ b'?' ∷ more ≡ codes "/" → ⊥
append-slash [] more e = ground (arith, e)
append-slash (c ∷ []) more e = ground (arith, e)
append-slash (c ∷ d ∷ path) more e = ground (arith, e)

root-or : (uri : Uri) (b : Bool) → (b ≡ true → root ≡ uri) → (if b then root else uri) ≡ uri
root-or uri true h = h refl
root-or uri false h = refl

root-alone :
    (path : Text) (query : Option Text)
    → (path ++ (elim query as (λ _. Text) [ none ↦ [] | some q ↦ b'?' ∷ q ]) == codes "/") ≡ true
    → root ≡ record { scheme = none; authority = none; path = path; query = query }
root-alone path none alone =
    ap (λ p. record { scheme = none; authority = none; path = p; query = none })
      (sym (eq_of_== (path ++ []) (codes "/") alone) ∙ append-nil path)
root-alone path (some q) alone =
    absurd (append-slash path q (eq_of_== (path ++ b'?' ∷ q) (codes "/") alone))

-- The origin form of a URI with a scheme is its path and its query.
origin_form_lem :
    (scheme : Scheme) (authority : Option Authority) (path : Text) (query : Option Text)
    → origin_form
        (record { scheme = some scheme; authority = authority; path = path; query = query })
      ≡ record { scheme = none; authority = none; path = path; query = query }
unfolding origin_form
origin_form_lem scheme none path query = root-or _ _ (root-alone path query)
origin_form_lem scheme (some a) path query = root-or _ _ (root-alone path query)

pub address-target :
    (is_http2 is_proxied : Bool) (method : Method) (uri : Uri) (scheme : Scheme)
    → uri.scheme ≡ some scheme
    → target is_http2 is_proxied method uri ≡ address is_http2 is_proxied method uri
address-target is_http2 is_proxied method uri scheme there =
    let origin : origin_form uri
        ≡ record { scheme = none; authority = none; path = uri.path; query = uri.query } =
      ap
        (λ s.
          origin_form
            (record { scheme = s; authority = uri.authority; path = uri.path; query = uri.query }))
        there
      ∙ origin_form_lem scheme uri.authority uri.path uri.query in
    rw origin refl

module _ (http : HttpApi) {S : Type 0} (jar : CookieApi S) (port_text : ℕ → Text) where
  open http use {HeaderMap}

  -- The message has the target that its connection wants for the URI, and the method.
  abbrev pub IsAddressed : Method → Uri → Wire HeaderMap → Type 0
  IsAddressed method uri w =
      (w.message.uri ≡ address w.conn.is_http2 w.conn.is_proxied method uri)
      × (w.message.method ≡ method)

  prepare-ne-none :
      (config : Config) (conn : Conn HeaderMap) (req : Request HeaderMap) (a : Authority)
      → req.uri.authority ≡ some a
      → prepare http jar port_text config conn req ≢ none
  unfolding prepare authority_form generate_host_header
  prepare-ne-none config conn req a there = ground (arith, there)

  prepare-target :
      (config : Config) (conn : Conn HeaderMap) (req ready : Request HeaderMap)
      → prepare http jar port_text config conn req ≡ some ready
      → (ready.uri ≡ target conn.is_http2 conn.is_proxied req.method req.uri)
        × (ready.method ≡ req.method)
  unfolding prepare authority_form
  prepare-target config conn req ready h = ground (arith, h)

  abbrev IsTargeted : Conn HeaderMap → Request HeaderMap → Request HeaderMap → Type 0
  IsTargeted conn req wire =
      (wire.uri ≡ target conn.is_http2 conn.is_proxied req.method req.uri)
      × (wire.method ≡ req.method)

  -- What one attempt puts on the connection, and when it is to be tried again.
  pub record Fits (conn : Conn HeaderMap) (req : Request HeaderMap) (sent : Sent)
      (t : Tried HeaderMap S) : Type 0 where
    pub addressed : (wire : Request HeaderMap) → t.wire ≡ some wire → IsTargeted conn req wire
    pub retried :
        (back : Request HeaderMap) (reused : Bool)
        → t.attempt ≡ retryable back reused
        → (t.wire ≡ some back) × (reused ≡ conn.is_reused) × (sent ≡ returned)
    pub responded :
        (fields : List HeaderValue)
        → t.attempt ≡ response fields
        → (wire : Request HeaderMap) × (t.wire ≡ some wire) × (sent ≡ answered fields)

  same_wire :
      (conn : Conn HeaderMap) (req wire w : Request HeaderMap)
      → IsTargeted conn req wire
      → some wire ≡ some w
      → IsTargeted conn req w
  same_wire conn req wire w h e = ground (arith, e, h)

  answer-Fits :
      (store : Option S) (conn : Conn HeaderMap) (req wire : Request HeaderMap) (sent : Sent)
      → IsTargeted conn req wire
      → Fits conn req sent (answer http jar port_text store req.uri conn wire sent)
  answer-Fits store conn req wire (answered fields) h = record {
    addressed = λ w e. same_wire conn req wire w h e;
    retried = λ back reused e. cc e;
    responded = λ found e. (wire, refl, ground (arith, e));
  }
  answer-Fits store conn req wire returned h = record {
    addressed = λ w e. same_wire conn req wire w h e;
    retried = λ back reused e. (ground (arith, e), ground (arith, e), refl);
    responded = λ found e. cc e;
  }
  answer-Fits store conn req wire lost h = record {
    addressed = λ w e. same_wire conn req wire w h e;
    retried = λ back reused e. cc e;
    responded = λ found e. cc e;
  }

  refused-Fits :
      (store : Option S) (conn : Conn HeaderMap) (req : Request HeaderMap) (sent : Sent)
      (kind : ErrorKind)
      → Fits conn req sent (record { store = store; wire = none; attempt = nope kind })
  refused-Fits store conn req sent kind = record {
    addressed = λ w e. cc e;
    retried = λ back reused e. cc e;
    responded = λ found e. cc e;
  }

  some-eq : {A : Type 0} (x y : A) → some x ≡ some y → x ≡ y
  some-eq x y e = ground (arith, e)

  pub try_send_request-Fits :
      (config : Config) (store : Option S) (conn : Conn HeaderMap) (req : Request HeaderMap)
      (sent : Sent) (t : Tried HeaderMap S)
      → try_send_request http jar port_text config store conn req sent ≡ some t
      → Fits conn req sent t
  unfolding try_send_request
  try_send_request-Fits config store conn req sent t h =
      elim (Bool-cases (not conn.is_http2 && is_http_2 req.version)) [
        | inl unsupported ↦
            subst (λ t. Fits conn req sent t)
              (some-eq _ t (rw (unsupported, try_send_request) at h))
              (refused-Fits store conn req sent user_unsupported_version)
        | inr supported ↦
            let (ready, made, e) =
              >>=-eq-some (prepare http jar port_text config conn req) _ t
                (rw (supported, try_send_request) at h) in
            subst (λ t. Fits conn req sent t) (some-eq _ t e)
              (answer-Fits store conn req
                (record ready {
                  headers = add_cookies http jar store conn.is_http2 ready.headers req.uri;
                })
                sent (prepare-target config conn req ready made))
      ]

  pub try_send_request-ne-none :
      (config : Config) (store : Option S) (conn : Conn HeaderMap) (req : Request HeaderMap)
      (sent : Sent) (a : Authority)
      → req.uri.authority ≡ some a
      → try_send_request http jar port_text config store conn req sent ≢ none
  unfolding try_send_request
  try_send_request-ne-none config store conn req sent a there =
      ground (arith, prepare-ne-none config conn req a there)
