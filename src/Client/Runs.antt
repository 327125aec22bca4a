-- ===== src/Client/Runs.antt =====
-- src/client/layer/client.rs: what a whole run of a request sends.
use tlsurl.Base.{
  ◌⊎◌, codes, nat_beq, nat_beq_iff, if◌then◌else◌, ℕ, ◌≡◌, ◌≢◌, refl, sym, ap, ◌∙◌, inl, inr, Bool,
  true, ◌&&◌, not, Option, none, some, Text, All, Bool-cases, arith,
}
use tlsurl.Uri.{Uri, Authority, Scheme, http, https}
use tlsurl.Http.{HttpApi, Method}
use tlsurl.Client.{Config, Request, is_connect, Conn, CookieApi, Sent}
use tlsurl.Client.Forms.{normalize_uri}
use tlsurl.Client.Send.{
  Attempt, response, retryable, nope, Tried, Outcome, panicked, Wire, Run, ended, sent_before,
  request, is_supported, is_http_10,
}
use tlsurl.Client.Targets.{address-target, Fits, try_send_request-Fits, IsAddressed, target}
use tlsurl.Client.Rounds.{Rounds, Ends, Inductive, send-ind}

module _ (api : HttpApi) {S : Type 0} (jar : CookieApi S) (port_text : ℕ → Text) (config : Config)
    (enabled : Bool) where
  open api use {HeaderMap}

  pub All-sent_before :
      (Q : Wire HeaderMap → Type 0) (conn : Conn HeaderMap) (sent : Sent)
      (wire : Option (Request HeaderMap)) (rest : Run HeaderMap S)
      → ((w : Request HeaderMap)
          → wire ≡ some w
          → Q (record { conn = conn; message = w; answer = sent }))
      → All Q rest.wires
      → All Q (sent_before api jar port_text conn sent wire rest).wires
  All-sent_before Q conn sent none rest h k = k
  All-sent_before Q conn sent (some w) rest h k = (h w refl, k)

  pub outcome-sent_before :
      (conn : Conn HeaderMap) (sent : Sent) (wire : Option (Request HeaderMap))
      (rest : Run HeaderMap S)
      → (sent_before api jar port_text conn sent wire rest).outcome ≡ rest.outcome
  outcome-sent_before conn sent none rest = refl
  outcome-sent_before conn sent (some w) rest = refl

  Ends-ne-panicked :
      (attempt : Attempt HeaderMap) (o : Outcome)
      → Ends api jar port_text config enabled attempt o
      → o ≢ panicked
  Ends-ne-panicked (response fields) o e p = cc (e, p)
  Ends-ne-panicked (nope kind) o e p = cc (e, p)
  Ends-ne-panicked (retryable back reused) o e p = cc (e, p)

  -- Each message of a run is addressed, and nothing panics.
  abbrev IsGood : Method → Uri → Request HeaderMap → Run HeaderMap S → Type 0
  IsGood method uri req r =
      req.method ≡ method
      → All (IsAddressed api jar port_text method uri) r.wires × (r.outcome ≢ panicked)

  conn-IsAddressed :
      (method : Method) (uri : Uri) (req : Request HeaderMap) (conn : Conn HeaderMap) (sent : Sent)
      (t : Tried HeaderMap S)
      → Fits api jar port_text conn req sent t
      → (scheme : Scheme) → uri.scheme ≡ some scheme
      → req.uri ≡ uri
      → req.method ≡ method
      → (w : Request HeaderMap) → t.wire ≡ some w
      → IsAddressed api jar port_text method uri
          (record { conn = conn; message = w; answer = sent })
  conn-IsAddressed method uri req conn sent t fits scheme there e m w k =
      let (u, n) = fits.addressed w k in
      (
        u
            ∙ ap (target conn.is_http2 conn.is_proxied req.method) e
            ∙ ap (λ n. target conn.is_http2 conn.is_proxied n uri) m
            ∙ address-target conn.is_http2 conn.is_proxied method uri scheme there,
        n ∙ m,
      )

  -- The method of what comes back is that of the request.
  pub back-method :
      (req back : Request HeaderMap) (conn : Conn HeaderMap) (sent : Sent) (t : Tried HeaderMap S)
      → Fits api jar port_text conn req sent t
      → t.attempt ≡ retryable back true
      → back.method ≡ req.method
  back-method req back conn sent t fits retried =
      (fits.addressed back (fits.retried back true retried).0).1

  good :
      (method : Method) (uri : Uri) (scheme : Scheme)
      → uri.scheme ≡ some scheme
      → Inductive api jar port_text config enabled uri (IsGood method uri)
  good method uri scheme there = record {
    pause = λ req store m. (tt, λ p. cc p);
    fail = λ req store kind m. (tt, λ p. cc p);
    last = λ req store conn sent t o e tried ends m.
        let fits = try_send_request-Fits api jar port_text config store conn req sent t tried in
        (
          All-sent_before (IsAddressed api jar port_text method uri) conn sent t.wire
              (ended api jar port_text t.store o)
              (conn-IsAddressed method uri req conn sent t fits scheme there e m) tt,
          λ p.
              Ends-ne-panicked t.attempt o ends (
                sym (outcome-sent_before conn sent t.wire (ended api jar port_text t.store o)) ∙ p),
        );
    again = λ req back store conn sent t rest e tried retried allowed ih m.
        let fits = try_send_request-Fits api jar port_text config store conn req sent t tried in
        let (all, fine) = ih (back-method req back conn sent t fits retried ∙ m) in
        (
          All-sent_before (IsAddressed api jar port_text method uri) conn sent t.wire rest
              (conn-IsAddressed method uri req conn sent t fits scheme there e m) all,
          λ p. fine (sym (outcome-sent_before conn sent t.wire rest) ∙ p),
        );
  }

  -- What a run asks for: the URI itself, or, where a `CONNECT` gives an authority alone, the root there,
  -- by HTTPS if the port is 443 and otherwise by HTTP.
  abbrev pub IsRequested : Method → Uri → Authority → Uri → Scheme → Type 0
  IsRequested method given a uri scheme =
      ((given.scheme ≡ some scheme) × (uri ≡ given))
      ⊎ ((given.scheme ≡ none)
          × (is_connect method ≡ true)
          × (((a.port ≡ some 443) × (scheme ≡ https)) ⊎ ((a.port ≢ some 443) × (scheme ≡ http)))
          × (uri ≡ record {
            scheme = some scheme;
            authority = some a;
            path = codes "/";
            query = none;
          }))

  scheme-443 :
      (port : Option ℕ) (scheme : Scheme)
      → ((port ≡ some 443) × (scheme ≡ https)) ⊎ ((port ≢ some 443) × (scheme ≡ http))
      → (elim port as (λ _. Scheme) [
        | none ↦ http
        | some p ↦ if nat_beq p 443 then https else http
      ])
        ≡ scheme
  scheme-443 none scheme (inl (at, e)) = cc at
  scheme-443 none scheme (inr (at, e)) = sym e
  scheme-443 (some p) scheme (inl (at, e)) = ground (arith, at, e)
  scheme-443 (some p) scheme (inr (at, e)) = elim (Bool-cases (nat_beq p 443)) [
    | inl hit ↦ absurd (at (ap some ((nat_beq_iff p 443).0 hit)))
    | inr miss ↦ rw miss (sym e)
  ]

  normalize_uri-IsRequested :
      (method : Method) (given uri : Uri) (a : Authority) (scheme : Scheme)
      → given.authority ≡ some a
      → IsRequested method given a uri scheme
      → (base : Uri) × (normalize_uri given (is_connect method) ≡ some (base, uri))
        × (uri.scheme ≡ some scheme)
        × (uri.authority ≡ some a)
  unfolding normalize_uri
  normalize_uri-IsRequested method given uri a scheme named (inl (schemed, same)) = (
    record { scheme = some scheme; authority = some a; path = codes "/"; query = none },
    ground (arith, named, schemed, same),
    ground (arith, schemed, same),
    ground (arith, named, same),
  )
  normalize_uri-IsRequested method given uri a scheme named (inr (bare, connects, port, same)) = (
    record { scheme = some scheme; authority = some a; path = codes "/"; query = none },
    ground (arith, named, bare, connects, scheme-443 a.port scheme port, same),
    ground (arith, same),
    ground (arith, same),
  )

  -- Whatever the connections are and answer: each request of a run is written for the URI that the run
  -- started with, in the form that its connection wants, and the code does not panic. The URI has an
  -- authority, and a scheme unless the request is a `CONNECT`, which then goes to the root at the
  -- authority.
  pub request-addresses :
      (rounds : Rounds api jar port_text config enabled) (store : Option S)
      (req : Request HeaderMap) (a : Authority) (uri : Uri) (scheme : Scheme)
      → req.uri.authority ≡ some a
      → IsRequested req.method req.uri a uri scheme
      → All
          (IsAddressed api jar port_text req.method uri)
          (request api jar port_text config enabled store req rounds).wires
        × ((request api jar port_text config enabled store req rounds).outcome ≢ panicked)
  unfolding request
  request-addresses rounds store req a uri scheme named requested =
      let (base, normal, schemed, there) =
        normalize_uri-IsRequested req.method req.uri uri a scheme named requested in
      let sent =
        send-ind api jar port_text config enabled uri a (IsGood req.method uri) there
          (good req.method uri scheme schemed) rounds store (record req { uri = uri }) refl refl in
      elim (Bool-cases (is_http_10 req.version && is_connect req.method)) [
        | inl refused ↦ rw (refused, request) (tt, λ p. cc p)
        | inr version ↦ elim (Bool-cases (not (is_supported req.version))) [
          | inl refused ↦ rw (version, refused, request) (tt, λ p. cc p)
          | inr supported ↦ rw (version, supported, normal, request) sent
        ]
      ]
