-- ===== src/Client/Rounds.antt =====
-- src/client/layer/client.rs: the loop of `send_request`, by induction on its rounds.
use tlsurl.Base.{
  ℕ, ◌≡◌, refl, sym, ap, ◌∙◌, subst, inl, inr, Bool, true, ◌&&◌, Option, some, Text, List, [], ◌∷◌,
  Option-cases, Bool-cases, arith, ◌⊎◌,
}
use tlsurl.Uri.{Uri, Authority}
use tlsurl.Http.{HttpApi}
use tlsurl.Client.{ErrorKind, canceled, Config, Request, Conn, CookieApi, Sent}
use tlsurl.Client.Connecting.{Race, found, normal, checkout_is_closed, connection_for}
use tlsurl.Client.Send.{
  Attempt, response, retryable, nope, Tried, Outcome, pending, replied, failed, Run,
  try_send_request, send, ended, sent_before, after, attempt_on,
}
use tlsurl.Client.Targets.{try_send_request-ne-none}

module _ (http : HttpApi) {S : Type 0} (jar : CookieApi S) (port_text : ℕ → Text) (config : Config)
    (enabled : Bool) where
  open http use {HeaderMap}

  abbrev pub Rounds : Type 0
  Rounds = List (List (Race (Conn HeaderMap)) × Sent)

  -- How a run ends after an attempt that is not repeated.
  abbrev pub Ends : Attempt HeaderMap → Outcome → Type 0
  Ends (response fields) o = o ≡ replied fields
  Ends (retryable back reused) o = o ≡ failed canceled
  Ends (nope kind) o = o ≡ failed kind

  -- A property of the runs of `send` for a target, from those of the ends and of one round.
  pub record Inductive (uri : Uri) (P : Request HeaderMap → Run HeaderMap S → Type 0) : Type 0 where
    pub pause :
        (req : Request HeaderMap) (store : Option S)
        → P req (ended http jar port_text store pending)
    pub fail :
        (req : Request HeaderMap) (store : Option S) (kind : ErrorKind)
        → P req (ended http jar port_text store (failed kind))
    pub last :
        (req : Request HeaderMap) (store : Option S) (conn : Conn HeaderMap) (sent : Sent)
        (t : Tried HeaderMap S) (o : Outcome)
        → req.uri ≡ uri
        → try_send_request http jar port_text config store conn req sent ≡ some t
        → Ends t.attempt o
        → P req
            (sent_before http jar port_text conn sent t.wire (ended http jar port_text t.store o))
    pub again :
        (req back : Request HeaderMap) (store : Option S) (conn : Conn HeaderMap) (sent : Sent)
        (t : Tried HeaderMap S) (rest : Run HeaderMap S)
        → req.uri ≡ uri
        → try_send_request http jar port_text config store conn req sent ≡ some t
        → t.attempt ≡ retryable back true
        → config.retry_canceled_requests ≡ true
        → P (record back { uri = uri }) rest
        → P req (sent_before http jar port_text conn sent t.wire rest)

  pub after-cases :
      (uri : Uri) (again : Option S → Request HeaderMap → Run HeaderMap S) (t : Tried HeaderMap S)
      (attempt : Attempt HeaderMap)
      → t.attempt ≡ attempt
      → ((o : Outcome) × Ends t.attempt o
          × (after http jar port_text config uri again t ≡ ended http jar port_text t.store o))
        ⊎ ((back : Request HeaderMap) × (t.attempt ≡ retryable back true)
            × (config.retry_canceled_requests ≡ true)
            × (after http jar port_text config uri again t
                ≡ again t.store (record back { uri = uri })))
  unfolding after
  after-cases uri again t (response fields) e =
      inl (replied fields, subst (λ x. Ends x (replied fields)) (sym e) refl, ground (arith, e))
  after-cases uri again t (nope kind) e =
      inl (failed kind, subst (λ x. Ends x (failed kind)) (sym e) refl, ground (arith, e))
  after-cases uri again t (retryable back reused) e =
      elim (Bool-cases (config.retry_canceled_requests && reused)) [
        | inl on ↦ inr (back, ground (arith, e, on), ground (arith, on), ground (arith, e, on))
        | inr off ↦ inl (
          failed canceled,
          subst (λ x. Ends x (failed canceled)) (sym e) refl,
          ground (arith, e, off),
        )
      ]

  module _ (uri : Uri) (a : Authority) (P : Request HeaderMap → Run HeaderMap S → Type 0)
      (there : uri.authority ≡ some a) (v : Inductive uri P) where
    attempt_on-ind :
        (again : Option S → Request HeaderMap → Run HeaderMap S)
        → ((s : Option S) (r : Request HeaderMap) → r.uri ≡ uri → P r (again s r))
        → (store : Option S) (req : Request HeaderMap) (conn : Conn HeaderMap) (sent : Sent)
        → req.uri ≡ uri
        → P req (attempt_on http jar port_text config uri again store req conn sent)
    unfolding attempt_on
    attempt_on-ind again ih store req conn sent e =
        elim (Option-cases (try_send_request http jar port_text config store conn req sent)) [
          | inl panic ↦ absurd (
              try_send_request-ne-none http jar port_text config store conn req sent a
                (ap (λ u. u.authority) e ∙ there) panic)
          | inr (t, tried) ↦
              rw (tried, attempt_on)
                (elim (after-cases uri again t t.attempt refl) [
                  | inl (o, ends, same) ↦
                      subst (λ r. P req (sent_before http jar port_text conn sent t.wire r))
                        (sym same) (v.last req store conn sent t o e tried ends)
                  | inr (back, retried, allowed, same) ↦
                      subst (λ r. P req (sent_before http jar port_text conn sent t.wire r))
                        (sym same)
                        (v.again req back store conn sent t
                          (again t.store (record back { uri = uri })) e tried retried allowed
                          (ih t.store (record back { uri = uri }) refl))
                ])
        ]

    pub send-ind :
        (rounds : Rounds) (store : Option S) (req : Request HeaderMap)
        → req.uri ≡ uri
        → P req (send http jar port_text config enabled uri store req rounds)
    unfolding send
    send-ind [] store req e = v.pause req store
    send-ind ((races, sent) ∷ rounds) store req e =
        elim (Option-cases (connection_for config enabled races)) [
          | inl waiting ↦ rw (waiting, send) (v.pause req store)
          | inr (found conn, resolved) ↦
              rw (resolved, send)
                (attempt_on-ind (λ s r. send http jar port_text config enabled uri s r rounds)
                  (λ s r k. send-ind rounds s r k) store req conn sent e)
          | inr (normal kind, resolved) ↦ rw (resolved, send) (v.fail req store kind)
          | inr (checkout_is_closed, resolved) ↦ rw (resolved, send) (v.pause req store)
        ]
