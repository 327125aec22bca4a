-- ===== src/Client/Ending.antt =====
-- src/client/layer/client.rs: the loop of `send_request` ends.
use tlsurl.Base.{
  ℕ, ◌≡◌, ◌≢◌, refl, inl, inr, Bool, true, false, Option, some, Text, [], ◌∷◌, ◌⊎◌, Option-cases,
}
use tlsurl.Uri.{Uri}
use tlsurl.Http.{HttpApi}
use tlsurl.Client.{ErrorKind, Config, Request, Conn, CookieApi, Sent}
use tlsurl.Client.Connecting.{found, normal, connection_for}
use tlsurl.Client.Send.{
  Attempt, response, retryable, nope, Tried, Outcome, Run, pending, send, after, attempt_on,
  try_send_request,
}
use tlsurl.Client.Targets.{try_send_request-Fits}
use tlsurl.Client.Runs.{outcome-sent_before}
use tlsurl.Client.Rounds.{Rounds, Ends, after-cases}

module _ (http : HttpApi) {S : Type 0} (jar : CookieApi S) (port_text : ℕ → Text) (config : Config)
    (enabled : Bool) where
  open http use {HeaderMap}

  -- Each round finds a connection, until one finds a new connection or none.
  abbrev pub ReachesFresh : Rounds http jar port_text config enabled → Type 0
  ReachesFresh [] = ⊥
  ReachesFresh ((races, sent) ∷ rounds) =
      ((conn : Conn HeaderMap) × (connection_for config enabled races ≡ some (found conn))
        × ((conn.is_reused ≡ false) ⊎ ReachesFresh rounds))
      ⊎ ((kind : ErrorKind) × (connection_for config enabled races ≡ some (normal kind)))

  Ends-ne-pending :
      (attempt : Attempt HeaderMap) (o : Outcome)
      → Ends http jar port_text config enabled attempt o
      → o ≢ pending
  Ends-ne-pending (response fields) o e p = cc (e, p)
  Ends-ne-pending (nope kind) o e p = cc (e, p)
  Ends-ne-pending (retryable back reused) o e p = cc (e, p)

  retried_reused :
      (conn : Conn HeaderMap) (req : Request HeaderMap) (sent : Sent) (t : Tried HeaderMap S)
      (store : Option S) (back : Request HeaderMap)
      → conn.is_reused ≡ false
      → try_send_request http jar port_text config store conn req sent ≡ some t
      → t.attempt ≡ retryable back true
      → ⊥
  retried_reused conn req sent t store back fresh tried retried =
      let fits = try_send_request-Fits http jar port_text config store conn req sent t tried in
      cc ((fits.retried back true retried).1, fresh)

  attempt_on-ends :
      (uri : Uri) (again : Option S → Request HeaderMap → Run HeaderMap S) (store : Option S)
      (req : Request HeaderMap) (conn : Conn HeaderMap) (sent : Sent)
      → ((conn.is_reused ≡ false)
          ⊎ ((s : Option S) (r : Request HeaderMap) → (again s r).outcome ≢ pending))
      → (attempt_on http jar port_text config uri again store req conn sent).outcome ≢ pending
  unfolding attempt_on
  attempt_on-ends uri again store req conn sent h =
      elim (Option-cases (try_send_request http jar port_text config store conn req sent)) [
        | inl panic ↦ rw (panic, attempt_on) (λ p. cc p)
        | inr (t, tried) ↦
            rw
              (
                tried,
                attempt_on,
                outcome-sent_before http jar port_text config enabled conn sent t.wire
                    (after http jar port_text config uri again t),
              )
              (elim (after-cases http jar port_text config enabled uri again t t.attempt refl) [
                | inl (o, ends, same) ↦ rw same (Ends-ne-pending t.attempt o ends)
                | inr (back, retried, allowed, same) ↦ elim h [
                  | inl fresh ↦
                      absurd (retried_reused conn req sent t store back fresh tried retried)
                  | inr ih ↦ rw same (ih t.store (record back { uri = uri }))
                ]
              ])
      ]

  -- The loop ends at the latest with the first connection that is not a reused one.
  pub send-ends :
      (rounds : Rounds http jar port_text config enabled) (uri : Uri) (store : Option S)
      (req : Request HeaderMap)
      → ReachesFresh rounds
      → (send http jar port_text config enabled uri store req rounds).outcome ≢ pending
  unfolding send
  send-ends [] uri store req h = absurd h
  send-ends ((races, sent) ∷ rounds) uri store req (inr (kind, resolved)) =
      rw (resolved, send) (λ p. cc p)
  send-ends ((races, sent) ∷ rounds) uri store req (inl (conn, resolved, inl fresh)) =
      rw (resolved, send)
        (attempt_on-ends uri (λ s r. send http jar port_text config enabled uri s r rounds) store
          req conn sent (inl fresh))
  send-ends ((races, sent) ∷ rounds) uri store req (inl (conn, resolved, inr later)) =
      rw (resolved, send)
        (attempt_on-ends uri (λ s r. send http jar port_text config enabled uri s r rounds) store
          req conn sent (inr (λ s r. send-ends rounds uri s r later)))
