-- ===== src/Client/Repeats.antt =====
-- src/client/layer/client.rs: when a request is sent a second time.
use tlsurl.Base.{ℕ, ◌≡◌, refl, sym, ◌∙◌, Bool, true, Option, none, some, Text, List, [], ◌∷◌, arith}
use tlsurl.Uri.{Uri, Authority}
use tlsurl.Http.{HttpApi, HeaderValue}
use tlsurl.Client.{Config, Request, Conn, CookieApi, Sent, answered, returned}
use tlsurl.Client.Send.{
  Attempt, response, retryable, nope, Tried, Outcome, replied, Wire, Run, send, ended, sent_before,
}
use tlsurl.Client.Targets.{Fits, try_send_request-Fits}
use tlsurl.Client.Runs.{outcome-sent_before}
use tlsurl.Client.Rounds.{Rounds, Ends, Inductive, send-ind}

module _ {H : Type 0} where
  -- Every message but the last was given back by a connection that had been used before.
  abbrev pub GivenBack : Config → List (Wire H) → Type 0
  GivenBack config [] = Unit
  GivenBack config (w ∷ []) = Unit
  GivenBack config (w ∷ w' ∷ ws) =
      (config.retry_canceled_requests ≡ true)
      × (w.answer ≡ returned)
      × (w.conn.is_reused ≡ true)
      × GivenBack config (w' ∷ ws)

  -- The last message was answered so.
  abbrev pub LastAnswered : List HeaderValue → List (Wire H) → Type 0
  LastAnswered fields [] = ⊥
  LastAnswered fields (w ∷ []) = w.answer ≡ answered fields
  LastAnswered fields (w ∷ w' ∷ ws) = LastAnswered fields (w' ∷ ws)

  GivenBack-cons :
      (config : Config) (w : Wire H) (ws : List (Wire H))
      → config.retry_canceled_requests ≡ true
      → w.answer ≡ returned
      → w.conn.is_reused ≡ true
      → GivenBack config ws
      → GivenBack config (w ∷ ws)
  GivenBack-cons config w [] on back used h = tt
  GivenBack-cons config w (w' ∷ ws) on back used h = (on, back, used, h)

  LastAnswered-cons :
      (fields : List HeaderValue) (w : Wire H) (ws : List (Wire H))
      → LastAnswered fields ws
      → LastAnswered fields (w ∷ ws)
  LastAnswered-cons fields w [] h = absurd h
  LastAnswered-cons fields w (w' ∷ ws) h = h

module _ (http : HttpApi) {S : Type 0} (jar : CookieApi S) (port_text : ℕ → Text) (config : Config)
    (enabled : Bool) where
  open http use {HeaderMap}

  abbrev IsOrdered : Request HeaderMap → Run HeaderMap S → Type 0
  IsOrdered req r =
      GivenBack config r.wires
      × ((fields : List HeaderValue) → r.outcome ≡ replied fields → LastAnswered fields r.wires)

  one-GivenBack :
      (conn : Conn HeaderMap) (sent : Sent) (wire : Option (Request HeaderMap)) (store : Option S)
      (o : Outcome)
      → GivenBack config
          (sent_before http jar port_text conn sent wire (ended http jar port_text store o)).wires
  one-GivenBack conn sent none store o = tt
  one-GivenBack conn sent (some w) store o = tt

  Ends-replied :
      (attempt : Attempt HeaderMap) (o : Outcome) (fields : List HeaderValue)
      → Ends http jar port_text config enabled attempt o
      → o ≡ replied fields
      → attempt ≡ response fields
  Ends-replied (response found) o fields e p = ground (arith, e, p)
  Ends-replied (nope kind) o fields e p = cc (e, p)
  Ends-replied (retryable back reused) o fields e p = cc (e, p)

  answered_once :
      (fields : List HeaderValue) (conn : Conn HeaderMap) (sent : Sent)
      (wire : Option (Request HeaderMap)) (w : Request HeaderMap) (store : Option S) (o : Outcome)
      → wire ≡ some w
      → sent ≡ answered fields
      → LastAnswered fields
          (sent_before http jar port_text conn sent wire (ended http jar port_text store o)).wires
  answered_once fields conn sent none w store o written e = cc written
  answered_once fields conn sent (some x) w store o written e = e

  last_answered :
      (fields : List HeaderValue) (conn : Conn HeaderMap) (req : Request HeaderMap) (sent : Sent)
      (t : Tried HeaderMap S) (o : Outcome)
      → Fits http jar port_text conn req sent t
      → Ends http jar port_text config enabled t.attempt o
      → (sent_before http jar port_text conn sent t.wire
          (ended http jar port_text t.store o)).outcome
        ≡ replied fields
      → LastAnswered fields
          (sent_before http jar port_text conn sent t.wire
            (ended http jar port_text t.store o)).wires
  last_answered fields conn req sent t o fits ends p =
      let shown =
        sym (
          outcome-sent_before http jar port_text config enabled conn sent t.wire
            (ended http jar port_text t.store o))
        ∙ p in
      let (w, written, e) = fits.responded fields (Ends-replied t.attempt o fields ends shown) in
      answered_once fields conn sent t.wire w t.store o written e

  again-IsOrdered :
      (req back : Request HeaderMap) (conn : Conn HeaderMap) (sent : Sent)
      (wire : Option (Request HeaderMap)) (rest : Run HeaderMap S)
      → wire ≡ some back
      → true ≡ conn.is_reused
      → sent ≡ returned
      → config.retry_canceled_requests ≡ true
      → IsOrdered (record back { uri = req.uri }) rest
      → IsOrdered req (sent_before http jar port_text conn sent wire rest)
  again-IsOrdered req back conn sent none rest written used given on ih = cc written
  again-IsOrdered req back conn sent (some w) rest written used given on ih =
      let first : Wire HeaderMap = record { conn = conn; message = w; answer = sent } in
      (
        GivenBack-cons config first rest.wires on given (sym used) ih.0,
        λ fields p. LastAnswered-cons fields first rest.wires (ih.1 fields p),
      )

  ordered : (uri : Uri) → Inductive http jar port_text config enabled uri IsOrdered
  ordered uri = record {
    pause = λ req store. (tt, λ fields p. cc p);
    fail = λ req store kind. (tt, λ fields p. cc p);
    last = λ req store conn sent t o e tried ends.
        let fits = try_send_request-Fits http jar port_text config store conn req sent t tried in
        (
          one-GivenBack conn sent t.wire t.store o,
          λ fields p. last_answered fields conn req sent t o fits ends p,
        );
    again = λ req back store conn sent t rest e tried retried allowed ih.
        let fits = try_send_request-Fits http jar port_text config store conn req sent t tried in
        let (written, used, given) = fits.retried back true retried in
        again-IsOrdered req back conn sent t.wire rest written used given allowed ih;
  }

  -- A request is sent again only if retries are allowed, the connection had been used before, and it gave
  -- the request back; a run that ends with a response ends with that of its last message.
  pub send-repeats :
      (rounds : Rounds http jar port_text config enabled) (store : Option S)
      (req : Request HeaderMap) (a : Authority)
      → req.uri.authority ≡ some a
      → GivenBack config (send http jar port_text config enabled req.uri store req rounds).wires
        × ((fields : List HeaderValue)
            → (send http jar port_text config enabled req.uri store req rounds).outcome
              ≡ replied fields
            → LastAnswered fields
                (send http jar port_text config enabled req.uri store req rounds).wires)
  send-repeats rounds store req a there =
      send-ind http jar port_text config enabled req.uri a IsOrdered there (ordered req.uri) rounds
        store req refl
