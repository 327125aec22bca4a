-- ===== src/Client/Tests.antt =====
-- src/client/layer/client.rs: the client service in a small world, and the examples of its theorems.
use tlsurl.Base.{
  ℕ, ◌+◌, ◌≡◌, ◌≢◌, refl, inl, inr, Bool, true, false, none, some, Text, List, [], ◌∷◌, codes, All,
}
use tlsurl.Uri.{Uri, Authority, http}
use tlsurl.Http.{HeaderValue, get, proxy_authorization}
use tlsurl.Http.Demo.{demo, Fields}
use tlsurl.Body.{reusable}
use tlsurl.Cookie.Header.{http_11, compressed}
use tlsurl.Client.{Config, Request, Conn, CookieApi, Sent, answered, returned}
use tlsurl.Client.Connecting.{
  Race, checked_out, checkout_failed, connected, connection_for, one_connection_for,
}
use tlsurl.Client.Forms.{origin_form, normalize_uri, generate_host_header}
use tlsurl.Client.Headers.{header, host_name}
use tlsurl.Client.Send.{
  Wire, pending, panicked, replied, send, request, prepare, try_send_request, after, attempt_on,
}
use tlsurl.Client.Targets.{IsAddressed}
use tlsurl.Client.Runs.{request-addresses}
use tlsurl.Client.Repeats.{send-repeats, GivenBack, LastAnswered}
use tlsurl.Client.Ending.{send-ends}

-- A store that counts the responses and has one cookie.
abbrev jar : CookieApi ℕ
jar = record {
  cookies = λ s uri version. compressed (codes "a=1");
  set_cookies = λ s fields uri. 1 + s;
}

abbrev port_text : ℕ → Text
port_text p = codes "8080"

abbrev config : Config
config = record { retry_canceled_requests = true; set_host = true; is_ver_h2 = false }

abbrev site : Authority
site = record { text = codes "site.org:8080"; host = codes "site.org"; port = some 8080 }

abbrev page : Uri
page = record {
  scheme = some http;
  authority = some site;
  path = codes "/p";
  query = some (codes "q");
}

abbrev page_request : Request Fields
page_request = record {
  method = get;
  uri = page;
  version = http_11;
  headers = [];
  body = reusable [];
}

abbrev connection : Bool → Conn Fields
connection reused = record {
  is_http2 = false;
  is_reused = reused;
  is_proxied = false;
  proxy_auth = none;
  proxy_headers = none;
}

abbrev proxy_connection : Conn Fields
proxy_connection = record {
  is_http2 = false;
  is_reused = true;
  is_proxied = true;
  proxy_auth = some (header (codes "Basic x"));
  proxy_headers = none;
}

abbrev pooled_race : Race (Conn Fields)
pooled_race = record {
  checkout_first = true;
  checkout = checked_out (connection true);
  connecting = connected (connection false);
}

abbrev fresh_race : Race (Conn Fields)
fresh_race = record {
  checkout_first = false;
  checkout = checkout_failed true;
  connecting = connected (connection false);
}

-- The pooled connection has been closed; the request goes out again on a new one.
abbrev rounds : List (List (Race (Conn Fields)) × Sent)
rounds = (pooled_race ∷ [], returned) ∷ (fresh_race ∷ [], answered []) ∷ []

abbrev sent_headers : Fields
sent_headers =
    (codes "cookie", header (codes "a=1")) ∷ (codes "host", header (codes "site.org:8080")) ∷ []

abbrev path_only : Uri
path_only = record { scheme = none; authority = none; path = codes "/p"; query = some (codes "q") }

abbrev seen : List (Wire Fields) → List (Bool × Uri × Fields)
seen [] = []
seen (w ∷ ws) = (w.conn.is_reused, w.message.uri, w.message.headers) ∷ seen ws

wires-page :
    seen (request demo jar port_text config true (some 0) page_request rounds).wires
    ≡ (true, path_only, sent_headers) ∷ (false, path_only, sent_headers) ∷ []
unfolding request normalize_uri send connection_for one_connection_for attempt_on try_send_request
    prepare origin_form generate_host_header after
wires-page = refl

outcome-page :
    (request demo jar port_text config true (some 0) page_request rounds).outcome ≡ replied []
unfolding request normalize_uri send connection_for one_connection_for attempt_on try_send_request
    prepare origin_form generate_host_header after
outcome-page = refl

prepare-proxied :
    prepare demo jar port_text config proxy_connection page_request
    ≡ some (record page_request {
      headers =
          (proxy_authorization, header (codes "Basic x"))
          ∷ (host_name, header (codes "site.org:8080"))
          ∷ [];
    })
unfolding prepare generate_host_header
prepare-proxied = refl

request-addresses_example :
    All
      (IsAddressed demo jar port_text get page)
      (request demo jar port_text config true (some 0) page_request rounds).wires
    × ((request demo jar port_text config true (some 0) page_request rounds).outcome ≢ panicked)
request-addresses_example =
    request-addresses demo jar port_text config true rounds (some 0) page_request site page http
      refl (inl (refl, refl))

send-repeats_example :
    GivenBack config (send demo jar port_text config true page (some 0) page_request rounds).wires
    × ((fields : List HeaderValue)
        → (send demo jar port_text config true page (some 0) page_request rounds).outcome
          ≡ replied fields
        → LastAnswered fields
            (send demo jar port_text config true page (some 0) page_request rounds).wires)
send-repeats_example =
    send-repeats demo jar port_text config true rounds (some 0) page_request site refl

send-ends_example :
    (send demo jar port_text config true page (some 0) page_request rounds).outcome ≢ pending
unfolding connection_for one_connection_for
send-ends_example =
    send-ends demo jar port_text config true rounds page (some 0) page_request
      (inl (connection true, refl, inr (inl (connection false, refl, inl refl))))
