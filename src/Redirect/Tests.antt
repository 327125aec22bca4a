-- ===== src/Redirect/Tests.antt =====
-- The redirect layer on a concrete header map and concrete URIs, and the theorems at inputs that
-- meet their hypotheses.
use tlsurl.Base.{
  ◌≡◌, refl, ◌⊎◌, true, false, none, some, Text, List, [], ◌∷◌, codes, arith, text_eq, length,
  starts_with, eq_ignore_ascii_case, ◌≤◌, to_lower,
}
use tlsurl.Uri.{Uri, http, https, is_http, is_https, into_uri, port_or_default}
use tlsurl.Body
use tlsurl.Body.{Body, reusable}
use tlsurl.Http.Demo.{Fields, demo}
use tlsurl.Http.{
  HeaderValue, Request, get, post, authorization, location, content_type, text_into_uri,
}
use tlsurl.Redirect.{follow, limit, HistoryEntry, ok}
use tlsurl.Redirect.Origin.{same_origin, last, remove_sensitive_headers}
use tlsurl.Redirect.Referrer.{
  Referrer, strict_origin_when_cross_origin, apply, next_referrer, from_values, on_redirect,
  referrer_new,
}
use tlsurl.Redirect.Policy.{
  FollowPolicy, new, with_referer, with_https_only, Response, policy_redirect, decide, note_hop,
  redirect, for_request, on_request, on_response,
}
use tlsurl.Redirect.Future.{
  kept, emptied, try_clone_from, Pending, Event, responded, decided, rewrite, resolve_uri,
  handle_action, on_action, on_redirect_response, on_ready, poll, run, call, sent,
}
use tlsurl.Redirect.Steps.{State}
use tlsurl.Redirect.Chains.{Linked}
use tlsurl.Redirect.Credentials.{Guarded, run-keeps_credentials}
use tlsurl.Redirect.Schemes.{HasAllowedScheme, limit-IsImmediate, run-follows_allowed}
use tlsurl.Redirect.Limits.{run-within_limit}
use tlsurl.Redirect.Follows.{Leads, run-follows}
use tlsurl.Redirect.Awaited.{resume-skips_checks}
use tlsurl.Redirect.Histories.{entry_uris, sent_uris, run-history}

abbrev plain : Text → HeaderValue
plain t = record { text = some t; sensitive = false }

abbrev https_uri : Text → Uri
https_uri name = record {
  scheme = some https;
  authority = some (record { text = name; host = name; port = none });
  path = codes "/";
  query = none;
}

abbrev request : Request Fields
request = record {
  method = post;
  uri = https_uri (codes "a.org");
  headers =
      (authorization, plain (codes "secret")) ∷ (content_type, plain (codes "text/plain")) ∷ [];
}

abbrev layer : FollowPolicy demo
layer = with_https_only (with_referer (new (limit 10)) true) true

abbrev body : Body
body = reusable (codes "data")

abbrev started : State demo
started = record {
  pending_future = none;
  policy = record layer {
    referrer = some (record { source = none; policy = strict_origin_when_cross_origin });
  };
  request = request;
  body_repr = kept body;
}

abbrev reply : Response Fields
reply = record {
  status = 302;
  headers = (location, plain (codes "https://b.org")) ∷ [];
  request_uri = none;
  history = none;
}

abbrev last_reply : Response Fields
last_reply = record { status = 200; headers = []; request_uri = none; history = none }

abbrev events : List (Event Fields)
events = responded (ok reply) ∷ responded (ok last_reply) ∷ []

call-started : (call demo layer none request body).2 ≡ some started
unfolding call for_request on_request try_clone_from remove_sensitive_headers last referrer_new
call-started = refl

-- One request follows, to the other host, without the credentials and the payload.
run-events :
    (run demo started events).0
    ≡ (record { method = get; uri = https_uri (codes "b.org"); headers = [] }, Body.empty) ∷ []
unfolding run poll on_ready rewrite on_redirect_response resolve_uri text_into_uri into_uri redirect
    note_hop decide policy_redirect on_action handle_action on_request remove_sensitive_headers last
    same_origin eq_ignore_ascii_case to_lower is_http is_https port_or_default try_clone_from apply
    next_referrer on_redirect from_values starts_with
run-events = refl

run-keeps_credentials_example :
    Linked (Guarded demo) (call demo layer none request body).1 (run demo started events).0
run-keeps_credentials_example =
    run-keeps_credentials demo layer none request body started events call-started

run-follows_allowed_example :
    Linked
      (HasAllowedScheme demo true)
      (call demo layer none request body).1
      (run demo started events).0
run-follows_allowed_example =
    run-follows_allowed demo layer none request body started events call-started
      (limit-IsImmediate 10)

run-within_limit_example : length (run demo started events).0 ≤ 10
run-within_limit_example =
    run-within_limit demo 10 layer none request body started events call-started refl refl

abbrev second : Request Fields
second = record { method = get; uri = https_uri (codes "b.org"); headers = [] }

abbrev followed : State demo
followed = record {
  pending_future = none;
  policy = record started.policy {
    uris = https_uri (codes "a.org") ∷ [];
    history = some (
        record {
          status = 302;
          uri = https_uri (codes "b.org");
          previous = https_uri (codes "a.org");
          headers = reply.headers;
        }
        ∷ []);
  };
  request = second;
  body_repr = emptied;
}

abbrev page : Text
page = codes "https://a.org"

abbrev with_page : Referrer Text
with_page = record { source = some page; policy = strict_origin_when_cross_origin }

abbrev waits : Pending Fields
waits = record {
  future = 0;
  location = record {
    scheme = some http;
    authority = some (record { text = codes "b.org"; host = codes "b.org"; port = none });
    path = codes "/";
    query = none;
  };
  body = body;
  res = reply;
}

abbrev awaiting : State demo
awaiting = record started { pending_future = some waits }

-- The layer allows HTTPS only, and the request goes over HTTP.
resume-skips_checks_example :
    (r' : State demo) × (poll demo awaiting (decided follow) ≡ sent r' r'.request waits.body)
    × (r'.request.uri ≡ waits.location)
    × (r'.policy.history ≡ awaiting.policy.history)
resume-skips_checks_example = resume-skips_checks demo awaiting waits refl

run-end :
    (run demo started events).1
    ≡ some (
        ok (record last_reply { request_uri = some second.uri; history = followed.policy.history }))
unfolding run poll on_ready rewrite on_redirect_response resolve_uri text_into_uri into_uri redirect
    note_hop decide policy_redirect on_action handle_action on_request remove_sensitive_headers last
    same_origin eq_ignore_ascii_case to_lower is_http is_https port_or_default try_clone_from apply
    next_referrer on_redirect from_values starts_with on_response
run-end = refl

run-history_example :
    ((entries : List (HistoryEntry Fields)) × (followed.policy.history ≡ some entries)
      × (entry_uris entries ≡ sent_uris (run demo started events).0))
    ⊎ ((run demo started events).0 ≡ [])
run-history_example =
    run-history demo layer none request body started events
      (record last_reply { request_uri = some second.uri; history = followed.policy.history })
      call-started (limit-IsImmediate 10) refl run-end refl

run-follows_example :
    (sent_uris (run demo started events).0 ≡ second.uri ∷ [])
    × (res : Response Fields) × ((run demo started events).1 ≡ some (ok res))
    × (res.status ≡ 200)
unfolding Leads resolve_uri text_into_uri into_uri starts_with is_http is_https
run-follows_example =
    run-follows demo layer none request (codes "data") started 10 (reply ∷ []) (second.uri ∷ [])
      last_reply call-started refl refl (omega arith) (refl, refl, refl, (λ only. refl), tt) refl
