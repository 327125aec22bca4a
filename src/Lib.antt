-- ===== src/Lib.antt =====
-- tlsurl: a model of the HTTP client's core, from redirects and cookies to the pool of connections,
-- with proofs.
--
-- The program is an HTTP client.  A request goes through a stack of layers before it reaches a
-- connection: redirects are followed around retries, and retries around the client service, which picks
-- a connection from the pool or opens one, perhaps through a proxy, and adds the cookies.
--
-- Cookies (src/cookie/store.rs and src/cookie/jar.rs).  A `Jar` is a lock around a `Store`, which nests
-- maps: domain, path, name and scope (host-only or `Domain`) lead to a cookie with its creation index.
-- The client gives the jar each response's `Set-Cookie` fields and asks it for the `Cookie` field of
-- each request.
--   Cookie            the types of the `cookie` and `url` crates that the jar stores, and `Externals`,
--                     the functions of these crates that it calls
--   Cookie.Matching   cookie_is_expired, domain_match, path_match, canonical_host, normalize_path and
--                     request_matches_cookie, with the descriptions of RFC 6265 in its children
--   Cookie.Scope      CookieScopeMap and its methods
--   Cookie.Store      Store and its methods; Lookup and Replace say what a lookup finds afterwards
--   Cookie.Jar        Jar::add, remove and clear
--   Cookie.Queries    Jar::get, contains, matches, get_all, len and is_empty
--   Cookie.Header     set_cookies and cookies of the CookieStore implementation
--   Cookie.Invariant, Preserve, History   the store's invariant, each operation, any sequence of calls
--   Cookie.Secure, Accept, Roundtrip, Selection, Deletion   what the operations promise together
-- The lock makes each method one step, so a jar that threads share is a sequence of calls.  The clock
-- is an argument of each operation.  Indices are natural numbers that saturate at the largest `u64`.
--
-- Redirects (src/redirect.rs and src/client/layer/redirect.rs with its two modules).  A call starts a
-- `ResponseFuture`, which sends the request, looks at the response, asks the policy, prepares the next
-- request and sends it, until a response or an error is left.
--   Redirect            Action, Attempt, PolicyKind, HistoryEntry and the errors
--   Redirect.Origin     same_origin and remove_sensitive_headers
--   Redirect.Referrer   mod referrer
--   Redirect.Policy     Policy::redirect and the methods of FollowRedirectPolicy
--   Redirect.Future     BodyRepr, call, and poll as a function of the state and an event
--   Redirect.Steps      the kinds of step that a poll makes, and that there is no other
--   Redirect.Chains     induction over the polls of a call
--   Redirect.Requests, Decisions, Calls   what preparing, deciding and starting change
--   Redirect.Credentials, Schemes, Limits, Rewriting, Awaited, Histories, Follows   what a chain does
-- An event is the service's answer or the decision of a pending policy; a call is a list of events of
-- any length and order, so no fuel is needed: a poll sends at most one request.  The header map, URLs
-- and URI texts of the `http` and `url` crates are the interface `HttpApi` of Http, whose laws are
-- those that the documentation of `HeaderMap` states.  Uri and Body model src/ext.rs, src/into_uri.rs
-- and src/client/body.rs as far as the components use them.  Http.Demo is a small world of header maps
-- and URLs in which the theorems are tried.  Uri.Userinfo has the reading and
-- setting of a URI's user information, over the percent encoding and the parsers of the crates.
--
-- Connections (src/client/layer/client/pool.rs).  The pool keeps idle connections by key.  A request
-- checks a connection out or waits for one; a connection that comes free goes to the waiters or back to
-- the idle ones; an idle task evicts what is closed or too old; a guard keeps two HTTP/2 connections to
-- one key from being opened at once.
--   Pool            the types, the interfaces of a connection and of the `lru` crate's cache
--   Pool.Inner      Pool::new, connecting and pooled, PoolInner, IdlePopper and the drops of the guards
--   Pool.Checkout   Checkout and Pool::reuse
--   Pool.Client     the HTTP client's connection (src/client/layer/client.rs), an instance
--   Pool.Popping, Bounds, Preserve, Runs   the idle lists through any sequence of steps
--   Pool.Handover, Reuse, Locks, Held   who gets a connection, and what is never given
-- Each method holds the pool's lock, so it is one step.  Whether a connection is open, whether a waiter
-- has gone and the time change between and during steps, so a step takes them as arguments.  A clone of
-- a shared connection is not told from the original.
--
-- Retries (src/retry.rs, src/client/layer/retry.rs and its two modules).  The policy says whether a
-- request is copied before it is sent and whether its outcome asks for the copy to be sent.
--   Retry           the scope, the classifier, the policy and the calls that tower's service makes
--   Retry.Limits    how often a request is sent again
--   Retry.Nacks     what the default classifier retries
-- The token budget is an interface without laws; `retry_cnt` wraps at 32 bits.
--
-- The client service (src/client/layer/client.rs).  A request gets a connection, a target in the form
-- that the connection wants and the fields that the client adds; if a connection that had been used
-- before gives it back, it is sent again.
--   Client              the configuration, a request, a connection and what it answers
--   Client.Forms        origin_form, absolute_form, authority_form, normalize_uri, generate_host_header
--   Client.Connecting   connection_for and one_connection_for
--   Client.Headers      the `Host`, proxy and cookie fields, and replace_headers of src/util.rs
--   Client.Send         request, send_request and try_send_request
--   Client.Targets, Rounds   what one attempt does, and induction over the loop
--   Client.Runs, Repeats, Ending   what a whole run sends, when it repeats, and that it ends
-- The ends of the races between the pool's checkout and a new connection, and the answers of the
-- connections, are a list that the run takes as an argument; a run that uses it up is pending.
--
-- Opening a connection (src/conn/net/tcp.rs and src/dns.rs).  The addresses of a host are raced: the two
-- families by turns, a new attempt after a delay or when no attempt is left, at most six at a time.
--   Tcp                 the errors, split_by_preference, ConnectingTcp and ConnectingTcpState
--   Tcp.Racing          launch_next, poll_attempts, the loop of connect_inner and connect_with_timeout
--   Tcp.Schedule, Launching, Polling, Rounds   the order of the addresses, what each part of a round keeps
--   Tcp.Plan, Runs      the addresses to be tried, and what holds of a race with any sequence of polls
--   Tcp.Work, Within, Ending   what is left to do in a race, and when it is over
--   Tcp.Sequential, Replies, InOrder   the connecting in order, and what it comes to
-- An event is a poll: what each attempt comes to, and whether the delay and the deadline are over.  The
-- loop of launch_next has as much fuel as there are addresses, and each round takes one away.  What fails
-- when a socket is set up is a parameter.
--
-- Timeouts (src/client/layer/timeout.rs and its modules).  A layer puts timers around the future of a
-- response and around its body.
--   Timeout             fetch_timeout_options, call, the future of the head and the bodies
--   Timeout.Durations   whose durations apply
--   Timeout.Deadlines   when a poll of a body meets a timeout
--
-- Header order (src/header.rs).  A request's headers are written in an order and with spellings that the
-- user has given.
--   HeaderOrder         OrigHeaderMap: insert, call and call_visit, over the maps of the `http` crate
--   HeaderOrder.Values, Spelling   the values of each name afterwards
--
-- Proxies (src/proxy.rs, src/proxy/matcher.rs and two functions of src/util.rs).  A matcher says for each
-- destination which proxy to use, if any, and with which credentials.
--   Proxy               the types, and NoProxy with its domains and addresses
--   Proxy.Matching      parse_env_uri, Builder::build, Matcher::intercept and basic_auth
--   Proxy.Config        Proxy::into_matcher
--   Proxy.Suffixes, Domains   what an entry for a domain matches
--   Proxy.Bypass, Carried, Credentials   when a proxy is used, and where its user information goes
-- Addresses, networks, URIs, percent decoding and base64 are the interface `ProxyApi`.  Texts are bytes, so
-- a slice of a host is taken at any byte, as it is for the ASCII hosts of a URI.
--
-- Multipart forms (src/client/multipart.rs).  A form is a list of parts that becomes a stream with a
-- boundary between the parts, and its length is computed without the stream.
--   Multipart           Form, Part, encode_headers, into_stream, compute_length and gen_boundary
--   Multipart.Length, FileNames, Boundary   the length, the quoting of file names, the boundary
-- Lengths wrap at 64 bits, as additions of a release build do; the two random numbers of a boundary are
-- arguments.
--
-- The language bindings' core (crates/tlsurl-core/src/stream.rs and lib.rs).  A response is pulled chunk by
-- chunk, may be closed at any time, and is read as a whole up to a limit.
--   Core                StreamResponse with the two halves of close and the steps of next_chunk, and the
--                       reading loop
--   Core.Reading, Closing, Limits   what is left of a closed response, and what a whole body is
-- A read holds the lock for five steps: it looks at the cancellation, takes the body, waits in the select,
-- looks again, and puts the body back.  Between these other threads may close the response, and the end of
-- its future may come where it waits.  The loop's fuel is the number of frames and one.
--
-- Base holds what all share: Boolean tests on native numbers, lists, Boolean equality as an interface,
-- texts as lists of bytes with the string functions of the standard library, and sorting.  HashMap is a
-- map as a list of pairs; its iteration order is the list's, and no theorem rests on that order.
--
-- Not modelled: the handshakes of connections, their tunnels and the options of sockets, WebSockets, TLS,
-- resolvers, the readers of the environment and of system settings, files as parts of a form, the builders
-- of clients and requests, the options of tlsurl-core and the language bindings.  They are either input and output,
-- configuration, or components that this library does not cover yet.
pub mod Base
pub mod HashMap
pub mod Uri
pub mod Cookie
pub mod Http
pub mod Body
pub mod Redirect
pub mod Pool
pub mod Retry
pub mod Multipart
pub mod Proxy
pub mod Client
pub mod Tcp
pub mod HeaderOrder
pub mod Timeout
pub mod Core
