-- ===== src/Lib.antt =====
-- Verification of the parts of wreq, an HTTP client, that keep state between requests or decide what a
-- request may carry: its way to a connection, cookies, the connection pool, headers, redirects,
-- retries, timeouts, the choice of a proxy and the tunnel through it, TLS sessions and multipart
-- forms.
--
-- The parts and their files:
--
-- - Base: names of the standard library that all files share, and what the program uses of Rust's:
--   texts as lists of bytes, maps as association lists, sorting, tests on numbers; Base.Percent is the
--   crate percent_encoding, as an interface with a set of bytes given by its members. Numbers are
--   natural; where the source saturates, as the creation index of a cookie does, the bound is written
--   out.
-- - Uri: the parts of an http::Uri that are read, and the methods of UriExt in src/ext.rs, of which
--   Uri.Userinfo has the user name and the password, with the set of bytes encoded in them.
-- - Cookie: src/cookie/store.rs and src/cookie/jar.rs. Cookie.Host has domain_match and
--   canonical_host, Cookie.Path has path_match and normalize_path, Cookie.Scope and Cookie.Store have
--   CookieScopeMap and Store with their operations, Cookie.Jar has add, remove, clear and set_cookies,
--   Cookie.Jar.Views the readers of a jar, Cookie.Jar.Header the cookies of a request. Each method of
--   Jar takes the lock for the whole of its work on the store, so it is a function from a store to a
--   store; the clock is an argument. Parsing a host and a Set-Cookie value is outside and is a
--   parameter, a record Crates.
-- - Pool: src/client/layer/client/pool.rs. PoolInner is the state behind the mutex; Pool has its
--   methods, with what they send to waiters as a list of sends; Pool.Handles has Pool, Connecting,
--   Pooled and Checkout with their drops and the poll of a Checkout. The LRU cache, the channels and
--   the connections are interfaces of Pool.Crates. A cache may evict any other key when one is added.
--   Pool.History has the histories of calls, one for each time the mutex is taken.
-- - HttpClient: src/client/layer/client.rs, with Connected of src/conn.rs. HttpClient.Uris has the
--   forms of a URI, HttpClient.Preparing what a request is made into for its connection, and
--   HttpClient.Sending one attempt and the loop around it; HttpClient.Racing has the race of a
--   checkout and a new connection with Lazy of src/client/layer/client/lazy.rs, polled as the futures
--   crate's select polls, and HttpClient.Connecting the stages of connect_to, HttpClient.Building the
--   Builder. The pool, the connections, the stores and the runtime are a state that the calls of an
--   interface change. A panic is none, or panicked. A Uri is here the parts that http::Uri is made of.
-- - Headers: src/header.rs, src/client/layer/config.rs and replace_headers of src/util.rs, over header
--   maps that are an interface; Headers.Listed is one. Headers.Groups has the loop that the first and
--   the last share.
-- - Group: src/group.rs and src/conn/descriptor.rs.
-- - Redirect: src/redirect.rs, with the referrer policies in Redirect.Referral; Redirect.Layer is
--   src/client/layer/redirect.rs and src/client/layer/redirect/future.rs. A state holds the request
--   that the inner service was last given, and one function is one poll of the response future, with
--   the answers of the inner future and of a pending action as its arguments; Redirect.Hops has the
--   runs of polls. Header maps, URLs and bodies are interfaces of Redirect.Crates, with the laws of
--   insertion and removal that the http crate documents.
-- - Retry: src/retry.rs and src/client/layer/retry.rs with its two modules, as tower calls them.
-- - Tls: the session cache of src/tls/session.rs. The two maps are association lists, the LRU cache of
--   a key is an interface of Tls.Lru with a capacity that an insertion has to respect; Tls.Distinct
--   and Tls.Linked relate the two maps, Tls.SingleUse and Tls.Serving have histories of put and pop.
-- - Timeout: src/client/layer/timeout.rs and its two modules, and src/conn/timeout.rs in
--   Timeout.Connect. Timeout.Total, Timeout.Read and Timeout.Body have the bodies, Timeout.Response
--   the response future; a function is one poll at an instant. The timer is an interface: a sleep is
--   ready no earlier than its deadline, and when it is polled some slack after it. Timeout.Reading,
--   Timeout.Deadlines and Timeout.Covering have histories of polls.
-- - Config: src/config.rs over the extensions of a request, which are an interface.
-- - Multipart: src/client/multipart.rs. A data stream is the list of its items; sums of lengths wrap
--   at 2 ^ 64. Multipart.Headers has the headers of a part, Multipart.Boundary the boundary.
-- - Proxy: src/proxy/matcher.rs. Proxy.Env reads a setting, Proxy.Exempt and Proxy.Domains have the
--   list of hosts without a proxy, Proxy the builder and the choice. Addresses, networks and URIs are
--   parsed by an interface of Proxy.Crates; texts are trimmed of the white space of
--   Unicode in UTF-8.
-- - Tunnel: src/conn/proxy/tunnel.rs. The loop takes the results of its reads as a list and answers
--   none while it waits for more; Tunnel.Reading has the theorem about how the bytes are cut into
--   reads.
--
-- How they meet: the client layer asks the pool for a connection under the key that Group makes,
-- prepares the request for it and asks the cookie store for its cookies; the URI of a request selects
-- its cookies and the host that its connection is pooled under; the redirect layer stands outside the
-- layers that add cookies and take connections, and sends the request again for each hop; the retry
-- policy decides for one sending whether to repeat it; a request's own timeouts come from its
-- extensions through Config before those of the client.
--
-- The loops of the source over lists are recursions on these lists; the loop of polls of a response is
-- not run but stepped, so that a theorem about its runs holds for every answer of the servers. The
-- loops of send_request and connection_for and the polls of select and await take fuel: each turn
-- takes one. The source sets no bound on the turns of send_request either, which the connections
-- decide: HttpClient.Ending has what each turn was that was followed by another. A race that nothing
-- ends waits for ever in the source too, and its none means that it still waits. The checks that only
-- a debug build makes are left out.
--
-- Not modelled: sockets, TLS, DNS and runtimes, which are I/O; bodies and codecs, which are
-- third-party; the builder of src/client.rs and the handshakes of connections. Of the proxies, SOCKS
-- and what the platform says about them are left out; of the multipart forms, the reading of files; of
-- the pool, the task that calls clear_expired at each tick; of the cookies, the accessors of Cookie
-- and the get_all of Jar; of the retry policy, the setters of its builder.
pub mod Base
pub mod Config
pub mod Cookie
pub mod Group
pub mod Headers
pub mod HttpClient
pub mod Multipart
pub mod Pool
pub mod Proxy
pub mod Redirect
pub mod Retry
pub mod Timeout
pub mod Tls
pub mod Tunnel
pub mod Uri
