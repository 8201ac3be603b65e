-- ===== src/Redirect/Tests.antt =====
-- A chain of redirects over header maps that are association lists, and instances of the theorems
-- about redirects. A URL is its text.
use wreq.Base.{
  ℕ, ◌≤◌, ◌≡◌, ◌≢◌, refl, ◌⊎◌, Bool, true, false, ◌&&◌, ◌||◌, not, none, some, List, [], ◌∷◌, any,
  if◌then◌else◌,
}
use wreq.Base.Eq.{◌==◌, nat_eq, list_eq, option_eq, list_beq}
use wreq.Base.Map
use wreq.Base.Map.{get-insert, get-remove}
use wreq.Base.Text.{Text, codes, eq_ignore_ascii_case, to_ascii_lowercase}
use wreq.Uri.{Uri, http, https, scheme_eq, is_http, is_https, port_or_default}
use wreq.Redirect.Crates.{
  HeaderMaps, Urls, Bodies, get, post, Request, HeaderName, authorization, content_type, location,
}
use wreq.Redirect.Referral.{
  Referrer, apply, strict_origin_when_cross_origin, url_same_origin, strip_to_origin_url,
}
use wreq.Redirect.{
  ok, follow, FollowRedirectPolicy, limit, same_origin, redirect, decide, check, record_history,
  for_request, on_request, remove_sensitive_headers,
}
use wreq.Redirect.Sensitive.{sensitive, crosses, on_request-get}
use wreq.Redirect.Layer.{
  body, blank, Redirecting, Response, waiting, ready, take, try_clone_from, into_uri, resolve_uri,
  rewrite, drop_payload_headers, call, send_again, handle_action, on_response, act, find_location,
  attempt, after_rewrite, poll_pending, poll_response, poll,
}
use wreq.Redirect.Hops.{Step, polls, Run}
use wreq.Redirect.Leaving.{run_crosses}
use wreq.Redirect.Limits.{Sends, after, redirect_follows, sends_within_limit}
use wreq.Redirect.Limits
use wreq.Redirect.Disclosing.{Tells, apply_by_default}

abbrev maps : HeaderMaps
maps = record {
  Map = List (HeaderName × (Text × Bool));
  Value = Text × Bool;
  get = Map.get;
  get_all = λ k m. elim (Map.get k m) [ none ↦ [] | some v ↦ v ∷ [] ];
  insert = Map.insert;
  remove = Map.remove;
  as_bytes = λ v. v.0;
  to_str = λ v. some v.0;
  try_from = λ t. some (t, false);
  is_sensitive = λ v. v.1;
  set_sensitive = λ b v. (v.0, b);
  get-insert = get-insert;
  get-remove = get-remove;
}

abbrev here : Uri
here = record {
  scheme = some https;
  host = some (codes "a.example");
  port = none;
  path = codes "/";
}

abbrev there : Uri
there = record {
  scheme = some https;
  host = some (codes "b.example");
  port = none;
  path = codes "/";
}

abbrev urls : Urls
urls = record {
  Url = Text;
  parse = λ t. some t;
  join = λ base t. some t;
  as_str = λ t. t;
  scheme = λ t. codes "https";
  host_str = λ t. some t;
  port_or_known_default = λ t. some 443;
  clear_username = λ t. some t;
  clear_password = λ t. some t;
  clear_path = λ t. t;
  clear_query = λ t. t;
  clear_fragment = λ t. t;
  parse_scheme = λ t. some https;
  parse_uri = λ t. if t == codes "b" then some there else some here;
  show_uri = λ u. [];
  is_utf8 = λ t. true;
}

-- A body is its size.
abbrev bodies : Bodies
bodies = record { Body = ℕ; default = 0; exact_size = λ n. some n; try_clone = λ n. some n }

abbrev value : Text → Text × Bool
value t = (t, false)

abbrev request : Request maps
request = record {
  method = post;
  uri = here;
  headers = (authorization, value (codes "secret")) ∷ (content_type, value (codes "text")) ∷ [];
}

abbrev client : FollowRedirectPolicy maps urls ℕ
client = record { policy = limit 1; referrer = none; uris = []; https_only = true; history = none }

abbrev redirection : Response maps
redirection = record {
  status = 302;
  headers = (location, value (codes "b")) ∷ [];
  request_uri = none;
  history = none;
}

-- All that a chain computes with.
chain : Unit {0}
unfolding Map.get Map.insert Map.remove list_beq any same_origin eq_ignore_ascii_case
    to_ascii_lowercase is_http is_https port_or_default redirect decide check record_history
    for_request on_request remove_sensitive_headers take try_clone_from into_uri resolve_uri rewrite
    drop_payload_headers call send_again handle_action on_response act find_location attempt
    after_rewrite poll_pending poll_response poll apply crosses
chain = tt

abbrev first : Redirecting maps urls bodies ℕ ℕ
first = record {
  sent = (request, 5);
  pending_future = none;
  policy = client;
  request = request;
  body_repr = body 5;
}

called : call maps urls bodies ℕ ℕ client none request 5 ≡ (client, some first)
unfolding chain
called = refl

abbrev redirected_request : Request maps
redirected_request = record { method = get; uri = there; headers = [] }

abbrev second : Redirecting maps urls bodies ℕ ℕ
second = record {
  sent = (redirected_request, 0);
  pending_future = none;
  policy = record client {
    uris = here ∷ [];
    history =
        some (
          record { status = 302; uri = there; previous = here; headers = redirection.headers }
          ∷ []);
  };
  request = redirected_request;
  body_repr = blank;
}

hop : Step first second
hop = polls waiting (ready (ok redirection)) (λ e. cc) (unfold chain in refl)

run_crosses_example : maps.get authorization redirected_request.headers ≡ none
run_crosses_example =
    run_crosses client client none request 5 first first second second authorization called
      Run.start hop Run.start (unfold chain in refl) (unfold chain in refl)

second-ne : second ≢ first
second-ne e = cc

sends_within_limit_example : 1 ≤ 1
sends_within_limit_example =
    sends_within_limit client client none request 5 first second 1 1 refl called refl
      (Limits.sends Limits.start hop second-ne)

on_request-get_example :
    ((on_request maps urls ℕ second.policy (record request { uri = there })).1.uri ≡ there)
    × ((on_request maps urls ℕ second.policy (record request { uri = there })).1.method ≡ post)
    × (maps.get authorization
          (on_request maps urls ℕ second.policy (record request { uri = there })).1.headers
        ≡ (if crosses (here ∷ []) there && any (λ n. n == authorization) sensitive
            then none
            else maps.get authorization request.headers))
on_request-get_example =
    on_request-get maps urls ℕ second.policy (record request { uri = there }) authorization
      (unfold chain in refl)

abbrev plain_uri : Uri
plain_uri = record {
  scheme = some http;
  host = some (codes "b.example");
  port = none;
  path = codes "/";
}

redirect_follows_example :
    ((redirect maps urls ℕ client 302 [] plain_uri here).0.history
      ≡ after maps urls ℕ client
          (record { status = 302; uri = plain_uri; previous = here; headers = [] })
          (redirect maps urls ℕ client 302 [] plain_uri here).1)
    × (((redirect maps urls ℕ client 302 [] plain_uri here).1 ≢ ok follow)
        ⊎ (((is_http plain_uri || is_https plain_uri) ≡ true)
            × ((not client.https_only || is_https plain_uri) ≡ true)))
redirect_follows_example = redirect_follows maps urls ℕ client 302 [] plain_uri here refl

abbrev carried : Referrer urls
carried = record {
  source = some (codes "https://a.example/x");
  policy = strict_origin_when_cross_origin;
}

apply_by_default_example :
    Tells maps urls none request (apply maps urls carried request)
    ⊎ (((url_same_origin urls (codes "https://a.example/x") https here ≡ true)
          × Tells maps urls
              (some (codes "https://a.example/x"))
              request
              (apply maps urls carried request))
        ⊎ ((url_same_origin urls (codes "https://a.example/x") https here ≡ false)
            × ((https == https && (here.scheme == some http)) ≡ false)
            × Tells maps urls
                (some (strip_to_origin_url urls (codes "https://a.example/x")))
                request
                (apply maps urls carried request)))
apply_by_default_example =
    apply_by_default maps urls carried request (codes "https://a.example/x") https refl refl refl
