-- ===== src/Redirect/Layer.antt =====
-- The layer of src/client/layer/redirect.rs that sends a request again where its response redirects.
-- The inner service is outside: a state holds the last request that was given to it, and a poll takes
-- what its future, or the future of a pending action, answers.
use wreq.Base.{ℕ, Bool, true, false, ◌&&◌, ◌||◌, not, Option, none, some, List, if◌then◌else◌}
use wreq.Base.Eq.{◌==◌, nat_eq, option_eq}
use wreq.Base.Maybe.{◌>>=◌, ◌>>◌, guard}
use wreq.Base.Text.{Text}
pub use wreq.Base.Results.{Poll, waiting, ready}
use wreq.Base.{is_some}
use wreq.Uri.{Uri}
use wreq.Redirect.Crates.{
  HeaderMaps, Urls, Bodies, Method, get, head, post, Request, content_type, content_length,
  content_encoding, transfer_encoding, location,
}
use wreq.Redirect.{
  Result, ok, err, Error, Cause, Action, follow, stop, pending, error, HistoryEntry,
  FollowRedirectPolicy, Policy, redirect, for_request, on_request,
}

pub data BodyRepr (Body : Type 0) : Type 0 where
  body : Body → BodyRepr Body
  blank : BodyRepr Body
  nothing : BodyRepr Body

abbrev pub is_post : Method → Bool
is_post post = true
is_post _ = false

abbrev pub is_head : Method → Bool
is_head head = true
is_head _ = false

-- An `Err` of an inner future, or one of the redirect policy.
pub data Failure (E S : Type 0) : Type 0 where
  service : S → Failure E S
  policy : Error E → Failure E S
  cause : Cause E → Failure E S

pub record Response (H : HeaderMaps) : Type 0 where
  pub status : ℕ
  pub headers : H.Map
  pub request_uri : Option Uri
  pub history : Option (List (HistoryEntry H))

module _ (B : Bodies) where
  unfoldable pub take : BodyRepr B.Body → BodyRepr B.Body × Option B.Body
  take (body b) = (nothing, some b)
  take blank = (blank, some B.default)
  take nothing = (nothing, none)

  unfoldable pub try_clone_from : BodyRepr B.Body → B.Body → BodyRepr B.Body
  try_clone_from (body b) source = body b
  try_clone_from blank source = blank
  try_clone_from nothing source =
      if B.exact_size source == some 0
      then body B.default
      else elim (B.try_clone source) [ some cloned ↦ body cloned | none ↦ nothing ]

-- `into_uri` of src/into_uri.rs, on bytes. A URI has an authority where it has a host.
unfoldable pub into_uri : Urls → Text → Option Uri
into_uri U s = do
  uri ← elim (U.parse_uri s) [
    | some u ↦ some u
    | none ↦ (guard (U.is_utf8 s) >> U.parse s) >>= λ u. U.parse_uri (U.as_str u)
  ]
  guard (is_some uri.scheme && is_some uri.host)
  some uri

unfoldable pub resolve_uri : Urls → Text → Uri → Option Uri
resolve_uri U relative base = do
  b ← U.parse (U.show_uri base)
  joined ← U.join b relative
  into_uri U (U.as_str joined)

unfoldable pub drop_payload_headers : (H : HeaderMaps) → H.Map → H.Map
drop_payload_headers H headers =
    H.remove transfer_encoding
      (H.remove content_encoding (H.remove content_length (H.remove content_type headers)))

-- What a response's status makes of the request: none where the status is no redirect.
unfoldable pub rewrite : (H : HeaderMaps) → ℕ → Request H → Option (Request H × Bool)
rewrite H status req =
    if status == 301 || status == 302
    then (if is_post req.method
        then some (record req { method = get; headers = drop_payload_headers H req.headers }, true)
        else some (req, false))
    else if status == 303
    then some (
      record req {
        method = if not (is_head req.method) then get else req.method;
        headers = drop_payload_headers H req.headers;
      },
      true,
    )
    else if status == 307 || status == 308
    then some (req, false)
    else none

module _ (H : HeaderMaps) (U : Urls) (B : Bodies) (E S : Type 0) where
  pub record Pending : Type 0 where
    pub location : Uri
    pub body : B.Body
    pub res : Response H

  -- `ResponseFuture::Redirect`, with the request and body that the inner service was last given.
  pub record Redirecting : Type 0 where
    pub sent : Request H × B.Body
    pub pending_future : Option Pending
    pub policy : FollowRedirectPolicy H U E
    pub request : Request H
    pub body_repr : BodyRepr B.Body

  -- `FollowRedirect::call`; `none` is `ResponseFuture::Direct`. The first policy is the client's
  -- after the call.
  unfoldable pub call :
      FollowRedirectPolicy H U E
      → Option (Policy H E)
      → Request H
      → B.Body
      → FollowRedirectPolicy H U E × Option Redirecting
  call client own req b =
      let (client', for_it) = for_request H U E client own req in
      elim for_it [
        | none ↦ (client', none)
        | some p ↦
            let (p', sent) = on_request H U E p req in
            (
              client',
              some (record {
                sent = (sent, b);
                pending_future = none;
                policy = p';
                request = sent;
                body_repr = try_clone_from B nothing b;
              }),
            )
      ]

  -- `handle_action` for `Action::Follow`.
  unfoldable pub send_again : Redirecting → B.Body → Uri → Redirecting
  send_again s b next =
      let (p', sent) = on_request H U E s.policy (record s.request { uri = next }) in
      record s {
        sent = (sent, b);
        policy = p';
        request = sent;
        body_repr = try_clone_from B s.body_repr b;
      }

  -- `handle_action`; a pending action does not come out of a pending one.
  unfoldable pub handle_action :
      Redirecting
      → Action E
      → B.Body
      → Response H
      → Uri
      → Redirecting × Poll (Result (Failure E S) (Response H))
  handle_action s follow b res next = (send_again s b next, waiting)
  handle_action s stop b res next = (s, ready (ok res))
  handle_action s (error e) b res next = (s, ready (err (cause e)))
  handle_action s pending b res next = (s, waiting)

  -- The end of a response that is not a redirect: it takes the history.
  unfoldable pub on_response : Redirecting → Response H → Redirecting × Response H
  on_response s res = elim s.policy.history [
    | none ↦ (s, res)
    | some h ↦
        (record s { policy = record s.policy { history = none } }, record res { history = some h })
  ]

  -- What `policy.redirect` answers, for the redirect to `loc`.
  unfoldable pub act :
      Redirecting
      → B.Body
      → Response H
      → Uri
      → Result (Error E) (Action E)
      → Redirecting × Poll (Result (Failure E S) (Response H))
  act s b res loc (err e) = (s, ready (err (policy e)))
  act s b res loc (ok pending) =
      (record s { pending_future = some (record { location = loc; body = b; res = res }) }, waiting)
  act s b res loc (ok follow) = handle_action s follow b res loc
  act s b res loc (ok stop) = handle_action s stop b res loc
  act s b res loc (ok (error c)) = handle_action s (error c) b res loc

  unfoldable pub find_location : Redirecting → Response H → Option Uri
  find_location s res = do
    loc ← H.get location res.headers
    guard (U.is_utf8 (H.as_bytes loc))
    resolve_uri U (H.as_bytes loc) s.request.uri

  -- A redirect, with the body to send again and the target.
  unfoldable pub attempt :
      Redirecting
      → Response H
      → Option B.Body
      → Option Uri
      → Redirecting × Poll (Result (Failure E S) (Response H))
  attempt s res none next = (s, ready (ok res))
  attempt s res (some b) none = (s, ready (ok res))
  attempt s res (some b) (some loc) =
      let (p, answer) = redirect H U E s.policy res.status res.headers loc s.request.uri in
      act (record s { policy = p }) b res loc answer

  -- A response, with what its status makes of the request.
  unfoldable pub after_rewrite :
      Redirecting
      → Response H
      → Option (Request H × Bool)
      → Redirecting × Poll (Result (Failure E S) (Response H))
  after_rewrite s res none = let (s', res') = on_response s res in (s', ready (ok res'))
  after_rewrite s res (some (req, drops_body)) =
      let (repr, given) = take B (if drops_body then blank else s.body_repr) in
      let s' = record s { request = req; body_repr = repr } in
      attempt s' res given (find_location s' res)

  -- A poll where an action is pending, with the answer of its future.
  unfoldable pub poll_pending :
      Redirecting
      → Pending
      → Poll (Action E)
      → Redirecting × Poll (Result (Failure E S) (Response H))
  poll_pending s p waiting = (s, waiting)
  poll_pending s p (ready action) =
      handle_action (record s { pending_future = none }) action p.body p.res p.location

  -- A poll where none is, with the answer of the inner future.
  unfoldable pub poll_response :
      Redirecting
      → Poll (Result S (Response H))
      → Redirecting × Poll (Result (Failure E S) (Response H))
  poll_response s waiting = (s, waiting)
  poll_response s (ready (err e)) = (s, ready (err (service e)))
  poll_response s (ready (ok answer)) =
      let res = record answer { request_uri = some s.request.uri } in
      after_rewrite s res (rewrite H res.status s.request)

  -- `ResponseFuture::poll`; only one of the two futures is polled.
  unfoldable pub poll :
      Redirecting
      → Poll (Action E)
      → Poll (Result S (Response H))
      → Redirecting × Poll (Result (Failure E S) (Response H))
  poll s action answer = elim s.pending_future [
    | some p ↦ poll_pending s p action
    | none ↦ poll_response s answer
  ]
