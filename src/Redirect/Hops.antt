-- ===== src/Redirect/Hops.antt =====
-- The steps of a redirected request: the polls of src/client/layer/redirect/future.rs that leave the
-- future waiting, by what they come from.
use wreq.Base.{
  ◌≡◌, ◌≢◌, refl, ap, sym, ◌⊎◌, inl, inr, Bool, Option, none, some, if◌then◌else◌, Option-cases,
}
use wreq.Uri.{Uri}
use wreq.Redirect.Crates.{HeaderMaps, Urls, Bodies, Request}
use wreq.Redirect.{
  Result, ok, err, Error, Action, follow, stop, pending, error, FollowRedirectPolicy, redirect,
}
use wreq.Redirect.Layer.{
  Redirecting, Pending, Response, Poll, waiting, ready, blank, take, rewrite, act, attempt,
  after_rewrite, find_location, handle_action, send_again, poll_pending, poll_response, poll,
}

module _ {H : HeaderMaps} {U : Urls} {B : Bodies} {E S : Type 0} where
  -- A step of the future that does not end it.
  pub data Step (s t : Redirecting H U B E S) : Type 0 where
    polls :
        (a : Poll (Action E)) (r : Poll (Result S (Response H)))
        → a ≢ ready pending
        → poll H U B E S s a r ≡ (t, waiting)
        → Step s t

  pub data Run (s : Redirecting H U B E S) : Redirecting H U B E S → Type 0 where
    start : Run s s
    step : {t u : Redirecting H U B E S} → Run s t → Step t u → Run s u

  -- A redirecting response: the request as the status rewrites it, the body to send, the target.
  pub record Hop (s : Redirecting H U B E S) : Type 0 where
    pub res : Response H
    pub req : Request H
    pub drops_body : Bool
    pub b : B.Body
    pub loc : Uri
    pub rewritten : rewrite H res.status s.request ≡ some (req, drops_body)
    pub given : (take B (if drops_body then blank else s.body_repr)).1 ≡ some b

  -- The state in which the redirect policy is asked, and after it.
  abbrev pub asking : (s : Redirecting H U B E S) → Hop s → Redirecting H U B E S
  asking s h = record s {
    request = h.req;
    body_repr = (take B (if h.drops_body then blank else s.body_repr)).0;
  }

  abbrev pub answer :
      (s : Redirecting H U B E S) → Hop s → FollowRedirectPolicy H U E × Result (Error E) (Action E)
  answer s h = redirect H U E s.policy h.res.status h.res.headers h.loc h.req.uri

  abbrev pub asked : (s : Redirecting H U B E S) → Hop s → Redirecting H U B E S
  asked s h = record (asking s h) { policy = (answer s h).0 }

  -- What a waiting state comes from.
  pub data Origin (s t : Redirecting H U B E S) : Type 0 where
    idle : t ≡ s → Origin s t
    kept :
        (h : Hop s)
        → s.pending_future ≡ none
        → (answer s h).1 ≡ ok pending
        → t ≡ record (asked s h) {
          pending_future = some (record { location = h.loc; body = h.b; res = h.res });
        }
        → Origin s t
    followed :
        (h : Hop s)
        → s.pending_future ≡ none
        → (answer s h).1 ≡ ok follow
        → t ≡ send_again H U B E S (asked s h) h.b h.loc
        → Origin s t
    resolved :
        (p : Pending H U B E S)
        → s.pending_future ≡ some p
        → t ≡ send_again H U B E S (record s { pending_future = none }) p.body p.location
        → Origin s t

  act-waiting :
      (s : Redirecting H U B E S) (b : B.Body) (res : Response H) (loc : Uri)
      (a : Result (Error E) (Action E)) (t : Redirecting H U B E S)
      → act H U B E S s b res loc a ≡ (t, waiting)
      → ((a ≡ ok pending)
          × (t ≡ record s {
            pending_future = some (record { location = loc; body = b; res = res });
          }))
        ⊎ ((a ≡ ok follow) × (t ≡ send_again H U B E S s b loc))
  unfolding act handle_action
  act-waiting s b res loc (err e) t h = cc
  act-waiting s b res loc (ok pending) t h = inl (refl, sym (ap (λ x. x.0) h))
  act-waiting s b res loc (ok follow) t h = inr (refl, sym (ap (λ x. x.0) h))
  act-waiting s b res loc (ok stop) t h = cc
  act-waiting s b res loc (ok (error c)) t h = cc

  attempt-waiting :
      (s : Redirecting H U B E S) (res : Response H) (b : Option B.Body) (loc : Option Uri)
      (t : Redirecting H U B E S)
      → attempt H U B E S s res b loc ≡ (t, waiting)
      → (c : B.Body) × (u : Uri) × (b ≡ some c)
        × (act H U B E S
              (record s {
                policy = (redirect H U E s.policy res.status res.headers u s.request.uri).0;
              })
              c
              res
              u
              (redirect H U E s.policy res.status res.headers u s.request.uri).1
            ≡ (t, waiting))
  unfolding attempt
  attempt-waiting s res none loc t h = cc
  attempt-waiting s res (some b) none t h = cc
  attempt-waiting s res (some b) (some loc) t h = (b, loc, refl, h)

  after_rewrite-waiting :
      (s : Redirecting H U B E S) (res : Response H) (o : Option (Request H × Bool))
      (t : Redirecting H U B E S)
      → s.pending_future ≡ none
      → rewrite H res.status s.request ≡ o
      → after_rewrite H U B E S s res o ≡ (t, waiting)
      → Origin s t
  unfolding after_rewrite
  after_rewrite-waiting s res none t free e h = cc
  after_rewrite-waiting s res (some (req, d)) t free e h =
      let asking = record s {
        request = req;
        body_repr = (take B (if d then blank else s.body_repr)).0;
      } in
      let (c, u, given, acted) =
        attempt-waiting asking res (take B (if d then blank else s.body_repr)).1
          (find_location H U B E S asking res) t h in
      let hop : Hop s = record {
        res = res;
        req = req;
        drops_body = d;
        b = c;
        loc = u;
        rewritten = e;
        given = given;
      } in
      elim (act-waiting (asked s hop) c res u (answer s hop).1 t acted) [
        | inl (a, same) ↦ kept hop free a same
        | inr (a, same) ↦ followed hop free a same
      ]

  handle_action-waiting :
      (s : Redirecting H U B E S) (a : Action E) (b : B.Body) (res : Response H) (loc : Uri)
      (t : Redirecting H U B E S)
      → a ≢ pending
      → handle_action H U B E S s a b res loc ≡ (t, waiting)
      → t ≡ send_again H U B E S s b loc
  unfolding handle_action
  handle_action-waiting s follow b res loc t n h = sym (ap (λ x. x.0) h)
  handle_action-waiting s stop b res loc t n h = cc
  handle_action-waiting s pending b res loc t n h = elim (n refl) [ ]
  handle_action-waiting s (error c) b res loc t n h = cc

  poll_response-waiting :
      (s : Redirecting H U B E S) (r : Poll (Result S (Response H))) (t : Redirecting H U B E S)
      → s.pending_future ≡ none
      → poll_response H U B E S s r ≡ (t, waiting)
      → Origin s t
  unfolding poll_response
  poll_response-waiting s waiting t free h = idle (sym (ap (λ x. x.0) h))
  poll_response-waiting s (ready (err e)) t free h = cc
  poll_response-waiting s (ready (ok r)) t free h =
      after_rewrite-waiting s (record r { request_uri = some s.request.uri }) _ t free refl h

  poll_pending-waiting :
      (s : Redirecting H U B E S) (p : Pending H U B E S) (a : Poll (Action E))
      (t : Redirecting H U B E S)
      → s.pending_future ≡ some p
      → a ≢ ready pending
      → poll_pending H U B E S s p a ≡ (t, waiting)
      → Origin s t
  unfolding poll_pending
  poll_pending-waiting s p waiting t e n h = idle (sym (ap (λ x. x.0) h))
  poll_pending-waiting s p (ready a) t e n h = resolved p e (
      handle_action-waiting (record s { pending_future = none }) a p.body p.res p.location t
        (λ q. n (ap (λ b. ready b) q)) h)

  pub Step-Origin : {s t : Redirecting H U B E S} → Step s t → Origin s t
  unfolding poll
  Step-Origin {s} {t} (polls a r n h) = elim (Option-cases s.pending_future) [
    | inl free ↦ poll_response-waiting s r t free (rw (free, poll) at h)
    | inr (p, e) ↦ poll_pending-waiting s p a t e n (rw (e, poll) at h)
  ]
