-- ===== src/Redirect/Crossing.antt =====
-- What the requests of a chain carry once it has left an origin, in src/client/layer/redirect/future.rs.
use wreq.Base.{
  ℕ, ◌≡◌, refl, ap, sym, subst, ◌∙◌, ◌⊎◌, inl, inr, Bool, true, false, ◌&&◌, none, some, List, [],
  ◌∷◌, ◌++◌, arith, any, if◌then◌else◌, Bool-cases,
}
use wreq.Base.Eq.{◌==◌, list_eq, list_beq, nat_eq, eq_iff}
use wreq.Uri.{Uri}
use wreq.Redirect.Crates.{HeaderMaps, Urls, Bodies, Request, HeaderName, referer}
use wreq.Redirect.{
  FollowRedirectPolicy, last, same_origin, Action, follow, stop, pending, error, decide, redirect,
  record_history,
}
use wreq.Redirect.Sensitive.{sensitive, crosses, on_request-get}
use wreq.Redirect.Layer.{Redirecting, Pending, rewrite, drop_payload_headers, send_again}
use wreq.Redirect.Hops.{Step, Run, start, step, idle, kept, followed, resolved, Step-Origin, asked}

abbrev pub last-snoc {ℓ} : {A : Type ℓ} (xs : List A) (x : A) → last (xs ++ (x ∷ [])) ≡ some x
last-snoc [] x = refl
last-snoc (y ∷ []) x = refl
last-snoc (y ∷ (z ∷ xs)) x = last-snoc (z ∷ xs) x

pub rewrite-some :
    (H : HeaderMaps) (status : ℕ) (req req' : Request H) (d : Bool)
    → rewrite H status req ≡ some (req', d)
    → ((d ≡ true) × (req'.uri ≡ req.uri) × (req'.headers ≡ drop_payload_headers H req.headers))
      ⊎ ((d ≡ false) × (req' ≡ req))
unfolding rewrite
rewrite-some H status req req' d h = ground arith

drop_payload_headers-none :
    (H : HeaderMaps) (m : H.Map) (k : HeaderName)
    → H.get k m ≡ none
    → H.get k (drop_payload_headers H m) ≡ none
unfolding drop_payload_headers
drop_payload_headers-none H m k h =
    rw (H.get-remove, H.get-remove, H.get-remove, H.get-remove, h) (ground arith)

pub rewrite-keeps :
    (H : HeaderMaps) (status : ℕ) (req req' : Request H) (d : Bool) (k : HeaderName)
    → rewrite H status req ≡ some (req', d)
    → H.get k req.headers ≡ none
    → (req'.uri ≡ req.uri) × (H.get k req'.headers ≡ none)
rewrite-keeps H status req req' d k h absent = elim (rewrite-some H status req req' d h) [
  | inl (_, same, headers) ↦
      (same, ap (H.get k) headers ∙ drop_payload_headers-none H req.headers k absent)
  | inr (_, same) ↦ (ap (λ r. r.uri) same, ap (λ r. H.get k r.headers) same ∙ absent)
]

module _ (H : HeaderMaps) (U : Urls) (E : Type 0) where
  decide-state :
      (q : FollowRedirectPolicy H U E) (status : ℕ) (headers : H.Map) (next previous : Uri)
      (a : Action E)
      → ((decide H U E q status headers next previous a).0.uris ≡ q.uris)
        × ((decide H U E q status headers next previous a).0.https_only ≡ q.https_only)
        × ((decide H U E q status headers next previous a).0.policy ≡ q.policy)
  unfolding decide record_history
  decide-state q status headers next previous (error e) = (refl, refl, refl)
  decide-state q status headers next previous stop = (refl, refl, refl)
  decide-state q status headers next previous pending = (refl, refl, refl)
  decide-state q status headers next previous follow = ground arith

  pub redirect-state :
      (p : FollowRedirectPolicy H U E) (status : ℕ) (headers : H.Map) (next previous : Uri)
      → ((redirect H U E p status headers next previous).0.uris ≡ p.uris ++ (previous ∷ []))
        × ((redirect H U E p status headers next previous).0.https_only ≡ p.https_only)
        × ((redirect H U E p status headers next previous).0.policy ≡ p.policy)
  unfolding redirect
  redirect-state p status headers next previous = decide-state _ status headers next previous _

pub not_referer : (k : HeaderName) → any (λ n. n == k) sensitive ≡ true → (referer == k) ≡ false
unfolding any list_beq
not_referer k h = elim (Bool-cases (referer == k)) [
  | inr n ↦ n
  | inl e ↦
      let at : any (λ n. n == referer) sensitive ≡ true =
        subst (λ j. any (λ n. n == j) sensitive ≡ true) (sym ((eq_iff referer k).0 e)) h in
      cc
]

module _ {H : HeaderMaps} {U : Urls} {B : Bodies} {E S : Type 0} where
  -- A pending action is for a redirect of the request's URI.
  abbrev pub IsTracked : Redirecting H U B E S → Type 0
  IsTracked s =
      (p : Pending H U B E S) → s.pending_future ≡ some p → last s.policy.uris ≡ some s.request.uri

  abbrev pub IsAbsent : HeaderName → Redirecting H U B E S → Type 0
  IsAbsent k s = (H.get k s.sent.0.headers ≡ none) × (H.get k s.request.headers ≡ none)

  pub send_again-get :
      (s : Redirecting H U B E S) (b : B.Body) (loc : Uri) (k : HeaderName)
      → (referer == k) ≡ false
      → ((send_again H U B E S s b loc).sent.0 ≡ (send_again H U B E S s b loc).request)
        × ((send_again H U B E S s b loc).request.uri ≡ loc)
        × ((send_again H U B E S s b loc).pending_future ≡ s.pending_future)
        × (H.get k (send_again H U B E S s b loc).request.headers ≡ (
            if crosses s.policy.uris loc && any (λ n. n == k) sensitive
            then none
            else H.get k s.request.headers))
  unfolding send_again
  send_again-get s b loc k n =
      let (to, _, got) = on_request-get H U E s.policy (record s.request { uri = loc }) k n in
      (refl, to, refl, got)

  send_again-IsAbsent :
      (s : Redirecting H U B E S) (b : B.Body) (loc : Uri) (k : HeaderName)
      → (referer == k) ≡ false
      → H.get k s.request.headers ≡ none
      → IsAbsent k (send_again H U B E S s b loc)
  send_again-IsAbsent s b loc k n absent =
      let (sent, _, _, got) = send_again-get s b loc k n in
      let gone : H.get k (send_again H U B E S s b loc).request.headers ≡ none = ground arith in
      (ap (λ r. H.get k r.headers) sent ∙ gone, gone)

  pub send_again-crosses :
      (s : Redirecting H U B E S) (b : B.Body) (loc previous : Uri) (k : HeaderName)
      → last s.policy.uris ≡ some previous
      → any (λ n. n == k) sensitive ≡ true
      → same_origin (send_again H U B E S s b loc).request.uri previous ≡ false
      → IsAbsent k (send_again H U B E S s b loc)
  unfolding crosses
  send_again-crosses s b loc previous k at found other =
      let (sent, to, _, got) = send_again-get s b loc k (not_referer k found) in
      let other' : same_origin loc previous ≡ false =
        ap (λ u. same_origin u previous) (sym to) ∙ other in
      let gone : H.get k (send_again H U B E S s b loc).request.headers ≡ none =
        got ∙ rw (at, other', found) in
      (ap (λ r. H.get k r.headers) sent ∙ gone, gone)

  Step-IsAbsent :
      {s t : Redirecting H U B E S} (k : HeaderName)
      → (referer == k) ≡ false
      → Step s t
      → IsAbsent k s
      → IsAbsent k t
  Step-IsAbsent {s} {t} k n st (sent, held) = elim (Step-Origin st) [
    | idle e ↦ rw e (sent, held)
    | kept h free a e ↦
        let (_, gone) =
          rewrite-keeps H h.res.status s.request h.req h.drops_body k h.rewritten held in
        rw e (sent, gone)
    | followed h free a e ↦
        let (_, gone) =
          rewrite-keeps H h.res.status s.request h.req h.drops_body k h.rewritten held in
        rw e (send_again-IsAbsent (asked s h) h.b h.loc k n gone)
    | resolved p q e ↦
        rw e (send_again-IsAbsent (record s { pending_future = none }) p.body p.location k n held)
  ]

  pub run-IsAbsent :
      {s t : Redirecting H U B E S} (k : HeaderName)
      → (referer == k) ≡ false
      → Run s t
      → IsAbsent k s
      → IsAbsent k t
  run-IsAbsent k n start a = a
  run-IsAbsent k n (step r st) a = Step-IsAbsent k n st (run-IsAbsent k n r a)
