-- ===== src/Redirect/Recording.antt =====
-- The history that src/redirect.rs records along the chains of src/client/layer/redirect/future.rs.
use wreq.Base.{
  ℕ, ◌≡◌, refl, ap, sym, ◌∙◌, false, Option, none, some, List, [], ◌∷◌, ◌++◌, map, arith, length,
}
use wreq.Base.Maybe.{unwrap_or}
use wreq.Uri.{Uri}
use wreq.Redirect.Crates.{HeaderMaps, Urls, Bodies, Request}
use wreq.Redirect.{
  ok, follow, FollowRedirectPolicy, Policy, limit, is_none_policy, HistoryEntry, on_request,
  for_request,
}
use wreq.Redirect.Crossing.{redirect-state}
use wreq.Redirect.Layer.{Redirecting, send_again, call}
use wreq.Redirect.Hops.{Step, idle, kept, followed, resolved, Step-Origin, Hop, asked, answer}
use wreq.Redirect.Limits.{
  after, redirect_follows, redirect-limit, Sends, start, waits, sends, IsLimited, sends-IsLimited,
  call-uris,
}

map-append {ℓ κ} :
    {A : Type ℓ} {B : Type κ} (f : A → B) (xs ys : List A) → map f (xs ++ ys) ≡ map f xs ++ map f ys
map-append f [] ys = refl
map-append f (x ∷ xs) ys = ap (◌∷◌ (f x)) (map-append f xs ys)

module _ {H : HeaderMaps} {U : Urls} {B : Bodies} {E S : Type 0} where
  -- The URIs from which the history says that the request was redirected.
  abbrev pub left : Redirecting H U B E S → List Uri
  left s = map (λ e. e.previous) (unwrap_or [] s.policy.history)

  send_again-history :
      (s : Redirecting H U B E S) (b : B.Body) (loc : Uri)
      → ((send_again H U B E S s b loc).policy.history ≡ s.policy.history)
        × ((send_again H U B E S s b loc).policy.uris ≡ s.policy.uris)
  unfolding send_again on_request
  send_again-history s b loc = ground arith

  follow-history :
      (s : Redirecting H U B E S) (h : Hop s) (max : ℕ)
      → s.policy.policy ≡ limit max
      → (answer s h).1 ≡ ok follow
      → left (send_again H U B E S (asked s h) h.b h.loc) ≡ left s ++ (h.req.uri ∷ [])
  follow-history s h max policy a =
      let some_policy : is_none_policy s.policy.policy ≡ false = ap is_none_policy policy in
      let (recorded, _) =
        redirect_follows H U E s.policy h.res.status h.res.headers h.loc h.req.uri some_policy in
      let (same, _) = send_again-history (asked s h) h.b h.loc in
      let entry : HistoryEntry H = record {
        status = h.res.status;
        uri = h.loc;
        previous = h.req.uri;
        headers = h.res.headers;
      } in
      ap (λ o. map (λ e. e.previous) (unwrap_or [] o))
        (same ∙ recorded ∙ ap (after H U E s.policy entry) a)
      ∙ map-append (λ e. e.previous) (unwrap_or [] s.policy.history) (entry ∷ [])

  Step-left :
      (max n : ℕ) (s t : Redirecting H U B E S)
      → IsLimited max n s
      → Step s t
      → left s ≡ s.policy.uris
      → left t ≡ t.policy.uris
  Step-left max n s t (policy, free, _, _) st same = elim (Step-Origin st) [
    | idle e ↦ rw e same
    | kept h _ a e ↦
        elim (redirect-limit H U E s.policy h.res.status h.res.headers h.loc h.req.uri max policy
          a) [ ]
    | followed h _ a e ↦
        let (uris, _, _) =
          redirect-state H U E s.policy h.res.status h.res.headers h.loc h.req.uri in
        let (_, uris') = send_again-history (asked s h) h.b h.loc in
        rw e (
          follow-history s h max policy a
          ∙ ap (λ l. l ++ (h.req.uri ∷ [])) same
          ∙ sym (uris' ∙ uris))
    | resolved p q e ↦ cc (free, q)
  ]

  sends-left :
      (max : ℕ) (s : Redirecting H U B E S)
      → IsLimited max 0 s
      → left s ≡ s.policy.uris
      → (n : ℕ) (t : Redirecting H U B E S) → Sends s n t
      → left t ≡ t.policy.uris
  sends-left max s l e n t start = e
  sends-left max s l e n t (waits {t = m} r st _) =
      Step-left max n m t (sends-IsLimited max s l n m r) st (sends-left max s l e n m r)
  sends-left max s l e n t (sends {n = k} {t = m} r st _) =
      Step-left max k m t (sends-IsLimited max s l k m r) st (sends-left max s l e k m r)

  call-history :
      (client client' : FollowRedirectPolicy H U E) (own : Option (Policy H E)) (req : Request H)
      (b : B.Body) (first : Redirecting H U B E S)
      → call H U B E S client own req b ≡ (client', some first)
      → first.policy.history ≡ client.history
  unfolding call for_request on_request
  call-history client client' own req b first h = ground arith

  -- Where the client's policy has followed and recorded nothing itself, and the request is under a
  -- limit, the history has one entry for each time that the request has been sent again, and its
  -- entries name as the previous URIs those that were left, in order.
  sends-history :
      (client client' : FollowRedirectPolicy H U E) (own : Option (Policy H E)) (req : Request H)
      (b : B.Body) (first t : Redirecting H U B E S) (max n : ℕ)
      → client.uris ≡ []
      → client.history ≡ none
      → call H U B E S client own req b ≡ (client', some first)
      → first.policy.policy ≡ limit max
      → Sends first n t
      → (length (left t) ≡ n) × (left t ≡ t.policy.uris)
  sends-history client client' own req b first t max n fresh unrecorded called policy r =
      let (uris, free) = call-uris client client' own req b first called in
      let l : IsLimited max 0 first = (policy, free, ap length (uris ∙ fresh), ground arith) in
      let none_left : left first ≡ first.policy.uris =
        ap (λ o. map (λ e. e.previous) (unwrap_or [] o))
          (call-history client client' own req b first called ∙ unrecorded)
        ∙ sym (uris ∙ fresh) in
      let same = sends-left max first l none_left n t r in
      (ap length same ∙ (sends-IsLimited max first l n t r).2, same)
