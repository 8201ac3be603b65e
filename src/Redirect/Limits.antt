-- ===== src/Redirect/Limits.antt =====
-- The redirects that the policies of src/redirect.rs follow: how many, where to, and what is recorded.
use wreq.Base.{
  ℕ, suc, ◌≤◌, ◌≡◌, ◌≢◌, refl, ap, ◌∙◌, ◌⊎◌, inl, inr, Bool, true, false, not, ◌&&◌, ◌||◌, Option,
  none, some, List, [], ◌∷◌, ◌++◌, arith, length, length-append, Bool-cases, if◌then◌else◌,
}
use wreq.Base.Maybe.{unwrap_or}
use wreq.Uri.{Uri, is_http, is_https}
use wreq.Redirect.Crates.{HeaderMaps, Urls, Bodies, Request}
use wreq.Redirect.{
  Result, ok, Error, too_many_redirects, Action, follow, stop, pending, error, FollowRedirectPolicy,
  Policy, limit, HistoryEntry, check, is_none_policy, record_history, decide, redirect, for_request,
  on_request,
}
use wreq.Redirect.Crossing.{redirect-state}
use wreq.Redirect.Layer.{Redirecting, send_again, call}
use wreq.Redirect.Hops.{Step, idle, kept, followed, resolved, Step-Origin, asked}

module _ (H : HeaderMaps) (U : Urls) (E : Type 0) where
  -- What the history is after an answer.
  abbrev pub after :
      FollowRedirectPolicy H U E
      → HistoryEntry H
      → Result (Error E) (Action E)
      → Option (List (HistoryEntry H))
  after p entry (ok follow) = some (unwrap_or [] p.history ++ (entry ∷ []))
  after p entry _ = p.history

  decide_follows :
      (q : FollowRedirectPolicy H U E) (status : ℕ) (headers : H.Map) (next previous : Uri)
      (a : Action E)
      → is_none_policy q.policy ≡ false
      → ((decide H U E q status headers next previous a).0.history
          ≡ after q
              (record { status = status; uri = next; previous = previous; headers = headers })
              (decide H U E q status headers next previous a).1)
        × (((decide H U E q status headers next previous a).1 ≢ ok follow)
            ⊎ (((is_http next || is_https next) ≡ true)
                × ((not q.https_only || is_https next) ≡ true)))
  unfolding decide record_history
  decide_follows q status headers next previous (error e) h = (refl, inl (λ p. cc))
  decide_follows q status headers next previous stop h = (refl, inl (λ p. cc))
  decide_follows q status headers next previous pending h = (refl, inl (λ p. cc))
  decide_follows q status headers next previous follow h =
      elim (Bool-cases (is_http next || is_https next)) [
        | inr e ↦ rw e (refl, inl (λ p. cc))
        | inl e ↦ elim (Bool-cases (not q.https_only || is_https next)) [
          | inr e' ↦
              let no : (q.https_only && not (is_https next)) ≡ true = ground arith in
              rw (e, no) (refl, inl (λ p. cc))
          | inl e' ↦
              let yes : (q.https_only && not (is_https next)) ≡ false = ground arith in
              rw (e, yes, h) (refl, inr (refl, e'))
        ]
      ]

  -- A redirect policy that follows redirects at all adds to the history exactly the redirects that it
  -- answers by following at once, and these go to `http` or `https`, and to `https` where only that
  -- is allowed.
  pub redirect_follows :
      (p : FollowRedirectPolicy H U E) (status : ℕ) (headers : H.Map) (next previous : Uri)
      → is_none_policy p.policy ≡ false
      → ((redirect H U E p status headers next previous).0.history
          ≡ after p
              (record { status = status; uri = next; previous = previous; headers = headers })
              (redirect H U E p status headers next previous).1)
        × (((redirect H U E p status headers next previous).1 ≢ ok follow)
            ⊎ (((is_http next || is_https next) ≡ true)
                × ((not p.https_only || is_https next) ≡ true)))
  unfolding redirect
  redirect_follows p status headers next previous some_policy =
      decide_follows _ status headers next previous _ some_policy

  decide-answer :
      (q : FollowRedirectPolicy H U E) (status : ℕ) (headers : H.Map) (next previous : Uri)
      (a : Action E)
      → a ≢ pending
      → (decide H U E q status headers next previous a).1 ≢ ok pending
  unfolding decide
  decide-answer q status headers next previous (error e) n h = cc
  decide-answer q status headers next previous stop n h = cc
  decide-answer q status headers next previous pending n h = n refl
  decide-answer q status headers next previous follow n h = ground arith

  decide_within :
      (q : FollowRedirectPolicy H U E) (status : ℕ) (headers : H.Map) (next previous : Uri)
      (within : Bool)
      → (decide H U E q status headers next previous
          (if within then error too_many_redirects else follow)).1
        ≡ ok follow
      → within ≡ false
  unfolding decide
  decide_within q status headers next previous true h = cc
  decide_within q status headers next previous false h = refl

  pub redirect-limit :
      (p : FollowRedirectPolicy H U E) (status : ℕ) (headers : H.Map) (next previous : Uri)
      (max : ℕ)
      → p.policy ≡ limit max
      → (redirect H U E p status headers next previous).1 ≢ ok pending
  unfolding redirect check
  redirect-limit p status headers next previous max q =
      rw q (decide-answer _ status headers next previous _ (ground arith))

  -- Whatever is followed under a limit is within it.
  redirect_within :
      (p : FollowRedirectPolicy H U E) (status : ℕ) (headers : H.Map) (next previous : Uri)
      (max : ℕ)
      → p.policy ≡ limit max
      → (redirect H U E p status headers next previous).1 ≡ ok follow
      → suc (length p.uris) ≤ max
  unfolding redirect check
  redirect_within p status headers next previous max q h =
      let within = decide_within _ status headers next previous _ (rw q at h) in
      ground (arith, length-append p.uris (previous ∷ []))

module _ {H : HeaderMaps} {U : Urls} {B : Bodies} {E S : Type 0} where
  -- The steps after which the request has been sent again, counted.
  pub data Sends (s : Redirecting H U B E S) : ℕ → Redirecting H U B E S → Type 0 where
    start : Sends s 0 s
    waits : {n : ℕ} {t u : Redirecting H U B E S} → Sends s n t → Step t u → u ≡ t → Sends s n u
    sends :
        {n : ℕ} {t u : Redirecting H U B E S} → Sends s n t → Step t u → u ≢ t → Sends s (suc n) u

  -- The state after `n` redirects under a limit.
  abbrev pub IsLimited : ℕ → ℕ → Redirecting H U B E S → Type 0
  IsLimited max n s =
      (s.policy.policy ≡ limit max)
      × (s.pending_future ≡ none)
      × (length s.policy.uris ≡ n)
      × (n ≤ max)

  send_again-policy :
      (s : Redirecting H U B E S) (b : B.Body) (loc : Uri)
      → ((send_again H U B E S s b loc).policy.policy ≡ s.policy.policy)
        × ((send_again H U B E S s b loc).policy.uris ≡ s.policy.uris)
        × ((send_again H U B E S s b loc).pending_future ≡ s.pending_future)
  unfolding send_again on_request
  send_again-policy s b loc = ground arith

  pub Step-IsLimited :
      (max n : ℕ) (s t : Redirecting H U B E S)
      → IsLimited max n s
      → Step s t
      → (t ≡ s) ⊎ IsLimited max (suc n) t
  Step-IsLimited max n s t (policy, free, count, within) st = elim (Step-Origin st) [
    | idle e ↦ inl e
    | kept h _ a e ↦
        elim (redirect-limit H U E s.policy h.res.status h.res.headers h.loc h.req.uri max policy
          a) [ ]
    | followed h _ a e ↦
        let room =
          redirect_within H U E s.policy h.res.status h.res.headers h.loc h.req.uri max policy a in
        let (uris, _, same) =
          redirect-state H U E s.policy h.res.status h.res.headers h.loc h.req.uri in
        let (policy', uris', free') = send_again-policy (asked s h) h.b h.loc in
        inr (
          rw e (
            policy' ∙ same ∙ policy,
            free' ∙ free,
            ap length (uris' ∙ uris)
                ∙ length-append s.policy.uris (h.req.uri ∷ [])
                ∙ omega (arith, count),
            omega (arith, room, count),
          ))
    | resolved p q e ↦ cc (free, q)
  ]

  pub sends-IsLimited :
      (max : ℕ) (s : Redirecting H U B E S)
      → IsLimited max 0 s
      → (n : ℕ) (t : Redirecting H U B E S) → Sends s n t
      → IsLimited max n t
  sends-IsLimited max s l n t start = l
  sends-IsLimited max s l n t (waits {t = m} r st e) = rw e (sends-IsLimited max s l n m r)
  sends-IsLimited max s l n t (sends {n = k} {t = m} r st ne) =
      elim (Step-IsLimited max k m t (sends-IsLimited max s l k m r) st) [
        | inl e ↦ elim (ne e) [ ]
        | inr l' ↦ l'
      ]

  pub call-uris :
      (client client' : FollowRedirectPolicy H U E) (own : Option (Policy H E)) (req : Request H)
      (b : B.Body) (first : Redirecting H U B E S)
      → call H U B E S client own req b ≡ (client', some first)
      → (first.policy.uris ≡ client.uris) × (first.pending_future ≡ none)
  unfolding call for_request on_request
  call-uris client client' own req b first h = ground arith

  -- Where the client's policy has followed nothing itself, and the request is under a limit, it is
  -- sent again at most as many times as the limit says, whatever the servers answer.
  pub sends_within_limit :
      (client client' : FollowRedirectPolicy H U E) (own : Option (Policy H E)) (req : Request H)
      (b : B.Body) (first t : Redirecting H U B E S) (max n : ℕ)
      → client.uris ≡ []
      → call H U B E S client own req b ≡ (client', some first)
      → first.policy.policy ≡ limit max
      → Sends first n t
      → n ≤ max
  sends_within_limit client client' own req b first t max n fresh called policy r =
      let (uris, free) = call-uris client client' own req b first called in
      let l : IsLimited max 0 first = (policy, free, ap length (uris ∙ fresh), ground arith) in
      (sends-IsLimited max first l n t r).3
