-- ===== src/Redirect/Leaving.antt =====
-- A chain of redirects that leaves an origin, in src/client/layer/redirect/future.rs.
use wreq.Base.{
  ◌≡◌, refl, ap, sym, subst, ◌∙◌, inl, inr, true, false, Option, none, some, [], ◌∷◌, arith, any,
  Option-cases,
}
use wreq.Base.Eq.{◌==◌, list_eq, nat_eq, option_eq, eq_refl}
use wreq.Base.Text.{Text, eq_ignore_ascii_case}
use wreq.Uri.{Uri, scheme_eq, port_or_default}
use wreq.Redirect.Crates.{HeaderMaps, Urls, Bodies, Request, HeaderName}
use wreq.Redirect.{FollowRedirectPolicy, Policy, last, same_origin, for_request}
use wreq.Redirect.Sensitive.{sensitive}
use wreq.Redirect.Layer.{Redirecting, send_again, call}
use wreq.Redirect.Hops.{
  Step, Run, start, step, idle, kept, followed, resolved, Step-Origin, Hop, asked,
}
use wreq.Redirect.Crossing.{
  last-snoc, rewrite-some, redirect-state, not_referer, IsTracked, IsAbsent, send_again-crosses,
  run-IsAbsent,
}

eq_ignore_ascii_case_refl : (t : Text) → eq_ignore_ascii_case t t ≡ true
unfolding eq_ignore_ascii_case
eq_ignore_ascii_case_refl [] = refl
eq_ignore_ascii_case_refl (c ∷ t) = ground (arith, eq_ignore_ascii_case_refl t, eq_refl c)

same_origin_refl : (u : Uri) → same_origin u u ≡ true
unfolding same_origin
same_origin_refl u = elim (Option-cases u.host) [
  | inl e ↦ rw (e, same_origin) (ground (arith, eq_refl u.scheme, eq_refl (port_or_default u)))
  | inr (h, e) ↦
      rw (e, same_origin)
        (ground (arith, eq_ignore_ascii_case_refl h, eq_refl u.scheme, eq_refl (port_or_default u)))
]

module _ {H : HeaderMaps} {U : Urls} {B : Bodies} {E S : Type 0} where
  rewritten_uri : (s : Redirecting H U B E S) (h : Hop s) → h.req.uri ≡ s.request.uri
  rewritten_uri s h = elim (rewrite-some H h.res.status s.request h.req h.drops_body h.rewritten) [
    | inl (_, same, _) ↦ same
    | inr (_, same) ↦ ap (λ r. r.uri) same
  ]

  asked-last :
      (s : Redirecting H U B E S) (h : Hop s) → last (asked s h).policy.uris ≡ some h.req.uri
  asked-last s h =
      let (uris, _, _) = redirect-state H U E s.policy h.res.status h.res.headers h.loc h.req.uri in
      ap last uris ∙ last-snoc s.policy.uris h.req.uri

  call-IsTracked :
      (client client' : FollowRedirectPolicy H U E) (own : Option (Policy H E)) (req : Request H)
      (b : B.Body) (first : Redirecting H U B E S)
      → call H U B E S client own req b ≡ (client', some first)
      → IsTracked first
  unfolding call
  call-IsTracked client client' own req b first h =
      elim (Option-cases (for_request H U E client own req).1) [
        | inl e ↦ cc (h, e)
        | inr (p, e) ↦ λ p' q. cc (h, e, q)
      ]

  Step-IsTracked : {s t : Redirecting H U B E S} → Step s t → IsTracked s → IsTracked t
  unfolding send_again
  Step-IsTracked {s} {t} st tracked = elim (Step-Origin st) [
    | idle e ↦ subst IsTracked (sym e) tracked
    | kept h free a e ↦ subst IsTracked (sym e) (λ p q. asked-last s h)
    | followed h free a e ↦ subst IsTracked (sym e) (λ p q. cc)
    | resolved p q e ↦ subst IsTracked (sym e) (λ p' q'. cc)
  ]

  run-IsTracked : {s t : Redirecting H U B E S} → Run s t → IsTracked s → IsTracked t
  run-IsTracked start a = a
  run-IsTracked (step r st) a = Step-IsTracked st (run-IsTracked r a)

  -- A step that changes the origin sends a request without the sensitive headers.
  Step-crosses :
      {s t : Redirecting H U B E S} (k : HeaderName)
      → any (λ n. n == k) sensitive ≡ true
      → IsTracked s
      → Step s t
      → same_origin t.request.uri s.request.uri ≡ false
      → IsAbsent k t
  Step-crosses {s} {t} k found tracked st other = elim (Step-Origin st) [
    | idle e ↦ cc (same_origin_refl s.request.uri, other, e)
    | kept h free a e ↦ cc (same_origin_refl s.request.uri, other, e, rewritten_uri s h)
    | followed h free a e ↦ rw e (
        send_again-crosses (asked s h) h.b h.loc s.request.uri k
          (asked-last s h ∙ ap (λ u. some u) (rewritten_uri s h)) found (rw e at other))
    | resolved p q e ↦ rw e (
        send_again-crosses (record s { pending_future = none }) p.body p.location s.request.uri k
          (tracked p q) found (rw e at other))
  ]

  -- Once a redirect has led a request to another origin, neither the request that is sent there nor
  -- any later one of the chain has an `Authorization`, `Cookie`, `Cookie2`, `Proxy-Authorization` or
  -- `WWW-Authenticate` header, also where the chain comes back.
  pub run_crosses :
      (client client' : FollowRedirectPolicy H U E) (own : Option (Policy H E)) (req : Request H)
      (b : B.Body) (first s t u : Redirecting H U B E S) (k : HeaderName)
      → call H U B E S client own req b ≡ (client', some first)
      → Run first s
      → Step s t
      → Run t u
      → same_origin t.request.uri s.request.uri ≡ false
      → any (λ n. n == k) sensitive ≡ true
      → H.get k u.sent.0.headers ≡ none
  run_crosses client client' own req b first s t u k called before st after other found =
      let absent = run-IsAbsent k (not_referer k found) after (
        Step-crosses k found
          (run-IsTracked before (call-IsTracked client client' own req b first called)) st other) in
      absent.0
