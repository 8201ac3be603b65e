-- ===== src/Redirect/Sensitive.antt =====
-- The headers that a redirected request keeps, in src/redirect.rs and src/client/layer/redirect/future.rs.
use wreq.Base.{
  ◌≡◌, refl, ◌∙◌, inl, inr, Bool, false, ◌&&◌, not, Option, none, some, List, [], ◌∷◌, arith, any,
  if◌then◌else◌, Option-cases, Bool-cases, is_some_and, is_empty,
}
use wreq.Base.Eq.{◌==◌, list_eq, nat_eq}
use wreq.Uri.{Uri, Scheme}
use wreq.Redirect.Crates.{
  HeaderMaps, Urls, Request, HeaderName, authorization, cookie, cookie2, proxy_authorization,
  www_authenticate, referer,
}
use wreq.Redirect.Referral.{
  Referrer, apply, apply_source, deliver, send_source, withhold, Disclosure, withheld, origin_only,
  full, strip_to_origin_url,
}
use wreq.Redirect.{
  FollowRedirectPolicy, last, same_origin, remove_sensitive_headers, on_request, drop_sensitive,
}

abbrev pub sensitive : List HeaderName
sensitive = authorization ∷ cookie ∷ cookie2 ∷ proxy_authorization ∷ www_authenticate ∷ []

-- The last URI of the chain is of another origin.
unfoldable pub crosses : List Uri → Uri → Bool
crosses uris u = is_some_and (last uris) (λ p. not (same_origin u p))

module _ (H : HeaderMaps) where
  drop_sensitive-get :
      (m : H.Map) (k : HeaderName)
      → H.get k (drop_sensitive H m) ≡ (if any (λ n. n == k) sensitive then none else H.get k m)
  unfolding any
  drop_sensitive-get m k =
      rw (H.get-remove, H.get-remove, H.get-remove, H.get-remove, H.get-remove) (ground arith)

  remove_sensitive_headers-get :
      (req : Request H) (uris : List Uri) (k : HeaderName)
      → H.get k (remove_sensitive_headers H req uris).headers ≡ (
          if crosses uris req.uri && any (λ n. n == k) sensitive then none else H.get k req.headers)
  unfolding remove_sensitive_headers crosses
  remove_sensitive_headers-get req uris k = ground (arith, drop_sensitive-get req.headers k)

  remove_sensitive_headers-rest :
      (req : Request H) (uris : List Uri)
      → ((remove_sensitive_headers H req uris).uri ≡ req.uri)
        × ((remove_sensitive_headers H req uris).method ≡ req.method)
  unfolding remove_sensitive_headers
  remove_sensitive_headers-rest req uris = ground arith

module _ (H : HeaderMaps) (U : Urls) where
  -- What is left of a request by the steps of `apply`: all but the `Referer`.
  abbrev pub Kept : Request H → Request H → Type 0
  Kept req sent =
      (sent.uri ≡ req.uri)
      × (sent.method ≡ req.method)
      × ((k : HeaderName) → (referer == k) ≡ false → H.get k sent.headers ≡ H.get k req.headers)

  withhold-Kept : (r : Referrer U) (req : Request H) → Kept req (withhold H U r req).1
  withhold-Kept r req = (refl, refl, λ k n. ground (arith, H.get-remove referer k req.headers))

  send_source-Kept :
      (r : Referrer U) (req : Request H) (u : U.Url) → Kept req (send_source H U r req u).1
  unfolding send_source
  send_source-Kept r req u = elim (Option-cases (H.try_from (U.as_str u))) [
    | inl e ↦ rw (e, send_source) (withhold-Kept r req)
    | inr (v, e) ↦ rw (e, send_source) (refl, refl, λ k n. rw (H.get-insert, n))
  ]

  deliver-Kept :
      (r : Referrer U) (req : Request H) (u : U.Url) (d : Disclosure)
      → Kept req (deliver H U r req u d).1
  unfolding deliver
  deliver-Kept r req u withheld = withhold-Kept r req
  deliver-Kept r req u origin_only = send_source-Kept r req (strip_to_origin_url U u)
  deliver-Kept r req u full = send_source-Kept r req u

  apply_source-Kept :
      (r : Referrer U) (req : Request H) (u : U.Url) (s : Option Scheme)
      → Kept req (apply_source H U r req u s).1
  unfolding apply_source
  apply_source-Kept r req u none = withhold-Kept r req
  apply_source-Kept r req u (some s) = deliver-Kept r req u _

  pub apply-Kept : (r : Referrer U) (req : Request H) → Kept req (apply H U r req).1
  unfolding apply
  apply-Kept r req = elim (Option-cases r.source) [
    | inl e ↦ rw (e, apply) (withhold-Kept r req)
    | inr (source, e) ↦ rw (e, apply) (apply_source-Kept r req source _)
  ]

  -- A request that is sent is to the same URI and by the same method as the request it comes from.
  -- Where the last URI of the chain is of another origin, it is without the sensitive headers; any
  -- other header but the `Referer` is unchanged, and each of them where the origin is the same.
  pub on_request-get :
      (E : Type 0) (p : FollowRedirectPolicy H U E) (req : Request H) (k : HeaderName)
      → (referer == k) ≡ false
      → ((on_request H U E p req).1.uri ≡ req.uri)
        × ((on_request H U E p req).1.method ≡ req.method)
        × (H.get k (on_request H U E p req).1.headers ≡ (
            if crosses p.uris req.uri && any (λ n. n == k) sensitive
            then none
            else H.get k req.headers))
  unfolding on_request
  on_request-get E p req k n =
      let (same_uri, same_method) = remove_sensitive_headers-rest H req p.uris in
      let got = remove_sensitive_headers-get H req p.uris k in
      elim (Bool-cases (is_empty p.uris)) [
        | inl e ↦ rw e (same_uri, same_method, got)
        | inr e ↦ elim (Option-cases p.referrer) [
          | inl e' ↦ rw (e, e') (same_uri, same_method, got)
          | inr (r, e') ↦
              let (kept_uri, kept_method, kept) =
                apply-Kept r (remove_sensitive_headers H req p.uris) in
              rw (e, e') (kept_uri ∙ same_uri, kept_method ∙ same_method, kept k n ∙ got)
        ]
      ]
