-- ===== src/Redirect/Disclosing.antt =====
-- What the `Referer` of a redirected request tells, in `mod referrer` of src/redirect.rs.
use wreq.Base.{
  ◌≡◌, refl, ◌∙◌, ◌⊎◌, inl, inr, true, false, ◌&&◌, Option, none, some, Option-cases, Bool-cases,
  is_some_and,
}
use wreq.Base.Eq.{◌==◌, list_eq, nat_eq, option_eq, eq_refl}
use wreq.Uri.{Scheme, http, https, scheme_eq}
use wreq.Redirect.Crates.{HeaderMaps, Urls, Request, referer}
use wreq.Redirect.Referral.{
  Referrer, withhold, send_source, deliver, apply_source, apply, strip_to_origin_url, disclose,
  url_same_origin, strict_origin_when_cross_origin,
}

module _ (H : HeaderMaps) (U : Urls) where
  -- No referrer is sent or kept, or `u` is both.
  abbrev pub Tells : Option U.Url → Request H → Referrer U × Request H → Type 0
  Tells none req sent = (sent.0.source ≡ none) × (H.get referer sent.1.headers ≡ none)
  Tells (some u) req sent =
      (sent.0.source ≡ some u)
      × ((v : H.Value) × (H.try_from (U.as_str u) ≡ some v)
          × (H.get referer sent.1.headers
              ≡ some (H.set_sensitive (is_some_and (H.get referer req.headers) H.is_sensitive) v)))

  withhold-Tells : (r : Referrer U) (req : Request H) → Tells none req (withhold H U r req)
  withhold-Tells r req = (refl, H.get-remove referer referer req.headers ∙ rw (eq_refl referer))

  send_source-Tells :
      (r : Referrer U) (req : Request H) (u : U.Url)
      → Tells none req (send_source H U r req u) ⊎ Tells (some u) req (send_source H U r req u)
  unfolding send_source
  send_source-Tells r req u = elim (Option-cases (H.try_from (U.as_str u))) [
    | inl e ↦ inl (rw (e, send_source) (withhold-Tells r req))
    | inr (v, e) ↦ inr (rw (e, send_source) (refl, (v, refl, rw (H.get-insert, eq_refl referer))))
  ]

  -- With a source of a known scheme, under `strict-origin-when-cross-origin`, the `Referer` that a redirected request
  -- is sent with is the whole source only to the source's own origin, and the source's origin only
  -- where `https` is not left for `http`; else there is none. What is sent is the source for the
  -- request after it, and where nothing is sent none is left.
  pub apply_by_default :
      (r : Referrer U) (req : Request H) (u : U.Url) (scheme : Scheme)
      → r.policy ≡ strict_origin_when_cross_origin
      → r.source ≡ some u
      → U.parse_scheme (U.scheme u) ≡ some scheme
      → Tells none req (apply H U r req)
        ⊎ (((url_same_origin U u scheme req.uri ≡ true) × Tells (some u) req (apply H U r req))
            ⊎ ((url_same_origin U u scheme req.uri ≡ false)
                × ((scheme == https && (req.uri.scheme == some http)) ≡ false)
                × Tells (some (strip_to_origin_url U u)) req (apply H U r req)))
  unfolding apply apply_source disclose deliver send_source
  apply_by_default r req u scheme policy source parsed =
      elim (Bool-cases (url_same_origin U u scheme req.uri)) [
        | inl same ↦ elim (send_source-Tells r req u) [
          | inl t ↦ inl (rw (source, parsed, policy, same, apply, deliver) t)
          | inr t ↦ inr (inl (same, rw (source, parsed, policy, same, apply, deliver) t))
        ]
        | inr other ↦ elim (Bool-cases (scheme == https && (req.uri.scheme == some http))) [
          | inl down ↦
              inl (rw (source, parsed, policy, other, down, apply, deliver) (withhold-Tells r req))
          | inr up ↦ elim (send_source-Tells r req (strip_to_origin_url U u)) [
            | inl t ↦ inl (rw (source, parsed, policy, other, up, apply, deliver) t)
            | inr t ↦
                inr (inr (other, up, rw (source, parsed, policy, other, up, apply, deliver) t))
          ]
        ]
      ]
