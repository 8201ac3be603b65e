-- ===== src/Redirect.antt =====
-- The redirect policy of src/redirect.rs: `Policy` and `FollowRedirectPolicy`.
pub mod Crates
pub mod Referral
pub mod Layer
pub mod Hops
pub mod Sensitive
pub mod Crossing
pub mod Leaving
pub mod Limits
pub mod Recording
pub mod Rewriting
pub mod Disclosing
mod Tests
use wreq.Base.{
  ℕ, Bool, true, false, ◌&&◌, ◌||◌, not, Option, none, some, List, [], ◌∷◌, ◌++◌, if◌then◌else◌,
  ltb, length, is_empty,
}
use wreq.Base.Eq.{◌==◌, nat_eq, option_eq}
use wreq.Base.Maybe.{unwrap_or}
use wreq.Base.Text.{eq_ignore_ascii_case}
use wreq.Uri.{Uri, scheme_eq, is_http, is_https, port_or_default}
use wreq.Redirect.Crates.{
  HeaderMaps, Urls, Request, authorization, cookie, cookie2, proxy_authorization, www_authenticate,
}
use wreq.Redirect.Referral.{Referrer, default_referrer, new_referrer, on_redirect, apply}
pub use wreq.Base.Results.{Result, ok, err}

pub data Cause (E : Type 0) : Type 0 where
  too_many_redirects : Cause E
  uri_bad_scheme : Uri → Cause E
  custom_error : E → Cause E

-- `Error::uri_bad_scheme`, and `Error::redirect` with the URI it names.
pub data Error (E : Type 0) : Type 0 where
  bad_scheme : Uri → Error E
  redirect_error : Cause E → Uri → Error E

-- `Action`; what a pending one becomes is known when its future is polled.
pub data Action (E : Type 0) : Type 0 where
  follow stop pending : Action E
  error : Cause E → Action E

pub record Attempt (H : HeaderMaps) : Type 0 where
  pub status : ℕ
  pub headers : H.Map
  pub uri : Uri
  pub previous : List Uri

-- `PolicyKind`.
pub data Policy (H : HeaderMaps) (E : Type 0) : Type 0 where
  custom : (Attempt H → Action E) → Policy H E
  limit : ℕ → Policy H E
  no_redirects : Policy H E

pub record HistoryEntry (H : HeaderMaps) : Type 0 where
  pub status : ℕ
  pub uri : Uri
  pub previous : Uri
  pub headers : H.Map

pub record FollowRedirectPolicy (H : HeaderMaps) (U : Urls) (E : Type 0) : Type 0 where
  pub policy : Policy H E
  pub referrer : Option (Referrer U)
  pub uris : List Uri
  pub https_only : Bool
  pub history : Option (List (HistoryEntry H))

abbrev pub last {ℓ} : {A : Type ℓ} → List A → Option A
last [] = none
last (x ∷ []) = some x
last (x ∷ (y ∷ ys)) = last (y ∷ ys)

unfoldable pub same_origin : Uri → Uri → Bool
same_origin left right =
    hosts left.host right.host
    && (left.scheme == right.scheme)
    && (port_or_default left == port_or_default right)
  where
    hosts : Option (List ℕ) → Option (List ℕ) → Bool
    hosts (some a) (some b) = eq_ignore_ascii_case a b
    hosts none none = true
    hosts _ _ = false

module _ (H : HeaderMaps) where
  abbrev pub drop_sensitive : H.Map → H.Map
  drop_sensitive headers = H.remove www_authenticate (
      H.remove proxy_authorization
        (H.remove cookie2 (H.remove cookie (H.remove authorization headers))))

  unfoldable pub remove_sensitive_headers : Request H → List Uri → Request H
  remove_sensitive_headers req uris = elim (last uris) [
    | none ↦ req
    | some previous ↦
        if not (same_origin req.uri previous)
        then record req { headers = drop_sensitive req.headers }
        else req
  ]

module _ {H : HeaderMaps} {E : Type 0} where
  -- `Policy::redirect`.
  unfoldable pub check : Policy H E → Attempt H → Action E
  check (custom f) attempt = f attempt
  check (limit max) attempt =
      if ltb max (length attempt.previous) then error too_many_redirects else follow
  check no_redirects attempt = stop

  abbrev pub is_none_policy : Policy H E → Bool
  is_none_policy no_redirects = true
  is_none_policy _ = false

module _ (H : HeaderMaps) (U : Urls) (E : Type 0) where
  abbrev P : Type 0
  P = FollowRedirectPolicy H U E

  unfoldable pub new : Policy H E → P
  new policy = record {
    policy = policy;
    referrer = none;
    uris = [];
    https_only = false;
    history = none;
  }

  unfoldable pub with_referer : Bool → P → P
  with_referer referer p = record p {
    referrer = if referer then some (default_referrer U) else none;
  }

  unfoldable pub with_https_only : Bool → P → P
  with_https_only https_only p = record p { https_only = https_only }

  -- The history after a redirect is followed.
  unfoldable pub record_history : P → HistoryEntry H → P
  record_history p entry =
      if not (is_none_policy p.policy)
      then record p { history = some (unwrap_or [] p.history ++ (entry ∷ [])) }
      else p

  -- The rest of `FollowRedirectPolicy::redirect`, once the policy has chosen an action.
  unfoldable pub decide : P → ℕ → H.Map → Uri → Uri → Action E → P × Result (Error E) (Action E)
  decide q status headers next previous (error e) = (q, err (redirect_error e previous))
  decide q status headers next previous stop = (q, ok stop)
  decide q status headers next previous pending = (q, ok pending)
  decide q status headers next previous follow =
      if not (is_http next || is_https next)
      then (q, err (bad_scheme next))
      else if q.https_only && not (is_https next)
      then (q, err (redirect_error (uri_bad_scheme next) next))
      else (
        record_history q
            (record { status = status; uri = next; previous = previous; headers = headers }),
        ok follow,
      )

  -- `FollowRedirectPolicy::redirect`, with the response's status and headers.
  unfoldable pub redirect : P → ℕ → H.Map → Uri → Uri → P × Result (Error E) (Action E)
  redirect p status headers next previous =
      let r : Option (Referrer U) = elim p.referrer [
        | none ↦ none
        | some s ↦ some (on_redirect H U s headers)
      ] in
      let q = record p { uris = p.uris ++ (previous ∷ []); referrer = r } in
      decide q status headers next previous (
        check q.policy
          (record { status = status; headers = headers; uri = next; previous = q.uris }))

  -- `for_request`: the client's policy after the call, and the one of the request, if it follows
  -- redirects at all. `own` is the policy that the request carries.
  unfoldable pub for_request : P → Option (Policy H E) → Request H → P × Option P
  for_request p own req =
      let q = record p { policy = unwrap_or p.policy own } in
      (
        q,
        if not (is_none_policy q.policy)
            then some (record q {
              referrer = elim q.referrer [
                | none ↦ none
                | some s ↦ some (new_referrer H U req.headers)
              ];
            })
            else none,
      )

  unfoldable pub on_request : P → Request H → P × Request H
  on_request p req =
      let stripped = remove_sensitive_headers H req p.uris in
      if not (is_empty p.uris)
      then elim p.referrer [
        | none ↦ (p, stripped)
        | some r ↦ let (r', sent) = apply H U r stripped in (record p { referrer = some r' }, sent)
      ]
      else (p, stripped)
