-- ===== src/Headers/Service.antt =====
-- `ConfigService` of src/client/layer/config.rs. What an extension map holds of each type is its own
-- part; `none` stands for a panic.
use wreq.Base.{
  ◌≡◌, ◌⊎◌, refl, Bool, true, false, not, Option, none, some, List, is_empty, arith, ◌&&◌, ◌||◌,
  inl, inr, Bool-cases, if◌then◌else◌,
}
use wreq.Base.Maybe.{◌>>=◌, unwrap_or}
use wreq.Base.Results.{Result, ok, err}
use wreq.Config
use wreq.Config.{RequestConfig, Extensions}
use wreq.Uri.{Uri, is_http, is_https}
use wreq.Headers.{HeaderName, HeaderMaps}
use wreq.Headers.Replacing.{replace_headers, replace_headers-get_all}

module _ {V Orig : Type 0} (H : HeaderMaps V) (X : Extensions (RequestConfig Orig))
    (Y : Extensions (RequestConfig Bool)) where
  -- `Config` of the service.
  pub record Defaults : Type 0 where
    pub https_only : Bool
    pub headers : H.Map
    pub orig_headers : RequestConfig Orig
    pub default_headers : RequestConfig Bool

  -- A request, its body aside.
  pub record Request : Type 0 where
    pub uri : Uri
    pub headers : H.Map
    pub orig_ext : X.Ext
    pub default_ext : Y.Ext

  -- `ConfigServiceLayer::new`, given whether an order is empty.
  unfoldable pub new_defaults : (Orig → Bool) → Bool → H.Map → Orig → Defaults
  new_defaults is_empty_order https_only headers orig_headers = record {
    https_only = https_only;
    headers = headers;
    orig_headers = record {
      value = if not (is_empty_order orig_headers) then some orig_headers else none;
    };
    default_headers = record { value = some true };
  }

  unfoldable pub scheme_is_bad : Defaults → Uri → Bool
  scheme_is_bad config uri =
      not (is_http uri || is_https uri) || (config.https_only && not (is_https uri))

  -- The request's headers over the default ones, where it does not ignore these.
  unfoldable pub with_defaults : Defaults → Request → Option H.Map
  with_defaults config req =
      if unwrap_or false (Config.fetch Y config.default_headers req.default_ext)
      then replace_headers H config.headers req.headers
      else some req.headers

  -- `call`: the request that the inner service is called with, and the order that it is to be sent in;
  -- an error is the URI that was refused.
  unfoldable pub call : Defaults → Request → Option (Result Uri (Request × Option Orig))
  unfolding scheme_is_bad with_defaults
  call config req = if scheme_is_bad config req.uri then some (err req.uri) else (do
    headers ← with_defaults config req
    let (orig, ext) = Config.take X config.orig_headers req.orig_ext
    some (ok (record req { headers = headers; orig_ext = ext }, orig)))

  -- What the inner service is given of header `j`.
  abbrev pub merged : Defaults → Request → HeaderName → List V
  merged config req j =
      let own = H.get_all j req.headers in
      if unwrap_or false (Config.fetch Y config.default_headers req.default_ext)
      then (if is_empty own then H.get_all j config.headers else own)
      else own

  abbrev pub IsHanded : Defaults → Request → Option (Result Uri (Request × Option Orig)) → Type 0
  IsHanded config req none = ⊥
  IsHanded config req (some (err uri)) =
      (uri ≡ req.uri)
      × (((is_http uri ≡ false) × (is_https uri ≡ false))
          ⊎ ((config.https_only ≡ true) × (is_https uri ≡ false)))
  IsHanded config req (some (ok (req', orig))) =
      ((is_https req.uri ≡ true) ⊎ ((is_http req.uri ≡ true) × (config.https_only ≡ false)))
      × (req'.uri ≡ req.uri)
      × ((j : HeaderName) → H.get_all j req'.headers ≡ merged config req j)
      × (X.get req'.orig_ext ≡ none)
      × (orig ≡ (unwrap_or config.orig_headers (X.get req.orig_ext)).value)

  with_defaults-merged :
      (config : Defaults) (req : Request)
      → (m : H.Map) × (with_defaults config req ≡ some m)
        × ((j : HeaderName) → H.get_all j m ≡ merged config req j)
  unfolding with_defaults
  with_defaults-merged config req =
      elim (Bool-cases (unwrap_or false (Config.fetch Y config.default_headers req.default_ext))) [
        | inl on ↦
            let (m, e, q) = replace_headers-get_all H config.headers req.headers in
            (m, rw on e, λ j. rw on (q j))
        | inr off ↦ (req.headers, rw off refl, λ j. rw off refl)
      ]

  refused :
      (only secure plain : Bool)
      → not (plain || secure) || (only && not secure) ≡ true
      → ((plain ≡ false) × (secure ≡ false)) ⊎ ((only ≡ true) × (secure ≡ false))
  refused only secure plain h = ground arith

  allowed :
      (only secure plain : Bool)
      → not (plain || secure) || (only && not secure) ≡ false
      → (secure ≡ true) ⊎ ((plain ≡ true) × (only ≡ false))
  allowed only secure plain h = ground arith

  -- A request is refused exactly where its scheme is neither `http` nor `https`, or is not the `https`
  -- that alone is allowed. Else it is handed on with its URI, a header that it has is its own, one that
  -- it does not have is the default one unless it ignores these, and its order, or else the client's,
  -- is taken out of it.
  pub call-IsHanded : (config : Defaults) (req : Request) → IsHanded config req (call config req)
  unfolding call scheme_is_bad Config.take
  call-IsHanded config req =
      let (m, e, q) = with_defaults-merged config req in
      elim (Bool-cases (scheme_is_bad config req.uri)) [
        | inl bad ↦
            rw (bad, call)
              (refl, refused config.https_only (is_https req.uri) (is_http req.uri) bad)
        | inr good ↦
            rw (good, call, e)
              (
                allowed config.https_only (is_https req.uri) (is_http req.uri) good,
                refl,
                q,
                X.get-remove req.orig_ext,
                refl,
              )
      ]
