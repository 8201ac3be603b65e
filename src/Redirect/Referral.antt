-- ===== src/Redirect/Referral.antt =====
-- `mod referrer` of src/redirect.rs: the `Referer` of a redirected request under a referrer policy.
use wreq.Base.{
  ℕ, Bool, true, false, ◌&&◌, ◌||◌, not, Option, none, some, List, [], ◌∷◌, if◌then◌else◌, ltb, leb,
  is_empty, length, is_some_and,
}
use wreq.Base.Eq.{◌==◌, list_eq, nat_eq, option_eq}
use wreq.Base.Maybe.{◌>>=◌, ◌>>◌, guard}
use wreq.Base.Text.{Text, codes, eq_ignore_ascii_case}
use wreq.Uri.{Uri, Scheme, http, https, scheme_eq, port_or_default}
use wreq.Redirect.Crates.{HeaderMaps, Urls, Request, referer, referrer_policy}

pub data ReferrerPolicy : Type 0 where
  no_policy no_referrer no_referrer_when_downgrade same_origin origin strict_origin : ReferrerPolicy
  origin_when_cross_origin strict_origin_when_cross_origin unsafe_url : ReferrerPolicy

abbrev pub tokens : List (Text × ReferrerPolicy)
tokens =
    (codes "no-referrer", no_referrer)
    ∷ (codes "no-referrer-when-downgrade", no_referrer_when_downgrade)
    ∷ (codes "same-origin", same_origin)
    ∷ (codes "origin", origin)
    ∷ (codes "strict-origin", strict_origin)
    ∷ (codes "origin-when-cross-origin", origin_when_cross_origin)
    ∷ (codes "strict-origin-when-cross-origin", strict_origin_when_cross_origin)
    ∷ (codes "unsafe-url", unsafe_url)
    ∷ []

unfoldable pub find_token : Text → List (Text × ReferrerPolicy) → ReferrerPolicy
find_token t [] = no_policy
find_token t ((name, p) ∷ ps) = if eq_ignore_ascii_case t name then p else find_token t ps

abbrev pub is_policy : ReferrerPolicy → Bool
is_policy no_policy = false
is_policy _ = true

-- `value.split(',')`.
unfoldable pub split_commas : Text → List Text
split_commas [] = [] ∷ []
split_commas (c ∷ cs) = elim (split_commas cs) [
  | [] ↦ [] ∷ []
  | (t ∷ ts) ↦ if c == b',' then [] ∷ (t ∷ ts) else (c ∷ t) ∷ ts
]

-- `str::trim` of an ASCII text.
abbrev is_whitespace : ℕ → Bool
is_whitespace c = c == b' ' || (leb 9 c && leb c 13)

unfoldable pub trim_start : Text → Text
trim_start [] = []
trim_start (c ∷ cs) = if is_whitespace c then trim_start cs else c ∷ cs

unfoldable pub trim_end : Text → Text
trim_end [] = []
trim_end (c ∷ cs) =
    let rest = trim_end cs in if is_whitespace c && is_empty rest then [] else c ∷ rest

-- The last of the tokens that names a policy.
unfoldable pub last_policy : ReferrerPolicy → List Text → ReferrerPolicy
last_policy policy [] = policy
last_policy policy (t ∷ ts) =
    let parsed = find_token (trim_end (trim_start t)) tokens in
    last_policy (if is_policy parsed then parsed else policy) ts

module _ (H : HeaderMaps) where
  -- `ReferrerPolicy::from(&HeaderMap)`, from its header's values on.
  unfoldable pub policy_of_values : ReferrerPolicy → List H.Value → ReferrerPolicy
  policy_of_values policy [] = policy
  policy_of_values policy (v ∷ vs) = elim (H.to_str v) [
    | none ↦ policy_of_values policy vs
    | some t ↦ policy_of_values (last_policy policy (split_commas t)) vs
  ]

  unfoldable pub policy_of : H.Map → ReferrerPolicy
  policy_of headers = policy_of_values no_policy (H.get_all referrer_policy headers)

pub record Referrer (U : Urls) : Type 0 where
  pub source : Option U.Url
  pub policy : ReferrerPolicy

module _ (U : Urls) where
  abbrev pub default_referrer : Referrer U
  default_referrer = record { source = none; policy = strict_origin_when_cross_origin }

  unfoldable pub strip_to_origin_url : U.Url → U.Url
  strip_to_origin_url u = U.clear_fragment (U.clear_query (U.clear_path u))

  unfoldable pub parse_referrer : Text → Option U.Url
  parse_referrer value = do
    source ← U.parse value
    scheme ← U.parse_scheme (U.scheme source)
    guard (scheme == http || scheme == https)
    plain ← U.clear_username source
    bare ← U.clear_password plain
    let u = U.clear_fragment bare
    some (if ltb 4096 (length (U.as_str u)) then strip_to_origin_url u else u)

  unfoldable pub url_same_origin : U.Url → Scheme → Uri → Bool
  url_same_origin source scheme destination =
      hosts (U.host_str source) destination.host
      && (destination.scheme == some scheme)
      && (U.port_or_known_default source == some (port_or_default destination))
    where
      hosts : Option Text → Option Text → Bool
      hosts (some a) (some b) = eq_ignore_ascii_case a b
      hosts none none = true
      hosts _ _ = false

-- What a policy lets through: nothing, the origin, or the whole URL.
pub data Disclosure : Type 0 where
  withheld origin_only full : Disclosure

unfoldable pub disclose : ReferrerPolicy → Bool → Bool → Disclosure
disclose no_referrer same downgrade = withheld
disclose no_referrer_when_downgrade same downgrade = if downgrade then withheld else full
disclose same_origin same downgrade = if same then full else withheld
disclose strict_origin same downgrade = if downgrade then withheld else origin_only
disclose strict_origin_when_cross_origin same downgrade =
    if not same && downgrade then withheld else if same then full else origin_only
disclose no_policy same downgrade =
    if not same && downgrade then withheld else if same then full else origin_only
disclose origin same downgrade = origin_only
disclose origin_when_cross_origin same downgrade = if same then full else origin_only
disclose unsafe_url same downgrade = full

module _ (H : HeaderMaps) (U : Urls) where
  unfoldable pub new_referrer : H.Map → Referrer U
  new_referrer headers = record {
    source = H.get referer headers >>= H.to_str >>= parse_referrer U;
    policy = strict_origin_when_cross_origin;
  }

  unfoldable pub on_redirect : Referrer U → H.Map → Referrer U
  on_redirect r headers =
      let parsed = policy_of H headers in
      if is_policy parsed then record r { policy = parsed } else r

  -- `Referrer::apply` without a referrer to send: the header goes, and the source with it.
  abbrev pub withhold : Referrer U → Request H → Referrer U × Request H
  withhold r req =
      (record r { source = none }, record req { headers = H.remove referer req.headers })

  -- The last step of `Referrer::apply`: the header is set to the text of the source, and stays
  -- sensitive where it was.
  unfoldable pub send_source : Referrer U → Request H → U.Url → Referrer U × Request H
  send_source r req source = elim (H.try_from (U.as_str source)) [
    | none ↦ withhold r req
    | some value ↦
        let sensitive = is_some_and (H.get referer req.headers) H.is_sensitive in
        (
          record r { source = some source },
          record req { headers = H.insert referer (H.set_sensitive sensitive value) req.headers },
        )
  ]

  unfoldable pub deliver : Referrer U → Request H → U.Url → Disclosure → Referrer U × Request H
  deliver r req source withheld = withhold r req
  deliver r req source origin_only = send_source r req (strip_to_origin_url U source)
  deliver r req source full = send_source r req source

  unfoldable pub apply_source :
      Referrer U → Request H → U.Url → Option Scheme → Referrer U × Request H
  apply_source r req source none = withhold r req
  apply_source r req source (some scheme) =
      let same = url_same_origin U source scheme req.uri in
      let downgrade = scheme == https && (req.uri.scheme == some http) in
      deliver r req source (disclose r.policy same downgrade)

  unfoldable pub apply : Referrer U → Request H → Referrer U × Request H
  apply r req = elim r.source [
    | none ↦ withhold r req
    | some source ↦ apply_source r req source (U.parse_scheme (U.scheme source))
  ]
