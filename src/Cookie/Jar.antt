-- ===== src/Cookie/Jar.antt =====
-- The methods of `Jar` that change it, of src/cookie/jar.rs. The lock gives each call the whole
-- store; the clock is an argument, read once in a call as in the source.
pub mod Safety
pub mod Lifetime
pub mod Views
pub mod Header
use wreq.Base.{
  ℕ, suc, ◌+◌, Bool, true, false, ◌&&◌, ◌||◌, not, Option, none, some, List, [], ◌∷◌, min, is_none,
  leb, is_some_and, if◌then◌else◌,
}
use wreq.Base.Eq.{◌==◌, bool_eq, option_eq}
use wreq.Base.Maybe.{◌>>=◌, ◌>>◌, guard, unwrap_or}
use wreq.Base.Text.{Text, starts_with}
use wreq.Uri.{Uri, is_https}
use wreq.Cookie.Host.{Host, canonical_host, domain_match}
use wreq.Cookie.Path.{default_path, normalize_path}
use wreq.Cookie.Raw.{ℤ, pos, negsuc, RawCookie, is_non_positive}
use wreq.Cookie.Store.{
  Store, insert_stored_cookie, remove_stored_cookie, remove_stored_cookies,
  would_overlay_secure_cookie,
}

-- What the jar takes from other crates: `url::Host::parse`, the `Display` of a host,
-- `OffsetDateTime::MAX`, and the parser of a `Set-Cookie` value.
pub record Crates : Type 0 where
  pub parse_host : Text → Option Host
  pub show_host : Host → Text
  pub max_time : ℕ
  pub parse_cookie : Text → Option RawCookie

abbrev pub seconds : ℤ → ℕ
seconds (pos n) = n
seconds (negsuc n) = 0

-- The domain under which the cookie is stored, and the cookie with its `Domain` made canonical.
unfoldable pub resolve_domain : Crates → Host → RawCookie → Option (Host × RawCookie)
resolve_domain x host c = elim c.domain [
  | none ↦ some (host, c)
  | some raw ↦ canonical_host x.parse_host raw >>= λ dom.
      guard (domain_match host dom) >> some (dom, record c { domain = some (x.show_host dom) })
]

-- The cookie with its deadline made absolute, and whether it has expired on arrival.
unfoldable pub settle : Crates → ℕ → RawCookie → RawCookie × Bool
settle x now c = elim c.max_age [
  | some age ↦
      if is_non_positive age
      then (c, true)
      else (record c { max_age = none; expires = some (min (now + seconds age) x.max_time) }, false)
  | none ↦ (c, is_some_and c.expires (λ deadline. leb deadline now))
]

unfoldable pub cookie_path : Uri → RawCookie → Text
cookie_path uri c = elim c.path [
  | some path ↦ if starts_with path default_path then path else normalize_path uri.path
  | none ↦ normalize_path uri.path
]

-- The last part of `add`, with the store locked.
unfoldable pub store_cookie :
    Store → Bool → ℕ → Bool → Host → Text → RawCookie × Bool → Option Store
store_cookie s secure_origin now host_only dom path (c, expired) = do
  guard (secure_origin || not (would_overlay_secure_cookie s c.name dom path now))
  some (
      if expired
      then remove_stored_cookie s dom path c.name host_only
      else insert_stored_cookie s dom path (record c { path = some path }))

-- `add`, where `none` is an early return that leaves the jar alone.
unfoldable pub try_add : Crates → ℕ → Store → Option RawCookie → Option Uri → Option Store
unfolding store_cookie
try_add x now s cookie uri = do
  c ← cookie
  u ← uri
  guard (not (c.secure == some true && not (is_https u)))
  host ← u.host >>= canonical_host x.parse_host
  (dom, c') ← resolve_domain x host c
  store_cookie s (is_https u) now (is_none c.domain) dom (cookie_path u (settle x now c').0)
      (settle x now c')

unfoldable pub add : Crates → ℕ → Store → Option RawCookie → Option Uri → Store
unfolding try_add
add x now s cookie uri = unwrap_or s (try_add x now s cookie uri)

-- `set_cookies`: each header's value with the time at which it is added.
unfoldable pub set_cookies : Crates → Store → List (ℕ × Text) → Uri → Store
set_cookies x s [] uri = s
set_cookies x s ((now, header) ∷ headers) uri =
    set_cookies x
      (elim (x.parse_cookie header) [ some c ↦ add x now s (some c) (some uri) | none ↦ s ]) headers
      uri

unfoldable pub remove : Crates → Store → RawCookie → Option Uri → Store
remove x s cookie uri = unwrap_or s (
    uri >>= λ u. u.host >>= λ raw. canonical_host x.parse_host raw >>= λ host.
    some (remove_stored_cookies s host u.path cookie.name))

unfoldable pub clear : Store → Store
clear s = wreq.Cookie.Store.default
