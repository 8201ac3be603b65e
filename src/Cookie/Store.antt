-- ===== src/Cookie/Store.antt =====
-- `Store` of src/cookie/store.rs. A write through a chain of `get_mut` calls is an `insert` at each
-- key of the chain, which replaces in place.
pub mod Find
pub mod Compact
pub mod Matching
use wreq.Base.{
  ℕ, suc, ◌+◌, ◌-◌, Bool, true, ◌&&◌, ◌||◌, not, Option, none, some, List, [], ◌∷◌, min, is_empty,
  is_none, any, if◌then◌else◌,
}
use wreq.Base.Eq.{◌==◌, nat_eq, bool_eq, list_eq, option_eq}
use wreq.Base.Map.{get, insert, remove}
use wreq.Base.Maybe.{◌>>=◌, unwrap_or}
use wreq.Base.Text.{Text}
use wreq.Uri.{Uri, is_http, is_https}
use wreq.Cookie.Host.{Host, host_eq, domain_match}
use wreq.Cookie.Path.{path_match}
use wreq.Cookie.Raw.{RawCookie, cookie_is_expired}
use wreq.Cookie.Scope
use wreq.Cookie.Scope.{CookieEntry, CookieScopeMap}

abbrev pub PathMap : Type 0
PathMap = List (Text × CookieScopeMap)

abbrev pub DomainMap : Type 0
DomainMap = List (Host × PathMap)

pub record Store : Type 0 where
  pub cookies : DomainMap
  pub next_creation_index : ℕ

-- `Store::default`.
abbrev pub default : Store
default = record { cookies = []; next_creation_index = 0 }

-- `saturating_add(1)` on `u64`.
unfoldable pub bump : ℕ → ℕ
bump n = min (n + 1) 18446744073709551615

-- The chain of `get_mut` calls down to one cookie.
unfoldable pub find : Store → Host → Text → Text → Bool → Option CookieEntry
find s dom path name host_only = do
  path_map ← get dom s.cookies
  cookie_map ← get path path_map
  Scope.get_mut cookie_map name host_only

-- The chain of `entry(…).or_default()` calls, and the insertion at its end.
unfoldable pub write : DomainMap → Host → Text → Text → Bool → CookieEntry → DomainMap
write cookies dom path name host_only entry =
    let path_map = unwrap_or [] (get dom cookies) in
    let cookie_map = unwrap_or Scope.default (get path path_map) in
    insert dom (insert path (Scope.insert cookie_map name host_only entry) path_map) cookies

-- The creation index of a new entry, and the next one.
unfoldable pub creation : Store → Option CookieEntry → RawCookie → ℕ × ℕ
unfolding bump
creation s none cookie = (s.next_creation_index, bump s.next_creation_index)
creation s (some entry) cookie =
    if not (entry.cookie.value == cookie.value)
    then (s.next_creation_index, bump s.next_creation_index)
    else (entry.creation_index, s.next_creation_index)

unfoldable pub insert_stored_cookie : Store → Host → Text → RawCookie → Store
unfolding find write creation
insert_stored_cookie s dom path cookie =
    let host_only = is_none cookie.domain in
    let old = find s dom path cookie.name host_only in
    let (creation_index, next) = creation s old cookie in
    record {
      cookies =
          write s.cookies dom path cookie.name host_only
            (record { cookie = cookie; creation_index = creation_index });
      next_creation_index = next;
    }

-- The removal inside one path's map, and whether that map is then empty.
unfoldable pub remove_in_scope : CookieScopeMap → Text → Option Bool → CookieScopeMap
remove_in_scope m name (some host_only) = Scope.remove m name host_only
remove_in_scope m name none = Scope.remove_all m name

unfoldable pub remove_in_paths : PathMap → Text → Text → Option Bool → PathMap
unfolding remove_in_scope
remove_in_paths path_map path name host_only = elim (get path path_map) [
  | some m ↦
      let m' = remove_in_scope m name host_only in
      if Scope.has_no_cookie m' then remove path path_map else insert path m' path_map
  | none ↦ path_map
]

unfoldable pub remove_stored_cookie_inner : Store → Host → Text → Text → Option Bool → Store
unfolding remove_in_paths
remove_stored_cookie_inner s dom path name host_only = elim (get dom s.cookies) [
  | some path_map ↦
      let path_map' = remove_in_paths path_map path name host_only in
      record s {
        cookies =
            if is_empty path_map' then remove dom s.cookies else insert dom path_map' s.cookies;
      }
  | none ↦ s
]

unfoldable pub remove_stored_cookie : Store → Host → Text → Text → Bool → Store
unfolding remove_stored_cookie_inner
remove_stored_cookie s dom path name host_only =
    remove_stored_cookie_inner s dom path name (some host_only)

unfoldable pub remove_stored_cookies : Store → Host → Text → Text → Store
unfolding remove_stored_cookie_inner
remove_stored_cookies s dom path name = remove_stored_cookie_inner s dom path name none

-- The rules of RFC 6265, section 5.4, that select a cookie for a request.
unfoldable pub request_matches_cookie : Uri → Host → Host → Text → RawCookie → ℕ → Bool
request_matches_cookie uri request_host cookie_domain cookie_path cookie now =
    if not (is_http uri || is_https uri)
      || (not (domain_match request_host cookie_domain)
          || ((is_none cookie.domain && not (request_host == cookie_domain))
              || (not (path_match uri.path cookie_path)
                  || (cookie.secure == some true && is_http uri))))
    then Bool.false
    else not (cookie_is_expired cookie now)

unfoldable pub would_overlay_secure_cookie : Store → Text → Host → Text → ℕ → Bool
would_overlay_secure_cookie s name dom path now =
    any
      (λ stored.
        (domain_match stored.0 dom || domain_match dom stored.0)
        && any
            (λ scope.
              path_match path scope.0
              && any
                  (λ entry.
                    entry.cookie.secure == some true && not (cookie_is_expired entry.cookie now))
                  (Scope.entries scope.1 name))
            stored.1)
      s.cookies
