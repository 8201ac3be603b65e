-- ===== src/Cookie/Tests.antt =====
-- Runs of the cookie jar, and instances of its theorems.
use wreq.Base.{inr, ◌≡◌, refl, ◌↔◌, true, none, some, [], ◌∷◌, Memᴰ, any, keep, flat_map}
use wreq.Base.Eq.{list_beq, bool_eq, nat_eq, list_eq}
use wreq.Base.Map
use wreq.Base.Sort.{sort}
use wreq.Base.Maybe.{◌>>=◌}
use wreq.Base.Text.{Text, codes, starts_with, ends_with, rfind}
use wreq.Uri.{Uri, http, https, is_http, is_https}
use wreq.Cookie.Host.{
  domain, ipv4, ipv6, host_eq, domain_match, canonical_host, DomainMatches, domain_match_iff,
}
use wreq.Cookie.Path.{path_match, normalize_path}
use wreq.Cookie.Raw.{pos, negsuc, RawCookie, cookie_is_expired}
use wreq.Cookie.Scope
use wreq.Cookie.Scope.{CookieEntry}
use wreq.Cookie.Store.{
  Store, find, creation, insert_stored_cookie, remove_stored_cookie_inner, request_matches_cookie,
}
use wreq.Cookie.Store
use wreq.Cookie.Store.Matching.{
  Applies, matching_cookies, matching_cookies_complete, matching_cookies-Applies,
}
use wreq.Cookie.Jar.{Crates, resolve_domain, settle, cookie_path, add, remove}
use wreq.Cookie.Jar.Safety.{add-keeps_secure, add_only_in_domain}
use wreq.Cookie.Jar.Lifetime.{add_then_matches}
use wreq.Cookie.Jar.Views.{get, contains, len, has_no_live_cookie}
use wreq.Cookie.Jar.Header.{Cookies, compressed, uncompressed, http_11, http_2, cookies, selection}

-- All that a run of the jar computes with.
jar : Unit {0}
unfolding list_beq Map.get Map.insert Map.remove starts_with ends_with rfind is_http is_https
    domain_match canonical_host path_match normalize_path cookie_is_expired Scope.get_mut
    Scope.insert Scope.remove Scope.remove_all Scope.entries Scope.values Scope.has_no_cookie any
    keep flat_map sort find insert_stored_cookie remove_stored_cookie_inner request_matches_cookie
    Store.would_overlay_secure_cookie matching_cookies add remove resolve_domain settle cookie_path
    cookies get contains len has_no_live_cookie
jar = tt

-- Hosts are taken as names.
abbrev crates : Crates
crates = record {
  parse_host = λ t. some (domain t);
  show_host = λ h. elim h [ domain t ↦ t | ipv4 n ↦ [] | ipv6 n ↦ [] ];
  max_time = 253402300799;
  parse_cookie = λ t. none;
}

abbrev host : Text
host = codes "example.com"

abbrev secure_uri : Uri
secure_uri = record { scheme = some https; host = some host; port = none; path = codes "/a/b" }

abbrev plain_uri : Uri
plain_uri = record secure_uri { scheme = some http }

abbrev session : RawCookie
session = record {
  name = codes "sid";
  value = codes "1";
  domain = none;
  path = none;
  secure = some true;
  max_age = none;
  expires = none;
}

abbrev forged : RawCookie
forged = record session { value = codes "2"; secure = none }

abbrev short_lived : RawCookie
short_lived = record session { secure = none; max_age = some (pos 60) }

abbrev gone : RawCookie
gone = record session { secure = none; max_age = some (negsuc 0) }

abbrev held : Store
held = add crates 10 Store.default (some session) (some secure_uri)

header_run : cookies crates (λ t. true) 20 held secure_uri http_11 ≡ compressed (codes "sid=1")
unfolding jar
header_run = refl

header_runs :
    (cookies crates (λ t. true) 20 held plain_uri http_11 ≡ Cookies.empty)
    × (cookies crates (λ t. true) 20 held secure_uri http_2 ≡ uncompressed (codes "sid=1" ∷ []))
    × (len 20 held ≡ 1)
    × (contains crates 20 held (codes "sid") (some (record secure_uri { path = codes "/a" }))
        ≡ true)
unfolding jar
header_runs = (refl, refl, refl, refl)

abbrev entry : CookieEntry
entry = record { cookie = record session { path = some (codes "/a") }; creation_index = 0 }

held-find : find held (domain host) (codes "/a") (codes "sid") true ≡ some entry
unfolding jar
held-find = refl

secure_host : (secure_uri.host >>= canonical_host crates.parse_host) ≡ some (domain host)
unfolding jar
secure_host = refl

add-keeps_secure_example :
    find
      (add crates 20 held (some forged) (some plain_uri))
      (domain host)
      (codes "/a")
      (codes "sid")
      true
    ≡ some entry
add-keeps_secure_example =
    add-keeps_secure crates 20 held (some forged) plain_uri (domain host) (codes "/a") (codes "sid")
      true entry (unfold jar in refl) held-find refl (unfold jar in refl)

add_only_in_domain_example :
    find
      (add crates 20 held (some forged) (some secure_uri))
      (domain (codes "other.com"))
      (codes "/")
      (codes "sid")
      true
    ≡ find held (domain (codes "other.com")) (codes "/") (codes "sid") true
add_only_in_domain_example =
    add_only_in_domain crates 20 held (some forged) secure_uri (domain host)
      (domain (codes "other.com")) (codes "/") (codes "sid") true secure_host (unfold jar in refl)

add_then_matches_example :
    (e : CookieEntry) × (e.cookie.name ≡ codes "sid")
    × (e.cookie.value ≡ codes "1")
    × Memᴰ
        (domain host, normalize_path secure_uri.path, e)
        (matching_cookies secure_uri
          (domain host)
          99
          (add crates 10 Store.default (some session) (some secure_uri)))
add_then_matches_example =
    add_then_matches crates 10 99 Store.default session secure_uri (domain host) (codes "a/b") refl
      refl secure_host (refl, refl, refl, refl)

held-Applies : Applies secure_uri (domain host) (domain host) (codes "/a") entry.cookie 20
unfolding jar
held-Applies = record {
  scheme = inr refl;
  in_domain = refl;
  host_only = inr refl;
  in_path = refl;
  secure = inr refl;
  alive = refl;
}

matching_cookies_complete_example :
    Memᴰ (domain host, codes "/a", entry) (matching_cookies secure_uri (domain host) 20 held)
matching_cookies_complete_example =
    matching_cookies_complete secure_uri (domain host) 20 held (domain host) (codes "/a")
      (codes "sid") true entry held-find held-Applies

held-matching :
    Memᴰ (domain host, codes "/a", entry) (matching_cookies secure_uri (domain host) 20 held)
unfolding jar
held-matching = Memᴰ.head refl

matching_cookies-Applies_example :
    Applies secure_uri (domain host) (domain host) (codes "/a") entry.cookie 20
matching_cookies-Applies_example =
    matching_cookies-Applies secure_uri (domain host) 20 held (domain host) (codes "/a") entry
      held-matching

domain_match_iff_example :
    (domain_match (domain (codes "api.example.com")) (domain host) ≡ true)
    ↔ DomainMatches (domain (codes "api.example.com")) (domain host)
domain_match_iff_example = domain_match_iff (domain (codes "api.example.com")) (domain host)

held-selection : selection crates 20 held secure_uri ≡ some (entry.cookie ∷ [])
unfolding jar selection
held-selection = refl
