-- ===== src/Cookie/Store/Matching.antt =====
-- Selection for a request: `matching_cookies` of src/cookie/store.rs.
use wreq.Base.{
  ℕ, ◌≡◌, ◌≢◌, sym, subst, Bool, true, false, some, List, map, Memᴰ, arith, keep, flat_map,
  mem-flat_map, mem_of_mem-flat_map, mem-map, mem_of_mem-map, mem-keep, mem_of_mem-keep,
  mem-append_left, mem-append_right, is_none, ◌⊎◌,
}
use wreq.Base.Eq.{eq_iff, nat_eq, bool_eq, list_eq, option_eq}
use wreq.Base.Map.{mem_of_get}
use wreq.Base.Maybe.{>>=-eq-some}
use wreq.Base.Text.{Text}
use wreq.Uri.{Uri, is_http, is_https}
use wreq.Cookie.Host.{Host, host_eq, domain_match}
use wreq.Cookie.Path.{path_match}
use wreq.Cookie.Raw.{RawCookie, cookie_is_expired}
use wreq.Cookie.Scope
use wreq.Cookie.Scope.{CookieEntry, CookieScopeMap}
use wreq.Cookie.Store.{PathMap, Store, find, request_matches_cookie}

abbrev pub Selected : Type 0
Selected = Host × Text × CookieEntry

module _ (uri : Uri) (request_host : Host) (now : ℕ) where
  selects : Host → Text → CookieEntry → Bool
  selects dom path entry = request_matches_cookie uri request_host dom path entry.cookie now

  select_in_scope : Host → Text × CookieScopeMap → List Selected
  unfolding selects
  select_in_scope dom (path, m) =
      map (λ entry. (dom, path, entry)) (keep (selects dom path) (Scope.values m))

  select_in_domain : Host × PathMap → List Selected
  unfolding select_in_scope
  select_in_domain (dom, path_map) = flat_map (select_in_scope dom) path_map

  unfoldable pub matching_cookies : Store → List Selected
  unfolding select_in_domain
  matching_cookies s = flat_map select_in_domain s.cookies

values-get_mut :
    (m : CookieScopeMap) (n : Text) (h : Bool) {e : CookieEntry}
    → Scope.get_mut m n h ≡ some e
    → Memᴰ e (Scope.values m)
unfolding Scope.get_mut Scope.values
values-get_mut m n true q =
    mem-append_left (map (λ p. p.1) m.domain)
      (mem-map (λ (p : Text × CookieEntry). p.1) (mem_of_get n m.host_only q))
values-get_mut m n false q =
    mem-append_right (map (λ p. p.1) m.host_only)
      (mem-map (λ (p : Text × CookieEntry). p.1) (mem_of_get n m.domain q))

-- A stored cookie that passes the filter is selected.
pub mem-matching_cookies :
    (uri : Uri) (host : Host) (now : ℕ) (s : Store) (d : Host) (p n : Text) (h : Bool)
    (e : CookieEntry)
    → find s d p n h ≡ some e
    → request_matches_cookie uri host d p e.cookie now ≡ true
    → Memᴰ (d, p, e) (matching_cookies uri host now s)
unfolding find matching_cookies
mem-matching_cookies uri host now s d p n h e q r =
    let (pm, in_store, q') = >>=-eq-some _ _ q in
    let (m, in_paths, q'') = >>=-eq-some _ _ q' in
    mem-flat_map (select_in_domain uri host now) (mem_of_get d s.cookies in_store) (
      mem-flat_map (select_in_scope uri host now d) (mem_of_get p pm in_paths) (
        mem-map (λ entry. (d, p, entry))
          (mem-keep (selects uri host now d p) (values-get_mut m n h q'') r)))

-- The rules of RFC 6265, section 5.4: the scheme is HTTP or HTTPS, the domain and the path match, a
-- host-only cookie goes to its own host, a `Secure` one to no plain HTTP request, an expired one
-- nowhere.
pub record Applies (uri : Uri) (host d : Host) (p : Text) (c : RawCookie) (now : ℕ) : Type 0 where
  pub scheme : (is_http uri ≡ true) ⊎ (is_https uri ≡ true)
  pub in_domain : domain_match host d ≡ true
  pub host_only : (is_none c.domain ≡ false) ⊎ (host ≡ d)
  pub in_path : path_match uri.path p ≡ true
  pub secure : (c.secure ≢ some true) ⊎ (is_http uri ≡ false)
  pub alive : cookie_is_expired c now ≡ false

request_matches_cookie-Applies :
    (uri : Uri) (host d : Host) (p : Text) (c : RawCookie) (now : ℕ)
    → request_matches_cookie uri host d p c now ≡ true
    → Applies uri host d p c now
unfolding request_matches_cookie
request_matches_cookie-Applies uri host d p c now h = record {
  scheme = ground arith;
  in_domain = ground arith;
  host_only = ground (arith, eq_iff host d);
  in_path = ground arith;
  secure = ground (arith, eq_iff c.secure (some true));
  alive = ground arith;
}

Applies-request_matches_cookie :
    (uri : Uri) (host d : Host) (p : Text) (c : RawCookie) (now : ℕ)
    → Applies uri host d p c now
    → request_matches_cookie uri host d p c now ≡ true
unfolding request_matches_cookie
Applies-request_matches_cookie uri host d p c now a = ground (
  arith,
  a.scheme,
  a.in_domain,
  a.host_only,
  a.in_path,
  a.secure,
  a.alive,
  eq_iff host d,
  eq_iff c.secure (some true),
)

-- Every stored cookie that applies to the request by all of the rules is selected.
pub matching_cookies_complete :
    (uri : Uri) (host : Host) (now : ℕ) (s : Store) (d : Host) (p n : Text) (h : Bool)
    (e : CookieEntry)
    → find s d p n h ≡ some e
    → Applies uri host d p e.cookie now
    → Memᴰ (d, p, e) (matching_cookies uri host now s)
matching_cookies_complete uri host now s d p n h e q a =
    mem-matching_cookies uri host now s d p n h e q
      (Applies-request_matches_cookie uri host d p e.cookie now a)

-- Whatever is selected applies to the request by all of the rules.
pub matching_cookies-Applies :
    (uri : Uri) (host : Host) (now : ℕ) (s : Store) (d : Host) (p : Text) (e : CookieEntry)
    → Memᴰ (d, p, e) (matching_cookies uri host now s)
    → Applies uri host d p e.cookie now
unfolding matching_cookies
matching_cookies-Applies uri host now s d p e m =
    let (x, _, in_domain) = mem_of_mem-flat_map (select_in_domain uri host now) s.cookies m in
    let (y, _, in_scope) = mem_of_mem-flat_map (select_in_scope uri host now x.0) x.1 in_domain in
    let (e', kept, same) =
      mem_of_mem-map (λ (entry : CookieEntry). (x.0, y.0, entry))
        (keep (selects uri host now x.0 y.0) (Scope.values y.1)) in_scope in
    let passed = (mem_of_mem-keep (selects uri host now x.0 y.0) (Scope.values y.1) kept).1 in
    subst (λ (t : Selected). Applies uri host t.0 t.1 t.2.cookie now) (sym same)
      (request_matches_cookie-Applies uri host x.0 y.0 e'.cookie now passed)
