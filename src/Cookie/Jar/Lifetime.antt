-- ===== src/Cookie/Jar/Lifetime.antt =====
-- From the `Set-Cookie` header to the request and to the deadline: `add` of src/cookie/jar.rs.
use wreq.Base.{
  ℕ, ◌+◌, ◌≡◌, refl, ap, ◌∙◌, true, false, Option, none, some, ◌∷◌, arith, is_none, is_some_and,
  leb, min, Memᴰ,
}
use mathlib.Core.Option
use wreq.Base.Eq.{eq_refl, nat_eq, bool_eq, list_eq, option_eq}
use wreq.Base.Maybe.{◌>>=◌}
use wreq.Base.Text.{Text}
use wreq.Uri.{Uri, https, is_http, is_https}
use wreq.Cookie.Host.{Host, host_eq, canonical_host, domain_match_refl}
use wreq.Cookie.Path.{path_match, normalize_path, path_match-normalize_path}
use wreq.Cookie.Raw.{RawCookie, cookie_is_expired}
use wreq.Cookie.Scope.{CookieEntry}
use wreq.Cookie.Store.{
  Store, find, creation, insert_stored_cookie, remove_stored_cookie, request_matches_cookie,
}
use wreq.Cookie.Store.Find.{find-insert_stored_cookie, find-remove_stored_cookie_inner}
use wreq.Cookie.Store.Matching.{matching_cookies, mem-matching_cookies}
use wreq.Cookie.Jar.{
  Crates, seconds, resolve_domain, settle, cookie_path, store_cookie, try_add, add,
}

-- The moment from which a cookie that arrives at `now` is gone, if there is one.
abbrev pub deadline : Crates → ℕ → RawCookie → Option ℕ
deadline x now c = elim c.max_age [
  | some age ↦ some (min (now + seconds age) x.max_time)
  | none ↦ c.expires
]

-- A cookie that has not expired on arrival is expired at a time `t` exactly when its deadline has
-- come: `Max-Age` counted from its arrival, or else `Expires`, which `Max-Age` overrides.
settle-deadline :
    (x : Crates) (now t : ℕ) (c c' : RawCookie)
    → settle x now c ≡ (c', false)
    → cookie_is_expired c' t ≡ is_some_and (deadline x now c) (λ d. leb d t)
unfolding settle cookie_is_expired
settle-deadline x now t c c' h = ground arith

-- A cookie of a secure origin that has expired on arrival removes the stored one.
add-expired :
    (x : Crates) (now : ℕ) (s : Store) (c c' c'' : RawCookie) (u : Uri) (host dom : Host)
    → is_https u ≡ true
    → (u.host >>= canonical_host x.parse_host) ≡ some host
    → resolve_domain x host c ≡ some (dom, c')
    → settle x now c' ≡ (c'', true)
    → find (add x now s (some c) (some u)) dom (cookie_path u c'') c''.name (is_none c.domain)
      ≡ none
unfolding add try_add store_cookie remove_stored_cookie
add-expired x now s c c' c'' u host dom secure of_host resolved settled =
    rw (secure, of_host, resolved, settled)
      (ground (
        arith,
        find-remove_stored_cookie_inner s dom dom (cookie_path u c'') (cookie_path u c'') c''.name
            c''.name (some (is_none c.domain)) (is_none c.domain),
        eq_refl dom,
        eq_refl (cookie_path u c''),
        eq_refl c''.name,
        eq_refl (is_none c.domain),
      ))

-- A cookie of a secure origin that has not expired on arrival is found afterwards, with its path.
add-stored :
    (x : Crates) (now : ℕ) (s : Store) (c c' c'' : RawCookie) (u : Uri) (host dom : Host)
    → is_https u ≡ true
    → (u.host >>= canonical_host x.parse_host) ≡ some host
    → resolve_domain x host c ≡ some (dom, c')
    → settle x now c' ≡ (c'', false)
    → Option.map
        (λ e. e.cookie)
        (find (add x now s (some c) (some u)) dom (cookie_path u c'') c''.name (is_none c''.domain))
      ≡ some (record c'' { path = some (cookie_path u c'') })
unfolding add try_add store_cookie
add-stored x now s c c' c'' u host dom secure of_host resolved settled =
    rw (secure, of_host, resolved, settled)
      (ground (
        arith,
        find-insert_stored_cookie s dom dom (cookie_path u c'') (cookie_path u c'') c''.name
            (is_none c''.domain) (record c'' { path = some (cookie_path u c'') }),
        eq_refl dom,
        eq_refl (cookie_path u c''),
        eq_refl c''.name,
        eq_refl (is_none c''.domain),
      ))

abbrev pub IsPlain : RawCookie → Type 0
IsPlain c = (c.domain ≡ none) × (c.path ≡ none) × (c.max_age ≡ none) × (c.expires ≡ none)

request_matches_cookie-IsPlain :
    (u : Uri) (host : Host) (c : RawCookie) (now : ℕ) (more : Text)
    → u.scheme ≡ some https
    → u.path ≡ b'/' ∷ more
    → IsPlain c
    → request_matches_cookie u host host
        (normalize_path u.path)
        (record c { path = some (normalize_path u.path) })
        now
      ≡ true
unfolding request_matches_cookie is_https is_http cookie_is_expired
request_matches_cookie-IsPlain u host c now more scheme path plain = ground (
  arith,
  domain_match_refl host,
  eq_refl host,
  ap (λ p. path_match p (normalize_path p)) path ∙ path_match-normalize_path more,
)

abbrev with_path : Text → RawCookie → RawCookie
with_path p c = record c { path = some p }

abbrev fresh_entry : Store → Host → Text → RawCookie → CookieEntry
fresh_entry s host p c = record {
  cookie = with_path p c;
  creation_index = (creation s (find s host p c.name true) (with_path p c)).0;
}

try_add-IsPlain :
    (x : Crates) (now : ℕ) (s : Store) (c : RawCookie) (u : Uri) (host : Host)
    → u.scheme ≡ some https
    → (u.host >>= canonical_host x.parse_host) ≡ some host
    → IsPlain c
    → try_add x now s (some c) (some u)
      ≡ some (
          insert_stored_cookie s host (normalize_path u.path) (with_path (normalize_path u.path) c))
unfolding try_add store_cookie is_https resolve_domain settle cookie_path
try_add-IsPlain x now s c u host scheme of_host plain =
    let resolved : resolve_domain x host c ≡ some (host, c) = ground arith in
    let settled : settle x now c ≡ (c, false) = ground arith in
    let path : cookie_path u c ≡ normalize_path u.path = ground arith in
    let secure : is_https u ≡ true = ground arith in
    rw (secure, of_host, resolved, settled, path) (ground arith)

find-add_plain :
    (x : Crates) (now : ℕ) (s : Store) (c : RawCookie) (u : Uri) (host : Host)
    → u.scheme ≡ some https
    → (u.host >>= canonical_host x.parse_host) ≡ some host
    → IsPlain c
    → find (add x now s (some c) (some u)) host (normalize_path u.path) c.name true
      ≡ some (fresh_entry s host (normalize_path u.path) c)
unfolding add
find-add_plain x now s c u host scheme of_host plain =
    let p = normalize_path u.path in
    rw (try_add-IsPlain x now s c u host scheme of_host plain) (
      ground (
        arith,
        find-insert_stored_cookie s host host p p c.name true (with_path p c),
        eq_refl host,
        eq_refl p,
        eq_refl c.name,
      ))

-- A cookie with no `Domain`, `Path` or lifetime that an HTTPS response sets is selected for the next
-- request to the same URI, under its name and with its value, at any later time.
pub add_then_matches :
    (x : Crates) (now later : ℕ) (s : Store) (c : RawCookie) (u : Uri) (host : Host) (more : Text)
    → u.scheme ≡ some https
    → u.path ≡ b'/' ∷ more
    → (u.host >>= canonical_host x.parse_host) ≡ some host
    → IsPlain c
    → (e : CookieEntry) × (e.cookie.name ≡ c.name)
      × (e.cookie.value ≡ c.value)
      × Memᴰ
          (host, normalize_path u.path, e)
          (matching_cookies u host later (add x now s (some c) (some u)))
add_then_matches x now later s c u host more scheme path of_host plain = (
  fresh_entry s host (normalize_path u.path) c,
  refl,
  refl,
  mem-matching_cookies u host later _ host (normalize_path u.path) c.name true _
      (find-add_plain x now s c u host scheme of_host plain)
      (request_matches_cookie-IsPlain u host c later more scheme path plain),
)
