-- ===== src/Cookie/Jar/Views.antt =====
-- The readers of `Jar` in src/cookie/jar.rs: `get`, `contains`, `len`, `is_empty`, `matches`.
use wreq.Base.{
  ℕ, ◌≡◌, refl, Bool, true, false, not, Option, none, some, List, [], ◌∷◌, map, arith, is_some, any,
  keep, flat_map, length, leb, if◌then◌else◌, inl, inr, Option-cases,
}
use wreq.Base.Eq.{◌==◌, eq_refl, nat_eq, list_eq}
use wreq.Base.Map
use wreq.Base.Maybe.{◌>>=◌}
use wreq.Base.Text.{Text}
use wreq.Uri.{Uri}
use wreq.Cookie.Host.{Host, host_eq, canonical_host}
use wreq.Cookie.Raw.{RawCookie, cookie_is_expired}
use wreq.Cookie.Scope
use wreq.Cookie.Scope.{CookieEntry, CookieScopeMap}
use wreq.Cookie.Store.{Store, find, remove_stored_cookies}
use wreq.Cookie.Store.Find.{find-remove_stored_cookie_inner}
use wreq.Cookie.Store.Matching.{Selected, matching_cookies}
use wreq.Cookie.Jar.{Crates, remove}

abbrev pub unexpired : ℕ → CookieEntry → Bool
unexpired now entry = not (cookie_is_expired entry.cookie now)

-- `min_by_key(creation_index)`, which keeps the first of equal ones.
unfoldable pub min_by_key : List CookieEntry → Option CookieEntry
min_by_key [] = none
min_by_key (e ∷ es) = elim (min_by_key es) [
  | none ↦ some e
  | some f ↦ if leb e.creation_index f.creation_index then some e else some f
]

-- The map of one domain and path, by the chain of lookups that `get` and `contains` share.
unfoldable pub scope_at : Crates → Store → Option Uri → Option (Host × CookieScopeMap)
scope_at x s uri = do
  u ← uri
  host ← u.host >>= canonical_host x.parse_host
  path_map ← Map.get host s.cookies
  m ← Map.get u.path path_map
  some (host, m)

unfoldable pub get : Crates → ℕ → Store → Text → Option Uri → Option (Host × RawCookie)
unfolding scope_at min_by_key
get x now s name uri = do
  r ← scope_at x s uri
  entry ← min_by_key (keep (unexpired now) (Scope.entries r.1 name))
  some (r.0, entry.cookie)

unfoldable pub contains : Crates → ℕ → Store → Text → Option Uri → Bool
unfolding scope_at
contains x now s name uri = elim (scope_at x s uri) [
  | none ↦ false
  | some (host, m) ↦ any (unexpired now) (Scope.entries m name)
]

-- Every stored entry, in the order of the maps.
unfoldable pub all_values : Store → List CookieEntry
all_values s = flat_map (λ d. flat_map (λ p. Scope.values p.1) d.1) s.cookies

unfoldable pub len : ℕ → Store → ℕ
unfolding all_values
len now s = length (keep (unexpired now) (all_values s))

unfoldable pub has_no_live_cookie : ℕ → Store → Bool
unfolding all_values
has_no_live_cookie now s = not (any (unexpired now) (all_values s))

-- The URI with its canonical host, where it has one.
unfoldable pub with_host : Crates → Option Uri → Option (Uri × Host)
with_host x uri = do u ← uri; host ← u.host >>= canonical_host x.parse_host; some (u, host)

unfoldable pub matches : Crates → ℕ → Store → Option Uri → List (Host × RawCookie)
unfolding with_host
matches x now s uri = elim (with_host x uri) [
  | none ↦ []
  | some (u, host) ↦ map (λ (t : Selected). (t.0, t.2.cookie)) (matching_cookies u host now s)
]

min_by_key-any :
    (p : CookieEntry → Bool) (es : List CookieEntry) → is_some (min_by_key (keep p es)) ≡ any p es
unfolding min_by_key keep any
min_by_key-any p [] = refl
min_by_key-any p (e ∷ es) = ground (arith, min_by_key-any p es)

-- `contains` answers exactly whether `get` would find a cookie.
contains-get :
    (x : Crates) (now : ℕ) (s : Store) (name : Text) (uri : Option Uri)
    → contains x now s name uri ≡ is_some (get x now s name uri)
unfolding contains get
contains-get x now s name uri = elim (Option-cases (scope_at x s uri)) [
  | inl e ↦ rw (e, contains)
  | inr (r, e) ↦ rw e (ground (arith, min_by_key-any (unexpired now) (Scope.entries r.1 name)))
]

length-keep-zero :
    (p : CookieEntry → Bool) (es : List CookieEntry) → not (any p es) ≡ (length (keep p es) == 0)
unfolding keep any
length-keep-zero p [] = refl
length-keep-zero p (e ∷ es) = ground (arith, length-keep-zero p es)

-- The jar is empty exactly when its length is zero.
has_no_live_cookie-len : (now : ℕ) (s : Store) → has_no_live_cookie now s ≡ (len now s == 0)
unfolding has_no_live_cookie len
has_no_live_cookie-len now s = length-keep-zero (unexpired now) (all_values s)

contains_of_find-none :
    (x : Crates) (now : ℕ) (s : Store) (name : Text) (u : Uri) (host : Host)
    → (u.host >>= canonical_host x.parse_host) ≡ some host
    → find s host u.path name true ≡ none
    → find s host u.path name false ≡ none
    → contains x now s name (some u) ≡ false
unfolding contains find Scope.get_mut Scope.entries any
contains_of_find-none x now s name u host of_host p q =
    rw (of_host, contains, scope_at) (ground arith)

contains_of_no_host :
    (x : Crates) (now : ℕ) (s : Store) (name : Text) (u : Uri)
    → (u.host >>= canonical_host x.parse_host) ≡ none
    → contains x now s name (some u) ≡ false
unfolding contains
contains_of_no_host x now s name u no_host = rw (no_host, contains, scope_at)

contains_of_no_uri :
    (x : Crates) (now : ℕ) (s : Store) (name : Text) → contains x now s name none ≡ false
unfolding contains
contains_of_no_uri x now s name = refl

remove-host :
    (x : Crates) (s : Store) (c : RawCookie) (u : Uri) (host : Host)
    → (u.host >>= canonical_host x.parse_host) ≡ some host
    → remove x s c (some u) ≡ remove_stored_cookies s host u.path c.name
unfolding remove
remove-host x s c u host e = ground arith

gone :
    (s : Store) (d : Host) (p n : Text) (h : Bool)
    → find (remove_stored_cookies s d p n) d p n h ≡ none
unfolding remove_stored_cookies
gone s d p n h =
    ground
      (arith, find-remove_stored_cookie_inner s d d p p n n none h, eq_refl d, eq_refl p, eq_refl n)

-- A cookie that `remove` takes away is in the jar under that URI no more, host-only or not.
contains-remove :
    (x : Crates) (now : ℕ) (s : Store) (c : RawCookie) (uri : Option Uri)
    → contains x now (remove x s c uri) c.name uri ≡ false
contains-remove x now s c none = contains_of_no_uri x now _ c.name
contains-remove x now s c (some u) = elim (Option-cases (u.host >>= canonical_host x.parse_host)) [
  | inl e ↦ contains_of_no_host x now _ c.name u e
  | inr (host, e) ↦ rw (remove-host x s c u host e) (
      contains_of_find-none x now (remove_stored_cookies s host u.path c.name) c.name u host e
        (gone s host u.path c.name true) (gone s host u.path c.name false))
]
