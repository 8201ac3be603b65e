-- ===== src/Cookie/Store/Find.antt =====
-- What the stored cookies are after an insertion or a removal: `insert_stored_cookie`,
-- `remove_stored_cookie` and `remove_stored_cookies` of src/cookie/store.rs.
use wreq.Base.{
  ℕ, ◌≡◌, refl, Bool, true, ◌&&◌, Option, none, some, [], arith, is_none, is_empty, if◌then◌else◌,
  inl, inr, Option-cases,
}
use wreq.Base.Eq.{◌==◌, eq_iff, nat_eq, bool_eq, list_eq}
use wreq.Base.Map.{get, insert, get-insert, get-remove, get-is_empty}
use wreq.Base.Maybe.{◌>>=◌, unwrap_or}
use wreq.Base.Text.{Text}
use wreq.Cookie.Host.{Host, host_eq}
use wreq.Cookie.Raw.{RawCookie}
use wreq.Cookie.Scope
use wreq.Cookie.Scope.{
  CookieEntry, CookieScopeMap, get_mut-insert, get_mut-remove, get_mut-remove_all,
  get_mut-has_no_cookie, get_mut-default,
}
use wreq.Cookie.Store.{
  PathMap, Store, find, write, creation, insert_stored_cookie, remove_in_scope, remove_in_paths,
  remove_stored_cookie_inner,
}

-- `find` below one domain.
abbrev find_in : PathMap → Text → Text → Bool → Option CookieEntry
find_in path_map path name host_only = get path path_map >>= λ m. Scope.get_mut m name host_only

find_in-insert :
    (pm : PathMap) (p p' n n' : Text) (h h' : Bool) (e : CookieEntry)
    → find_in (insert p (Scope.insert (unwrap_or Scope.default (get p pm)) n h e) pm) p' n' h'
      ≡ (if p == p' && (n == n' && h == h') then some e else find_in pm p' n' h')
find_in-insert pm p p' n n' h h' e = ground (
  arith,
  get-insert p p' (Scope.insert (unwrap_or Scope.default (get p pm)) n h e) pm,
  get_mut-insert (unwrap_or Scope.default (get p pm)) n n' h h' e,
  eq_iff p p',
  get_mut-default n' h',
)

find_in-nil : (p n : Text) (h : Bool) → find_in [] p n h ≡ none
unfolding get
find_in-nil p n h = refl

find-write :
    (s : Store) (d d' : Host) (p p' n n' : Text) (h h' : Bool) (e : CookieEntry) (next : ℕ)
    → find (record { cookies = write s.cookies d p n h e; next_creation_index = next }) d' p' n' h'
      ≡ (if d == d' && (p == p' && (n == n' && h == h')) then some e else find s d' p' n' h')
unfolding find write
find-write s d d' p p' n n' h h' e next =
    let pm = unwrap_or [] (get d s.cookies) in
    let m = unwrap_or Scope.default (get p pm) in
    ground (
      arith,
      get-insert d d' (insert p (Scope.insert m n h e) pm) s.cookies,
      find_in-insert pm p p' n n' h h' e,
      eq_iff d d',
      find_in-nil p' n' h',
    )

-- After an insertion the cookie is found in its domain, path, name and host-only scope, with the
-- creation index of an old entry of the same value or else the store's next one, and every other
-- cookie is as before.
pub find-insert_stored_cookie :
    (s : Store) (d d' : Host) (p p' n' : Text) (h' : Bool) (c : RawCookie)
    → find (insert_stored_cookie s d p c) d' p' n' h' ≡ (
        if d == d' && (p == p' && (c.name == n' && is_none c.domain == h'))
        then some (record {
          cookie = c;
          creation_index = (creation s (find s d p c.name (is_none c.domain)) c).0;
        })
        else find s d' p' n' h')
unfolding insert_stored_cookie
find-insert_stored_cookie s d d' p p' n' h' c =
    find-write s d d' p p' c.name n' (is_none c.domain) h'
      (record {
        cookie = c;
        creation_index = (creation s (find s d p c.name (is_none c.domain)) c).0;
      })
      (creation s (find s d p c.name (is_none c.domain)) c).1

-- Whether a removal with this scope takes a cookie of the other scope.
abbrev pub covers : Option Bool → Bool → Bool
covers none h = true
covers (some b) h = b == h

get_mut-remove_in_scope :
    (m : CookieScopeMap) (n n' : Text) (o : Option Bool) (h : Bool)
    → Scope.get_mut (remove_in_scope m n o) n' h
      ≡ (if n == n' && covers o h then none else Scope.get_mut m n' h)
unfolding remove_in_scope
get_mut-remove_in_scope m n n' none h = ground (arith, get_mut-remove_all m n n' h)
get_mut-remove_in_scope m n n' (some b) h = get_mut-remove m n n' b h

find_in-remove_in_paths :
    (pm : PathMap) (p p' n n' : Text) (o : Option Bool) (h : Bool)
    → find_in (remove_in_paths pm p n o) p' n' h
      ≡ (if p == p' && (n == n' && covers o h) then none else find_in pm p' n' h)
unfolding remove_in_paths
find_in-remove_in_paths pm p p' n n' o h = elim (Option-cases (get p pm)) [
  | inl e ↦ rw (e, remove_in_paths) (ground (arith, eq_iff p p'))
  | inr (m, e) ↦
      rw (e, remove_in_paths)
        (ground (
          arith,
          get-insert p p' (remove_in_scope m n o) pm,
          get-remove p p' pm,
          eq_iff p p',
          get_mut-remove_in_scope m n n' o h,
          get_mut-has_no_cookie (remove_in_scope m n o) n' h,
        ))
]

find_in-is_empty :
    (pm : PathMap) (p n : Text) (h : Bool) → is_empty pm ≡ true → find_in pm p n h ≡ none
find_in-is_empty pm p n h e = ground (arith, get-is_empty p pm e)

-- A removal takes exactly the cookies of its domain, path and name in the scopes that it covers.
pub find-remove_stored_cookie_inner :
    (s : Store) (d d' : Host) (p p' n n' : Text) (o : Option Bool) (h : Bool)
    → find (remove_stored_cookie_inner s d p n o) d' p' n' h
      ≡ (if d == d' && (p == p' && (n == n' && covers o h)) then none else find s d' p' n' h)
unfolding remove_stored_cookie_inner find
find-remove_stored_cookie_inner s d d' p p' n n' o h = elim (Option-cases (get d s.cookies)) [
  | inl e ↦ rw (e, remove_stored_cookie_inner) (ground (arith, eq_iff d d'))
  | inr (pm, e) ↦
      rw (e, remove_stored_cookie_inner)
        (ground (
          arith,
          get-insert d d' (remove_in_paths pm p n o) s.cookies,
          get-remove d d' s.cookies,
          eq_iff d d',
          find_in-remove_in_paths pm p p' n n' o h,
          find_in-is_empty (remove_in_paths pm p n o) p' n' h,
        ))
]
