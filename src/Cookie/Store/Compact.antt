-- ===== src/Cookie/Store/Compact.antt =====
-- Stores without empty maps, under the insertion and the removal of src/cookie/store.rs.
use wreq.Base.{
  ◌≡◌, Bool, true, false, Option, [], arith, is_empty, All, inl, inr, Option-cases, Bool-cases,
}
use wreq.Base.Eq.{nat_eq, list_eq}
use wreq.Base.Map.{get, All-insert, All-remove, All-get, is_empty-insert}
use wreq.Base.Maybe.{unwrap_or}
use wreq.Base.Text.{Text}
use wreq.Cookie.Host.{Host, host_eq}
use wreq.Cookie.Raw.{RawCookie}
use wreq.Cookie.Scope
use wreq.Cookie.Scope.{CookieEntry, CookieScopeMap}
use wreq.Cookie.Store.{
  PathMap, Store, write, insert_stored_cookie, remove_in_scope, remove_in_paths,
  remove_stored_cookie_inner,
}

abbrev pub HoldsCookie : CookieScopeMap → Type 0
HoldsCookie m = Scope.has_no_cookie m ≡ false

abbrev pub HoldsPath : PathMap → Type 0
HoldsPath pm = (is_empty pm ≡ false) × All (λ p. HoldsCookie p.1) pm

abbrev pub IsCompact : Store → Type 0
IsCompact s = All (λ d. HoldsPath d.1) s.cookies

insert-HoldsCookie :
    (m : CookieScopeMap) (n : Text) (h : Bool) (e : CookieEntry)
    → HoldsCookie (Scope.insert m n h e)
unfolding Scope.has_no_cookie Scope.insert
insert-HoldsCookie m n true e = ground (arith, is_empty-insert n e m.host_only)
insert-HoldsCookie m n false e = ground (arith, is_empty-insert n e m.domain)

unwrap_or-paths :
    (s : Store) (d : Host)
    → IsCompact s
    → All (λ p. HoldsCookie p.1) (unwrap_or [] (get d s.cookies))
unwrap_or-paths s d c = elim (Option-cases (get d s.cookies)) [
  | inl e ↦ rw e tt
  | inr (pm, e) ↦ rw e ((All-get HoldsPath d s.cookies c e).1)
]

-- An insertion leaves no empty map.
insert_stored_cookie-IsCompact :
    (s : Store) (d : Host) (p : Text) (c : RawCookie)
    → IsCompact s
    → IsCompact (insert_stored_cookie s d p c)
unfolding insert_stored_cookie write
insert_stored_cookie-IsCompact s d p c h = All-insert HoldsPath d _ s.cookies h (
  is_empty-insert p _ _,
  All-insert HoldsCookie p _ _ (unwrap_or-paths s d h) (insert-HoldsCookie _ c.name _ _),
)

remove_in_paths-All :
    (pm : PathMap) (p n : Text) (o : Option Bool)
    → All (λ q. HoldsCookie q.1) pm
    → All (λ q. HoldsCookie q.1) (remove_in_paths pm p n o)
unfolding remove_in_paths
remove_in_paths-All pm p n o h = elim (Option-cases (get p pm)) [
  | inl e ↦ rw (e, remove_in_paths) h
  | inr (m, e) ↦
      rw (e, remove_in_paths)
        (elim (Bool-cases (Scope.has_no_cookie (remove_in_scope m n o))) [
          | inl gone ↦ rw gone (All-remove HoldsCookie p pm h)
          | inr left ↦ rw left (All-insert HoldsCookie p _ pm h left)
        ])
]

-- A removal leaves no empty map.
remove_stored_cookie_inner-IsCompact :
    (s : Store) (d : Host) (p n : Text) (o : Option Bool)
    → IsCompact s
    → IsCompact (remove_stored_cookie_inner s d p n o)
unfolding remove_stored_cookie_inner
remove_stored_cookie_inner-IsCompact s d p n o h = elim (Option-cases (get d s.cookies)) [
  | inl e ↦ rw (e, remove_stored_cookie_inner) h
  | inr (pm, e) ↦
      rw (e, remove_stored_cookie_inner)
        (elim (Bool-cases (is_empty (remove_in_paths pm p n o))) [
          | inl gone ↦ rw gone (All-remove HoldsPath d s.cookies h)
          | inr left ↦ rw left (
              All-insert HoldsPath d _ s.cookies h
                (left, remove_in_paths-All pm p n o (All-get HoldsPath d s.cookies h e).1))
        ])
]
