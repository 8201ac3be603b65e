-- ===== src/Cookie/Jar/Safety.antt =====
-- What a response may change in the jar of src/cookie/jar.rs.
use wreq.Base.{
  ℕ, ◌≡◌, refl, Bool, true, false, ◌&&◌, not, Option, none, some, arith, is_none, any, any_of_mem,
  mem-append_right, Memᴰ, ◌⊎◌, inl, inr, Option-cases,
}
use wreq.Base.Eq.{◌==◌, eq_iff, nat_eq, bool_eq, list_eq, option_eq}
use wreq.Base.Map
use wreq.Base.Map.{mem_of_get}
use wreq.Base.Maybe.{◌>>=◌, guard, >>=-eq-some, to_list}
use wreq.Base.Text.{Text}
use wreq.Uri.{Uri, is_https}
use wreq.Cookie.Host.{Host, host_eq, canonical_host, domain_match, domain_match_refl}
use wreq.Cookie.Path.{path_match, path_match_refl}
use wreq.Cookie.Raw.{RawCookie, cookie_is_expired}
use wreq.Cookie.Scope
use wreq.Cookie.Scope.{CookieEntry, CookieScopeMap}
use wreq.Cookie.Store.{Store, find, remove_stored_cookie, would_overlay_secure_cookie}
use wreq.Cookie.Store.Find.{find-insert_stored_cookie, find-remove_stored_cookie_inner}
use wreq.Cookie.Jar.{Crates, resolve_domain, settle, cookie_path, store_cookie, try_add, add}

mem-entries :
    (m : CookieScopeMap) (n : Text) (h : Bool) {e : CookieEntry}
    → Scope.get_mut m n h ≡ some e
    → Memᴰ e (Scope.entries m n)
unfolding Scope.get_mut Scope.entries
mem-entries m n true {e} q = rw q (Memᴰ.head refl)
mem-entries m n false {e} q =
    mem-append_right (to_list (Map.get n m.host_only)) (rw q (Memᴰ.head refl))

-- A live `Secure` cookie is noticed at its own domain and path.
would_overlay_secure_cookie_own :
    (s : Store) (d : Host) (p n : Text) (h : Bool) (e : CookieEntry) (now : ℕ)
    → find s d p n h ≡ some e
    → e.cookie.secure ≡ some true
    → cookie_is_expired e.cookie now ≡ false
    → would_overlay_secure_cookie s n d p now ≡ true
unfolding find would_overlay_secure_cookie
would_overlay_secure_cookie_own s d p n h e now q secure alive =
    let (pm, in_store, q') = >>=-eq-some _ _ q in
    let (m, in_paths, q'') = >>=-eq-some _ _ q' in
    any_of_mem _ (mem_of_get d s.cookies in_store) (
      ground (
        arith,
        domain_match_refl d,
        any_of_mem
            (λ (scope : Text × CookieScopeMap).
              path_match p scope.0
              && any
                  (λ entry.
                    entry.cookie.secure == some true && not (cookie_is_expired entry.cookie now))
                  (Scope.entries scope.1 n))
            (mem_of_get p pm in_paths)
            (ground (
              arith,
              path_match_refl p,
              any_of_mem
                  (λ (entry : CookieEntry).
                    entry.cookie.secure == some true && not (cookie_is_expired entry.cookie now))
                  (mem-entries m n h q'') (ground arith),
            )),
      ))

module _ (x : Crates) (now : ℕ) (s s' : Store) where
  -- What `add` went through when it changed the jar.
  pub record Accepted (cookie : Option RawCookie) (uri : Option Uri) : Type 0 where
    pub c : RawCookie
    pub u : Uri
    pub host : Host
    pub dom : Host
    pub c' : RawCookie
    pub given : cookie ≡ some c
    pub from : uri ≡ some u
    pub of_host : (u.host >>= canonical_host x.parse_host) ≡ some host
    pub resolved : resolve_domain x host c ≡ some (dom, c')
    pub stored :
        store_cookie s
          (is_https u)
          now
          (is_none c.domain)
          dom
          (cookie_path u (settle x now c').0)
          (settle x now c')
        ≡ some s'

  try_add-Accepted :
      (cookie : Option RawCookie) (uri : Option Uri)
      → try_add x now s cookie uri ≡ some s'
      → Accepted cookie uri
  unfolding try_add
  try_add-Accepted none uri h = cc
  try_add-Accepted (some c) none h = cc
  try_add-Accepted (some c) (some u) h =
      let (_, _, h₁) = >>=-eq-some (guard (not (c.secure == some true && not (is_https u)))) _ h in
      let (host, of_host, h₂) = >>=-eq-some (u.host >>= canonical_host x.parse_host) _ h₁ in
      let (r, resolved, stored) = >>=-eq-some (resolve_domain x host c) _ h₂ in
      record {
        c = c;
        u = u;
        host = host;
        dom = r.0;
        c' = r.1;
        given = refl;
        from = refl;
        of_host = of_host;
        resolved = resolved;
        stored = stored;
      }

resolve_domain-domain_match :
    (x : Crates) (host dom : Host) (c c' : RawCookie)
    → resolve_domain x host c ≡ some (dom, c')
    → domain_match host dom ≡ true
unfolding resolve_domain
resolve_domain-domain_match x host dom c c' h = ground (arith, domain_match_refl host)

store_cookie_cases :
    (s s' : Store) (safe : Bool) (now : ℕ) (ho : Bool) (dom d : Host) (path p n : Text) (h : Bool)
    (r : RawCookie × Bool)
    → store_cookie s safe now ho dom path r ≡ some s'
    → (find s' d p n h ≡ find s d p n h)
      ⊎ ((dom ≡ d)
          × (path ≡ p)
          × (r.0.name ≡ n)
          × ((safe ≡ true) ⊎ (would_overlay_secure_cookie s n d p now ≡ false)))
unfolding store_cookie remove_stored_cookie
store_cookie_cases s s' safe now ho dom d path p n h (c, expired) e = ground (
  arith,
  find-insert_stored_cookie s dom d path p n h (record c { path = some path }),
  find-remove_stored_cookie_inner s dom d path p c.name n (some ho) h,
  eq_iff dom d,
  eq_iff path p,
  eq_iff c.name n,
)

-- A response over plain HTTP, whatever it says, leaves every live `Secure` cookie of the jar as it
-- is: it neither replaces nor removes one.
pub add-keeps_secure :
    (x : Crates) (now : ℕ) (s : Store) (cookie : Option RawCookie) (u : Uri) (d : Host) (p n : Text)
    (h : Bool) (e : CookieEntry)
    → is_https u ≡ false
    → find s d p n h ≡ some e
    → e.cookie.secure ≡ some true
    → cookie_is_expired e.cookie now ≡ false
    → find (add x now s cookie (some u)) d p n h ≡ some e
unfolding add
add-keeps_secure x now s cookie u d p n h e plain stored secure alive =
    elim (Option-cases (try_add x now s cookie (some u))) [
      | inl q ↦ rw q stored
      | inr (s', q) ↦
          let a = try_add-Accepted x now s s' cookie (some u) q in
          rw q (
            ground (
              arith,
              store_cookie_cases s s' (is_https a.u) now (is_none a.c.domain) a.dom d
                  (cookie_path a.u (settle x now a.c').0) p n h (settle x now a.c') a.stored,
              would_overlay_secure_cookie_own s d p n h e now stored secure alive,
              a.from,
            ))
    ]

-- A response changes only cookies of a domain that the host of its URI domain-matches, so a site
-- sets and removes no cookie of a foreign domain.
pub add_only_in_domain :
    (x : Crates) (now : ℕ) (s : Store) (cookie : Option RawCookie) (u : Uri) (host : Host)
    (d : Host) (p n : Text) (h : Bool)
    → (u.host >>= canonical_host x.parse_host) ≡ some host
    → domain_match host d ≡ false
    → find (add x now s cookie (some u)) d p n h ≡ find s d p n h
unfolding add
add_only_in_domain x now s cookie u host d p n h of_host foreign =
    elim (Option-cases (try_add x now s cookie (some u))) [
      | inl q ↦ rw q
      | inr (s', q) ↦
          let a = try_add-Accepted x now s s' cookie (some u) q in
          rw q (
            ground (
              arith,
              store_cookie_cases s s' (is_https a.u) now (is_none a.c.domain) a.dom d
                  (cookie_path a.u (settle x now a.c').0) p n h (settle x now a.c') a.stored,
              resolve_domain-domain_match x a.host a.dom a.c a.c' a.resolved,
              a.of_host,
              a.from,
            ))
    ]
