-- ===== src/Cookie/Scope.antt =====
-- `CookieEntry` and `CookieScopeMap` of src/cookie/store.rs: host-only and `Domain` cookies of one
-- domain and path, kept apart.
use wreq.Base.{
  ℕ, ◌≡◌, refl, Bool, true, false, ◌&&◌, Option, none, List, [], ◌++◌, map, is_empty, if◌then◌else◌,
  arith,
}
use wreq.Base.Eq.{◌==◌, nat_eq, bool_eq, list_eq}
use wreq.Base.Map
use wreq.Base.Map.{get-insert, get-remove, get-is_empty}
use wreq.Base.Maybe.{to_list}
use wreq.Base.Text.{Text}
use wreq.Cookie.Raw.{RawCookie}

pub record CookieEntry : Type 0 where
  pub cookie : RawCookie
  pub creation_index : ℕ

abbrev pub NameMap : Type 0
NameMap = List (Text × CookieEntry)

pub record CookieScopeMap : Type 0 where
  pub host_only : NameMap
  pub domain : NameMap

-- `CookieScopeMap::default`.
abbrev pub default : CookieScopeMap
default = record { host_only = []; domain = [] }

unfoldable pub get_mut : CookieScopeMap → Text → Bool → Option CookieEntry
get_mut m name host_only = if host_only then Map.get name m.host_only else Map.get name m.domain

unfoldable pub entries : CookieScopeMap → Text → List CookieEntry
entries m name = to_list (Map.get name m.host_only) ++ to_list (Map.get name m.domain)

unfoldable pub insert : CookieScopeMap → Text → Bool → CookieEntry → CookieScopeMap
insert m name host_only entry =
    if host_only
    then record m { host_only = Map.insert name entry m.host_only }
    else record m { domain = Map.insert name entry m.domain }

unfoldable pub remove : CookieScopeMap → Text → Bool → CookieScopeMap
remove m name host_only =
    if host_only
    then record m { host_only = Map.remove name m.host_only }
    else record m { domain = Map.remove name m.domain }

unfoldable pub remove_all : CookieScopeMap → Text → CookieScopeMap
remove_all m name = record {
  host_only = Map.remove name m.host_only;
  domain = Map.remove name m.domain;
}

unfoldable pub values : CookieScopeMap → List CookieEntry
values m = map (λ p. p.1) m.host_only ++ map (λ p. p.1) m.domain

unfoldable pub has_no_cookie : CookieScopeMap → Bool
has_no_cookie m = is_empty m.host_only && is_empty m.domain

pub get_mut-insert :
    (m : CookieScopeMap) (n k : Text) (h b : Bool) (e : CookieEntry)
    → get_mut (insert m n h e) k b ≡ (if n == k && h == b then Option.some e else get_mut m k b)
unfolding get_mut insert
get_mut-insert m n k true true e = ground (arith, get-insert n k e m.host_only)
get_mut-insert m n k true false e = ground arith
get_mut-insert m n k false true e = ground arith
get_mut-insert m n k false false e = ground (arith, get-insert n k e m.domain)

pub get_mut-remove :
    (m : CookieScopeMap) (n k : Text) (h b : Bool)
    → get_mut (remove m n h) k b ≡ (if n == k && h == b then none else get_mut m k b)
unfolding get_mut remove
get_mut-remove m n k true true = ground (arith, get-remove n k m.host_only)
get_mut-remove m n k true false = ground arith
get_mut-remove m n k false true = ground arith
get_mut-remove m n k false false = ground (arith, get-remove n k m.domain)

pub get_mut-remove_all :
    (m : CookieScopeMap) (n k : Text) (b : Bool)
    → get_mut (remove_all m n) k b ≡ (if n == k then none else get_mut m k b)
unfolding get_mut remove_all
get_mut-remove_all m n k true = get-remove n k m.host_only
get_mut-remove_all m n k false = get-remove n k m.domain

pub get_mut-has_no_cookie :
    (m : CookieScopeMap) (k : Text) (b : Bool) → has_no_cookie m ≡ true → get_mut m k b ≡ none
unfolding get_mut has_no_cookie
get_mut-has_no_cookie m k true h = get-is_empty k m.host_only (ground arith)
get_mut-has_no_cookie m k false h = get-is_empty k m.domain (ground arith)

pub get_mut-default : (k : Text) (b : Bool) → get_mut default k b ≡ none
unfolding has_no_cookie
get_mut-default k b = get_mut-has_no_cookie default k b refl
