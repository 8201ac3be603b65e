-- ===== src/Headers.antt =====
-- The headers of src/header.rs, `replace_headers` of src/util.rs and the service of
-- src/client/layer/config.rs. `http::HeaderMap` is a parameter.
use wreq.Base.{
  ℕ, ◌≡◌, List, [], ◌∷◌, ◌++◌, map, Bool, true, false, not, Option, none, some, is_empty, any,
  flat_map, All, if◌then◌else◌,
}
use wreq.Base.Eq.{◌==◌, list_eq, nat_eq}
use wreq.Base.Text.{Text}
pub mod Groups
pub mod Replacing
pub mod Listed
pub mod Original
pub mod Visiting
pub mod Service
mod Tests

-- A `HeaderName` is its lower-case text.
abbrev pub HeaderName : Type 0
HeaderName = Text

abbrev pub has_name : HeaderName → List HeaderName → Bool
has_name k ks = any (λ j. j == k) ks

abbrev pub AreDistinct : List HeaderName → Type 0
AreDistinct [] = Unit {0}
AreDistinct (k ∷ ks) = (has_name k ks ≡ false) × AreDistinct ks

-- The values of a header as `IntoIter` and `Drain` yield them: the name comes with the first alone.
abbrev pub group : {V : Type 0} → HeaderName → List V → List (Option HeaderName × V)
group k [] = []
group k (v ∷ vs) = (some k, v) ∷ map (λ w. (none, w)) vs

-- `http::HeaderMap<V>`; `entries` is what `into_iter` and `drain` yield.
pub record HeaderMaps (V : Type 0) : Type 1 where
  pub Map : Type 0
  pub empty : Map
  pub keys : Map → List HeaderName
  pub get_all : HeaderName → Map → List V
  pub insert : HeaderName → V → Map → Map
  pub append : HeaderName → V → Map → Map
  pub remove : HeaderName → Map → Map
  pub entries : Map → List (Option HeaderName × V)
  pub get_all-empty : (j : HeaderName) → get_all j empty ≡ []
  pub get_all-insert :
      (k j : HeaderName) (v : V) (m : Map)
      → get_all j (insert k v m) ≡ (if k == j then v ∷ [] else get_all j m)
  pub get_all-append :
      (k j : HeaderName) (v : V) (m : Map)
      → get_all j (append k v m) ≡ (if k == j then get_all j m ++ (v ∷ []) else get_all j m)
  pub get_all-remove :
      (k j : HeaderName) (m : Map) → get_all j (remove k m) ≡ (if k == j then [] else get_all j m)
  pub keys-AreDistinct : (m : Map) → AreDistinct (keys m)
  pub has_name-keys :
      (j : HeaderName) (m : Map) → has_name j (keys m) ≡ not (is_empty (get_all j m))
  pub entries_eq : (m : Map) → entries m ≡ flat_map (λ k. group k (get_all k m)) (keys m)
