-- ===== src/Pool/Listed.antt =====
-- A cache that never evicts, as an association list: it shows that the laws of `LruCache` can hold.
use mathlib.Core.Option
use wreq.Base.{
  ℕ, ◌≡◌, refl, ◌⊎◌, inl, true, false, none, some, List, [], ◌∷◌, map, Memᴰ, arith, is_some,
  mem-map, if◌then◌else◌,
}
use wreq.Base.Eq.{◌==◌, nat_eq, eq_refl}
use wreq.Base.Map
use wreq.Base.Map.{get-insert, get-remove, mem_of_get}
use wreq.Pool.Crates.{LruCache}

module _ {V : Type 0} where
  unfoldable pub map_all : (V → V) → List (ℕ × V) → List (ℕ × V)
  map_all f [] = []
  map_all f ((k, v) ∷ c) = (k, f v) ∷ map_all f c

  pub peek-map_all :
      (f : V → V) (k : ℕ) (c : List (ℕ × V)) → Map.get k (map_all f c) ≡ Option.map f (Map.get k c)
  unfolding map_all Map.get
  peek-map_all f k [] = refl
  peek-map_all f k ((j, v) ∷ c) = ground (arith, peek-map_all f k c)

  pub peek-nil : (k : ℕ) → Map.get {V = V} k [] ≡ none
  unfolding Map.get
  peek-nil k = refl

  pub peek-update :
      (k j : ℕ) (v : V) (c : List (ℕ × V))
      → is_some (Map.get k c) ≡ true
      → Map.get j (Map.insert k v c) ≡ (if k == j then some v else Map.get j c)
  peek-update k j v c h = get-insert k j v c

  pub peek-upsert_self : (k : ℕ) (v : V) (c : List (ℕ × V)) → Map.get k (Map.insert k v c) ≡ some v
  peek-upsert_self k v c = ground (arith, get-insert k k v c, eq_refl k)

  pub peek-upsert_ne :
      (k j : ℕ) (v : V) (c : List (ℕ × V))
      → (k == j) ≡ false
      → (Map.get j (Map.insert k v c) ≡ Map.get j c) ⊎ (Map.get j (Map.insert k v c) ≡ none)
  peek-upsert_ne k j v c h = inl (ground (arith, get-insert k j v c))

  pub mem-keys :
      (k : ℕ) (c : List (ℕ × V)) {v : V} → Map.get k c ≡ some v → Memᴰ k (map (λ p. p.0) c)
  mem-keys k c h = mem-map (λ (p : ℕ × V). p.0) (mem_of_get k c h)

  abbrev pub listed : LruCache ℕ V
  listed = record {
    Cache = List (ℕ × V);
    empty = λ capacity. [];
    peek = Map.get;
    update = Map.insert;
    upsert = Map.insert;
    pop = Map.remove;
    map_values = map_all;
    keys = map (λ p. p.0);
    peek-empty = λ capacity k. peek-nil k;
    peek-update = peek-update;
    peek-upsert_self = peek-upsert_self;
    peek-upsert_ne = peek-upsert_ne;
    peek-pop = get-remove;
    peek-map_values = peek-map_all;
    mem-keys = λ k c h. mem-keys k c h;
  }
