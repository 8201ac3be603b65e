-- ===== src/Pool/Crates.antt =====
-- What the connection pool of src/client/layer/client/pool.rs takes from others: the connection
-- (`trait Poolable`), the `lru` crate's cache and tokio's `oneshot` channels.
use wreq.Base.{
  ◌≡◌, ℕ, Bool, true, false, ◌⊎◌, Option, none, some, List, Memᴰ, is_some, if◌then◌else◌,
}
use wreq.Base.Eq.{Eq, ◌==◌}
use mathlib.Core.Option

pub data Reservation (T : Type 0) : Type 0 where
  shared : T → T → Reservation T
  unique : T → Reservation T

-- How the connections answer at the time of a call.
pub record Poolable (T : Type 0) : Type 0 where
  pub is_open : T → Bool
  pub reserve : T → Reservation T
  pub can_share : T → Bool

-- The senders of `oneshot` channels, by number: whether the receiver is seen to be gone, and whether
-- a `send` reaches it, which the receiver's task decides.
pub record Channels : Type 0 where
  pub is_closed : ℕ → Bool
  pub accepts : ℕ → Bool

-- `lru::LruCache`. `update k v` is the cache after a write of `v` through `get_mut(k)`, and
-- `upsert k v` that after a write through `get_or_insert_mut(k, …)`, which may evict another key.
-- `map_values` is a pass of `iter_mut`. `empty` is `LruCache::new`, or `LruCache::unbounded` where no
-- capacity is given.
pub record LruCache (K V : Type 0) ⦃e : Eq K⦄ : Type 1 where
  pub Cache : Type 0
  pub empty : Option ℕ → Cache
  pub peek : K → Cache → Option V
  pub update : K → V → Cache → Cache
  pub upsert : K → V → Cache → Cache
  pub pop : K → Cache → Cache
  pub map_values : (V → V) → Cache → Cache
  pub keys : Cache → List K
  pub peek-empty : (capacity : Option ℕ) (k : K) → peek k (empty capacity) ≡ none
  pub peek-update :
      (k j : K) (v : V) (c : Cache)
      → is_some (peek k c) ≡ true
      → peek j (update k v c) ≡ (if k == j then some v else peek j c)
  pub peek-upsert_self : (k : K) (v : V) (c : Cache) → peek k (upsert k v c) ≡ some v
  pub peek-upsert_ne :
      (k j : K) (v : V) (c : Cache)
      → (k == j) ≡ false
      → (peek j (upsert k v c) ≡ peek j c) ⊎ (peek j (upsert k v c) ≡ none)
  pub peek-pop : (k j : K) (c : Cache) → peek j (pop k c) ≡ (if k == j then none else peek j c)
  pub peek-map_values :
      (f : V → V) (k : K) (c : Cache) → peek k (map_values f c) ≡ Option.map f (peek k c)
  pub mem-keys : (k : K) (c : Cache) {v : V} → peek k c ≡ some v → Memᴰ k (keys c)
