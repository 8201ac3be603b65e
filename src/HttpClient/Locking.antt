-- ===== src/HttpClient/Locking.antt =====
-- The lock that `connect_to` of src/client/layer/client.rs takes on a key of the pool.
use wreq.Base.{ℕ, ◌≡◌, refl, Bool, true, false, none, some, any, inl, inr, Bool-cases}
use wreq.Base.Eq.{Eq, ◌==◌}
use wreq.Base.Results.{Result, ok, err}
use wreq.Pool.{Idles, PoolInner, put, connected}
use wreq.Pool.Crates.{Reservation, shared, unique, Poolable, Channels, LruCache}
use wreq.Pool.Handles
use wreq.Pool.Handles.{
  Ver, auto, http2, ver_is_http2, Connecting, connecting, drop_connecting, pooled,
}
use wreq.Pool.History.{any-filter, any-head}
use wreq.HttpClient.{Crates, Connected, PoolClient, Error, new_error, canceled}
use wreq.HttpClient.Connecting.{Made, connected_to, alpn_h2, shaken, poolable, is_negotiated_h2}

module _ {K T : Type 0} ⦃e : Eq K⦄ (L : LruCache K (Idles T)) where
  -- No HTTP/2 connection to the key is being made.
  abbrev pub IsFree : K → Handles.Pool L → Type 0
  IsFree key none = Unit {0}
  IsFree key (some p) = any (λ k. k == key) p.connecting ≡ false

  drop_connecting-IsFree :
      (pool : Handles.Pool L) (c : Connecting K)
      → c.pool ≡ true
      → IsFree c.key (drop_connecting L pool c)
  unfolding drop_connecting connected
  drop_connecting-IsFree none c h = tt
  drop_connecting-IsFree (some p) c h = rw h (any-filter L c.key p.connecting)

  pooled-IsFree :
      (P : Poolable T) (ch : Channels) (now : ℕ) (pool : Handles.Pool L) (c : Connecting K) (v : T)
      → c.pool ≡ true
      → IsFree c.key (pooled L P ch now pool c v).0
  unfolding pooled connected
  pooled-IsFree P ch now none c v h = tt
  pooled-IsFree P ch now (some p) c v h = go (P.reserve v) refl
    where
      go : (r : Reservation T) → P.reserve v ≡ r → IsFree c.key (pooled L P ch now (some p) c v).0
      go (shared a b) q =
          rw (q, pooled) (any-filter L c.key (put L P ch now p c.key a).0.connecting)
      go (unique a) q = rw (q, pooled) (drop_connecting-IsFree (some p) c h)

module _ (x : Crates) {K : Type 0} ⦃e : Eq K⦄ (L : LruCache K (Idles (PoolClient x))) where
  -- However the making of a connection ends, the lock that it took on its key is free again: after an
  -- error of the connector, and after the handshake, whether it failed or not.
  pub lock_is_freed :
      (ch : Channels) (now : ℕ) (pool : Handles.Pool L) (lock : Connecting K)
      → lock.pool ≡ true
      → ((upgraded src : x.BoxError) (ver : Ver)
          → IsFree L lock.key (connected_to x L upgraded pool lock ver (err src)).0)
        × ((info : Connected x) (is_h2 : Bool) (tx : Result x.BoxError x.Sender)
            → IsFree L lock.key
                (shaken x L ch now pool
                  (record { lock = lock; conn_info = info; is_h2 = is_h2 })
                  tx).0)
  unfolding connected_to shaken
  lock_is_freed ch now pool lock h =
      (λ upgraded src ver. drop_connecting-IsFree L pool lock h, shaken-IsFree)
    where
      shaken-IsFree :
          (info : Connected x) (is_h2 : Bool) (tx : Result x.BoxError x.Sender)
          → IsFree L lock.key
              (shaken x L ch now pool
                (record { lock = lock; conn_info = info; is_h2 = is_h2 })
                tx).0
      shaken-IsFree info is_h2 (ok a) = pooled-IsFree L (poolable x) ch now pool lock _ h
      shaken-IsFree info is_h2 (err a) = drop_connecting-IsFree L pool lock h

  -- How a connection made as HTTP/1 goes on where its server chose HTTP/2.
  abbrev pub IsUpgraded :
      x.BoxError
      → PoolInner L
      → Connecting K
      → Handles.Pool L × Result (Error x) (Made x L)
      → Type 0
  IsUpgraded upgraded p lock (none, r) = ⊥
  IsUpgraded upgraded p lock (some q, ok made) =
      (any (λ k. k == lock.key) p.connecting ≡ false)
      × (any (λ k. k == lock.key) q.connecting ≡ true)
      × (made.is_h2 ≡ true)
      × (made.lock ≡ record { key = lock.key; pool = true })
  IsUpgraded upgraded p lock (some q, err failure) =
      (any (λ k. k == lock.key) p.connecting ≡ true)
      × (q ≡ p)
      × (failure ≡ new_error x canceled upgraded)

  -- A connection whose server chose HTTP/2, which it was not made for: where no HTTP/2 connection to
  -- its key is being made, it takes the lock and goes on as HTTP/2; where one is, it is canceled and
  -- the pool stays.
  pub connected_to-IsUpgraded :
      (upgraded : x.BoxError) (p : PoolInner L) (lock : Connecting K) (info : Connected x)
      → lock.pool ≡ false
      → is_negotiated_h2 x info ≡ true
      → IsUpgraded upgraded p lock (connected_to x L upgraded (some p) lock auto (ok info))
  unfolding connected_to alpn_h2 connecting drop_connecting
  connected_to-IsUpgraded upgraded p lock info h n =
      elim (Bool-cases (any (λ k. k == lock.key) p.connecting)) [
        | inl busy ↦ rw (n, busy, h) (busy, refl, refl)
        | inr free ↦ rw (n, free, h) (free, any-head L lock.key p.connecting, n, refl)
      ]
