-- ===== src/Pool/Bounds.antt =====
-- The bound on idle connections of src/client/layer/client/pool.rs, over every history of calls.
use wreq.Base.{
  ℕ, ◌≤◌, ◌≡◌, ap, inl, inr, true, ◌&&◌, ◌||◌, none, some, List, [], ◌∷◌, arith, length,
  length-keep-le, Bool-cases, Option-cases, is_some, is_some_and, is_none, is_empty, keep, leb,
}
use wreq.Base.Eq.{Eq, ◌==◌, eq_iff, nat_eq}
use wreq.Base.Maybe.{unwrap_or}
use wreq.Pool.Crates.{Poolable, Channels, LruCache}
use wreq.Pool.{
  Idles, PoolInner, pop_idle, serve_key, spawn_idle_interval, put_idle, put, retain_idle, pop_all,
  clear_expired,
}
use wreq.Pool.Popping.{length-pop_idle-le}
use wreq.Pool.Handles.{Checkout, take_idle, checkout}

module _ {K T : Type 0} ⦃e : Eq K⦄ (L : LruCache K (Idles T)) where
  -- The idle connections of a key.
  abbrev pub idles : PoolInner L → K → Idles T
  idles p k = unwrap_or [] (L.peek k p.idle)

  abbrev pub Fits : ℕ → L.Cache → Type 0
  Fits n c = (k : K) → length (unwrap_or [] (L.peek k c)) ≤ n

  abbrev pub IsBounded : PoolInner L → Type 0
  IsBounded p = Fits p.max_idle_per_host p.idle

  Fits-upsert :
      (n : ℕ) (c : L.Cache) (k : K) (v : Idles T)
      → Fits n c
      → length v ≤ n
      → Fits n (L.upsert k v c)
  Fits-upsert n c k v h le j = elim (Bool-cases (k == j)) [
    | inl same ↦ rw (← (eq_iff k j).0 same, L.peek-upsert_self k v c) le
    | inr differ ↦ elim (L.peek-upsert_ne k j v c differ) [
      | inl kept ↦ rw kept (h j)
      | inr evicted ↦ rw evicted (omega arith)
    ]
  ]

  Fits-pop : (n : ℕ) (c : L.Cache) (k : K) → Fits n c → Fits n (L.pop k c)
  Fits-pop n c k h j = ground (arith, L.peek-pop k j c, h j)

  Fits-update :
      (n : ℕ) (c : L.Cache) (k : K) (v : Idles T)
      → is_some (L.peek k c) ≡ true
      → Fits n c
      → length v ≤ n
      → Fits n (L.update k v c)
  Fits-update n c k v present h le j = ground (arith, L.peek-update k j v c present, h j)

  Fits-pop_all : (n : ℕ) (ks : List K) (c : L.Cache) → Fits n c → Fits n (pop_all L ks c)
  unfolding pop_all
  Fits-pop_all n [] c h = h
  Fits-pop_all n (k ∷ ks) c h = Fits-pop_all n ks (L.pop k c) (Fits-pop n c k h)

  Fits-map_values :
      (n : ℕ) (f : Idles T → Idles T) (c : L.Cache)
      → ((v : Idles T) → length (f v) ≤ length v)
      → Fits n c
      → Fits n (L.map_values f c)
  Fits-map_values n f c shrinks h j = elim (Option-cases (L.peek j c)) [
    | inl q ↦ rw (L.peek-map_values f j c, q) (omega arith)
    | inr (v, q) ↦
        rw (L.peek-map_values f j c, q)
          (omega (arith, shrinks v, ap length (ap (unwrap_or []) q), h j))
  ]

  pub spawn_idle_interval-idle :
      (p : PoolInner L)
      → ((spawn_idle_interval L p).idle ≡ p.idle)
        × ((spawn_idle_interval L p).max_idle_per_host ≡ p.max_idle_per_host)
  unfolding spawn_idle_interval
  spawn_idle_interval-idle p = ground arith

  spawn_idle_interval-IsBounded :
      (p : PoolInner L) → IsBounded p → IsBounded (spawn_idle_interval L p)
  spawn_idle_interval-IsBounded p h j =
      let (same, n) = spawn_idle_interval-idle p in rw (same, n) (h j)

  put_idle-IsBounded :
      (now : ℕ) (p : PoolInner L) (k : K) (v : T) → IsBounded p → IsBounded (put_idle L now p k v)
  unfolding put_idle
  put_idle-IsBounded now p k v h =
      elim (Bool-cases (leb p.max_idle_per_host (length (idles p k)))) [
        | inl full ↦ λ j. rw full (Fits-upsert _ p.idle k (idles p k) h (h k) j)
        | inr room ↦ λ j. rw room (
            spawn_idle_interval-IsBounded
              (record p {
                idle = L.upsert k (record { idle_at = now; value = v } ∷ idles p k) p.idle;
              })
              (Fits-upsert _ p.idle k (record { idle_at = now; value = v } ∷ idles p k) h
                (ground arith))
              j)
      ]

  module _ (P : Poolable T) (ch : Channels) where
    serve_key-idle :
        (p : PoolInner L) (k : K) (v : T)
        → ((serve_key L P ch p k v).0.idle ≡ p.idle)
          × ((serve_key L P ch p k v).0.max_idle_per_host ≡ p.max_idle_per_host)
    unfolding serve_key
    serve_key-idle p k v = ground arith

    pub put-IsBounded :
        (now : ℕ) (p : PoolInner L) (k : K) (v : T)
        → IsBounded p
        → IsBounded (put L P ch now p k v).0
    unfolding put
    put-IsBounded now p k v h =
        let p' = (serve_key L P ch p k v).0 in
        let h' : IsBounded p' = λ j. let (same, n) = serve_key-idle p k v in rw (same, n) (h j) in
        elim (Bool-cases (P.can_share v && is_some (L.peek k p.idle))) [
          | inl there ↦ λ j. rw there (h j)
          | inr new ↦ elim (Option-cases (serve_key L P ch p k v).1.value) [
            | inl q ↦ λ j. rw (new, q) (h' j)
            | inr (w, q) ↦ λ j. rw (new, q) (put_idle-IsBounded now p' k w h' j)
          ]
        ]

    take_idle-Fits :
        (now : ℕ) (p : PoolInner L) (k : K)
        → IsBounded p
        → Fits p.max_idle_per_host (take_idle L P ch now p k).1
    unfolding take_idle
    take_idle-Fits now p k h = elim (Option-cases (L.peek k p.idle)) [
      | inl q ↦ λ j. rw (q, take_idle) (Fits-pop _ p.idle k h j)
      | inr (list, q) ↦
          let list' = (pop_idle P p.timeout now list).1 in
          let fits : Fits p.max_idle_per_host (L.update k list' p.idle) =
            Fits-update _ p.idle k list' (ap is_some q) h (
              omega (
                arith,
                length-pop_idle-le P p.timeout now list,
                ap length (ap (unwrap_or []) q),
                h k,
              )) in
          λ j.
            rw (q, take_idle)
              (elim (Bool-cases (is_none (pop_idle P p.timeout now list).0 || is_empty list')) [
                | inl gone ↦ rw gone (Fits-pop _ _ k fits j)
                | inr left ↦ rw left (fits j)
              ])
    ]

    checkout-idle :
        (tx now : ℕ) (p : PoolInner L) (c : Checkout K)
        → ((checkout L P ch tx now p c).0.idle ≡ (take_idle L P ch now p c.key).1)
          × ((checkout L P ch tx now p c).0.max_idle_per_host ≡ p.max_idle_per_host)
    unfolding checkout
    checkout-idle tx now p c = ground arith

    pub checkout-IsBounded :
        (tx now : ℕ) (p : PoolInner L) (c : Checkout K)
        → IsBounded p
        → IsBounded (checkout L P ch tx now p c).0
    checkout-IsBounded tx now p c h j =
        let (same, n) = checkout-idle tx now p c in rw (same, n) (take_idle-Fits now p c.key h j)

  unfoldable pub removed_keys : L.Cache → List K
  removed_keys c = keep (λ k. is_some_and (L.peek k c) is_empty) (L.keys c)

  pub clear_expired-idle :
      (P : Poolable T) (now dur : ℕ) (p q : PoolInner L)
      → p.timeout ≡ some dur
      → clear_expired L P now p ≡ some q
      → let c = L.map_values (retain_idle L P dur now) p.idle in
        (q.idle ≡ pop_all L (removed_keys c) c) × (q.max_idle_per_host ≡ p.max_idle_per_host)
  unfolding clear_expired removed_keys
  clear_expired-idle P now dur p q t e = ground arith

  pub clear_expired-IsBounded :
      (P : Poolable T) (now : ℕ) (p q : PoolInner L)
      → clear_expired L P now p ≡ some q
      → IsBounded p
      → IsBounded q
  unfolding clear_expired retain_idle
  clear_expired-IsBounded P now p q e h = elim (Option-cases p.timeout) [
    | inl t ↦ absurd (no_timeout t)
    | inr (dur, t) ↦ λ j.
        let (same, n) = clear_expired-idle P now dur p q t e in
        rw (same, n)
          (Fits-pop_all _ (removed_keys (L.map_values (retain_idle L P dur now) p.idle)) _
            (Fits-map_values _ (retain_idle L P dur now) p.idle (λ v. length-keep-le _ v) h) j)
  ]
    where
      no_timeout : p.timeout ≡ none → ⊥
      no_timeout t = ground arith
