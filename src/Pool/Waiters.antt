-- ===== src/Pool/Waiters.antt =====
-- How `put` of src/client/layer/client/pool.rs serves the requests that wait for a connection.
use wreq.Base.{
  ℕ, ◌≤◌, ◌<◌, ◌≡◌, refl, ap, ◌∙◌, ◌⊎◌, inl, inr, Bool, true, false, ◌&&◌, not, none, some, List,
  [], ◌∷◌, ◌++◌, map, arith, keep, length, All, Bool-cases, Option-cases, leb,
}
use wreq.Base.Eq.{Eq}
use wreq.Base.Map
use wreq.Pool.Crates.{shared, unique, Poolable, Channels, LruCache}
use wreq.Pool.{Idles, PoolInner, serve, serve_key, put_idle, put}
use wreq.Pool.Bounds.{idles, spawn_idle_interval-idle}

-- A waiter that a connection reaches: its receiver is not seen to be gone, and takes it.
abbrev pub is_live : Channels → ℕ → Bool
is_live ch tx = not (ch.is_closed tx) && ch.accepts tx

module _ {T : Type 0} (P : Poolable T) (ch : Channels) where
  -- What becomes of a connection that one request at a time may use.
  abbrev pub ServedOnce : T → List ℕ → Type 0
  ServedOnce v ws =
      (All (λ tx. is_live ch tx ≡ false) ws
        × (serve P ch v ws ≡ record { left = []; value = some v; sent = [] }))
      ⊎ ((gone : List ℕ) × (tx : ℕ) × (rest : List ℕ) × (ws ≡ gone ++ (tx ∷ rest))
          × All (λ t. is_live ch t ≡ false) gone
          × (is_live ch tx ≡ true)
          × (serve P ch v ws ≡ record { left = rest; value = none; sent = (tx, v) ∷ [] }))

  ServedOnce-skip :
      (v : T) (tx : ℕ) (ws : List ℕ)
      → is_live ch tx ≡ false
      → serve P ch v (tx ∷ ws) ≡ serve P ch v ws
      → ServedOnce v ws
      → ServedOnce v (tx ∷ ws)
  ServedOnce-skip v tx ws dead e (inl (all, q)) = inl ((dead, all), e ∙ q)
  ServedOnce-skip v tx ws dead e (inr (gone, t, rest, at, all, live, q)) =
      inr (tx ∷ gone, t, rest, ap (◌∷◌ tx) at, (dead, all), live, e ∙ q)

  -- A connection for one request at a time goes to the longest waiting request that still takes it,
  -- and to that one alone; the requests before it are given up, those behind it go on waiting, and
  -- where none takes it the connection is still at hand.
  serve-ServedOnce : (v : T) (ws : List ℕ) → P.reserve v ≡ unique v → ServedOnce v ws
  unfolding serve
  serve-ServedOnce v [] u = inl (tt, refl)
  serve-ServedOnce v (tx ∷ ws) u = elim (Bool-cases (is_live ch tx)) [
    | inl live ↦ inr ([], tx, ws, refl, tt, live, ground arith)
    | inr dead ↦ ServedOnce-skip v tx ws dead (ground arith) (serve-ServedOnce v ws u)
  ]

  -- A connection that requests share reaches every request that still takes it, in the order in
  -- which they came, and stays at hand.
  serve_shared :
      (v : T) (ws : List ℕ)
      → P.reserve v ≡ shared v v
      → serve P ch v ws
        ≡ record { left = []; value = some v; sent = map (λ tx. (tx, v)) (keep (is_live ch) ws) }
  unfolding serve keep
  serve_shared v [] u = refl
  serve_shared v (tx ∷ ws) u = ground (arith, serve_shared v ws u)

module _ {K T : Type 0} ⦃e : Eq K⦄ (L : LruCache K (Idles T)) (P : Poolable T) (ch : Channels) where
  -- Where `put` leaves a connection for one request at a time: with a waiter, on top of the idle
  -- list, or nowhere, as the list is full.
  abbrev pub PutOnce : ℕ → PoolInner L → K → T → Type 0
  PutOnce now p k v =
      let (q, sent) = put L P ch now p k v in
      ((tx : ℕ) × (sent ≡ (tx, v) ∷ []) × (is_live ch tx ≡ true) × (q.idle ≡ p.idle))
      ⊎ ((sent ≡ [])
          × (length (idles L p k) < p.max_idle_per_host)
          × (idles L q k ≡ record { idle_at = now; value = v } ∷ idles L p k))
      ⊎ ((sent ≡ []) × (p.max_idle_per_host ≤ length (idles L p k)) × (idles L q k ≡ idles L p k))

  put_idle_cases :
      (now : ℕ) (p : PoolInner L) (k : K) (v : T)
      → ((length (idles L p k) < p.max_idle_per_host)
          × (idles L (put_idle L now p k v) k ≡ record { idle_at = now; value = v } ∷ idles L p k))
        ⊎ ((p.max_idle_per_host ≤ length (idles L p k))
            × (idles L (put_idle L now p k v) k ≡ idles L p k))
  unfolding put_idle
  put_idle_cases now p k v =
      let list = record { idle_at = now; value = v } ∷ idles L p k in
      elim (Bool-cases (leb p.max_idle_per_host (length (idles L p k)))) [
        | inl full ↦ inr (ground arith, rw (full, L.peek-upsert_self k (idles L p k) p.idle))
        | inr room ↦ inl (
          ground arith,
          rw (
            room,
            (spawn_idle_interval-idle L (record p { idle = L.upsert k list p.idle })).0,
            L.peek-upsert_self k list p.idle,
          ),
        )
      ]

  serve_key_unique :
      (p : PoolInner L) (k : K) (v : T)
      → P.reserve v ≡ unique v
      → let (q, served) = serve_key L P ch p k v in
        (q.idle ≡ p.idle)
        × (q.max_idle_per_host ≡ p.max_idle_per_host)
        × (((served.value ≡ some v) × (served.sent ≡ []))
            ⊎ ((tx : ℕ) × (served.value ≡ none)
                × (served.sent ≡ (tx, v) ∷ [])
                × (is_live ch tx ≡ true)))
  unfolding serve_key
  serve_key_unique p k v u = elim (Option-cases (Map.get k p.waiters)) [
    | inl q ↦ rw (q, serve_key) (refl, refl, inl (refl, refl))
    | inr (ws, q) ↦ elim (serve-ServedOnce P ch v ws u) [
      | inl (_, s) ↦ rw (q, serve_key, s) (refl, refl, inl (refl, refl))
      | inr (gone, tx, rest, _, _, live, s) ↦
          rw (q, serve_key, s) (refl, refl, inr (tx, refl, refl, live))
    ]
  ]

  -- A connection for one request at a time that comes back goes to one waiter that takes it, or on
  -- top of the idle list of its host, or it is dropped because that list is full: never to two
  -- places.
  pub put-PutOnce :
      (now : ℕ) (p : PoolInner L) (k : K) (v : T)
      → P.can_share v ≡ false
      → P.reserve v ≡ unique v
      → PutOnce now p k v
  unfolding put
  put-PutOnce now p k v alone u =
      let (q, served) = serve_key L P ch p k v in
      let (idle, n, what) = serve_key_unique p k v u in
      elim what [
        | inl (kept, nobody) ↦ elim (put_idle_cases now q k v) [
          | inl (room, at) ↦ inr (inl (ground arith, ground arith, ground arith))
          | inr (full, at) ↦ inr (inr (ground arith, ground arith, ground arith))
        ]
        | inr (tx, taken, to, live) ↦ inl (tx, ground arith, live, ground arith)
      ]
