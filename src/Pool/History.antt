-- ===== src/Pool/History.antt =====
-- Histories of the pool of src/client/layer/client/pool.rs: each call takes the lock, so a history
-- is a sequence of whole calls, between which connections and waiters may change as they like.
use wreq.Base.{
  ℕ, ◌≡◌, refl, sym, subst, Bool, Bool-cases, inl, inr, ltb, ap, ◌∙◌, ◌≤◌, length, true, false,
  none, some, List, [], ◌∷◌, arith, any, keep, not, is_some,
}
use wreq.Base.Eq.{Eq, ◌==◌, eq_refl}
use wreq.Base.Maybe.{unwrap_or}
use wreq.Pool.Crates.{Poolable, Channels, LruCache}
use wreq.Pool.{
  Idles, PoolInner, spawn_idle_interval, put_idle, serve_key, put, connected, clean_waiters,
  clear_expired,
}
use wreq.Pool.Handles.{
  Checkout, checkout, Config, new, Ver, http2, Connecting, connecting, drop_connecting,
}
use wreq.Pool.Bounds.{IsBounded, put-IsBounded, checkout-IsBounded, clear_expired-IsBounded}

module _ {K T : Type 0} ⦃e : Eq K⦄ (L : LruCache K (Idles T)) where
  -- A call that changes the pool's state.
  pub data Step (p q : PoolInner L) : Type 0 where
    puts :
        (P : Poolable T) (ch : Channels) (now : ℕ) (key : K) (value : T)
        → q ≡ (put L P ch now p key value).0
        → Step p q
    checks_out :
        (P : Poolable T) (ch : Channels) (tx now : ℕ) (c : Checkout K)
        → q ≡ (checkout L P ch tx now p c).0
        → Step p q
    connects : (key : K) (ver : Ver) → some q ≡ (connecting L (some p) key ver).0 → Step p q
    drops_connecting : (c : Connecting K) → some q ≡ drop_connecting L (some p) c → Step p q
    cleans : (ch : Channels) (key : K) → q ≡ clean_waiters L ch p key → Step p q
    evicts : (P : Poolable T) (now : ℕ) → clear_expired L P now p ≡ some q → Step p q

  pub data Reach (p : PoolInner L) : PoolInner L → Type 0 where
    here : Reach p p
    next : {q r : PoolInner L} → Reach p q → Step q r → Reach p r

  connecting-idle :
      (p q : PoolInner L) (key : K) (ver : Ver)
      → some q ≡ (connecting L (some p) key ver).0
      → (q.idle ≡ p.idle) × (q.max_idle_per_host ≡ p.max_idle_per_host)
  unfolding connecting
  connecting-idle p q key ver h = ground arith

  drop_connecting-idle :
      (p q : PoolInner L) (c : Connecting K)
      → some q ≡ drop_connecting L (some p) c
      → (q.idle ≡ p.idle) × (q.max_idle_per_host ≡ p.max_idle_per_host)
  unfolding drop_connecting connected
  drop_connecting-idle p q c h = ground arith

  clean_waiters-idle :
      (ch : Channels) (p : PoolInner L) (key : K)
      → ((clean_waiters L ch p key).idle ≡ p.idle)
        × ((clean_waiters L ch p key).max_idle_per_host ≡ p.max_idle_per_host)
  unfolding clean_waiters
  clean_waiters-idle ch p key = ground arith

  IsBounded-same :
      (p q : PoolInner L)
      → (q.idle ≡ p.idle) × (q.max_idle_per_host ≡ p.max_idle_per_host)
      → IsBounded L p
      → IsBounded L q
  IsBounded-same p q (same, n) h j = rw (same, n) (h j)

  Step-IsBounded : (p q : PoolInner L) → Step p q → IsBounded L p → IsBounded L q
  Step-IsBounded p q (puts P ch now key value s) h =
      subst (IsBounded L) (sym s) (put-IsBounded L P ch now p key value h)
  Step-IsBounded p q (checks_out P ch tx now c s) h =
      subst (IsBounded L) (sym s) (checkout-IsBounded L P ch tx now p c h)
  Step-IsBounded p q (connects key ver s) h = IsBounded-same p q (connecting-idle p q key ver s) h
  Step-IsBounded p q (drops_connecting c s) h = IsBounded-same p q (drop_connecting-idle p q c s) h
  Step-IsBounded p q (cleans ch key s) h =
      subst (IsBounded L) (sym s)
        (IsBounded-same p (clean_waiters L ch p key) (clean_waiters-idle ch p key) h)
  Step-IsBounded p q (evicts P now s) h = clear_expired-IsBounded L P now p q s h

  Reach_from-IsBounded : {p q : PoolInner L} → IsBounded L p → Reach p q → IsBounded L q
  Reach_from-IsBounded h here = h
  Reach_from-IsBounded h (next r s) = Step-IsBounded _ _ s (Reach_from-IsBounded h r)

  put-max :
      (P : Poolable T) (ch : Channels) (now : ℕ) (p : PoolInner L) (key : K) (value : T)
      → (put L P ch now p key value).0.max_idle_per_host ≡ p.max_idle_per_host
  unfolding put put_idle spawn_idle_interval serve_key
  put-max P ch now p key value = ground arith

  checkout-max :
      (P : Poolable T) (ch : Channels) (tx now : ℕ) (p : PoolInner L) (c : Checkout K)
      → (checkout L P ch tx now p c).0.max_idle_per_host ≡ p.max_idle_per_host
  unfolding checkout
  checkout-max P ch tx now p c = ground arith

  clear_expired-max :
      (P : Poolable T) (now : ℕ) (p q : PoolInner L)
      → clear_expired L P now p ≡ some q
      → q.max_idle_per_host ≡ p.max_idle_per_host
  unfolding clear_expired
  clear_expired-max P now p q s = ground arith

  Step-max : (p q : PoolInner L) → Step p q → q.max_idle_per_host ≡ p.max_idle_per_host
  Step-max p q (puts P ch now key value s) =
      ap (λ r. r.max_idle_per_host) s ∙ put-max P ch now p key value
  Step-max p q (checks_out P ch tx now c s) =
      ap (λ r. r.max_idle_per_host) s ∙ checkout-max P ch tx now p c
  Step-max p q (connects key ver s) = (connecting-idle p q key ver s).1
  Step-max p q (drops_connecting c s) = (drop_connecting-idle p q c s).1
  Step-max p q (cleans ch key s) = ap (λ r. r.max_idle_per_host) s ∙ (clean_waiters-idle ch p key).1
  Step-max p q (evicts P now s) = clear_expired-max P now p q s

  Reach-max : {p q : PoolInner L} → Reach p q → q.max_idle_per_host ≡ p.max_idle_per_host
  Reach-max here = refl
  Reach-max (next r s) = Step-max _ _ s ∙ Reach-max r

  new-IsBounded :
      (config : Config) (timer_is_empty : Bool) (p : PoolInner L)
      → new L config timer_is_empty ≡ some p
      → IsBounded L p × (p.max_idle_per_host ≡ config.max_idle_per_host)
  unfolding new
  new-IsBounded config timer_is_empty p h = elim (Bool-cases (ltb 0 config.max_idle_per_host)) [
    | inl on ↦
        let idle : p.idle ≡ L.empty config.max_pool_size = ground arith in
        let same : p.max_idle_per_host ≡ config.max_idle_per_host = ground arith in
        (λ k. rw (idle, L.peek-empty config.max_pool_size k) (omega arith), same)
    | inr off ↦ absurd (ground arith)
  ]

  -- After any history of calls on a pool that is new, no key has more idle connections than the
  -- `max_idle_per_host` of its configuration.
  pub Reach-IsBounded :
      (config : Config) (timer_is_empty : Bool) (p q : PoolInner L) (key : K) (list : Idles T)
      → new L config timer_is_empty ≡ some p
      → Reach p q
      → L.peek key q.idle ≡ some list
      → length list ≤ config.max_idle_per_host
  Reach-IsBounded config timer_is_empty p q key list made reached found =
      let (bounded, same) = new-IsBounded config timer_is_empty p made in
      let fits = Reach_from-IsBounded bounded reached key in
      omega (arith, fits, ap length (ap (unwrap_or []) found), Reach-max reached, same)

  pub any-head : (key : K) (ks : List K) → any (λ k. k == key) (key ∷ ks) ≡ true
  unfolding any
  any-head key ks = ground (arith, eq_refl key)

  pub any-filter :
      (key : K) (ks : List K) → any (λ k. k == key) (keep (λ k. not (k == key)) ks) ≡ false
  unfolding any keep
  any-filter key [] = refl
  any-filter key (k ∷ ks) = ground (arith, any-filter key ks)

  -- While an HTTP/2 connection to a key is being made a second one is refused, with the pool as it
  -- was; once the first has ended, however it ended, the next is allowed.
  connecting_exclusive :
      (p q : PoolInner L) (key : K) (c : Connecting K)
      → connecting L (some p) key http2 ≡ (some q, some c)
      → (connecting L (some q) key http2 ≡ (some q, none))
        × (is_some (connecting L (drop_connecting L (some q) c) key http2).1 ≡ true)
  unfolding connecting drop_connecting connected
  connecting_exclusive p q key c h =
      ground (arith, any-head key p.connecting, any-filter key (key ∷ p.connecting))
