-- ===== src/Pool/Handles.antt =====
-- The handles around the pool's state in src/client/layer/client/pool.rs: `Pool`, `Connecting`,
-- `Pooled` and `Checkout`. A pool is `none` where it is disabled. A weak reference that is set is
-- upgraded as long as the pool stands.
use wreq.Base.{
  ℕ, ltb, Bool, true, false, ◌&&◌, ◌||◌, not, Option, none, some, List, [], ◌∷◌, ◌++◌, is_empty,
  is_some, is_none, any, if◌then◌else◌,
}
use wreq.Base.Eq.{Eq, ◌==◌}
use wreq.Base.Map
use wreq.Base.Maybe.{unwrap_or}
use wreq.Pool.Crates.{shared, unique, Poolable, Channels, LruCache}
use wreq.Pool.{Idles, Idle, PoolInner, pop_idle, put, connected, clean_waiters}

pub data Ver : Type 0 where
  auto http2 : Ver

pub record Config : Type 0 where
  pub idle_timeout : Option ℕ
  pub max_idle_per_host : ℕ
  pub max_pool_size : Option ℕ

-- `Connecting`: the key, and whether it refers to the pool.
pub record Connecting (K : Type 0) : Type 0 where
  pub key : K
  pub pool : Bool

-- `Pooled`: `value` is `none` once it is dropped.
pub record Pooled (K T : Type 0) : Type 0 where
  pub value : Option T
  pub is_reused : Bool
  pub key : K
  pub pool : Bool

-- `Checkout`, with the number of the channel that it waits on.
pub record Checkout (K : Type 0) : Type 0 where
  pub key : K
  pub waiter : Option ℕ

pub data Error : Type 0 where
  pool_disabled checkout_no_longer_wanted checked_out_closed_value : Error

-- What a poll of a `oneshot` receiver answers.
pub data Received (T : Type 0) : Type 0 where
  pending canceled : Received T
  ok : T → Received T

-- `Poll<Result<_, Error>>`.
pub data Poll (A : Type 0) : Type 0 where
  pending : Poll A
  ready : A → Poll A
  failed : Error → Poll A

abbrev pub ver_is_http2 : Ver → Bool
ver_is_http2 auto = false
ver_is_http2 http2 = true

module _ {K T : Type 0} ⦃e : Eq K⦄ (L : LruCache K (Idles T)) where
  abbrev pub Pool : Type 0
  Pool = Option (PoolInner L)

  -- `Pool::new`; of the timer it matters whether it is empty.
  unfoldable pub new : Config → Bool → Pool
  new config timer_is_empty =
      if ltb 0 config.max_idle_per_host
      then some (record {
        connecting = [];
        idle = L.empty config.max_pool_size;
        max_idle_per_host = config.max_idle_per_host;
        waiters = [];
        idle_interval = none;
        timeout = config.idle_timeout;
        timer_is_empty = timer_is_empty;
      })
      else none

  -- `Pool::connecting`.
  unfoldable pub connecting : Pool → K → Ver → Pool × Option (Connecting K)
  connecting none key ver = (none, some (record { key = key; pool = false }))
  connecting (some p) key ver =
      if ver_is_http2 ver
      then (if any (λ k. k == key) p.connecting then (some p, none) else (
        some (record p { connecting = key ∷ p.connecting }),
        some (record { key = key; pool = true }),
      ))
      else (some p, some (record { key = key; pool = false }))

  -- The drop of a `Connecting`.
  unfoldable pub drop_connecting : Pool → Connecting K → Pool
  drop_connecting none c = none
  drop_connecting (some p) c = if c.pool then some (connected L p c.key) else some p

  module _ (P : Poolable T) (ch : Channels) where
    -- `Pool::pooled`, the drop of the `Connecting` that it was given included: the pool, the
    -- connection in use and what was sent to waiters.
    unfoldable pub pooled : ℕ → Pool → Connecting K → T → Pool × Pooled K T × List (ℕ × T)
    unfolding drop_connecting
    pooled now none c value =
        (none, record { value = some value; is_reused = false; key = c.key; pool = false }, [])
    pooled now (some p) c value = elim (P.reserve value) [
      | shared to_insert to_return ↦
          let (p', sent) = put L P ch now p c.key to_insert in
          (
            some (connected L p' c.key),
            record { value = some to_return; is_reused = false; key = c.key; pool = false },
            sent,
          )
      | unique v ↦ (
        drop_connecting (some p) c,
        record { value = some v; is_reused = false; key = c.key; pool = true },
        [],
      )
    ]

    -- `Pool::reuse`.
    unfoldable pub reuse : Pool → K → T → Pooled K T
    reuse pool key value = record {
      value = some value;
      is_reused = true;
      key = key;
      pool = not (P.can_share value) && is_some pool;
    }

    -- The drop of a `Pooled`.
    unfoldable pub drop_pooled : ℕ → Pool → Pooled K T → Pool × List (ℕ × T)
    drop_pooled now none r = (none, [])
    drop_pooled now (some p) r = elim r.value [
      | none ↦ (some p, [])
      | some value ↦
          if not (P.is_open value)
          then (some p, [])
          else (if r.pool
              then (let (p', sent) = put L P ch now p r.key value in (some p', sent))
              else (some p, []))
    ]

    -- `Checkout::poll_waiter`, given what the receiver answers: the checkout, and `none` where it
    -- does not wait.
    unfoldable pub poll_waiter :
        Pool → Checkout K → Received T → Checkout K × Option (Poll (Pooled K T))
    unfolding reuse
    poll_waiter pool c rx = elim c.waiter [
      | none ↦ (c, none)
      | some tx ↦ elim rx [
        | pending ↦ (c, some Poll.pending)
        | canceled ↦ (record c { waiter = none }, some (failed checkout_no_longer_wanted))
        | ok v ↦ (
          record c { waiter = none },
          some
              (if P.is_open v then ready (reuse pool c.key v) else failed checked_out_closed_value),
        )
      ]
    ]

    -- The idle entry that `Checkout::checkout` takes, and the cache without it.
    unfoldable pub take_idle : ℕ → PoolInner L → K → Option (Idle T) × L.Cache
    take_idle now p key = elim (L.peek key p.idle) [
      | none ↦ (none, L.pop key p.idle)
      | some list ↦
          let (entry, list') = pop_idle P p.timeout now list in
          let idle = L.update key list' p.idle in
          (entry, if is_none entry || is_empty list' then L.pop key idle else idle)
    ]

    -- `Checkout::checkout` on an enabled pool; `tx` is the new channel that it may make.
    unfoldable pub checkout :
        ℕ → ℕ → PoolInner L → Checkout K → PoolInner L × Checkout K × Option (Pooled K T)
    unfolding take_idle reuse
    checkout tx now p c =
        let (entry, idle) = take_idle now p c.key in
        let p' = record p { idle = idle } in
        elim entry [
          | some found ↦ (p', c, some (reuse (some p') c.key found.value))
          | none ↦
              if is_none c.waiter
              then (
                record p' {
                  waiters =
                      Map.insert c.key (unwrap_or [] (Map.get c.key p.waiters) ++ (tx ∷ []))
                        p.waiters;
                },
                record c { waiter = some tx },
                none,
              )
              else (p', c, none)
        ]

    -- `poll` of a `Checkout`.
    unfoldable pub poll_checkout :
        ℕ → ℕ → Pool → Checkout K → Received T → Pool × Checkout K × Poll (Pooled K T)
    unfolding poll_waiter checkout
    poll_checkout tx now pool c rx =
        let (c', waited) = poll_waiter pool c rx in
        elim waited [
          | some answer ↦ (pool, c', answer)
          | none ↦ elim pool [
            | none ↦ (none, c', failed pool_disabled)
            | some p ↦
                let (p', c'', found) = checkout tx now p c' in
                elim found [
                  | some r ↦ (some p', c'', ready r)
                  | none ↦ (some p', c'', Poll.pending)
                ]
          ]
        ]

    -- The drop of a `Checkout`.
    unfoldable pub drop_checkout : Pool → Checkout K → Pool
    drop_checkout none c = none
    drop_checkout (some p) c =
        if is_some c.waiter then some (clean_waiters L ch p c.key) else some p
