-- ===== src/Pool.antt =====
-- The connection pool: src/client/layer/client/pool.rs. Times are milliseconds of the pool's timer,
-- whose `now` is an argument of the calls that read it. The head of an idle list is the end of the
-- `Vec`.
pub mod Crates
pub mod Handles
pub mod Listed
pub mod Popping
pub mod Bounds
pub mod History
pub mod Taking
mod Tests
pub mod Waiters
pub mod Eviction
use wreq.Base.{
  ℕ, ◌-◌, max, Bool, true, false, ◌&&◌, not, Option, none, some, List, [], ◌∷◌, is_empty, is_some,
  is_some_and, keep, any, length, ltb, leb, if◌then◌else◌,
}
use wreq.Base.Eq.{Eq, ◌==◌, nat_eq}
use wreq.Base.Map
use wreq.Base.Maybe.{unwrap_or}
use Crates.{Reservation, shared, unique, Poolable, Channels, LruCache}

pub record Idle (T : Type 0) : Type 0 where
  pub idle_at : ℕ
  pub value : T

abbrev pub Idles : Type 0 → Type 0
Idles T = List (Idle T)

-- `PoolInner`. The set `connecting` is a list, `idle_interval` is the period of the task that
-- evicts, once it runs, and a waiter is the number of its channel.
pub record PoolInner {K T : Type 0} ⦃e : Eq K⦄ (L : LruCache K (Idles T)) : Type 0 where
  pub connecting : List K
  pub idle : L.Cache
  pub max_idle_per_host : ℕ
  pub waiters : List (K × List ℕ)
  pub idle_interval : Option ℕ
  pub timeout : Option ℕ
  pub timer_is_empty : Bool

-- `Expiration::expires`.
unfoldable pub expires : Option ℕ → ℕ → ℕ → Bool
expires timeout idle_at now = is_some_and timeout (λ t. ltb t (now - idle_at))

-- `MIN_CHECK`, in milliseconds.
abbrev pub min_check : ℕ
min_check = 90

-- What serving the waiters leaves: the waiters not reached, the connection if it is still at hand,
-- and who was sent one.
pub record Served (T : Type 0) : Type 0 where
  pub left : List ℕ
  pub value : Option T
  pub sent : List (ℕ × T)

module _ {T : Type 0} (P : Poolable T) where
  open P use {is_open, reserve, can_share}

  -- `IdlePopper::pop`: the entry, and the list that is left.
  unfoldable pub pop_idle : Option ℕ → ℕ → Idles T → Option (Idle T) × Idles T
  pop_idle timeout now [] = (none, [])
  pop_idle timeout now (entry ∷ list) = elim (not (is_open entry.value)) [
    | true ↦ pop_idle timeout now list
    | false ↦ elim (expires timeout entry.idle_at now) [
      | true ↦ pop_idle timeout now list
      | false ↦ elim (reserve entry.value) [
        | shared to_reinsert to_checkout ↦ (
          some (record { idle_at = entry.idle_at; value = to_checkout }),
          record { idle_at = now; value = to_reinsert } ∷ list,
        )
        | unique value ↦ (some (record { idle_at = entry.idle_at; value = value }), list)
      ]
    ]
  ]

  -- The loop of `put` over the waiters of the key.
  unfoldable pub serve : Channels → T → List ℕ → Served T
  serve ch value [] = record { left = []; value = some value; sent = [] }
  serve ch value (tx ∷ waiters) = elim (ch.is_closed tx) [
    | true ↦ serve ch value waiters
    | false ↦ elim (reserve value) [
      | shared to_keep to_send ↦ elim (ch.accepts tx) [
        | true ↦
            let rest = serve ch to_keep waiters in record rest { sent = (tx, to_send) ∷ rest.sent }
        | false ↦ serve ch to_send waiters
      ]
      | unique uniq ↦ elim (ch.accepts tx) [
        | true ↦ record { left = waiters; value = none; sent = (tx, uniq) ∷ [] }
        | false ↦ serve ch uniq waiters
      ]
    ]
  ]

module _ {K T : Type 0} ⦃e : Eq K⦄ (L : LruCache K (Idles T)) where
  open L use {Cache, peek, update, upsert, pop, map_values, keys}

  unfoldable pub spawn_idle_interval : PoolInner L → PoolInner L
  spawn_idle_interval p = if is_some p.idle_interval then p else (elim p.timeout [
    | none ↦ p
    | some dur ↦
        if dur == 0
        then p
        else if p.timer_is_empty
        then p
        else record p { idle_interval = some (max dur min_check) }
  ])

  -- The end of `put`, for a connection that no waiter took.
  unfoldable pub put_idle : ℕ → PoolInner L → K → T → PoolInner L
  unfolding spawn_idle_interval
  put_idle now p key value =
      let idle_list = unwrap_or [] (peek key p.idle) in
      if leb p.max_idle_per_host (length idle_list)
      then record p { idle = upsert key idle_list p.idle }
      else spawn_idle_interval (record p {
        idle = upsert key (record { idle_at = now; value = value } ∷ idle_list) p.idle;
      })

  -- The waiters of a key written back, or its entry removed with the last of them.
  unfoldable pub set_waiters : K → List ℕ → List (K × List ℕ) → List (K × List ℕ)
  set_waiters key ws waiters =
      if is_empty ws then Map.remove key waiters else Map.insert key ws waiters

  module _ (P : Poolable T) (ch : Channels) where
    -- The waiters of the key served, if it has any.
    unfoldable pub serve_key : PoolInner L → K → T → PoolInner L × Served T
    unfolding set_waiters
    serve_key p key value = elim (Map.get key p.waiters) [
      | none ↦ (p, record { left = []; value = some value; sent = [] })
      | some ws ↦
          let served = serve P ch value ws in
          (record p { waiters = set_waiters key served.left p.waiters }, served)
    ]

    -- `put`: the pool afterwards, and what was sent to waiters.
    unfoldable pub put : ℕ → PoolInner L → K → T → PoolInner L × List (ℕ × T)
    unfolding serve_key put_idle
    put now p key value =
        if P.can_share value && is_some (peek key p.idle)
        then (p, [])
        else (let (p', served) = serve_key p key value in
            elim served.value [
              | some v ↦ (put_idle now p' key v, served.sent)
              | none ↦ (p', served.sent)
            ])

  -- `connected`, without its check in debug builds that the key was there.
  unfoldable pub connected : PoolInner L → K → PoolInner L
  connected p key = record p {
    connecting = keep (λ k. not (k == key)) p.connecting;
    waiters = Map.remove key p.waiters;
  }

  -- `clean_waiters`.
  unfoldable pub clean_waiters : Channels → PoolInner L → K → PoolInner L
  unfolding set_waiters
  clean_waiters ch p key = elim (Map.get key p.waiters) [
    | none ↦ p
    | some ws ↦ record p {
      waiters = set_waiters key (keep (λ tx. not (ch.is_closed tx)) ws) p.waiters;
    }
  ]

  -- What `clear_expired` keeps of an idle list.
  unfoldable pub retain_idle : Poolable T → ℕ → ℕ → Idles T → Idles T
  retain_idle P dur now =
      keep (λ entry. P.is_open entry.value && not (ltb dur (now - entry.idle_at)))

  unfoldable pub pop_all : List K → Cache → Cache
  pop_all [] c = c
  pop_all (k ∷ ks) c = pop_all ks (pop k c)

  -- `clear_expired`; `none` is the panic of `expect("interval assumes timeout")`.
  unfoldable pub clear_expired : Poolable T → ℕ → PoolInner L → Option (PoolInner L)
  unfolding retain_idle pop_all
  clear_expired P now p = elim p.timeout [
    | none ↦ none
    | some dur ↦
        let retained = map_values (retain_idle P dur now) p.idle in
        let keys_to_remove = keep (λ k. is_some_and (peek k retained) is_empty) (keys retained) in
        some (record p { idle = pop_all keys_to_remove retained })
  ]
