-- ===== src/Pool/Tests.antt =====
-- Runs of the pool over a cache that never evicts, and instances of its theorems. A connection is a
-- number: an even one is open, one from 100 on is shared.
use Prim.Native.Nat.{◌%◌}
use wreq.Base.{
  ℕ, ◌≡◌, ◌≤◌, length, false, refl, ◌⊎◌, true, false, none, some, [], ◌∷◌, keep, any, leb,
  if◌then◌else◌, not, ◌||◌,
}
use wreq.Base.Eq.{◌==◌, nat_eq}
use wreq.Base.Map
use wreq.Base.Map.{get-insert, get-remove, mem_of_get}
use wreq.Pool.Crates.{shared, unique, Poolable, Channels, LruCache}
use wreq.Pool.Listed.{listed, map_all}
use wreq.Pool.{
  Idle, Idles, PoolInner, expires, retain_idle, pop_all, pop_idle, serve, put, clear_expired,
  spawn_idle_interval,
}
use wreq.Pool.Waiters.{PutOnce, put-PutOnce}
use wreq.Pool.Handles.{
  Config, new, Checkout, Connecting, Pooled, Received, ok, poll_checkout, reuse, connecting,
  drop_connecting,
}
use wreq.Pool.Taking.{FromIdle, poll_checkout_ready}
use wreq.Pool.History.{here, next, puts, Reach-IsBounded}

abbrev cache : LruCache ℕ (Idles ℕ)
cache = listed

abbrev conns : Poolable ℕ
conns = record {
  is_open = λ n. n % 2 == 0;
  reserve = λ n. if leb 100 n then shared n n else unique n;
  can_share = λ n. leb 100 n;
}

-- The receiver of channel 7 is gone; a send to channel 8 fails.
abbrev channels : Channels
channels = record { is_closed = λ tx. tx == 7; accepts = λ tx. not (tx == 7 || tx == 8) }

abbrev idle_at : ℕ → ℕ → Idle ℕ
idle_at t n = record { idle_at = t; value = n }

abbrev start : PoolInner cache
start = record {
  connecting = [];
  idle = (1, idle_at 50 3 ∷ idle_at 5 2 ∷ []) ∷ [];
  max_idle_per_host = 2;
  waiters = (4, 7 ∷ 8 ∷ 9 ∷ []) ∷ [];
  idle_interval = none;
  timeout = some 90;
  timer_is_empty = false;
}

-- All that a run of the pool computes with.
pool : Unit {0}
unfolding Map.get Map.insert Map.remove keep any expires retain_idle pop_all pop_idle serve put
    clear_expired spawn_idle_interval map_all connecting drop_connecting poll_checkout reuse
pool = tt

-- The closed connection is dropped on the way to the open one.
pop_run : pop_idle conns (some 90) 60 (idle_at 50 3 ∷ idle_at 5 2 ∷ []) ≡ (some (idle_at 5 2), [])
unfolding pool
pop_run = refl

put_run : (put cache conns channels 60 start 4 6).1 ≡ (9, 6) ∷ []
unfolding pool
put_run = refl

put-PutOnce_example : PutOnce cache conns channels 60 start 4 6
put-PutOnce_example = put-PutOnce cache conns channels 60 start 4 6 refl refl

abbrev configured : Config
configured = record { idle_timeout = some 90; max_idle_per_host = 1; max_pool_size = none }

abbrev empty : PoolInner cache
empty = record {
  connecting = [];
  idle = [];
  max_idle_per_host = 1;
  waiters = [];
  idle_interval = none;
  timeout = some 90;
  timer_is_empty = false;
}

abbrev filled : PoolInner cache
filled = (put cache conns channels 61 (put cache conns channels 60 empty 1 6).0 1 8).0

-- Of two connections that come back to a pool for one the second is dropped.
Reach-IsBounded_example : length (idle_at 60 6 ∷ []) ≤ 1
unfolding pool new
Reach-IsBounded_example =
    Reach-IsBounded cache configured false empty filled 1 (idle_at 60 6 ∷ []) refl
      (next (next here (puts conns channels 60 1 6 refl)) (puts conns channels 61 1 8 refl)) refl

abbrev connecting_start : PoolInner cache
connecting_start = record start { connecting = 1 ∷ [] }

abbrev token : Connecting ℕ
token = record { key = 1; pool = true }

abbrev request : Checkout ℕ
request = record { key = 1; waiter = none }

abbrev found : Pooled ℕ ℕ
found = record { value = some 2; is_reused = true; key = 1; pool = true }

poll_checkout_ready_example :
    (found.is_reused ≡ true)
    × (found.key ≡ 1)
    × ((v : ℕ) × (found.value ≡ some v)
        × (((◌≡◌ {A = Received ℕ} Received.pending (ok v)) × (conns.is_open v ≡ true))
            ⊎ FromIdle cache conns channels 60 start 1 v))
poll_checkout_ready_example =
    poll_checkout_ready cache conns channels 11 60 start request Received.pending found
      (unfold pool in refl)

abbrev swept_start : PoolInner cache
swept_start = record start { idle = [] }
