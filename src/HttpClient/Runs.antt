-- ===== src/HttpClient/Runs.antt =====
-- Runs of the race for a connection and of its making, in src/client/layer/client.rs.
use wreq.Base.{
  subst, ◌≢◌, ℕ, ◌+◌, ◌-◌, ◌≡◌, refl, Bool, true, false, none, some, List, [], ◌∷◌, if◌then◌else◌,
}
use wreq.Base.Eq.{◌==◌, nat_eq}
use wreq.Base.Results.{Result, ok, err, Poll, waiting, ready}
use wreq.Pool.{Idles, PoolInner}
use wreq.Pool.Crates.{LruCache, Channels}
use wreq.Pool.Listed.{listed}
use wreq.Pool.Handles
use wreq.HttpClient
use wreq.HttpClient.{Authority, PoolClient, Connected, h2}
use wreq.HttpClient.Requesting
use wreq.HttpClient.Requesting.{types, IsWritable, request-no_panic}
use wreq.Group.{ConnectionDescriptor}
use wreq.HttpClient.Tests.{calls, request, crates, config, info, pooled}
use wreq.HttpClient.Sending.{Calls, Outcome, Pooled}
use wreq.HttpClient.Connecting.{connected_to, shaken}
use wreq.HttpClient.Locking.{IsFree, lock_is_freed, IsUpgraded, connected_to-IsUpgraded}
use wreq.HttpClient.Racing.{Races, fut, one_connection_for, select, poll_lazy}
use wreq.HttpClient.Winning.{started_is_kept}

-- The checkout answers once it has been polled this often; the state counts the connections begun and,
-- from 10 on, those left to finish.
abbrev polled : ℕ → Poll (Result Handles.Error (Pooled crates))
polled n = if n == 0 then ready (ok (pooled true)) else waiting

abbrev races : ℕ → Races crates ℕ
races polls = record {
  World = ℕ;
  C = ℕ;
  R = ℕ;
  is_enabled = true;
  checkout = λ d w. (polls, w);
  poll_checkout = λ n w. (polled n, n - 1, w);
  start = λ d w. (5, w + 1);
  poll_connect = λ r w. (waiting, r, w);
  drop_checkout = λ n w. w;
  drop_connect = λ l w. w;
  execute = λ l w. w + 10;
  to_box_error = λ e. 2;
}

started_is_kept_example :
    one_connection_for crates (races 1) 3 config 8 0 ≡ (some (ok (pooled true)), 11)
unfolding select poll_lazy
started_is_kept_example =
    started_is_kept crates (races 1) 2 config 8 0 0 0 1 1 0 (pooled true) (fut 5) refl refl refl
      refl

abbrev cache : LruCache ℕ (Idles (PoolClient crates))
cache = listed

abbrev pool : List ℕ → PoolInner cache
pool keys = record {
  connecting = keys;
  idle = [];
  max_idle_per_host = 2;
  waiters = [];
  idle_interval = none;
  timeout = none;
  timer_is_empty = false;
}

abbrev upgraded : Connected crates
upgraded = record (info false) { alpn = h2 }

connected_to-IsUpgraded_example :
    IsUpgraded crates cache 4
      (pool (3 ∷ []))
      (record { key = 3; pool = false })
      (connected_to crates cache 4
        (some (pool (3 ∷ [])))
        (record { key = 3; pool = false })
        Handles.auto
        (ok upgraded))
connected_to-IsUpgraded_example =
    connected_to-IsUpgraded crates cache 4 (pool (3 ∷ [])) (record { key = 3; pool = false })
      upgraded refl refl

abbrev channels : Channels
channels = record { is_closed = λ tx. false; accepts = λ tx. true }

lock_is_freed_example :
    ((e src : ℕ) (ver : Handles.Ver)
      → IsFree cache 3
          (connected_to crates cache e
            (some (pool (3 ∷ [])))
            (record { key = 3; pool = true })
            ver
            (err src)).0)
    × ((i : Connected crates) (is_h2 : Bool) (tx : Result ℕ Bool)
        → IsFree cache 3
            (shaken crates cache channels 5
              (some (pool (3 ∷ [])))
              (record { lock = record { key = 3; pool = true }; conn_info = i; is_h2 = is_h2 })
              tx).0)
lock_is_freed_example =
    lock_is_freed crates cache channels 5 (some (pool (3 ∷ []))) (record { key = 3; pool = true })
      refl

abbrev served : Calls crates (ConnectionDescriptor (types ℕ ℕ ℕ))
served = calls (ConnectionDescriptor (types ℕ ℕ ℕ))

abbrev boxed : HttpClient.Error crates → ℕ
boxed e = 3

request-IsWritable : (a : Authority) → request.uri.authority ≡ some a → IsWritable crates a
request-IsWritable a e =
    subst (λ o. elim o [ none ↦ ⊥ | some b ↦ IsWritable crates b ]) e (refl, refl)

request-no_panic_example :
    (Requesting.request crates boxed served config (record { value = some 1 }) none 5 request 2).0
    ≢ Outcome.panicked
request-no_panic_example =
    request-no_panic crates boxed served config (record { value = some 1 }) none 5 request 2
      request-IsWritable
