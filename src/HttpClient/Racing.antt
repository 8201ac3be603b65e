-- ===== src/HttpClient/Racing.antt =====
-- The race for a connection of src/client/layer/client.rs, and `Lazy` of src/client/layer/client/lazy.rs.
-- The connector, the pool's checkout and `select` are an interface.
use wreq.Base.{ℕ, zero, suc, Bool, true, false, ◌&&◌, not, Option, none, some, if◌then◌else◌}
use wreq.Base.Results.{Result, ok, err, Poll, waiting, ready}
use wreq.Pool.Handles.{
  checkout_no_longer_wanted, pool_disabled, checked_out_closed_value, Ver, ver_is_http2,
}
use wreq.Pool.Handles
use wreq.HttpClient.{Crates, Config, Error, connect, new_error, is_canceled}
use wreq.HttpClient.Sending.{Pooled}

-- `Inner` of a `Lazy`: what starts the future, the future, or nothing.
pub data Lazy (F R : Type 0) : Type 0 where
  init : F → Lazy F R
  fut : R → Lazy F R
  empty : Lazy F R

-- `started`.
unfoldable pub started : {F R : Type 0} → Lazy F R → Bool
started (init f) = false
started (fut f) = true
started empty = true

-- `poll` of a `Lazy`, given the start and the poll of its future; `none` is the `unreachable!`.
unfoldable pub poll_lazy :
    {F R W A : Type 0}
    → (F → W → R × W)
    → (R → W → Poll A × R × W)
    → Lazy F R
    → W
    → Option (Poll A) × Lazy F R × W
poll_lazy start poll (fut r) w = let (a, r', w') = poll r w in (some a, fut r', w')
poll_lazy start poll (init f) w =
    let (r, w1) = start f w in let (a, r', w2) = poll r w1 in (some a, fut r', w2)
poll_lazy start poll empty w = (none, empty, w)

-- `is_canceled` of a pool's error.
unfoldable pub error_is_canceled : Handles.Error → Bool
error_is_canceled checked_out_closed_value = true
error_is_canceled checkout_no_longer_wanted = false
error_is_canceled pool_disabled = false

-- The calls of `one_connection_for`, over the state of the pool, the runtime and the connector: a
-- checkout is a `C`, and a connection being made an `R`.
pub record Races (x : Crates) (D : Type 0) : Type 1 where
  pub World : Type 0
  pub C : Type 0
  pub R : Type 0
  pub is_enabled : Bool
  pub checkout : D → World → C × World
  pub poll_checkout : C → World → Poll (Result Handles.Error (Pooled x)) × C × World
  pub start : D → World → R × World
  pub poll_connect : R → World → Poll (Result (Error x) (Pooled x)) × R × World
  pub drop_checkout : C → World → World
  pub drop_connect : Lazy D R → World → World
  pub execute : Lazy D R → World → World
  pub to_box_error : Handles.Error → x.BoxError

-- `ClientConnectError`.
pub data ClientConnectError (x : Crates) : Type 0 where
  normal : Error x → ClientConnectError x
  checkout_is_closed : Handles.Error → ClientConnectError x

module _ (x : Crates) {D : Type 0} (c : Races x D) where
  -- What `select` answers, with the future that is left.
  pub data Selected : Type 0 where
    left : Result Handles.Error (Pooled x) → Lazy D c.R → Selected
    right : Result (Error x) (Pooled x) → c.C → Selected

  abbrev pub poll_connecting :
      Lazy D c.R → c.World → Option (Poll (Result (Error x) (Pooled x))) × Lazy D c.R × c.World
  poll_connecting = poll_lazy c.start c.poll_connect

  abbrev pub connect_turn :
      (c.C → Lazy D c.R → c.World → Option Selected × c.World)
      → c.C
      → Option (Poll (Result (Error x) (Pooled x))) × Lazy D c.R × c.World
      → Option Selected × c.World
  connect_turn again checkout (none, connecting, w) = (none, w)
  connect_turn again checkout (some (ready a), connecting, w) = (some (right a checkout), w)
  connect_turn again checkout (some waiting, connecting, w) = again checkout connecting w

  abbrev pub checkout_turn :
      (c.C → Lazy D c.R → c.World → Option Selected × c.World)
      → Lazy D c.R
      → Poll (Result Handles.Error (Pooled x)) × c.C × c.World
      → Option Selected × c.World
  checkout_turn again connecting (ready a, checkout, w) = (some (left a connecting), w)
  checkout_turn again connecting (waiting, checkout, w) =
      connect_turn again checkout (poll_connecting connecting w)

  -- `select`, polled this often; `none` where it still waits.
  unfoldable pub select : ℕ → c.C → Lazy D c.R → c.World → Option Selected × c.World
  unfolding poll_lazy
  select zero checkout connecting w = (none, w)
  select (suc n) checkout connecting w =
      checkout_turn (select n) connecting (c.poll_checkout checkout w)

  abbrev pub await_connect :
      ℕ → Lazy D c.R → c.World → Option (Result (Error x) (Pooled x)) × c.World
  await_connect zero connecting w = (none, w)
  await_connect (suc n) connecting w = go (await_connect n) (poll_connecting connecting w)
    where
      go :
          (Lazy D c.R → c.World → Option (Result (Error x) (Pooled x)) × c.World)
          → Option (Poll (Result (Error x) (Pooled x))) × Lazy D c.R × c.World
          → Option (Result (Error x) (Pooled x)) × c.World
      go again (none, l, w') = (none, w')
      go again (some (ready a), l, w') = (some a, w')
      go again (some waiting, l, w') = again l w'

  abbrev pub await_checkout : ℕ → c.C → c.World → Option (Result Handles.Error (Pooled x)) × c.World
  await_checkout zero checkout w = (none, w)
  await_checkout (suc n) checkout w = go (await_checkout n) (c.poll_checkout checkout w)
    where
      go :
          (c.C → c.World → Option (Result Handles.Error (Pooled x)) × c.World)
          → Poll (Result Handles.Error (Pooled x)) × c.C × c.World
          → Option (Result Handles.Error (Pooled x)) × c.World
      go again (ready a, l, w') = (some a, w')
      go again (waiting, l, w') = again l w'

  abbrev pub Found : Type 0
  Found = Option (Result (ClientConnectError x) (Pooled x)) × c.World

  -- The errors of a connection being made, and of a checkout that is left alone.
  abbrev pub from_connect : Option (Result (Error x) (Pooled x)) × c.World → Found
  from_connect (none, w) = (none, w)
  from_connect (some (ok p), w) = (some (ok p), w)
  from_connect (some (err e), w) = (some (err (normal e)), w)

  abbrev pub from_checkout : Config → Option (Result Handles.Error (Pooled x)) × c.World → Found
  from_checkout config (none, w) = (none, w)
  from_checkout config (some (ok p), w) = (some (ok p), w)
  from_checkout config (some (err e), w) =
      if ver_is_http2 config.ver && error_is_canceled e
      then (some (err (checkout_is_closed e)), w)
      else (some (err (normal (new_error x connect (c.to_box_error e)))), w)

  -- What becomes of the race, given how often the one that is left is polled.
  unfoldable pub settle : ℕ → Config → Option Selected × c.World → Found
  unfolding started error_is_canceled
  settle n config (none, w) = (none, w)
  settle n config (some (left (ok p) connecting), w) =
      (some (ok p), if started connecting then c.execute connecting w else w)
  settle n config (some (right (ok p) checkout), w) = (some (ok p), c.drop_checkout checkout w)
  settle n config (some (left (err e) connecting), w) =
      if error_is_canceled e then from_connect (await_connect n connecting w) else (
        some (err (normal (new_error x connect (c.to_box_error e)))),
        c.drop_connect connecting w,
      )
  settle n config (some (right (err e) checkout), w) =
      if is_canceled x e
      then from_checkout config (await_checkout n checkout w)
      else (some (err (normal e)), c.drop_checkout checkout w)

  unfoldable pub one_connection_for : ℕ → Config → D → c.World → Found
  unfolding select settle
  one_connection_for n config descriptor w =
      if not c.is_enabled
      then from_connect (await_connect n (init descriptor) w)
      else (let (checkout, w') = c.checkout descriptor w in
          settle n config (select n checkout (init descriptor) w'))

  abbrev pub on_found :
      Config
      → (c.World → Option (Result (Error x) (Pooled x)) × c.World)
      → Found
      → Option (Result (Error x) (Pooled x)) × c.World
  on_found config again (none, w) = (none, w)
  on_found config again (some (ok p), w) = (some (ok p), w)
  on_found config again (some (err (normal e)), w) = (some (err e), w)
  on_found config again (some (err (checkout_is_closed e)), w) =
      if not config.retry_canceled_requests
      then (some (err (new_error x connect (c.to_box_error e))), w)
      else again w

  -- The loop of `connection_for`, this often.
  unfoldable pub connection_for :
      ℕ → ℕ → Config → D → c.World → Option (Result (Error x) (Pooled x)) × c.World
  unfolding one_connection_for
  connection_for zero n config descriptor w = (none, w)
  connection_for (suc turns) n config descriptor w =
      on_found config (connection_for turns n config descriptor)
        (one_connection_for n config descriptor w)
