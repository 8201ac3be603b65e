-- ===== src/Timeout/Read.antt =====
-- `ReadTimeoutBody` of src/client/layer/timeout/body.rs.
use wreq.Base.{ℕ, ◌+◌, Bool, true, false, Option, none, some, if◌then◌else◌}
use wreq.Base.Results.{err, waiting, ready}
use wreq.Timeout.Timer.{Timer, Failure, body_timed_out, Frame, map_frame}

pub record ReadTimeoutBody (B S : Type 0) : Type 0 where
  pub body : B
  pub sleep : Option S
  pub armed : Bool
  pub timeout : ℕ

-- A read timeout that no poll has armed.
abbrev pub disarmed : {B S : Type 0} → B → ℕ → ReadTimeoutBody B S
disarmed b timeout = record { body = b; sleep = none; armed = false; timeout = timeout }

module _ {B X D E : Type 0} (T : Timer) (poll : ℕ → B → Frame X D × B) (into : X → Failure E) where
  unfoldable pub arm : ℕ → ReadTimeoutBody B T.Sleep → ReadTimeoutBody B T.Sleep
  arm now b = if b.armed then b else record b {
    sleep = some (elim b.sleep [
      | some s ↦ T.reset s (now + b.timeout)
      | none ↦ T.sleep_until (now + b.timeout)
    ]);
    armed = true;
  }

  unfoldable pub expired : ℕ → ReadTimeoutBody B T.Sleep → Bool
  expired now b = elim b.sleep [ some s ↦ T.is_ready now s | none ↦ false ]

  -- A completed frame poll disarms the deadline.
  unfoldable pub finish :
      Frame X D → ReadTimeoutBody B T.Sleep → Frame (Failure E) D × ReadTimeoutBody B T.Sleep
  finish waiting b = (waiting, b)
  finish (ready frame) b = (map_frame into (ready frame), record b { armed = false })

  -- `ReadTimeoutBody::poll_frame`
  unfoldable pub poll_frame :
      ℕ → ReadTimeoutBody B T.Sleep → Frame (Failure E) D × ReadTimeoutBody B T.Sleep
  unfolding arm expired finish
  poll_frame now b =
      let b' = arm now b in
      let (frame, body) = poll now b'.body in
      if expired now b'
      then (ready (some (err body_timed_out)), b')
      else finish frame (record b' { body = body })
