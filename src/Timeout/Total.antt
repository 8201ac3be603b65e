-- ===== src/Timeout/Total.antt =====
-- `TotalTimeoutBody` of src/client/layer/timeout/body.rs.
use wreq.Base.{ℕ, some, if◌then◌else◌}
use wreq.Base.Results.{err, ready}
use wreq.Timeout.Timer.{Timer, Failure, body_timed_out, decode, Frame, map_frame}

pub record TotalTimeoutBody (B S : Type 0) : Type 0 where
  pub body : B
  pub timeout : S

-- `poll_and_map_body`, for a body with a poll and an embedding of its errors.
unfoldable pub poll_and_map_body :
    {B X D E : Type 0} → (ℕ → B → Frame X D × B) → (X → Failure E) → ℕ → B → Frame (Failure E) D × B
poll_and_map_body poll into now b =
    let (frame, b') = poll now b in (map_frame (λ x. decode (into x)) frame, b')

module _ {B X D E : Type 0} (T : Timer) (poll : ℕ → B → Frame X D × B) (into : X → Failure E) where
  -- `TotalTimeoutBody::poll_frame`
  unfoldable pub poll_frame :
      ℕ → TotalTimeoutBody B T.Sleep → Frame (Failure E) D × TotalTimeoutBody B T.Sleep
  unfolding poll_and_map_body
  poll_frame now b =
      let polled = poll_and_map_body poll into now b.body in
      if T.is_ready now b.timeout
      then (ready (some (err body_timed_out)), b)
      else (polled.0, record b { body = polled.1 })
