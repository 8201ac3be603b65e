-- ===== src/Timeout/Body.antt =====
-- `TimeoutBody` of src/client/layer/timeout/body.rs.
use wreq.Base.{ℕ, Bool, Option, none, some}
use wreq.Timeout.Timer.{Timer, HttpBody, Failure, raw, Frame}
use wreq.Timeout.Total
use wreq.Timeout.Total.{TotalTimeoutBody, poll_and_map_body}
use wreq.Timeout.Read
use wreq.Timeout.Read.{ReadTimeoutBody, disarmed}

pub data TimeoutBody (B S : Type 0) : Type 0 where
  plain : B → TimeoutBody B S
  total_timeout : TotalTimeoutBody B S → TimeoutBody B S
  read_timeout : ReadTimeoutBody B S → TimeoutBody B S
  combined_timeout : TotalTimeoutBody (ReadTimeoutBody B S) S → TimeoutBody B S

module _ {B S : Type 0} where
  -- `TimeoutBody::new`; the total timeout comes as the sleep that already runs.
  unfoldable pub new : B → Option ℕ → Option S → TimeoutBody B S
  new b (some read) (some total) =
      combined_timeout (record { body = disarmed b read; timeout = total })
  new b none (some total) = total_timeout (record { body = b; timeout = total })
  new b (some read) none = read_timeout (disarmed b read)
  new b none none = plain b

module _ {D E : Type 0} (T : Timer) (H : HttpBody D E) where
  -- `TimeoutBody::poll_frame`
  unfoldable pub poll_frame :
      ℕ → TimeoutBody H.Body T.Sleep → Frame (Failure E) D × TimeoutBody H.Body T.Sleep
  unfolding Total.poll_frame Read.poll_frame poll_and_map_body
  poll_frame now (total_timeout b) =
      let (frame, b') = Total.poll_frame T H.poll_frame raw now b in (frame, total_timeout b')
  poll_frame now (read_timeout b) =
      let (frame, b') = Read.poll_frame T H.poll_frame raw now b in (frame, read_timeout b')
  poll_frame now (combined_timeout b) =
      let (frame, b') = Total.poll_frame T (Read.poll_frame T H.poll_frame raw) (λ x. x) now b in
      (frame, combined_timeout b')
  poll_frame now (plain b) =
      let (frame, b') = poll_and_map_body H.poll_frame raw now b in (frame, plain b')

  unfoldable pub size_hint : TimeoutBody H.Body T.Sleep → ℕ × Option ℕ
  size_hint (total_timeout b) = H.size_hint b.body
  size_hint (read_timeout b) = H.size_hint b.body
  size_hint (combined_timeout b) = H.size_hint b.body.body
  size_hint (plain b) = H.size_hint b

  unfoldable pub is_end_stream : TimeoutBody H.Body T.Sleep → Bool
  is_end_stream (total_timeout b) = H.is_end_stream b.body
  is_end_stream (read_timeout b) = H.is_end_stream b.body
  is_end_stream (combined_timeout b) = H.is_end_stream b.body.body
  is_end_stream (plain b) = H.is_end_stream b
