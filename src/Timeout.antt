-- ===== src/Timeout.antt =====
-- The timeouts on a request of src/client/layer/timeout.rs, timeout/future.rs and timeout/body.rs.
-- Instants and durations are natural numbers; a poll is given the instant of the call.
pub mod Timer
pub mod Connect
pub mod Polls
pub mod Total
pub mod Read
pub mod Body
pub mod Response
pub mod Reading
pub mod Deadlines
pub mod Covering
mod Tests
use wreq.Base.{ℕ, Option, none, some}
use wreq.Config.{RequestConfig, Extensions, fetch, or}

pub record TimeoutOptions : Type 0 where
  pub read_timeout : Option ℕ
  pub total_timeout : Option ℕ

-- The total timeout and the read timeout of a request.
unfoldable pub fetch_timeout_options :
    (X : Extensions (RequestConfig TimeoutOptions))
    → RequestConfig TimeoutOptions
    → X.Ext
    → Option ℕ × Option ℕ
unfolding fetch
fetch_timeout_options X opts extensions = elim opts.value [
  | some o ↦ elim (fetch X opts extensions) [
    | some r ↦ (or r.total_timeout o.total_timeout, or r.read_timeout o.read_timeout)
    | none ↦ (o.total_timeout, o.read_timeout)
  ]
  | none ↦ elim (fetch X opts extensions) [
    | some o ↦ (o.total_timeout, o.read_timeout)
    | none ↦ (none, none)
  ]
]
