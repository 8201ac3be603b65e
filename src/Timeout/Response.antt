-- ===== src/Timeout/Response.antt =====
-- `ResponseFuture` of src/client/layer/timeout/future.rs, and the `call` of src/client/layer/timeout.rs
-- that makes it.
use wreq.Base.{ℕ, Bool, false, Option, none, some, if◌then◌else◌}
use wreq.Base.Results.{Result, Poll, ok, err, waiting, ready}
use wreq.Config.{RequestConfig, Extensions}
use wreq.Timeout.{TimeoutOptions, fetch_timeout_options}
use wreq.Timeout.Timer.{Timer, Failure, request_timed_out, raw}
use wreq.Timeout.Body
use wreq.Timeout.Body.{TimeoutBody}
use mathlib.Core.Option

pub record ResponseFuture (F S : Type 0) : Type 0 where
  pub fut : F
  pub read_timeout : Option ℕ
  pub read_timeout_fut : Option S
  pub total_timeout_fut : Option S

abbrev pub Answer : Timer → Type 0 → Type 0 → Type 0 → Type 0
Answer T R B E = Poll (Result (Failure E) (R × TimeoutBody B T.Sleep))

-- `F` is the future of the inner service, `R` a response without its body.
module _ (T : Timer) where
  -- `Timeout::call` at the instant `now`; `fut` is the call of the inner service.
  unfoldable pub call :
      {F : Type 0}
      → (X : Extensions (RequestConfig TimeoutOptions)) → RequestConfig TimeoutOptions
      → X.Ext
      → ℕ
      → F
      → ResponseFuture F T.Sleep
  call X timeout extensions now fut =
      let (total, read) = fetch_timeout_options X timeout extensions in
      record {
        fut = fut;
        read_timeout = read;
        read_timeout_fut = Option.map (T.sleep now) read;
        total_timeout_fut = Option.map (T.sleep now) total;
      }

  unfoldable pub has_fired : ℕ → Option T.Sleep → Bool
  has_fired now none = false
  has_fired now (some s) = T.is_ready now s

module _ {F R B E : Type 0} (T : Timer) where
  -- The running total timeout moves into the body.
  unfoldable pub answer :
      Poll (Result E (R × B)) → ResponseFuture F T.Sleep → Answer T R B E × ResponseFuture F T.Sleep
  answer waiting f = (waiting, f)
  answer (ready (err e)) f = (ready (err (raw e)), f)
  answer (ready (ok (r, b))) f = (
    ready (ok (r, Body.new b f.read_timeout f.total_timeout_fut)),
    record f { total_timeout_fut = none },
  )

  unfoldable pub poll :
      (ℕ → F → Poll (Result E (R × B)) × F)
      → ℕ
      → ResponseFuture F T.Sleep
      → Answer T R B E × ResponseFuture F T.Sleep
  unfolding has_fired answer
  poll inner now f =
      let (response, fut) = inner now f.fut in
      if has_fired T now f.total_timeout_fut
      then (ready (err request_timed_out), f)
      else if has_fired T now f.read_timeout_fut
      then (ready (err request_timed_out), f)
      else answer response (record f { fut = fut })
