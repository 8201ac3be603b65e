-- ===== src/Timeout/Timer.antt =====
-- The timer, the HTTP body and the response future that src/client/layer/timeout/body.rs and
-- timeout/future.rs are given, and the errors that they make.
use wreq.Base.{ℕ, ◌+◌, ◌≤◌, ◌≡◌, Bool, true, Option, none, some}
use wreq.Base.Results.{Result, Poll, ok, err, waiting, ready}

-- `netty::rt::Timer` and its sleeps. A sleep is ready no earlier than its deadline, and is ready
-- when it is polled at least `slack` later.
pub record Timer : Type 1 where
  pub Sleep : Type 0
  pub sleep : ℕ → ℕ → Sleep
  pub sleep_until : ℕ → Sleep
  pub reset : Sleep → ℕ → Sleep
  pub is_ready : ℕ → Sleep → Bool
  pub deadline : Sleep → ℕ
  pub slack : ℕ
  pub deadline-sleep : (now d : ℕ) → deadline (sleep now d) ≡ now + d
  pub deadline-sleep_until : (t : ℕ) → deadline (sleep_until t) ≡ t
  pub deadline-reset : (s : Sleep) (t : ℕ) → deadline (reset s t) ≡ t
  pub not_early : (now : ℕ) (s : Sleep) → is_ready now s ≡ true → deadline s ≤ now
  pub not_late : (now : ℕ) (s : Sleep) → deadline s + slack ≤ now → is_ready now s ≡ true

-- The boxed errors: `Error::body(TimedOut)`, `Error::request(TimedOut)`, `Error::decode` and an
-- error of the inner body or service.
pub data Failure (E : Type 0) : Type 0 where
  body_timed_out request_timed_out : Failure E
  decode : Failure E → Failure E
  raw : E → Failure E

-- What a poll of a body answers.
abbrev pub Frame : Type 0 → Type 0 → Type 0
Frame X D = Poll (Option (Result X D))

abbrev pub map_frame : {X Y D : Type 0} → (X → Y) → Frame X D → Frame Y D
map_frame f waiting = waiting
map_frame f (ready none) = ready none
map_frame f (ready (some (ok d))) = ready (some (ok d))
map_frame f (ready (some (err x))) = ready (some (err (f x)))

-- `http_body::Body`.
pub record HttpBody (D E : Type 0) : Type 1 where
  pub Body : Type 0
  pub poll_frame : ℕ → Body → Frame E D × Body
  pub size_hint : Body → ℕ × Option ℕ
  pub is_end_stream : Body → Bool
