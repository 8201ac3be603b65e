-- ===== src/Timeout/Tests.antt =====
-- A timer without slack, and bodies and responses that are there from a given instant on.
use wreq.Base.{
  ℕ, ◌+◌, ◌≤◌, leb, ◌≡◌, refl, true, false, Option, none, some, List, [], ◌∷◌, arith, if◌then◌else◌,
}
use wreq.Base.Results.{Result, Poll, ok, err, waiting, ready}
use wreq.Config
use wreq.Config.{RequestConfig, Extensions}
use wreq.Timeout.{TimeoutOptions, fetch_timeout_options}
use wreq.Timeout.Connect.{IsTimed, poll_connect, call_connect, poll_connect-IsTimed}
use wreq.Timeout.Polls.{polls, after}
use wreq.Timeout.Timer.{Timer, HttpBody, body_timed_out, raw, Frame}
use wreq.Timeout.Body
use wreq.Timeout.Body.{TimeoutBody, combined_timeout}
use wreq.Timeout.Read
use wreq.Timeout.Read.{ReadTimeoutBody, disarmed}
use wreq.Timeout.Reading.{read_expires, read_transparent}
use wreq.Timeout.Response
use wreq.Timeout.Response.{ResponseFuture, call}
use wreq.Timeout.Covering.{total_ends_body}

leb_le : (a b : ℕ) → leb a b ≡ true → a ≤ b
leb_le a b h = ground arith

le_leb : (a b : ℕ) → a + 0 ≤ b → leb a b ≡ true
le_leb a b h = ground arith

abbrev exact : Timer
exact = record {
  Sleep = ℕ;
  sleep = λ now d. now + d;
  sleep_until = λ t. t;
  reset = λ s t. t;
  is_ready = λ now s. leb s now;
  deadline = λ s. s;
  slack = 0;
  deadline-sleep = λ now d. refl;
  deadline-sleep_until = λ t. refl;
  deadline-reset = λ s t. refl;
  not_early = λ now s. leb_le s now;
  not_late = λ now s. le_leb s now;
}

abbrev next_frame : ℕ → List ℕ → Frame ℕ ℕ × List ℕ
next_frame now [] = (ready none, [])
next_frame now (t ∷ ts) = if leb t now then (ready (some (ok t)), ts) else (waiting, t ∷ ts)

abbrev frames : HttpBody ℕ ℕ
frames = record {
  Body = List ℕ;
  poll_frame = next_frame;
  size_hint = λ b. (0, none);
  is_end_stream = λ b. false;
}

abbrev respond : ℕ → ℕ → Poll (Result ℕ (ℕ × List ℕ)) × ℕ
respond now t = if leb t now then (ready (ok (200, 8 ∷ 20 ∷ [])), t) else (waiting, t)

-- Extensions that hold at most one configuration.
abbrev options : Extensions (RequestConfig TimeoutOptions)
options = record {
  Ext = Option (RequestConfig TimeoutOptions);
  get = λ e. e;
  insert = λ a e. some a;
  remove = λ e. none;
  get-insert = λ a e. refl;
  get-remove = λ e. refl;
}

abbrev client : RequestConfig TimeoutOptions
client = record { value = some (record { read_timeout = some 5; total_timeout = some 30 }) }

abbrev request : Option (RequestConfig TimeoutOptions)
request = some (record { value = some (record { read_timeout = none; total_timeout = some 10 }) })

read_expires_example :
    (Read.poll_frame exact next_frame raw 7
      (after (Read.poll_frame exact next_frame raw) (disarmed (50 ∷ []) 5) (2 ∷ 4 ∷ []))).0
    ≡ ready (some (err body_timed_out))
unfolding Read.poll_frame Read.arm Read.expired Read.finish
read_expires_example =
    read_expires exact next_frame raw (disarmed (50 ∷ []) 5) 2 (4 ∷ []) 7 refl refl (omega arith)

read_transparent_example :
    polls (Read.poll_frame exact next_frame raw) (disarmed (4 ∷ 20 ∷ []) 5) (1 ∷ 4 ∷ 18 ∷ 21 ∷ [])
    ≡ waiting ∷ ready (some (ok 4)) ∷ waiting ∷ ready (some (ok 20)) ∷ []
read_transparent_example =
    read_transparent exact next_frame raw (disarmed (4 ∷ 20 ∷ []) 5) (1 ∷ 4 ∷ 18 ∷ 21 ∷ []) refl
      refl

total_ends_body_example :
    (Body.poll_frame exact frames 11 (
      after
        (Body.poll_frame exact frames)
        (combined_timeout (record { body = disarmed (8 ∷ 20 ∷ []) 5; timeout = 11 }))
        (8 ∷ 9 ∷ []))).0
    ≡ ready (some (err body_timed_out))
unfolding Response.poll Response.has_fired Response.answer call fetch_timeout_options Config.fetch
    Body.new
total_ends_body_example =
    total_ends_body exact frames respond options client request 1 4 10 11 5 (2 ∷ 3 ∷ [])
      (8 ∷ 9 ∷ []) 200 (combined_timeout (record { body = disarmed (8 ∷ 20 ∷ []) 5; timeout = 11 }))
      refl refl refl (omega arith)

-- A connector that never answers.
abbrev silent : ℕ → ℕ → Poll (Result ℕ ℕ) × ℕ
silent now f = (waiting, f)

poll_connect-IsTimed_example :
    IsTimed exact silent
      (some 30)
      5
      40
      waiting
      (poll_connect exact silent 40
        (after (poll_connect exact silent) (call_connect exact (some 30) 5 0) (8 ∷ 20 ∷ []))).0
unfolding poll_connect
poll_connect-IsTimed_example = poll_connect-IsTimed exact silent (some 30) 5 0 (8 ∷ 20 ∷ []) 40
