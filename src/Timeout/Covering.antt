-- ===== src/Timeout/Covering.antt =====
-- The total timeout of src/client/layer/timeout over the response and its body.
use wreq.Base.{
  ℕ, ◌+◌, ◌≤◌, ◌≡◌, refl, sym, ap, ◌∙◌, ◌⊎◌, true, Option, none, some, List, inl, inr, arith,
  Bool-cases,
}
use wreq.Base.Results.{Result, Poll, ok, err, ready}
use wreq.Config.{RequestConfig, Extensions}
use wreq.Timeout.{TimeoutOptions, fetch_timeout_options}
use wreq.Timeout.Polls.{all_waiting, polls, after}
use wreq.Timeout.Timer.{Timer, HttpBody, body_timed_out, request_timed_out}
use wreq.Timeout.Body
use wreq.Timeout.Body.{TimeoutBody, plain, total_timeout, read_timeout, combined_timeout}
use wreq.Timeout.Response
use wreq.Timeout.Response.{ResponseFuture, answer, has_fired, call, Answer}
use mathlib.Core.Option
use wreq.Timeout.Deadlines.{
  after_lem, fired_poll, poll-total_of, fired_lem, total_of-after, answer_not_timed_out,
}

module _ {F R D E : Type 0} (T : Timer) (H : HttpBody D E)
    (inner : ℕ → F → Poll (Result E (R × H.Body)) × F)
    (X : Extensions (RequestConfig TimeoutOptions)) (opts : RequestConfig TimeoutOptions)
    (ext : X.Ext) (t : ℕ) (fut : F) where
  started : ResponseFuture F T.Sleep
  unfolding call
  started = call T X opts ext t fut

  started_total :
      (d : ℕ)
      → (fetch_timeout_options X opts ext).0 ≡ some d
      → started.total_timeout_fut ≡ some (T.sleep t d)
  unfolding started
  started_total d h = rw h refl

  total_fired :
      (d now : ℕ) (ts : List ℕ)
      → (fetch_timeout_options X opts ext).0 ≡ some d
      → all_waiting (polls (Response.poll T inner) started ts) ≡ true
      → t + d + T.slack ≤ now
      → T.is_ready now (T.sleep t d) ≡ true
  total_fired d now ts h waited late =
      T.not_late now (T.sleep t d) (omega (arith, T.deadline-sleep t d, late))

  kept_total :
      (d : ℕ) (ts : List ℕ)
      → (fetch_timeout_options X opts ext).0 ≡ some d
      → all_waiting (polls (Response.poll T inner) started ts) ≡ true
      → (after (Response.poll T inner) started ts).total_timeout_fut ≡ some (T.sleep t d)
  kept_total d ts h waited = (after_lem T H inner started ts waited).0 ∙ started_total d h

  -- A request that is sent at `t` with a total timeout of `d`: the first poll of its response that
  -- comes at least `d` and the timer's slack after `t` fails with the timeout's error, when no poll
  -- before it has answered, whatever the inner service would answer.
  total_ends_response :
      (d now : ℕ) (ts : List ℕ)
      → (fetch_timeout_options X opts ext).0 ≡ some d
      → all_waiting (polls (Response.poll T inner) (call T X opts ext t fut) ts) ≡ true
      → t + d + T.slack ≤ now
      → (Response.poll T inner now (after (Response.poll T inner) (call T X opts ext t fut) ts)).0
        ≡ ready (err request_timed_out)
  unfolding started has_fired
  total_ends_response d now ts h waited late =
      let fired = total_fired d now ts h waited late in
      fired_poll T H inner now (after (Response.poll T inner) started ts)
        (rw (kept_total d ts h waited) fired)

  -- A request that is sent at `t` with a total timeout of `d`, and a response that is handed out,
  -- at any instant: a poll of its body at least `d` and the timer's slack after `t` fails with the
  -- timeout's error, however often the body was polled before and whatever it answered then.
  pub total_ends_body :
      (d now u : ℕ) (ts us : List ℕ) (r : R) (b : TimeoutBody H.Body T.Sleep)
      → (fetch_timeout_options X opts ext).0 ≡ some d
      → all_waiting (polls (Response.poll T inner) (call T X opts ext t fut) ts) ≡ true
      → (Response.poll T inner u (after (Response.poll T inner) (call T X opts ext t fut) ts)).0
        ≡ ready (ok (r, b))
      → t + d + T.slack ≤ now
      → (Body.poll_frame T H now (after (Body.poll_frame T H) b us)).0
        ≡ ready (some (err body_timed_out))
  unfolding started
  total_ends_body d now u ts us r b h waited got late =
      let kept = kept_total d ts h waited in
      fired_lem T H now (after (Body.poll_frame T H) b us) (T.sleep t d)
        (total_of-after T H b us
          ∙ poll-total_of T H inner u (after (Response.poll T inner) started ts) r b got
          ∙ kept)
        (total_fired d now ts h waited late)

  -- A timeout of the configuration has passed since the request was sent.
  abbrev IsPast : Option ℕ → ℕ → Type 0
  IsPast timeout now = (d : ℕ) × (timeout ≡ some d) × (t + d ≤ now)

  fired-IsPast :
      (now : ℕ) (timeout : Option ℕ)
      → has_fired T now (Option.map (T.sleep t) timeout) ≡ true
      → IsPast timeout now
  unfolding has_fired
  fired-IsPast now none h = ground arith
  fired-IsPast now (some d) h =
      (d, refl, omega (arith, T.deadline-sleep t d, T.not_early now (T.sleep t d) h))

  -- The wait for a response fails with the timeout's error only when the total timeout or the read
  -- timeout that holds for the request has passed since it was sent.
  response_not_early :
      (now : ℕ) (ts : List ℕ)
      → all_waiting (polls (Response.poll T inner) (call T X opts ext t fut) ts) ≡ true
      → (Response.poll T inner now (after (Response.poll T inner) (call T X opts ext t fut) ts)).0
        ≡ ready (err request_timed_out)
      → IsPast (fetch_timeout_options X opts ext).0 now
        ⊎ IsPast (fetch_timeout_options X opts ext).1 now
  unfolding started Response.poll
  response_not_early now ts waited h =
      let (total, read) = after_lem T H inner started ts waited in
      let f = after (Response.poll T inner) started ts in
      elim (Bool-cases (has_fired T now f.total_timeout_fut)) [
        | inl e ↦ inl (
            fired-IsPast now (fetch_timeout_options X opts ext).0
              (ap (has_fired T now) (sym total) ∙ e))
        | inr e ↦ elim (Bool-cases (has_fired T now f.read_timeout_fut)) [
          | inl e' ↦ inr (
              fired-IsPast now (fetch_timeout_options X opts ext).1
                (ap (has_fired T now) (sym read) ∙ e'))
          | inr e' ↦
              elim (answer_not_timed_out T (inner now f.fut).0
                (record f { fut = (inner now f.fut).1 }) (rw (e, e') at h)) [ ]
        ]
      ]
