-- ===== src/Timeout/Deadlines.antt =====
-- What the polls of src/client/layer/timeout leave of the total timeout.
use wreq.Base.{
  ℕ, ◌≡◌, refl, sym, ap, ◌∙◌, ◌≢◌, true, Option, none, some, List, [], ◌∷◌, inl, inr, arith,
  Bool-cases,
}
use wreq.Base.Results.{Result, Poll, ok, err, waiting, ready}
use wreq.Timeout.Polls.{is_waiting, all_waiting, polls, after}
use wreq.Timeout.Timer.{Timer, HttpBody, Failure, body_timed_out, request_timed_out, raw, Frame}
use wreq.Timeout.Body
use wreq.Timeout.Body.{TimeoutBody, plain, total_timeout, read_timeout, combined_timeout}
use wreq.Timeout.Total
use wreq.Timeout.Total.{TotalTimeoutBody}
use wreq.Timeout.Read
use wreq.Timeout.Response
use wreq.Timeout.Response.{ResponseFuture, answer, has_fired, call, Answer}

body_of_lem :
    {R B E : Type 0} {r r' : R} {b b' : B}
    → ◌≡◌ {A = Poll (Result E (R × B))} (ready (ok (r', b'))) (ready (ok (r, b)))
    → b' ≡ b
body_of_lem h = cc

some_inj : {A : Type 0} {a b : A} → some a ≡ some b → a ≡ b
some_inj h = cc

module _ {D E : Type 0} (T : Timer) (H : HttpBody D E) where
  -- The total timeout of a body.
  pub total_of : TimeoutBody H.Body T.Sleep → Option T.Sleep
  total_of (plain b) = none
  total_of (read_timeout b) = none
  total_of (total_timeout b) = some b.timeout
  total_of (combined_timeout b) = some b.timeout

  total_of-new :
      (b : H.Body) (read : Option ℕ) (total : Option T.Sleep)
      → total_of (Body.new b read total) ≡ total
  unfolding total_of Body.new
  total_of-new b none none = refl
  total_of-new b none (some s) = refl
  total_of-new b (some r) none = refl
  total_of-new b (some r) (some s) = refl

  Total-timeout :
      {B X : Type 0} (poll : ℕ → B → Frame X D × B) (into : X → Failure E) (now : ℕ)
      (b : TotalTimeoutBody B T.Sleep)
      → (Total.poll_frame T poll into now b).1.timeout ≡ b.timeout
  unfolding Total.poll_frame
  Total-timeout poll into now b = elim (Bool-cases (T.is_ready now b.timeout)) [
    | inl e ↦ rw e refl
    | inr e ↦ rw e refl
  ]

  -- No poll moves the total timeout.
  total_of-poll_frame :
      (now : ℕ) (b : TimeoutBody H.Body T.Sleep)
      → total_of (Body.poll_frame T H now b).1 ≡ total_of b
  unfolding total_of Body.poll_frame
  total_of-poll_frame now (plain b) = refl
  total_of-poll_frame now (read_timeout b) = refl
  total_of-poll_frame now (total_timeout b) = ap some (Total-timeout H.poll_frame raw now b)
  total_of-poll_frame now (combined_timeout b) =
      ap some (Total-timeout (Read.poll_frame T H.poll_frame raw) (λ x. x) now b)

  pub total_of-after :
      (b : TimeoutBody H.Body T.Sleep) (ts : List ℕ)
      → total_of (after (Body.poll_frame T H) b ts) ≡ total_of b
  total_of-after b [] = refl
  total_of-after b (t ∷ ts) =
      total_of-after (Body.poll_frame T H t b).1 ts ∙ total_of-poll_frame t b

  pub fired_lem :
      (now : ℕ) (b : TimeoutBody H.Body T.Sleep) (s : T.Sleep)
      → total_of b ≡ some s
      → T.is_ready now s ≡ true
      → (Body.poll_frame T H now b).0 ≡ ready (some (err body_timed_out))
  unfolding total_of Body.poll_frame Total.poll_frame
  fired_lem now (plain b) s e fired = ground arith
  fired_lem now (read_timeout b) s e fired = ground arith
  fired_lem now (total_timeout b) s e fired = rw (some_inj e, fired) refl
  fired_lem now (combined_timeout b) s e fired = rw (some_inj e, fired) refl

module _ {F R B E : Type 0} (T : Timer) where
  answer_waiting :
      (a : Poll (Result E (R × B))) (f : ResponseFuture F T.Sleep)
      → is_waiting (answer T a f).0 ≡ true
      → (answer T a f).1 ≡ f
  unfolding answer
  answer_waiting waiting f h = refl
  answer_waiting (ready (ok (r, b))) f h = ground arith
  answer_waiting (ready (err e)) f h = ground arith

  pub answer_not_timed_out :
      (a : Poll (Result E (R × B))) (f : ResponseFuture F T.Sleep)
      → (answer T a f).0 ≢ ready (err request_timed_out)
  unfolding answer
  answer_not_timed_out waiting f h = ground arith
  answer_not_timed_out (ready (ok (r, b))) f h = ground arith
  answer_not_timed_out (ready (err e)) f h = ground arith

module _ {F R D E : Type 0} (T : Timer) (H : HttpBody D E)
    (inner : ℕ → F → Poll (Result E (R × H.Body)) × F) where
  -- A poll that does not answer changes the inner future only.
  waiting_lem :
      (now : ℕ) (f : ResponseFuture F T.Sleep)
      → is_waiting (Response.poll T inner now f).0 ≡ true
      → (Response.poll T inner now f).1 ≡ record f { fut = (inner now f.fut).1 }
  unfolding Response.poll
  waiting_lem now f h = elim (Bool-cases (has_fired T now f.total_timeout_fut)) [
    | inl e ↦ ground (arith, rw e at h)
    | inr e ↦ elim (Bool-cases (has_fired T now f.read_timeout_fut)) [
      | inl e' ↦ ground (arith, rw (e, e') at h)
      | inr e' ↦
          rw (e, e')
            (answer_waiting T (inner now f.fut).0 (record f { fut = (inner now f.fut).1 })
              (rw (e, e') at h))
    ]
  ]

  pub after_lem :
      (f : ResponseFuture F T.Sleep) (ts : List ℕ)
      → all_waiting (polls (Response.poll T inner) f ts) ≡ true
      → ((after (Response.poll T inner) f ts).total_timeout_fut ≡ f.total_timeout_fut)
        × ((after (Response.poll T inner) f ts).read_timeout_fut ≡ f.read_timeout_fut)
  after_lem f [] h = (refl, refl)
  after_lem f (t ∷ ts) h =
      let (total, read) = after_lem (Response.poll T inner t f).1 ts (ground arith) in
      let same = waiting_lem t f (ground arith) in
      (total ∙ ap (λ g. g.total_timeout_fut) same, read ∙ ap (λ g. g.read_timeout_fut) same)

  pub fired_poll :
      (now : ℕ) (f : ResponseFuture F T.Sleep)
      → has_fired T now f.total_timeout_fut ≡ true
      → (Response.poll T inner now f).0 ≡ ready (err request_timed_out)
  unfolding Response.poll
  fired_poll now f fired = rw fired refl

  -- A body comes with the total timeout that was running.
  answer-total_of :
      (a : Poll (Result E (R × H.Body))) (f : ResponseFuture F T.Sleep) (r : R)
      (b : TimeoutBody H.Body T.Sleep)
      → (answer T a f).0 ≡ ready (ok (r, b))
      → total_of T H b ≡ f.total_timeout_fut
  unfolding answer
  answer-total_of waiting f r b h = ground arith
  answer-total_of (ready (err e)) f r b h = ground arith
  answer-total_of (ready (ok (r', b'))) f r b h =
      ap (total_of T H) (sym (body_of_lem h))
      ∙ total_of-new T H b' f.read_timeout f.total_timeout_fut

  pub poll-total_of :
      (now : ℕ) (f : ResponseFuture F T.Sleep) (r : R) (b : TimeoutBody H.Body T.Sleep)
      → (Response.poll T inner now f).0 ≡ ready (ok (r, b))
      → total_of T H b ≡ f.total_timeout_fut
  unfolding Response.poll
  poll-total_of now f r b h = elim (Bool-cases (has_fired T now f.total_timeout_fut)) [
    | inl e ↦ ground (arith, rw e at h)
    | inr e ↦ elim (Bool-cases (has_fired T now f.read_timeout_fut)) [
      | inl e' ↦ ground (arith, rw (e, e') at h)
      | inr e' ↦
          answer-total_of (inner now f.fut).0 (record f { fut = (inner now f.fut).1 }) r b
            (rw (e, e') at h)
    ]
  ]
