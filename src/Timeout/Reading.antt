-- ===== src/Timeout/Reading.antt =====
-- Histories of polls of the read timeout of src/client/layer/timeout/body.rs.
use wreq.Base.{
  ℕ, ◌+◌, ◌≤◌, ltb, ◌≡◌, refl, Bool, true, false, ◌&&◌, Option, none, some, List, [], ◌∷◌, map, inl,
  inr, arith, if◌then◌else◌, Bool-cases, Option-cases,
}
use wreq.Base.Maybe.{unwrap_or}
use wreq.Base.Results.{ok, err, waiting, ready}
use wreq.Timeout.Timer.{Timer, Failure, body_timed_out, Frame, map_frame}
use wreq.Timeout.Polls.{is_waiting, all_waiting, polls, after}
use wreq.Timeout.Read
use wreq.Timeout.Read.{ReadTimeoutBody, arm, expired, finish}

-- Every poll of the inner body comes within the timeout of the first poll of its read: a read
-- begins with the first poll after the end of another one.
abbrev pub prompt : {B X D : Type 0} → (ℕ → B → Frame X D × B) → ℕ → Option ℕ → B → List ℕ → Bool
prompt poll timeout start b [] = true
prompt poll timeout start b (t ∷ ts) =
    let s = unwrap_or t start in
    let next = if is_waiting (poll t b).0 then some s else none in
    ltb t (s + timeout) && prompt poll timeout next (poll t b).1 ts

module _ {B X D E : Type 0} (T : Timer) (poll : ℕ → B → Frame X D × B) (into : X → Failure E) where
  -- The deadline that a body is armed with.
  IsDue : ReadTimeoutBody B T.Sleep → ℕ → Type 0
  IsDue b d = (b.armed ≡ true) × ((s : T.Sleep) × (b.sleep ≡ some s) × (T.deadline s ≡ d))

  arm-IsDue :
      (now : ℕ) (b : ReadTimeoutBody B T.Sleep)
      → b.armed ≡ false
      → IsDue (arm T poll into now b) (now + b.timeout)
  unfolding arm IsDue
  arm-IsDue now b off = elim (Option-cases b.sleep) [
    | inl e ↦
        rw (off, e)
          (refl, (T.sleep_until (now + b.timeout), refl, T.deadline-sleep_until (now + b.timeout)))
    | inr (s, e) ↦
        rw (off, e)
          (refl, (T.reset s (now + b.timeout), refl, T.deadline-reset s (now + b.timeout)))
  ]

  arm-armed : (now : ℕ) (b : ReadTimeoutBody B T.Sleep) → b.armed ≡ true → arm T poll into now b ≡ b
  unfolding arm
  arm-armed now b on = rw on refl

  arm-body : (now : ℕ) (b : ReadTimeoutBody B T.Sleep) → (arm T poll into now b).body ≡ b.body
  unfolding arm
  arm-body now b = elim (Bool-cases b.armed) [ inl e ↦ rw e refl | inr e ↦ rw e refl ]

  arm-timeout :
      (now : ℕ) (b : ReadTimeoutBody B T.Sleep) → (arm T poll into now b).timeout ≡ b.timeout
  unfolding arm
  arm-timeout now b = elim (Bool-cases b.armed) [ inl e ↦ rw e refl | inr e ↦ rw e refl ]

  expired_due :
      (now : ℕ) (b : ReadTimeoutBody B T.Sleep) (s : T.Sleep)
      → b.sleep ≡ some s
      → expired T poll into now b ≡ T.is_ready now s
  unfolding expired
  expired_due now b s e = rw e refl

  -- Past its deadline and the timer's slack the read fails, whatever the body would answer.
  late_lem :
      (now d : ℕ) (b : ReadTimeoutBody B T.Sleep)
      → IsDue (arm T poll into now b) d
      → d + T.slack ≤ now
      → (Read.poll_frame T poll into now b).0 ≡ ready (some (err body_timed_out))
  unfolding Read.poll_frame IsDue
  late_lem now d b (on, (s, e, due)) late =
      rw (expired_due now (arm T poll into now b) s e, T.not_late now s (omega (arith, due, late)))
        refl

  -- Before its deadline the inner body answers.
  early_lem :
      (now d : ℕ) (b : ReadTimeoutBody B T.Sleep)
      → IsDue (arm T poll into now b) d
      → ltb now d ≡ true
      → Read.poll_frame T poll into now b
        ≡ finish T poll into
            (poll now b.body).0
            (record (arm T poll into now b) { body = (poll now b.body).1 })
  unfolding Read.poll_frame IsDue
  early_lem now d b (on, (s, e, due)) soon = elim (Bool-cases (T.is_ready now s)) [
    | inl e' ↦ ground (arith, T.not_early now s e')
    | inr e' ↦ rw (expired_due now (arm T poll into now b) s e, e', arm-body now b) refl
  ]

  finish_waiting :
      (f : Frame X D) (b : ReadTimeoutBody B T.Sleep)
      → is_waiting (finish T poll into f b).0 ≡ true
      → (finish T poll into f b).1 ≡ b
  unfolding finish
  finish_waiting waiting b h = refl
  finish_waiting (ready none) b h = ground arith
  finish_waiting (ready (some (ok d))) b h = ground arith
  finish_waiting (ready (some (err x))) b h = ground arith

  -- A poll that does not answer leaves the deadline as it is.
  waiting_lem :
      (now later d : ℕ) (b : ReadTimeoutBody B T.Sleep)
      → IsDue (arm T poll into now b) d
      → is_waiting (Read.poll_frame T poll into now b).0 ≡ true
      → IsDue (arm T poll into later (Read.poll_frame T poll into now b).1) d
  unfolding Read.poll_frame finish IsDue
  waiting_lem now later d b (on, (s, e, due)) h =
      elim (Bool-cases (expired T poll into now (arm T poll into now b))) [
        | inl e' ↦ ground (arith, rw e' at h)
        | inr e' ↦ rw e' (
            rw
              (finish_waiting (poll now (arm T poll into now b).body).0
                (record (arm T poll into now b) {
                  body = (poll now (arm T poll into now b).body).1;
                })
                (rw e' at h))
              (rw on (refl, (s, e, due))))
      ]

  -- The deadline stands while the polls do not answer.
  waiting-IsDue :
      (now d : ℕ) (b : ReadTimeoutBody B T.Sleep) (ts : List ℕ)
      → ((t : ℕ) → IsDue (arm T poll into t b) d)
      → all_waiting (polls (Read.poll_frame T poll into) b ts) ≡ true
      → IsDue (arm T poll into now (after (Read.poll_frame T poll into) b ts)) d
  waiting-IsDue now d b [] due h = due now
  waiting-IsDue now d b (t ∷ ts) due h =
      waiting-IsDue now d (Read.poll_frame T poll into t b).1 ts
        (λ t'. waiting_lem t t' d b (due t) (ground arith)) (ground arith)

  -- A read whose polls do not answer ends: a poll at least the timeout and the timer's slack after
  -- the first poll of the read answers with the timeout's error, however often and whenever the
  -- body was polled in between, and whatever the inner body has by then.
  pub read_expires :
      (b : ReadTimeoutBody B T.Sleep) (t : ℕ) (ts : List ℕ) (now : ℕ)
      → b.armed ≡ false
      → all_waiting (polls (Read.poll_frame T poll into) b (t ∷ ts)) ≡ true
      → t + b.timeout + T.slack ≤ now
      → (Read.poll_frame T poll into now (after (Read.poll_frame T poll into) b (t ∷ ts))).0
        ≡ ready (some (err body_timed_out))
  read_expires b t ts now off h late =
      late_lem now (t + b.timeout) (after (Read.poll_frame T poll into) b (t ∷ ts))
        (waiting-IsDue now (t + b.timeout) (Read.poll_frame T poll into t b).1 ts
          (λ t'. waiting_lem t t' (t + b.timeout) b (arm-IsDue t b off) (ground arith))
          (ground arith))
        late

  -- The read that a body is in began at this instant, or the body is between reads.
  Since : Option ℕ → ReadTimeoutBody B T.Sleep → Type 0
  Since none b = b.armed ≡ false
  Since (some t) b = (now : ℕ) → IsDue (arm T poll into now b) (t + b.timeout)

  Since-IsDue :
      (start : Option ℕ) (b : ReadTimeoutBody B T.Sleep) (t : ℕ)
      → Since start b
      → IsDue (arm T poll into t b) (unwrap_or t start + b.timeout)
  unfolding Since
  Since-IsDue none b t off = arm-IsDue t b off
  Since-IsDue (some s) b t due = due t

  finish_map :
      (f : Frame X D) (b : ReadTimeoutBody B T.Sleep)
      → (finish T poll into f b).0 ≡ map_frame into f
  unfolding finish
  finish_map waiting b = refl
  finish_map (ready none) b = refl
  finish_map (ready (some (ok d))) b = refl
  finish_map (ready (some (err x))) b = refl

  finish-Since :
      (f : Frame X D) (b : ReadTimeoutBody B T.Sleep) (t : ℕ)
      → IsDue b (t + b.timeout)
      → Since (if is_waiting f then some t else none) (finish T poll into f b).1
  unfolding Since finish IsDue
  finish-Since waiting b t (on, (s, e, due)) = λ now. rw (arm-armed now b on) (on, (s, e, due))
  finish-Since (ready f) b t due = refl

  finish_body :
      (f : Frame X D) (b : ReadTimeoutBody B T.Sleep)
      → ((finish T poll into f b).1.body ≡ b.body)
        × ((finish T poll into f b).1.timeout ≡ b.timeout)
  unfolding finish
  finish_body waiting b = (refl, refl)
  finish_body (ready f) b = (refl, refl)

  transparent_lem :
      (start : Option ℕ) (b : ReadTimeoutBody B T.Sleep) (ts : List ℕ)
      → Since start b
      → prompt poll b.timeout start b.body ts ≡ true
      → polls (Read.poll_frame T poll into) b ts ≡ map (map_frame into) (polls poll b.body ts)
  unfolding IsDue arm
  transparent_lem start b [] since h = refl
  transparent_lem start b (t ∷ ts) since h =
      let s = unwrap_or t start in
      let f = (poll t b.body).0 in
      let armed : ReadTimeoutBody B T.Sleep = record (arm T poll into t b) {
        body = (poll t b.body).1;
      } in
      let soon = early_lem t (s + b.timeout) b (Since-IsDue start b t since) (ground arith) in
      let b' = (finish T poll into f armed).1 in
      let (body, timeout) = finish_body f armed in
      let since' = finish-Since f armed s (rw (arm-timeout t b) (Since-IsDue start b t since)) in
      let rest =
        transparent_lem (if is_waiting f then some s else none) b' ts since'
          (rw (timeout, body, arm-timeout t b) (ground arith)) in
      rw (soon, finish_map f armed, rest, body) refl

  -- A read timeout changes nothing while each poll comes before the timeout has passed since the
  -- first poll of its read: the answers are those of the inner body, with its errors boxed. The time
  -- between the end of a read and the first poll of the next one does not count.
  pub read_transparent :
      (b : ReadTimeoutBody B T.Sleep) (ts : List ℕ)
      → b.armed ≡ false
      → prompt poll b.timeout none b.body ts ≡ true
      → polls (Read.poll_frame T poll into) b ts ≡ map (map_frame into) (polls poll b.body ts)
  unfolding Since
  read_transparent b ts off h = transparent_lem none b ts off h
