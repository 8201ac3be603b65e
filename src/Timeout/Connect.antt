-- ===== src/Timeout/Connect.antt =====
-- The timeout of one connection attempt: `Timeout` and `TimeoutFuture` of src/conn/timeout.rs.
use mathlib.Core.Option
use wreq.Base.{
  ℕ, ◌+◌, ◌≤◌, ◌≡◌, refl, sym, subst, true, Option, none, some, List, [], ◌∷◌, inl, inr, ◌⊎◌,
  Bool-cases, arith, if◌then◌else◌,
}
use wreq.Base.Results.{Result, Poll, ok, err, waiting, ready}
use wreq.Timeout.Polls.{after}
use wreq.Timeout.Timer.{Timer}

-- The `BoxError` of an attempt: `TimedOut`, or that of the connector.
pub data BoxError (E : Type 0) : Type 0 where
  timed_out : BoxError E
  inner : E → BoxError E

pub record TimeoutFuture (F S : Type 0) : Type 0 where
  pub future : F
  pub sleep : Option S

module _ {F : Type 0} (T : Timer) where
  -- `call` at the instant `now`; `future` is the call of the inner service.
  unfoldable pub call_connect : Option ℕ → ℕ → F → TimeoutFuture F T.Sleep
  call_connect timeout now future = record {
    future = future;
    sleep = Option.map (T.sleep now) timeout;
  }

module _ {A E : Type 0} (T : Timer) where
  abbrev pub on_pending : ℕ → Option T.Sleep → Poll (Result (BoxError E) A)
  on_pending now none = waiting
  on_pending now (some s) = if T.is_ready now s then ready (err timed_out) else waiting

  abbrev pub on_polled : ℕ → Option T.Sleep → Poll (Result E A) → Poll (Result (BoxError E) A)
  on_polled now sleep (ready (ok a)) = ready (ok a)
  on_polled now sleep (ready (err e)) = ready (err (inner e))
  on_polled now sleep waiting = on_pending now sleep

module _ {F A E : Type 0} (T : Timer) where
  unfoldable pub poll_connect :
      (ℕ → F → Poll (Result E A) × F)
      → ℕ
      → TimeoutFuture F T.Sleep
      → Poll (Result (BoxError E) A) × TimeoutFuture F T.Sleep
  poll_connect connector now f =
      let (a, future) = connector now f.future in
      (on_polled T now f.sleep a, record f { future = future })

  module _ (connector : ℕ → F → Poll (Result E A) × F) where
    after-sleep :
        (ts : List ℕ) (f : TimeoutFuture F T.Sleep)
        → (after (poll_connect connector) f ts).sleep ≡ f.sleep
    unfolding poll_connect
    after-sleep [] f = refl
    after-sleep (t ∷ ts) f = after-sleep ts (record f { future = (connector t f.future).1 })

    -- What a poll answers at the instant `now`, for an attempt that began at `start`.
    abbrev pub IsTimed :
        Option ℕ → ℕ → ℕ → Poll (Result E A) → Poll (Result (BoxError E) A) → Type 0
    IsTimed timeout start now (ready (ok a)) answer = answer ≡ ready (ok a)
    IsTimed timeout start now (ready (err e)) answer = answer ≡ ready (err (inner e))
    IsTimed none start now waiting answer = answer ≡ waiting
    IsTimed (some d) start now waiting answer =
        ((answer ≡ waiting) ⊎ ((answer ≡ ready (err timed_out)) × (start + d ≤ now)))
        × (start + d + T.slack ≤ now → answer ≡ ready (err timed_out))

    on_polled-IsTimed :
        (timeout : Option ℕ) (start now : ℕ) (a : Poll (Result E A))
        → IsTimed timeout start now a (on_polled T now (Option.map (T.sleep start) timeout) a)
    on_polled-IsTimed timeout start now (ready (ok a)) = refl
    on_polled-IsTimed timeout start now (ready (err e)) = refl
    on_polled-IsTimed none start now waiting = refl
    on_polled-IsTimed (some d) start now waiting =
        let s = T.sleep start d in
        let due = T.deadline-sleep start d in
        elim (Bool-cases (T.is_ready now s)) [
          | inl fired ↦
              rw (fired, on_polled)
                (inr (refl, subst (λ n. n ≤ now) due (T.not_early now s fired)), λ late. refl)
          | inr not_yet ↦
              rw (not_yet, on_polled)
                (
                  inl refl,
                  λ late.
                      let fires : T.is_ready now s ≡ true =
                        T.not_late now s (subst (λ n. n + T.slack ≤ now) (sym due) late) in
                      let no : ⊥ = ground (arith, fires, not_yet) in elim no [ ],
                )
        ]

    -- An attempt that the connector answers has that answer, also after its deadline. One that it does
    -- not answer goes on waiting without a timeout, and else is ended no earlier than its deadline and
    -- at the first poll that comes the timer's slack after it, however it was polled before.
    pub poll_connect-IsTimed :
        (timeout : Option ℕ) (start : ℕ) (future : F) (ts : List ℕ) (now : ℕ)
        → let f = after (poll_connect connector) (call_connect T timeout start future) ts in
          IsTimed timeout start now (connector now f.future).0 (poll_connect connector now f).0
    unfolding poll_connect call_connect
    poll_connect-IsTimed timeout start future ts now =
        let f = after (poll_connect connector) (call_connect T timeout start future) ts in
        let a = (connector now f.future).0 in
        subst (λ s. IsTimed timeout start now a (on_polled T now s a))
          (sym (after-sleep ts (call_connect T timeout start future)))
          (on_polled-IsTimed timeout start now a)
