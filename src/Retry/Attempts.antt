-- ===== src/Retry/Attempts.antt =====
-- How often and why the policy of src/client/layer/retry.rs sends a request again.
use mathlib.Core.Option
use wreq.Base.{
  ℕ, suc, ◌+◌, ◌≤◌, ◌<◌, ◌≡◌, refl, ap, sym, ◌∙◌, ◌⊎◌, inl, inr, Bool, true, false, Option, none,
  some, arith, Option-cases, Bool-cases, if◌then◌else◌,
}
use wreq.Base.Eq.{eq_iff, nat_eq, option_eq}
use wreq.Base.Maybe.{◌>>=◌}
use wreq.Retry.{
  Crates, Http2Error, Request, Answer, status, failure, Action, success, retryable, Policy,
  RetryPolicy, default_policy, new, is_nack, is_retryable_error, classify, applies_to, retry, act,
  clone_request, no_error, refused_stream,
}

module _ (x : Crates) where
  -- A request is cloned only below the maximum, and again only in the policy's scope. The clone has
  -- the request's method, URI, version, headers and extensions, and a clone of its body.
  clone_request-some :
      (p : RetryPolicy x) (req sent : Request x)
      → clone_request x p req ≡ some sent
      → (p.retry_cnt < p.max_retries_per_request)
        × ((p.retry_cnt ≡ 0) ⊎ (applies_to x p.scope req ≡ true))
        × (x.try_clone req.body ≡ some sent.body)
        × (record sent { body = req.body } ≡ req)
  unfolding clone_request
  clone_request-some p req sent h = (ground arith, ground arith, ground arith, ground arith)

  -- Whether the budget grants a retry.
  abbrev pub granted : Option x.Budget → Bool
  granted none = true
  granted (some b) = (x.withdraw b).1

  -- What `retry` does with an action.
  abbrev pub Acted : RetryPolicy x → Action → Option x.Budget → RetryPolicy x × Bool → Type 0
  Acted p a budget (q, again) =
      (q.retry_cnt ≡ (if again then p.retry_cnt + 1 else p.retry_cnt))
      × (q.max_retries_per_request ≡ p.max_retries_per_request)
      × (((a ≡ success) × (again ≡ false) × (q.budget ≡ Option.map x.deposit budget))
          ⊎ ((a ≡ retryable)
              × (again ≡ granted budget)
              × (q.budget ≡ Option.map (λ b. (x.withdraw b).0) budget)))

  act-Acted :
      (p : RetryPolicy x) (a : Action) (budget : Option x.Budget)
      → p.budget ≡ budget
      → Acted p a budget (act x p a budget)
  unfolding act
  act-Acted p success none e = (refl, refl, inl (refl, refl, e))
  act-Acted p success (some b) e = (refl, refl, inl (refl, refl, refl))
  act-Acted p retryable none e = (refl, refl, inr (refl, refl, e))
  act-Acted p retryable (some b) e = elim (Bool-cases (x.withdraw b).1) [
    | inl g ↦ rw g (refl, refl, inr (refl, refl, refl))
    | inr g ↦ rw g (refl, refl, inr (refl, refl, refl))
  ]

  -- A request is sent again exactly where its result is classified as retryable and the budget, if
  -- there is one, grants a withdrawal. That alone counts as a retry; a deposit is made exactly for a
  -- result that is not retryable.
  retry-Acted :
      (p : RetryPolicy x) (req : Request x) (res : Answer x)
      → Acted p (classify x p.classifier req res) p.budget (retry x p req res)
  unfolding retry
  retry-Acted p req res = act-Acted p (classify x p.classifier req res) p.budget refl

  -- The calls for one request: each time it is cloned, and its result has the clone sent.
  pub data Retries (p : RetryPolicy x) : ℕ → RetryPolicy x → Type 0 where
    start : Retries p 0 p
    again :
        {n : ℕ} {q r : RetryPolicy x} (req sent : Request x) (res : Answer x)
        → Retries p n q
        → clone_request x q req ≡ some sent
        → retry x q req res ≡ (r, true)
        → Retries p (suc n) r

  -- The state after `n` retries of a request.
  abbrev IsCounted : ℕ → ℕ → RetryPolicy x → Type 0
  IsCounted max n q = (q.max_retries_per_request ≡ max) × (q.retry_cnt ≡ n) × (n ≤ max)

  Retries-IsCounted :
      (p : RetryPolicy x)
      → p.retry_cnt ≡ 0
      → (n : ℕ) (q : RetryPolicy x) → Retries p n q
      → IsCounted p.max_retries_per_request n q
  Retries-IsCounted p zero_cnt n q start = (refl, zero_cnt, ground arith)
  Retries-IsCounted p zero_cnt n r (again {n = k} {q = q} req sent res before cloned sends) =
      let (max, cnt, within) = Retries-IsCounted p zero_cnt k q before in
      let (below, _, _, _) = clone_request-some q req sent cloned in
      let (cnt', max', _) = retry-Acted q req res in
      let more : (retry x q req res).0.retry_cnt ≡ q.retry_cnt + 1 =
        rw (ap (λ a. a.1) sends) at cnt' in
      let one_more : k + 1 ≡ suc k = omega arith in
      let to : (retry x q req res).0 ≡ r = ap (λ a. a.0) sends in
      (
        ap (λ a. a.max_retries_per_request) (sym to) ∙ max' ∙ max,
        ap (λ a. a.retry_cnt) (sym to) ∙ more ∙ ap (λ a. a + 1) cnt ∙ one_more,
        omega (arith, below, cnt, max),
      )

  -- A request is sent again at most as often as its policy says, whatever the results are.
  pub Retries-within_max :
      (policy : Policy x) (n : ℕ) (q : RetryPolicy x)
      → Retries (new x policy) n q
      → n ≤ policy.max_retries_per_request
  unfolding new
  Retries-within_max policy n q r = (Retries-IsCounted (new x policy) refl n q r).2

  -- The default policy sends a request again only after an error that has an HTTP/2 error of the
  -- remote two sources down: a graceful `GOAWAY`, or a stream that was refused.
  default_policy-nack :
      (req : Request x) (res : Answer x)
      → (retry x (new x (default_policy x)) req res).1 ≡ true
      → (e : x.Failure) × (cause : Http2Error) × (res ≡ failure e)
        × ((x.source e >>= x.source >>= x.downcast_ref) ≡ some cause)
        × (cause.is_remote ≡ true)
        × (((cause.is_go_away ≡ true) × (cause.reason ≡ some no_error))
            ⊎ ((cause.is_reset ≡ true) × (cause.reason ≡ some refused_stream)))
  unfolding retry act classify new is_retryable_error
  default_policy-nack req (status s) h = cc
  default_policy-nack req (failure e) h =
      let nacks : is_retryable_error x e ≡ true = ground arith in
      elim (Option-cases (x.source e >>= x.source >>= x.downcast_ref)) [
        | inl absent ↦ cc (rw (absent, is_retryable_error) at nacks)
        | inr (cause, found) ↦
            let nack : is_nack cause ≡ true = rw (found, is_retryable_error) at nacks in
            (
              e,
              cause,
              refl,
              found,
              ground arith,
              ground (
                arith,
                eq_iff cause.reason (some no_error),
                eq_iff cause.reason (some refused_stream),
              ),
            )
      ]
