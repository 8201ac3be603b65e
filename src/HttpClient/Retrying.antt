-- ===== src/HttpClient/Retrying.antt =====
-- What the retries of `send_request` of src/client/layer/client.rs keep, and how often it tries.
use wreq.Base.{
  ℕ, zero, suc, ◌≡◌, ◌≢◌, refl, ap, ◌∙◌, ◌||◌, not, Option, none, some, inl, inr, Bool-cases,
}
use wreq.Base.Results.{Result, ok, err}
use wreq.Base.Text.{Text}
use wreq.Config
use wreq.Config.{RequestConfig}
use wreq.HttpClient.{Uri, Crates, Config, Request, Error}
use wreq.HttpClient.Uris.{generate_host_header}
use wreq.HttpClient.Preparing.{prepare}
use wreq.HttpClient.Dressing.{IsPrepared, prepare-IsPrepared}
use wreq.HttpClient.Sending.{
  Pooled, Sent, responded, returned, failed, Calls, Attempt, success, retryable, nope, Outcome,
  answer, send_prepared, on_prepared, on_found, on_attempt, try_send_request, send_loop,
  send_request_with,
}

module _ (x : Crates) {D : Type 0} (c : Calls x D) where
  answer-no_panic :
      (store : Option x.CookieStore) (uri : Uri) (sent : Sent x × Pooled x × c.World)
      → (answer x c store uri sent).0 ≢ Attempt.panicked
  unfolding answer
  answer-no_panic store uri (responded res, pooled, w) p = cc
  answer-no_panic store uri (returned req e, pooled, w) p = cc
  answer-no_panic store uri (failed e, pooled, w) p = cc

  module _ (config : Config) (cookie_store : RequestConfig x.CookieStore) where
    on_prepared-no_panic :
        (pooled : Pooled x) (req : Request x) (v : Text) (r : Option (Result (Error x) (Request x)))
        (w : c.World)
        → IsPrepared x config pooled.client req v r
        → (on_prepared x c config cookie_store req.uri pooled r w).0 ≢ Attempt.panicked
    unfolding send_prepared
    on_prepared-no_panic pooled req v none w i = elim i [ ]
    on_prepared-no_panic pooled req v (some (err e)) w i = λ p. cc
    on_prepared-no_panic pooled req v (some (ok a)) w i =
        answer-no_panic (Config.fetch x.extensions cookie_store a.extensions) req.uri _

    on_found-no_panic :
        (req : Request x) (v : Text) (found : Option (Result (Error x) (Pooled x))) (w : c.World)
        → generate_host_header x req.uri ≡ some v
        → (on_found x c config cookie_store req found w).0 ≢ Attempt.panicked
    on_found-no_panic req v none w h = λ p. cc
    on_found-no_panic req v (some (err e)) w h = λ p. cc
    on_found-no_panic req v (some (ok pooled)) w h =
        on_prepared-no_panic pooled req v (prepare x config pooled.client req) w
          (prepare-IsPrepared x config pooled.client req v h)

    on_attempt-no_panic :
        (loop : Request x → c.World → Outcome x × c.World) (uri : Uri)
        → ((req : Request x) (w : c.World) → req.uri ≡ uri → (loop req w).0 ≢ Outcome.panicked)
        → (attempt : Attempt x) (w : c.World) → attempt ≢ Attempt.panicked
        → (on_attempt x c config cookie_store loop uri attempt w).0 ≢ Outcome.panicked
    on_attempt-no_panic loop uri h (success res) w n = λ p. cc
    on_attempt-no_panic loop uri h (nope e) w n = λ p. cc
    on_attempt-no_panic loop uri h Attempt.panicked w n = elim (n refl) [ ]
    on_attempt-no_panic loop uri h Attempt.unanswered w n = λ p. cc
    on_attempt-no_panic loop uri h (retryable e req reused) w n =
        elim (Bool-cases (not config.retry_canceled_requests || not reused)) [
          | inl stop ↦ rw stop (λ p. cc)
          | inr again ↦ rw again (h (record req { uri = uri }) w refl)
        ]

    send_loop-no_panic :
        (descriptor : D) (uri : Uri) (v : Text)
        → generate_host_header x uri ≡ some v
        → (n : ℕ) (req : Request x) (w : c.World) → req.uri ≡ uri
        → (send_loop x c config cookie_store descriptor n uri req w).0 ≢ Outcome.panicked
    unfolding send_loop try_send_request
    send_loop-no_panic descriptor uri v h zero req w e = λ p. cc
    send_loop-no_panic descriptor uri v h (suc n) req w e =
        on_attempt-no_panic (send_loop x c config cookie_store descriptor n uri) uri
          (send_loop-no_panic descriptor uri v h n) _ _
          (on_found-no_panic req v _ _ (ap (generate_host_header x) e ∙ h))

    -- Sending a request never panics where its `Host` can be written, however often the request is
    -- tried again: each attempt has the URI of the first.
    pub send_request-no_panic :
        (descriptor : D) (fuel : ℕ) (req : Request x) (w : c.World) (v : Text)
        → generate_host_header x req.uri ≡ some v
        → (send_request_with x c config cookie_store descriptor fuel req w).0 ≢ Outcome.panicked
    unfolding send_request_with
    send_request-no_panic descriptor fuel req w v h =
        send_loop-no_panic descriptor req.uri v h fuel req w refl
