-- ===== src/Retry/Tests.antt =====
-- A retry that the default policy makes, and instances of the theorems about retries. A budget is a
-- number of tokens; an error is the number of its sources, the last of which is a `GOAWAY`.
use wreq.Base.{ℕ, ◌+◌, ◌-◌, ◌≤◌, refl, true, false, none, some, List, [], ltb, if◌then◌else◌}
use wreq.Base.Eq.{◌==◌, nat_eq, option_eq}
use wreq.Base.Text.{codes}
use wreq.Uri.{https}
use wreq.Retry.{
  Crates, Http2Error, Request, failure, RetryPolicy, protocol_nacks, unscoped, default_policy, new,
  is_retryable_error, classify, applies_to, act, retry, clone_request, no_error,
}
use wreq.Retry.Attempts.{Acted, Retries, Retries-within_max}
use wreq.Retry.Attempts

abbrev going_away : Http2Error
going_away = record {
  is_go_away = true;
  is_reset = false;
  is_remote = true;
  reason = some no_error;
}

abbrev crates : Crates
crates = record {
  Failure = ℕ;
  source = λ n. if n == 0 then none else some (n - 1);
  downcast_ref = λ n. if n == 0 then some going_away else none;
  Headers = List ℕ;
  Extensions = List ℕ;
  Body = ℕ;
  try_clone = λ n. some n;
  Budget = ℕ;
  deposit = λ b. b + 1;
  withdraw = λ b. (b - 1, ltb 0 b);
}

abbrev request : Request crates
request = record {
  method = codes "GET";
  uri = record {
    scheme = some https;
    host = some (codes "a.example");
    port = none;
    path = codes "/";
  };
  version = 2;
  headers = [];
  extensions = [];
  body = 4;
}

-- All that a retry computes with.
attempt : Unit {0}
unfolding is_retryable_error classify applies_to act retry clone_request new
attempt = tt

abbrev fresh : RetryPolicy crates
fresh = record {
  budget = none;
  classifier = protocol_nacks;
  max_retries_per_request = 2;
  retry_cnt = 0;
  scope = unscoped;
}

Retries-within_max_example : 1 ≤ 2
Retries-within_max_example =
    Retries-within_max crates (default_policy crates) 1 (record fresh { retry_cnt = 1 })
      (Attempts.again {r = record fresh { retry_cnt = 1 }} request request (failure 2)
        Attempts.start (unfold attempt in refl) (unfold attempt in refl))
