-- ===== src/Retry.antt =====
-- The retry policy of src/retry.rs and src/client/layer/retry.rs. The `tower` crate calls it: it has a
-- request cloned before the request is sent, asks with the result whether to send the clone, and then
-- has that one cloned in turn.
pub mod Attempts
mod Tests
use wreq.Base.{
  ℕ, ◌+◌, Bool, true, false, ◌&&◌, ◌||◌, not, Option, none, some, leb, ltb, if◌then◌else◌,
}
use wreq.Base.Eq.{◌==◌, nat_eq, option_eq, list_eq}
use wreq.Base.Maybe.{◌>>=◌, ◌>>◌, guard}
use wreq.Base.Text.{Text}
use wreq.Uri.{Uri}

-- An `http2::Error`, by what the policy reads of it.
pub record Http2Error : Type 0 where
  pub is_go_away : Bool
  pub is_reset : Bool
  pub is_remote : Bool
  pub reason : Option ℕ

abbrev pub no_error : ℕ
no_error = 0

abbrev pub refused_stream : ℕ
refused_stream = 7

-- What is outside: the boxed errors with their sources, the bodies, and `TpsBudget`, whose
-- `withdraw` may refuse.
pub record Crates : Type 1 where
  pub Failure : Type 0
  pub source : Failure → Option Failure
  pub downcast_ref : Failure → Option Http2Error
  pub Headers : Type 0
  pub Extensions : Type 0
  pub Body : Type 0
  pub try_clone : Body → Option Body
  pub Budget : Type 0
  pub deposit : Budget → Budget
  pub withdraw : Budget → Budget × Bool

pub record Request (x : Crates) : Type 0 where
  pub method : Text
  pub uri : Uri
  pub version : ℕ
  pub headers : x.Headers
  pub extensions : x.Extensions
  pub body : x.Body

-- The result of a request: the status of a response, or an error.
pub data Answer (x : Crates) : Type 0 where
  status : ℕ → Answer x
  failure : x.Failure → Answer x

pub data Action : Type 0 where
  success retryable : Action

pub data Classifier (x : Crates) : Type 0 where
  never : Classifier x
  protocol_nacks : Classifier x
  dyn : (Request x → Answer x → Action) → Classifier x

pub data Scoped (x : Crates) : Type 0 where
  unscoped : Scoped x
  dyn : (Request x → Bool) → Scoped x

pub record RetryPolicy (x : Crates) : Type 0 where
  pub budget : Option x.Budget
  pub classifier : Classifier x
  pub max_retries_per_request : ℕ
  pub retry_cnt : ℕ
  pub scope : Scoped x

-- `Policy` of src/retry.rs, with its budget as the layer makes it.
pub record Policy (x : Crates) : Type 0 where
  pub budget : Option x.Budget
  pub classifier : Classifier x
  pub max_retries_per_request : ℕ
  pub scope : Scoped x

abbrev pub is_nack : Http2Error → Bool
is_nack e =
    (e.is_go_away && e.is_remote && (e.reason == some no_error))
    || (e.is_reset && e.is_remote && (e.reason == some refused_stream))

module _ (x : Crates) where
  abbrev pub scoped : x.Budget → (Request x → Bool) → Policy x
  scoped default_budget func = record {
    budget = some default_budget;
    classifier = never;
    max_retries_per_request = 2;
    scope = dyn func;
  }

  abbrev pub no_budget : Policy x → Policy x
  no_budget p = record p { budget = none }

  abbrev pub never_policy : x.Budget → Policy x
  never_policy b = no_budget (scoped b (λ req. false))

  abbrev pub for_host : x.Budget → Text → Policy x
  for_host b host = scoped b (λ req. req.uri.host == some host)

  abbrev pub default_policy : Policy x
  default_policy = record {
    budget = none;
    classifier = protocol_nacks;
    max_retries_per_request = 2;
    scope = unscoped;
  }

  unfoldable pub new : Policy x → RetryPolicy x
  new p = record {
    budget = p.budget;
    classifier = p.classifier;
    max_retries_per_request = p.max_retries_per_request;
    retry_cnt = 0;
    scope = p.scope;
  }

  -- The HTTP/2 error is two sources down.
  unfoldable pub is_retryable_error : x.Failure → Bool
  is_retryable_error e = elim (x.source e >>= x.source >>= x.downcast_ref) [
    | none ↦ false
    | some cause ↦ is_nack cause
  ]

  unfoldable pub classify : Classifier x → Request x → Answer x → Action
  classify never req res = success
  classify protocol_nacks req (status s) = success
  classify protocol_nacks req (failure e) = if is_retryable_error e then retryable else success
  classify (dyn f) req res = f req res

  unfoldable pub applies_to : Scoped x → Request x → Bool
  applies_to unscoped req = true
  applies_to (dyn f) req = f req

  -- `retry`: the policy afterwards, and whether to send the clone.
  unfoldable pub act : RetryPolicy x → Action → Option x.Budget → RetryPolicy x × Bool
  act p success none = (p, false)
  act p success (some b) = (record p { budget = some (x.deposit b) }, false)
  act p retryable none = (record p { retry_cnt = p.retry_cnt + 1 }, true)
  act p retryable (some b) =
      let (b', granted) = x.withdraw b in
      if granted
      then (record p { budget = some b'; retry_cnt = p.retry_cnt + 1 }, true)
      else (record p { budget = some b' }, false)

  unfoldable pub retry : RetryPolicy x → Request x → Answer x → RetryPolicy x × Bool
  retry p req res = act p (classify p.classifier req res) p.budget

  unfoldable pub clone_request : RetryPolicy x → Request x → Option (Request x)
  clone_request p req = do
    guard (not (ltb 0 p.retry_cnt && not (applies_to p.scope req)))
    guard (not (leb p.max_retries_per_request p.retry_cnt))
    b ← x.try_clone req.body
    some (record {
      method = req.method;
      uri = req.uri;
      version = req.version;
      headers = req.headers;
      extensions = req.extensions;
      body = b;
    })
