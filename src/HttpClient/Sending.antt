-- ===== src/HttpClient/Sending.antt =====
-- `send_request` and `try_send_request` of src/client/layer/client.rs. What a call of the pool, of a
-- connection or of a cookie store does to the state they share is an interface.
use mathlib.Core.Option
use wreq.Base.{ℕ, zero, suc, Bool, ◌||◌, not, Option, none, some, List, is_empty, if◌then◌else◌}
use wreq.Base.Text.{Text, codes}
use wreq.Base.Results.{Result, ok, err}
use wreq.Config
use wreq.Config.{RequestConfig}
use wreq.Headers.{HeaderName}
use wreq.Cookie.Jar.Header.{Version, Cookies}
use wreq.HttpClient.{
  Uri, Crates, Config, Connected, Extras, envelope, chain, Request, Response, PoolClient, Error,
  new_error, with_connect_info, canceled, send_request, is_http2, is_ready,
}
use wreq.HttpClient.Preparing.{get_all, prepare, add_cookies}

abbrev pub set_cookie : HeaderName
set_cookie = codes "set-cookie"

-- A connection of the pool, as `Pooled`.
pub record Pooled (x : Crates) : Type 0 where
  pub client : PoolClient x
  pub is_reused : Bool
  pub is_pool_enabled : Bool

-- What a connection answers to a request; a request that was not started comes back.
pub data Sent (x : Crates) : Type 0 where
  responded : Response x → Sent x
  returned : Request x → x.BoxError → Sent x
  failed : x.BoxError → Sent x

-- The calls of `try_send_request`, over the state `World` of the pool, the connections and the cookie
-- stores. `connection_for` is that of the client, and `none` where it never answers.
pub record Calls (x : Crates) (D : Type 0) : Type 1 where
  pub World : Type 0
  pub connection_for : D → World → Option (Result (Error x) (Pooled x)) × World
  pub send : Pooled x → Request x → World → Sent x × Pooled x × World
  pub cookies : x.CookieStore → World → Uri → Version → Cookies
  pub set_cookies : x.CookieStore → List Text → Uri → World → World
  pub drop : Pooled x → World → World
  pub execute_on_idle : Pooled x → World → World
  pub insert_extra : x.Extra → x.ResponseExt → x.ResponseExt
  pub insert_info : Connected x → x.ResponseExt → x.ResponseExt

-- The outcome of `try_send_request`.
pub data Attempt (x : Crates) : Type 0 where
  success : Response x → Attempt x
  retryable : Error x → Request x → Bool → Attempt x
  nope : Error x → Attempt x
  panicked unanswered : Attempt x

-- The outcome of `send_request`.
pub data Outcome (x : Crates) : Type 0 where
  done : Result (Error x) (Response x) → Outcome x
  panicked unanswered out_of_fuel : Outcome x

module _ (x : Crates) {D : Type 0} (c : Calls x D) where
  abbrev set_extra : Extras x → x.ResponseExt → x.ResponseExt
  set_extra (envelope a) ext = c.insert_extra a ext
  set_extra (chain prev a) ext = c.insert_extra a (set_extra prev ext)

  unfoldable pub set_extras : Connected x → x.ResponseExt → x.ResponseExt
  set_extras info ext = elim info.extra [ some e ↦ set_extra e ext | none ↦ ext ]

  -- The `Set-Cookie` values of a response.
  unfoldable pub store_cookies : Option x.CookieStore → Response x → Uri → c.World → c.World
  store_cookies none res uri w = w
  store_cookies (some store) res uri w =
      let values = get_all x set_cookie res.headers in
      if is_empty values then w else c.set_cookies store values uri w

  -- What becomes of the connection after its response.
  unfoldable pub release : Pooled x → c.World → c.World
  release pooled w =
      if is_http2 x pooled.client || not pooled.is_pool_enabled || is_ready x pooled.client
      then c.drop pooled w
      else c.execute_on_idle pooled w

  unfoldable pub answer :
      Option x.CookieStore → Uri → Sent x × Pooled x × c.World → Attempt x × c.World
  unfolding set_extras store_cookies release
  answer store uri (responded res, pooled, w) =
      let info = pooled.client.conn_info in
      let w' = store_cookies store res uri w in
      let extensions = c.insert_info info (set_extras info res.extensions) in
      (success (record res { extensions = extensions }), release pooled w')
  answer store uri (returned req e, pooled, w) = (
    retryable (with_connect_info x (new_error x canceled e) pooled.client.conn_info) req
        pooled.is_reused,
    c.drop pooled w,
  )
  answer store uri (failed e, pooled, w) = (
    nope (with_connect_info x (new_error x send_request e) pooled.client.conn_info),
    c.drop pooled w,
  )

  -- A request that is prepared for its connection.
  unfoldable pub send_prepared :
      Option x.CookieStore → Uri → Pooled x → Request x → c.World → Attempt x × c.World
  unfolding answer
  send_prepared store uri pooled req w =
      let headers =
        add_cookies x (Option.map (λ s. c.cookies s w) store) pooled.client uri req.headers in
      answer store uri (c.send pooled (record req { headers = headers }) w)

  module _ (config : Config) (cookie_store : RequestConfig x.CookieStore) where
    abbrev pub on_prepared :
        Uri → Pooled x → Option (Result (Error x) (Request x)) → c.World → Attempt x × c.World
    on_prepared uri pooled none w = (Attempt.panicked, w)
    on_prepared uri pooled (some (err e)) w = (nope e, c.drop pooled w)
    on_prepared uri pooled (some (ok req)) w =
        send_prepared (Config.fetch x.extensions cookie_store req.extensions) uri pooled req w

    abbrev pub on_found :
        Request x → Option (Result (Error x) (Pooled x)) → c.World → Attempt x × c.World
    on_found req none w = (Attempt.unanswered, w)
    on_found req (some (err e)) w = (nope e, w)
    on_found req (some (ok pooled)) w =
        on_prepared req.uri pooled (prepare x config pooled.client req) w

    unfoldable pub try_send_request : D → Request x → c.World → Attempt x × c.World
    try_send_request descriptor req w =
        let (found, w') = c.connection_for descriptor w in on_found req found w'

    -- What a turn of the loop does with its attempt, given the loop.
    abbrev pub on_attempt :
        (Request x → c.World → Outcome x × c.World)
        → Uri
        → Attempt x
        → c.World
        → Outcome x × c.World
    on_attempt loop uri (success res) w = (done (ok res), w)
    on_attempt loop uri (nope e) w = (done (err e), w)
    on_attempt loop uri Attempt.panicked w = (Outcome.panicked, w)
    on_attempt loop uri Attempt.unanswered w = (Outcome.unanswered, w)
    on_attempt loop uri (retryable e req connection_reused) w =
        if not config.retry_canceled_requests || not connection_reused
        then (done (err e), w)
        else loop (record req { uri = uri }) w

    -- The loop, given the URI to restore; each turn takes one of the fuel.
    unfoldable pub send_loop : D → ℕ → Uri → Request x → c.World → Outcome x × c.World
    unfolding try_send_request
    send_loop descriptor zero uri req w = (out_of_fuel, w)
    send_loop descriptor (suc n) uri req w =
        let (attempt, w') = try_send_request descriptor req w in
        on_attempt (send_loop descriptor n uri) uri attempt w'

    unfoldable pub send_request_with : D → ℕ → Request x → c.World → Outcome x × c.World
    unfolding send_loop
    send_request_with descriptor fuel req w = send_loop descriptor fuel req.uri req w
