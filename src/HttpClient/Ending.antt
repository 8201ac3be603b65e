-- ===== src/HttpClient/Ending.antt =====
-- When the loop of `send_request` of src/client/layer/client.rs takes another turn.
use wreq.Base.{ℕ, suc, ◌≡◌, true, some}
use wreq.Base.Results.{ok}
use wreq.Config.{RequestConfig}
use wreq.HttpClient.{Uri, Crates, Config, Request}
use wreq.HttpClient.Preparing.{prepare}
use wreq.HttpClient.Sending.{Pooled, returned, Calls}

module _ (x : Crates) {D : Type 0} (c : Calls x D) (config : Config)
    (cookie_store : RequestConfig x.CookieStore) (descriptor : D) where
  -- One turn that is followed by another: the client retries, the pool hands out a connection, the
  -- request is prepared for it, and the connection, a reused one, gives the request back unstarted and
  -- is dropped. `given` is the request that comes back and `next` the state after the turn.
  pub record GivesBack (req : Request x) (w : c.World) (given : Request x) (next : c.World)
      : Type 0 where
    pub connection : Pooled x
    pub found : c.World
    pub prepared : Request x
    pub sent : Request x
    pub error : x.BoxError
    pub retries : config.retry_canceled_requests ≡ true
    pub handed_out : c.connection_for descriptor w ≡ (some (ok connection), found)
    pub is_prepared : prepare x config connection.client req ≡ some (ok prepared)
    pub but_headers : record sent { headers = prepared.headers } ≡ prepared
    pub unstarted : (c.send connection sent found).0 ≡ returned given error
    pub is_reused : (c.send connection sent found).1.is_reused ≡ true
    pub dropped : next ≡ c.drop (c.send connection sent found).1 (c.send connection sent found).2

  -- So many turns in a row from a request and a state, each request but the first with the given URI.
  pub data Returns (uri : Uri) : ℕ → Request x → c.World → Type 0 where
    start : {req : Request x} {w : c.World} → Returns uri 0 req w
    again :
        {n : ℕ} {req given : Request x} {w next : c.World}
        → GivesBack req w given next
        → Returns uri n (record given { uri = uri }) next
        → Returns uri (suc n) req w
