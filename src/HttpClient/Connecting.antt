-- ===== src/HttpClient/Connecting.antt =====
-- `connect_to`, `PoolTx` and the `Poolable` connection of src/client/layer/client.rs. Between its
-- stages other tasks may change the pool.
use wreq.Base.{ℕ, Bool, true, false, ◌&&◌, ◌||◌, not, Option, none, some, List, [], if◌then◌else◌}
use wreq.Base.Eq.{Eq}
use wreq.Base.Results.{Result, ok, err}
use wreq.Cookie.Jar.Header.{Version}
use wreq.Pool.{Idles}
use wreq.Pool.Crates.{shared, unique, Poolable, Channels, LruCache}
use wreq.Pool.Handles
use wreq.Pool.Handles.{
  Ver, auto, http2, ver_is_http2, Connecting, connecting, drop_connecting, pooled,
}
use wreq.HttpClient
use wreq.HttpClient.{
  Crates, Config, Connected, PoolTx, PoolClient, Error, Alpn, h2, none_negotiated, new_error, plain,
  canceled, connect, send_request, is_http2, is_ready,
}
use wreq.HttpClient.Preparing.{version_is_http_2}

module _ (x : Crates) where
  abbrev pub is_negotiated_h2 : Connected x → Bool
  is_negotiated_h2 info = elim info.alpn [ h2 ↦ true | none_negotiated ↦ false ]

  -- `impl Poolable for PoolClient`.
  abbrev pub poolable : Poolable (PoolClient x)
  poolable = record {
    is_open = λ c. not c.conn_info.poisoned && is_ready x c;
    reserve = λ c. elim c.tx [
      | HttpClient.http1 tx ↦ unique (record { conn_info = c.conn_info; tx = HttpClient.http1 tx })
      | HttpClient.http2 tx ↦
          shared (record { conn_info = c.conn_info; tx = HttpClient.http2 tx })
            (record { conn_info = c.conn_info; tx = HttpClient.http2 tx })
    ];
    can_share = λ c. is_http2 x c;
  }

  -- The version that a connection is made for.
  unfoldable pub connect_ver : Config → Option Version → Ver
  connect_ver config none = config.ver
  connect_ver config (some v) = if version_is_http_2 v then http2 else config.ver

  module _ {K : Type 0} ⦃e : Eq K⦄ (L : LruCache K (Idles (PoolClient x))) where
    -- `alpn_h2`, which gives its own lock up.
    unfoldable pub alpn_h2 : Handles.Pool L → Connecting K → Handles.Pool L × Option (Connecting K)
    alpn_h2 pool lock =
        let (pool', taken) = connecting L pool lock.key http2 in
        (drop_connecting L pool' lock, taken)

    -- A connection that is being made: its lock, and what is known of it.
    pub record Made : Type 0 where
      pub lock : Connecting K
      pub conn_info : Connected x
      pub is_h2 : Bool

    -- The first stage, when the future is first polled.
    unfoldable pub begin_connecting :
        Handles.Pool L → K → Ver → Handles.Pool L × Result (Error x) (Connecting K)
    begin_connecting pool key ver =
        let (pool', taken) = connecting L pool key ver in
        (pool', elim taken [ some lock ↦ ok lock | none ↦ err (plain x canceled) ])

    -- The stage after the connector's answer. `upgraded` is the text of the error that it may make.
    unfoldable pub connected_to :
        x.BoxError
        → Handles.Pool L
        → Connecting K
        → Ver
        → Result x.BoxError (Connected x)
        → Handles.Pool L × Result (Error x) Made
    unfolding alpn_h2
    connected_to upgraded pool lock ver (err src) =
        (drop_connecting L pool lock, err (new_error x connect src))
    connected_to upgraded pool lock ver (ok info) =
        let made : Connecting K → Made = λ l. record {
          lock = l;
          conn_info = info;
          is_h2 = ver_is_http2 ver || is_negotiated_h2 info;
        } in
        if is_negotiated_h2 info && not (ver_is_http2 ver)
        then (let (pool', taken) = alpn_h2 pool lock in
            (
              pool',
              elim taken [ some l ↦ ok (made l) | none ↦ err (new_error x canceled upgraded) ],
            ))
        else (pool, ok (made lock))

    -- The stage after the handshake, which was that of HTTP/2 where `is_h2`.
    unfoldable pub shaken :
        Channels
        → ℕ
        → Handles.Pool L
        → Made
        → Result x.BoxError x.Sender
        → Handles.Pool L
          × Result (Error x) (Handles.Pooled K (PoolClient x))
          × List (ℕ × PoolClient x)
    shaken ch now pool made (err src) =
        (drop_connecting L pool made.lock, err (new_error x send_request src), [])
    shaken ch now pool made (ok tx) =
        let client : PoolClient x = record {
          conn_info = made.conn_info;
          tx = if made.is_h2 then HttpClient.http2 tx else HttpClient.http1 tx;
        } in
        let (pool', r, sent) = pooled L poolable ch now pool made.lock client in (pool', ok r, sent)
