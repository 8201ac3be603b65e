-- ===== src/HttpClient/Preparing.antt =====
-- What `try_send_request` of src/client/layer/client.rs does to a request for the connection that it
-- is sent on. `none` stands for a panic.
use wreq.Base.{Bool, true, false, ◌&&◌, not, Option, none, some, List, is_empty, if◌then◌else◌}
use wreq.Base.Eq.{list_eq, nat_eq}
use wreq.Base.Maybe.{◌>>=◌}
use wreq.Base.Text.{Text, codes}
use wreq.Base.Results.{Result, ok, err}
use wreq.Headers.{HeaderName}
use wreq.Headers.Groups.{append_all}
use wreq.Headers.Replacing.{replace_headers}
use wreq.Cookie.Jar.Header.{Version, http_2, http_11, Cookies, compressed, uncompressed, empty}
use wreq.HttpClient.{
  Uri, Crates, Config, HeaderMap, Connected, Request, PoolClient, Error, plain, with_connect_info,
  user_unsupported_version, is_http2, is_proxied,
}
use wreq.HttpClient.Uris.{
  is_connect, generate_host_header, authority_form, absolute_form, origin_form,
}

abbrev pub host : HeaderName
host = codes "host"

abbrev pub proxy_authorization : HeaderName
proxy_authorization = codes "proxy-authorization"

abbrev pub cookie : HeaderName
cookie = codes "cookie"

abbrev pub version_is_http_2 : Version → Bool
version_is_http_2 http_2 = true
version_is_http_2 _ = false

module _ (x : Crates) where
  abbrev pub get_all : HeaderName → HeaderMap x → List Text
  get_all = x.headers.get_all

  -- `entry(k).or_insert_with(…)`.
  unfoldable pub or_insert_with : HeaderName → Option Text → HeaderMap x → Option (HeaderMap x)
  or_insert_with k value m =
      if is_empty (get_all k m) then (value >>= λ v. some (x.headers.insert k v m)) else some m

  unfoldable pub add_host : Config → Uri → HeaderMap x → Option (HeaderMap x)
  unfolding or_insert_with
  add_host config uri m =
      if config.set_host then or_insert_with host (generate_host_header x uri) m else some m

  unfoldable pub add_proxy_headers : Connected x → HeaderMap x → Option (HeaderMap x)
  unfolding or_insert_with
  add_proxy_headers info m = do
    m' ← elim info.proxy.auth [
      | some auth ↦ or_insert_with proxy_authorization (some auth) m
      | none ↦ some m
    ]
    elim info.proxy.headers [ some headers ↦ replace_headers x.headers m' headers | none ↦ some m' ]

  -- The request with the URI and the headers that the connection asks for.
  unfoldable pub prepare : Config → PoolClient x → Request x → Option (Result (Error x) (Request x))
  unfolding add_host add_proxy_headers
  prepare config pooled req =
      if not (is_http2 x pooled)
      then (if version_is_http_2 req.version
          then some (err (with_connect_info x (plain x user_unsupported_version) pooled.conn_info))
          else (do
            headers ← add_host config req.uri req.headers
            if is_connect req.method
                then (do
                  uri ← authority_form x req.uri
                  some (ok (record req { uri = uri; headers = headers })))
                else (if is_proxied x pooled.conn_info
                    then (do
                      headers' ← add_proxy_headers pooled.conn_info headers
                      some (ok (record req { uri = absolute_form x req.uri; headers = headers' })))
                    else (do
                      uri ← origin_form x req.uri
                      some (ok (record req { uri = uri; headers = headers }))))))
      else (if is_connect req.method && not (is_http2 x pooled)
          then (authority_form x req.uri >>= λ uri. some (ok (record req { uri = uri })))
          else some (ok req))

  abbrev pub insert_cookies : Cookies → HeaderMap x → HeaderMap x
  insert_cookies (compressed value) m = x.headers.insert cookie value m
  insert_cookies (uncompressed values) m = append_all x.headers cookie values m
  insert_cookies empty m = m

  -- The cookies of the store that `cookies` asks, unless the request has its own.
  unfoldable pub add_cookies :
      Option (Uri → Version → Cookies) → PoolClient x → Uri → HeaderMap x → HeaderMap x
  add_cookies none pooled uri m = m
  add_cookies (some cookies) pooled uri m =
      if is_empty (get_all cookie m)
      then insert_cookies (cookies uri (if is_http2 x pooled then http_2 else http_11)) m
      else m
