-- ===== src/HttpClient.antt =====
-- The requests, connections and errors of the client in src/client/layer/client.rs, with `Connected` of
-- src/conn.rs. The `http` and `netty` crates are parameters.
use wreq.Base.{ℕ, ◌≡◌, Bool, true, false, ◌||◌, Option, none, some, List, is_empty, if◌then◌else◌}
use wreq.Base.Text.{Text, codes}
use wreq.Uri.{Scheme}
use wreq.Headers.{HeaderMaps, HeaderName}
use wreq.Config.{Extensions, RequestConfig}
use wreq.Pool.Handles.{Ver}
use wreq.Cookie.Jar.Header.{Version}
pub mod Uris
pub mod Preparing
pub mod Dressing
pub mod Cookies
pub mod Sending
pub mod Retrying
pub mod Requesting
pub mod Ending
pub mod Building
pub mod Racing
pub mod Winning
pub mod Connecting
pub mod Locking
mod Tests
mod Runs

pub data Method : Type 0 where
  connect : Method
  named : Text → Method

-- `http::uri::Port`: its text and its number.
pub record Port : Type 0 where
  pub as_str : Text
  pub as_u16 : ℕ

-- What is read of an `http::uri::Authority`.
pub record Authority : Type 0 where
  pub host : Text
  pub port : Option Port

-- An `http::Uri` by its parts, as `http::uri::Parts`.
pub record Uri : Type 0 where
  pub scheme : Option Scheme
  pub authority : Option Authority
  pub path_and_query : Option Text

abbrev pub slash : Text
slash = codes "/"

-- `Uri::default`.
abbrev pub default_uri : Uri
default_uri = record { scheme = none; authority = none; path_and_query = some slash }

abbrev pub only_authority : Authority → Uri
only_authority a = record { scheme = none; authority = some a; path_and_query = none }

abbrev pub only_path : Text → Uri
only_path p = record { scheme = none; authority = none; path_and_query = some p }

-- `build_base_uri`.
abbrev pub base : Scheme → Authority → Uri
base s a = record { scheme = some s; authority = some a; path_and_query = some slash }

-- What the client takes from other crates: header maps, the check of `Uri::from_parts` and of header
-- values, the senders of connections, and the types of errors behind a `BoxError`.
pub record Crates : Type 1 where
  pub headers : HeaderMaps Text
  pub Body : Type 0
  pub CookieStore : Type 0
  pub extensions : Extensions (RequestConfig CookieStore)
  pub Extra : Type 0
  pub ResponseExt : Type 0
  pub ResponseBody : Type 0
  pub Sender : Type 0
  pub BoxError : Type 0
  pub is_ready : Sender → Bool
  pub is_tunnel_error : BoxError → Bool
  pub is_proxy_connect : BoxError → Bool
  pub is_socks_error : BoxError → Bool
  pub is_header_value : Text → Bool
  pub from_parts : Uri → Option Uri
  pub from_parts-authority :
      (a : Authority) → from_parts (only_authority a) ≡ some (only_authority a)
  pub from_parts-path : (p : Text) → from_parts (only_path p) ≡ some (only_path p)
  pub from_parts-absolute : (s : Scheme) (a : Authority) → from_parts (base s a) ≡ some (base s a)

-- `Config`.
pub record Config : Type 0 where
  pub retry_canceled_requests : Bool
  pub set_host : Bool
  pub ver : Ver

pub data Alpn : Type 0 where
  h2 none_negotiated : Alpn

pub data ErrorKind : Type 0 where
  canceled channel_closed connect proxy_connect user_unsupported_request_method : ErrorKind
  user_unsupported_version user_absolute_uri_required send_request : ErrorKind

module _ (x : Crates) where
  abbrev pub HeaderMap : Type 0
  HeaderMap = x.headers.Map

  -- `Extra`: a value, or a chain of them.
  pub data Extras : Type 0 where
    envelope : x.Extra → Extras
    chain : Extras → x.Extra → Extras

  pub record ProxyIdentity : Type 0 where
    pub is_proxied : Bool
    pub auth : Option Text
    pub headers : Option HeaderMap

  -- `poisoned` is what the shared flag shows at the time of a call.
  pub record Connected : Type 0 where
    pub alpn : Alpn
    pub proxy : ProxyIdentity
    pub extra : Option Extras
    pub poisoned : Bool

  unfoldable pub is_proxied : Connected → Bool
  is_proxied info = info.proxy.is_proxied

  pub record Error : Type 0 where
    pub kind : ErrorKind
    pub source : Option x.BoxError
    pub connect_info : Option Connected

  pub record Request : Type 0 where
    pub method : Method
    pub uri : Uri
    pub version : Version
    pub headers : HeaderMap
    pub extensions : x.extensions.Ext
    pub body : x.Body

  pub record Response : Type 0 where
    pub headers : HeaderMap
    pub extensions : x.ResponseExt
    pub body : x.ResponseBody

  pub data PoolTx : Type 0 where
    http1 : x.Sender → PoolTx
    http2 : x.Sender → PoolTx

  pub record PoolClient : Type 0 where
    pub conn_info : Connected
    pub tx : PoolTx

  -- The macro `e!` with a kind alone.
  abbrev pub plain : ErrorKind → Error
  plain kind = record { kind = kind; source = none; connect_info = none }

  -- `Error::new`.
  unfoldable pub new_error : ErrorKind → x.BoxError → Error
  new_error kind error = record {
    kind =
        if x.is_tunnel_error error || x.is_proxy_connect error || x.is_socks_error error
        then proxy_connect
        else kind;
    source = some error;
    connect_info = none;
  }

  abbrev pub with_connect_info : Error → Connected → Error
  with_connect_info e info = record e { connect_info = some info }

  abbrev pub is_canceled : Error → Bool
  is_canceled e = elim e.kind [ canceled ↦ true | _ ↦ false ]

  abbrev pub is_http2 : PoolClient → Bool
  is_http2 c = elim c.tx [ http1 tx ↦ false | http2 tx ↦ true ]

  abbrev pub is_ready : PoolClient → Bool
  is_ready c = elim c.tx [ http1 tx ↦ x.is_ready tx | http2 tx ↦ x.is_ready tx ]
