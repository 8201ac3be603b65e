-- ===== src/HttpClient/Tests.antt =====
-- Runs of the code of src/client/layer/client.rs.
use wreq.Base.{
  leb, not, ◌&&◌, ◌||◌, ℕ, ◌-◌, ◌≡◌, refl, Bool, true, false, Option, none, some, List, [], ◌∷◌,
  ltb,
}
use wreq.Base.Eq.{◌==◌, nat_eq, list_beq}
use wreq.Base.Text.{Text, codes}
use wreq.Base.Results.{ok}
use wreq.Config.{RequestConfig, Extensions}
use wreq.Uri.{http}
use wreq.Headers.Listed.{listed, values}
use wreq.Cookie.Jar.Header.{Version, http_11, http_2, Cookies, compressed, uncompressed}
use wreq.Pool.Handles
use wreq.HttpClient
use wreq.HttpClient.{
  Crates, Config, Uri, Request, Response, PoolClient, Connected, connect, named, none_negotiated,
  h2, only_authority,
}
use wreq.HttpClient.Uris.{generate_host_header, host_port, is_schema_secure}
use wreq.HttpClient.Preparing.{prepare, add_cookies, cookie}
use wreq.HttpClient.Cookies.{add_cookies-get_all}
use wreq.HttpClient.Dressing.{prepare-IsPrepared, IsPrepared}
use wreq.HttpClient.Sending.{Calls, Pooled, Sent, responded, returned, Outcome}

abbrev extensions : Extensions (RequestConfig ℕ)
extensions = record {
  Ext = Option (RequestConfig ℕ);
  get = λ e. e;
  insert = λ a e. some a;
  remove = λ e. none;
  get-insert = λ a e. refl;
  get-remove = λ e. refl;
}

-- The check of a header value: tabs and what is visible in ASCII, and all bytes beyond it.
abbrev is_visible : Text → Bool
is_visible [] = true
is_visible (b ∷ bs) = (b == 9 || (leb 32 b && not (b == 127))) && is_visible bs

-- A sender is whether it is ready, and an error is its code: 1 is one of a tunnel.
abbrev pub crates : Crates
crates = record {
  headers = listed;
  Body = ℕ;
  CookieStore = ℕ;
  extensions = extensions;
  Extra = ℕ;
  ResponseExt = List ℕ;
  ResponseBody = ℕ;
  Sender = Bool;
  BoxError = ℕ;
  is_ready = λ s. s;
  is_tunnel_error = λ e. e == 1;
  is_proxy_connect = λ e. false;
  is_socks_error = λ e. false;
  is_header_value = is_visible;
  from_parts = λ u. some u;
  from_parts-authority = λ a. refl;
  from_parts-path = λ p. refl;
  from_parts-absolute = λ s a. refl;
}

abbrev uri : Uri
uri = record {
  scheme = some http;
  authority =
      some
        (record { host = codes "a.b"; port = some (record { as_str = codes "81"; as_u16 = 81 }) });
  path_and_query = some (codes "/p?q");
}

abbrev pub request : Request crates
request = record {
  method = named (codes "GET");
  uri = uri;
  version = http_11;
  headers = (codes "accept", codes "x") ∷ [];
  extensions = none;
  body = 5;
}

abbrev pub info : Bool → Connected crates
info proxied = record {
  alpn = none_negotiated;
  proxy = record {
    is_proxied = proxied;
    auth = some (codes "secret");
    headers = some ((codes "accept", codes "y") ∷ []);
  };
  extra = none;
  poisoned = false;
}

abbrev pub client : Bool → PoolClient crates
client proxied = record { conn_info = info proxied; tx = HttpClient.http1 true }

abbrev pub config : Config
config = record { retry_canceled_requests = true; set_host = true; ver = Handles.auto }

prepare-IsPrepared_example :
    IsPrepared crates config
      (client true)
      request
      (codes "a.b:81")
      (prepare crates config (client true) request)
unfolding generate_host_header host_port is_schema_secure
prepare-IsPrepared_example =
    prepare-IsPrepared crates config (client true) request (codes "a.b:81") refl

abbrev jar : Uri → Version → Cookies
jar u http_2 = uncompressed (codes "a=1" ∷ codes "b=2" ∷ [])
jar u _ = compressed (codes "a=1; b=2")

add_cookies-get_all_example :
    crates.headers.get_all cookie (add_cookies crates (some jar) (client false) uri request.headers)
    ≡ codes "a=1; b=2" ∷ []
unfolding list_beq values
add_cookies-get_all_example =
    add_cookies-get_all crates jar (client false) uri request.headers cookie

-- A pool of `n` connections that are closed by now; the state is how many it still has.
abbrev pub pooled : Bool → Pooled crates
pooled reused = record { client = client false; is_reused = reused; is_pool_enabled = true }

abbrev response : Response crates
response = record { headers = []; extensions = []; body = 7 }

abbrev sent_on : Bool → Request crates → Sent crates
sent_on true req = returned req 9
sent_on false req = responded response

abbrev pub calls : (D : Type 0) → Calls crates D
calls D = record {
  World = ℕ;
  connection_for = λ d w. (some (ok (pooled (ltb 0 w))), w - 1);
  send = λ p req w. (sent_on p.is_reused req, p, w);
  cookies = λ s w. jar;
  set_cookies = λ s vs u w. w;
  drop = λ p w. w;
  execute_on_idle = λ p w. w;
  insert_extra = λ a e. a ∷ e;
  insert_info = λ a e. 0 ∷ e;
}
