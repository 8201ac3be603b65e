-- ===== src/HttpClient/Requesting.antt =====
-- `HttpClient::request` of src/client/layer/client.rs: what is refused at once, the descriptor of the
-- connection, and the sending. The options of a request are an argument, as `RequestConfig::remove`
-- takes them out of its extensions.
use wreq.Base.{
  ℕ, ◌≡◌, ◌≢◌, refl, sym, subst, ◌∙◌, Bool, true, ◌&&◌, ◌||◌, not, inl, inr, Bool-cases, Option,
  none, some, if◌then◌else◌,
}
use wreq.Base.Eq.{◌==◌, nat_eq}
use wreq.Base.Maybe.{unwrap_or}
use wreq.Base.Results.{Result, ok, err}
use wreq.Base.Text.{Text}
use wreq.Config.{RequestConfig}
use wreq.Cookie.Jar.Header.{Version, http_09, http_10, http_11, http_2, http_3}
use wreq.Group.{Types, Group, ConnectionDescriptor, new_descriptor}
use wreq.HttpClient.{
  Uri, Authority, Port, Crates, Config, Request, Error, ErrorKind, plain,
  user_unsupported_request_method, user_unsupported_version, user_absolute_uri_required,
}
use wreq.HttpClient.Uris.{
  is_connect, normalize_uri, normalize_uri-IsNormalized, IsNormalized, generate_host_header,
  host_port, with_port, is_schema_secure,
}
use wreq.HttpClient.Sending.{Calls, Outcome, done, send_request_with}
use wreq.HttpClient.Retrying.{send_request-no_panic}

-- `RequestOptions` of src/client/layer/config.rs, as far as the descriptor is made of it.
pub record RequestOptions (t : Types) : Type 0 where
  pub group : Group t
  pub proxy : Option t.Matcher
  pub version : Option Version
  pub tls_options : Option t.TlsOptions
  pub socket_bind_options : Option t.SocketBindOptions

abbrev pub default_options : {t : Types} → RequestOptions t
default_options = record {
  group = Group.nil;
  proxy = none;
  version = none;
  tls_options = none;
  socket_bind_options = none;
}

-- The version of a request, checked before all else.
unfoldable pub check_version : Version → Bool → Option ErrorKind
check_version http_10 is_http_connect =
    if is_http_connect then some user_unsupported_request_method else none
check_version http_11 is_http_connect = none
check_version http_2 is_http_connect = none
check_version http_09 is_http_connect = some user_unsupported_version
check_version http_3 is_http_connect = some user_unsupported_version

abbrev pub types : (M S T : Type 0) → Types
types M S T = record { Uri = Uri; Matcher = M; SocketBindOptions = S; TlsOptions = T }

-- The host of an authority is a valid value of a header, alone and with its port.
abbrev pub IsWritable : Crates → Authority → Type 0
IsWritable x a =
    (x.is_header_value (with_port a.host none) ≡ true)
    × (x.is_header_value (with_port a.host a.port) ≡ true)

-- `into_box` is the conversion of an error into a `BoxError`.
module _ (x : Crates) (into_box : Error x → x.BoxError) {M S T : Type 0}
    (c : Calls x (ConnectionDescriptor (types M S T))) where
  unfoldable pub descriptor_of :
      Uri → Option (RequestOptions (types M S T)) → ConnectionDescriptor (types M S T)
  descriptor_of uri options =
      let o = unwrap_or default_options options in
      new_descriptor (types M S T) uri o.group o.proxy o.version o.tls_options o.socket_bind_options

  module _ (config : Config) (cookie_store : RequestConfig x.CookieStore)
      (options : Option (RequestOptions (types M S T))) (fuel : ℕ) where
    -- What follows on the URI of the request.
    abbrev pub on_normalized :
        Option (Result (Error x) (Request x × Uri)) → c.World → Outcome x × c.World
    on_normalized none w = (Outcome.panicked, w)
    on_normalized (some (err e)) w = (
      done (
          err (record {
            kind = user_absolute_uri_required;
            source = some (into_box e);
            connect_info = none;
          })),
      w,
    )
    on_normalized (some (ok (req, uri))) w =
        send_request_with x c config cookie_store (descriptor_of uri options) fuel req w

    abbrev pub on_checked : Option ErrorKind → Request x → c.World → Outcome x × c.World
    on_checked (some kind) req w = (done (err (plain x kind)), w)
    on_checked none req w = on_normalized (normalize_uri x req (is_connect req.method)) w

    unfoldable pub request : Request x → c.World → Outcome x × c.World
    unfolding check_version
    request req w = on_checked (check_version req.version (is_connect req.method)) req w

    host_port-writable :
        (uri : Uri) (host : Text) (port : Option Port)
        → x.is_header_value (with_port host none) ≡ true
        → x.is_header_value (with_port host port) ≡ true
        → x.is_header_value (with_port host (host_port uri port)) ≡ true
    unfolding host_port
    host_port-writable uri host none alone full = alone
    host_port-writable uri host (some p) alone full =
        elim (Bool-cases (
          (p.as_u16 == 443 && is_schema_secure uri)
          || (p.as_u16 == 80 && not (is_schema_secure uri)))) [
            | inl default_one ↦ rw default_one alone
            | inr written ↦ rw written full
          ]

    generate_host_header-some :
        (uri : Uri) (a : Authority)
        → uri.authority ≡ some a
        → IsWritable x a
        → (v : Text) × (generate_host_header x uri ≡ some v)
    unfolding generate_host_header
    generate_host_header-some uri a e valid = go uri.authority e
      where
        go :
            (b : Option Authority)
            → b ≡ some a
            → (v : Text) × (generate_host_header x (record uri { authority = b }) ≡ some v)
        go none q = cc
        go (some b) q =
            let host : b ≡ a = cc in
            let port = host_port (record uri { authority = some b }) b.port in
            let good : x.is_header_value (with_port b.host port) ≡ true =
              host_port-writable (record uri { authority = some b }) b.host b.port
                (subst (λ o. x.is_header_value (with_port o.host none) ≡ true) (sym host) valid.0)
                (subst (λ o. x.is_header_value (with_port o.host o.port) ≡ true) (sym host)
                  valid.1) in
            (with_port b.host port, rw good refl)

    on_normalized-no_panic :
        (req : Request x)
        → ((a : Authority) → req.uri.authority ≡ some a → IsWritable x a)
        → (r : Option (Result (Error x) (Request x × Uri))) (w : c.World)
        → IsNormalized x req (is_connect req.method) r
        → (on_normalized r w).0 ≢ Outcome.panicked
    on_normalized-no_panic req valid none w i = elim i [ ]
    on_normalized-no_panic req valid (some (err e)) w i = λ p. cc
    on_normalized-no_panic req valid (some (ok (req', uri))) w i =
        let (_, same, _, (s, a, _, here, _)) = i in
        let (v, writes) = generate_host_header-some req'.uri a here (valid a (sym same ∙ here)) in
        send_request-no_panic x c config cookie_store (descriptor_of uri options) fuel req' w v
          writes

    -- A request never panics where the host of its URI, if it has one, is a valid value of a header, both
    -- alone and with the port of the URI, whatever its version, its method and its URI are and however
    -- often it is tried again.
    pub request-no_panic :
        (req : Request x) (w : c.World)
        → ((a : Authority) → req.uri.authority ≡ some a → IsWritable x a)
        → (request req w).0 ≢ Outcome.panicked
    unfolding request
    request-no_panic req w valid = go (check_version req.version (is_connect req.method))
      where
        go : (k : Option ErrorKind) → (on_checked k req w).0 ≢ Outcome.panicked
        go (some k) = λ p. cc
        go none =
            on_normalized-no_panic req valid (normalize_uri x req (is_connect req.method)) w
              (normalize_uri-IsNormalized x req (is_connect req.method))
