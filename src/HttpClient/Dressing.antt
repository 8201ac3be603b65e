-- ===== src/HttpClient/Dressing.antt =====
-- The headers and the URI of the request that `try_send_request` of src/client/layer/client.rs sends,
-- described apart from the steps that make them.
use wreq.Base.{
  ◌≡◌, refl, Bool, true, false, ◌&&◌, not, Option, none, some, List, [], ◌∷◌, is_empty,
  if◌then◌else◌, inl, inr, ◌⊎◌, Bool-cases, ◌∙◌, subst,
}
use wreq.Base.Eq.{◌==◌, eq_iff, list_eq, nat_eq}
use wreq.Base.Maybe.{unwrap_or}
use wreq.Base.Text.{Text}
use wreq.Base.Results.{Result, ok, err}
use wreq.Headers.{HeaderName}
use wreq.Headers.Replacing.{replace_headers, replace_headers-get_all}
use wreq.HttpClient.{
  Uri, Crates, Config, HeaderMap, Connected, Request, PoolClient, Error, plain, with_connect_info,
  user_unsupported_version, is_http2, is_proxied, slash, only_path, Authority,
}
use wreq.HttpClient.Uris.{is_connect, generate_host_header, authority_form, origin_form-path}
use wreq.HttpClient.Preparing.{
  host, proxy_authorization, version_is_http_2, get_all, or_insert_with, add_host,
  add_proxy_headers, prepare,
}

-- The values of header `j` after `v` is given to `k` where it has none.
abbrev pub filled : HeaderName → Text → HeaderName → List Text → List Text
filled k v j old = if k == j && is_empty old then v ∷ [] else old

module _ (x : Crates) where
  or_insert_with-filled :
      (k : HeaderName) (v : Text) (m : HeaderMap x)
      → (m' : HeaderMap x) × (or_insert_with x k (some v) m ≡ some m')
        × ((j : HeaderName) → get_all x j m' ≡ filled k v j (get_all x j m))
  unfolding or_insert_with
  or_insert_with-filled k v m = elim (Bool-cases (is_empty (get_all x k m))) [
    | inl e ↦ (x.headers.insert k v m, rw e refl, λ j. x.headers.get_all-insert k j v m ∙ fill j e)
    | inr e ↦ (m, rw e refl, λ j. keep_old j e)
  ]
    where
      moved :
          (j : HeaderName) (b : Bool)
          → (k == j) ≡ true
          → is_empty (get_all x k m) ≡ b
          → is_empty (get_all x j m) ≡ b
      moved j b same = subst (λ a. is_empty (get_all x a m) ≡ b) ((eq_iff k j).0 same)

      fill :
          (j : HeaderName)
          → is_empty (get_all x k m) ≡ true
          → (if k == j then v ∷ [] else get_all x j m) ≡ filled k v j (get_all x j m)
      fill j e = elim (Bool-cases (k == j)) [
        | inl same ↦ rw (same, moved j true same e) refl
        | inr differs ↦ rw differs refl
      ]

      keep_old :
          (j : HeaderName)
          → is_empty (get_all x k m) ≡ false
          → get_all x j m ≡ filled k v j (get_all x j m)
      keep_old j e = elim (Bool-cases (k == j)) [
        | inl same ↦ rw (same, moved j false same e) refl
        | inr differs ↦ rw differs refl
      ]

  -- The values of header `j` after the client's own `Host`.
  abbrev pub hosted : Config → Text → HeaderName → List Text → List Text
  hosted config v j old = if config.set_host then filled host v j old else old

  add_host-hosted :
      (config : Config) (uri : Uri) (v : Text) (m : HeaderMap x)
      → generate_host_header x uri ≡ some v
      → (m' : HeaderMap x) × (add_host x config uri m ≡ some m')
        × ((j : HeaderName) → get_all x j m' ≡ hosted config v j (get_all x j m))
  unfolding add_host
  add_host-hosted config uri v m h = elim (Bool-cases config.set_host) [
    | inl e ↦ rw (e, h) (or_insert_with-filled host v m)
    | inr e ↦ rw e (m, refl, λ j. refl)
  ]

  abbrev pub authorized : Option Text → HeaderName → List Text → List Text
  authorized none j old = old
  authorized (some auth) j old = filled proxy_authorization auth j old

  abbrev pub customized : Option (HeaderMap x) → HeaderName → List Text → List Text
  customized none j old = old
  customized (some headers) j old =
      if is_empty (get_all x j headers) then old else get_all x j headers

  -- The values of header `j` after the identity and the headers of a proxy.
  abbrev pub proxied : Connected x → HeaderName → List Text → List Text
  proxied info j old = customized info.proxy.headers j (authorized info.proxy.auth j old)

  add_proxy_headers-proxied :
      (info : Connected x) (m : HeaderMap x)
      → (m' : HeaderMap x) × (add_proxy_headers x info m ≡ some m')
        × ((j : HeaderName) → get_all x j m' ≡ proxied info j (get_all x j m))
  unfolding add_proxy_headers
  add_proxy_headers-proxied info m = go info.proxy.auth info.proxy.headers
    where
      at : Option Text → Option (HeaderMap x) → Connected x
      at auth headers = record info { proxy = record info.proxy { auth = auth; headers = headers } }

      customize :
          (auth : Option Text) (headers : Option (HeaderMap x)) (m1 : HeaderMap x)
          → ((j : HeaderName) → get_all x j m1 ≡ authorized auth j (get_all x j m))
          → (m' : HeaderMap x) × ((elim headers [
            | some h ↦ replace_headers x.headers m1 h
            | none ↦ some m1
          ])
              ≡ some m')
            × ((j : HeaderName) → get_all x j m' ≡ proxied (at auth headers) j (get_all x j m))
      customize auth none m1 h = (m1, refl, h)
      customize auth (some headers) m1 h =
          let (m', e, q) = replace_headers-get_all x.headers m1 headers in
          (m', e, λ j. q j ∙ rw (h j) refl)

      go :
          (auth : Option Text) (headers : Option (HeaderMap x))
          → (m' : HeaderMap x) × (add_proxy_headers x (at auth headers) m ≡ some m')
            × ((j : HeaderName) → get_all x j m' ≡ proxied (at auth headers) j (get_all x j m))
      go none headers = customize none headers m (λ j. refl)
      go (some auth) headers =
          let (m1, e, q) = or_insert_with-filled proxy_authorization auth m in
          rw e (customize (some auth) headers m1 q)

  -- The URI that is sent: a `CONNECT` names the authority alone, a request through a plain-text proxy
  -- keeps its absolute URI, and any other over HTTP/1 has its path alone.
  abbrev pub form : PoolClient x → Request x → Uri
  form pooled req =
      if is_http2 x pooled
      then req.uri
      else (if is_connect req.method
          then record { scheme = none; authority = req.uri.authority; path_and_query = none }
          else (if is_proxied x pooled.conn_info
              then req.uri
              else only_path (unwrap_or slash req.uri.path_and_query)))

  -- The values of header `j` that are sent, cookies aside.
  abbrev pub dressed : Config → PoolClient x → Request x → Text → HeaderName → List Text
  dressed config pooled req v j =
      let own = get_all x j req.headers in
      if is_http2 x pooled
      then own
      else (if not (is_connect req.method) && is_proxied x pooled.conn_info
          then proxied pooled.conn_info j (hosted config v j own)
          else hosted config v j own)

  abbrev pub IsPrepared :
      Config → PoolClient x → Request x → Text → Option (Result (Error x) (Request x)) → Type 0
  IsPrepared config pooled req v none = ⊥
  IsPrepared config pooled req v (some (err e)) =
      (is_http2 x pooled ≡ false)
      × (version_is_http_2 req.version ≡ true)
      × (e ≡ with_connect_info x (plain x user_unsupported_version) pooled.conn_info)
  IsPrepared config pooled req v (some (ok sent)) =
      ((is_http2 x pooled ≡ true) ⊎ (version_is_http_2 req.version ≡ false))
      × (record sent { uri = req.uri; headers = req.headers } ≡ req)
      × (sent.uri ≡ form pooled req)
      × ((j : HeaderName) → get_all x j sent.headers ≡ dressed config pooled req v j)

  authority_form-form :
      (uri : Uri) (v : Text)
      → generate_host_header x uri ≡ some v
      → authority_form x uri
        ≡ some (record { scheme = none; authority = uri.authority; path_and_query = none })
  unfolding authority_form generate_host_header
  authority_form-form uri v h = go uri.authority h
    where
      go :
          (a : Option Authority)
          → generate_host_header x (record uri { authority = a }) ≡ some v
          → authority_form x (record uri { authority = a })
            ≡ some (record { scheme = none; authority = a; path_and_query = none })
      go none h = cc
      go (some a) h = x.from_parts-authority a

  -- A request whose `Host` can be written is prepared for its connection, and nothing panics: it is
  -- refused exactly where it wants HTTP/2 and the connection is HTTP/1; else it keeps all but its URI,
  -- in the form of its connection, and its headers, which are its own, with the `Host`, the
  -- authorization and the headers of a plain-text proxy where the connection asks for them.
  pub prepare-IsPrepared :
      (config : Config) (pooled : PoolClient x) (req : Request x) (v : Text)
      → generate_host_header x req.uri ≡ some v
      → IsPrepared config pooled req v (prepare x config pooled req)
  unfolding prepare
  prepare-IsPrepared config pooled req v h =
      let (hosts, e, q) = add_host-hosted config req.uri v req.headers h in
      let (proxies, e', q') = add_proxy_headers-proxied pooled.conn_info hosts in
      let authority = authority_form-form req.uri v h in
      elim (Bool-cases (is_http2 x pooled)) [
        | inl two ↦ elim (Bool-cases (is_connect req.method)) [
          | inl c ↦ rw (two, c, two) (inl refl, refl, refl, λ j. refl)
          | inr c ↦ rw (two, c, two) (inl refl, refl, refl, λ j. refl)
        ]
        | inr one ↦ elim (Bool-cases (version_is_http_2 req.version)) [
          | inl w ↦ rw (one, w) (one, w, refl)
          | inr w ↦ elim (Bool-cases (is_connect req.method)) [
            | inl c ↦
                rw (one, w, e, c, authority) (inr w, refl, rw (one, c) refl, λ j. rw (one, c) (q j))
            | inr c ↦ elim (Bool-cases (is_proxied x pooled.conn_info)) [
              | inl p ↦
                  rw (one, w, e, c, p, e')
                    (inr w, refl, rw (one, c, p) refl, λ j. rw (one, c, p) (q' j ∙ rw (q j) refl))
              | inr p ↦
                  rw (one, w, e, c, p, origin_form-path x req.uri)
                    (inr w, refl, rw (one, c, p) refl, λ j. rw (one, c, p) (q j))
            ]
          ]
        ]
      ]
