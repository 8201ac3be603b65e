-- ===== src/Group/Distinct.antt =====
-- When two connections have one key, for src/conn/descriptor.rs.
use wreq.Base.{◌≡◌, refl, sym, ap, ◌∙◌, Option, none, some}
use wreq.Base.Eq.{nat_eq}
use wreq.Cookie.Jar.Header.{Version}
use wreq.Group.{
  GroupKey, uri, version, proxy, socket_bind, Types, Group, GroupVariant, uris, versions, proxies,
  socket_binds, insert, extend, new_descriptor, set_uri, set_version, set_proxy, set_socket_bind,
}
use wreq.Group.Identity.{find, find-insert}

module _ (x : Types) where
  abbrev version_entry : Option Version → Option (GroupVariant x)
  version_entry none = none
  version_entry (some v) = some (versions v)

  abbrev proxy_entry : Option x.Matcher → Option (GroupVariant x)
  proxy_entry none = none
  proxy_entry (some m) = some (proxies m)

  -- The criteria of a connection's id.
  abbrev Criteria :
      x.Uri → Option x.Matcher → Option Version → Option x.SocketBindOptions → Group x → Type 0
  Criteria u m v bind id =
      (find x uri id ≡ some (uris u))
      × (find x version id ≡ version_entry v)
      × (find x proxy id ≡ proxy_entry m)
      × (find x socket_bind id ≡ some (socket_binds bind))

  connection_id-Criteria :
      (u : x.Uri) (g : Group x) (m : Option x.Matcher) (v : Option Version)
      (tls : Option x.TlsOptions) (bind : Option x.SocketBindOptions)
      → find x version g ≡ none
      → find x proxy g ≡ none
      → Criteria u m v bind (new_descriptor x u g m v tls bind).connection_id
  unfolding new_descriptor set_uri set_version set_proxy set_socket_bind extend
  connection_id-Criteria u g none none tls bind hv hp =
      let g1 = insert x uri (uris u) g in
      let last = λ (j : GroupKey). find-insert x socket_bind j (socket_binds bind) g1 in
      let first = λ (j : GroupKey). find-insert x uri j (uris u) g in
      (
        last uri ∙ first uri,
        last version ∙ first version ∙ hv,
        last proxy ∙ first proxy ∙ hp,
        last socket_bind,
      )
  connection_id-Criteria u g none (some v) tls bind hv hp =
      let g1 = insert x uri (uris u) g in
      let g2 = insert x version (versions v) g1 in
      let second = λ (j : GroupKey). find-insert x version j (versions v) g1 in
      let last = λ (j : GroupKey). find-insert x socket_bind j (socket_binds bind) g2 in
      let first = λ (j : GroupKey). find-insert x uri j (uris u) g in
      (
        last uri ∙ second uri ∙ first uri,
        last version ∙ second version,
        last proxy ∙ second proxy ∙ first proxy ∙ hp,
        last socket_bind,
      )
  connection_id-Criteria u g (some m) none tls bind hv hp =
      let g1 = insert x uri (uris u) g in
      let third = λ (j : GroupKey). find-insert x proxy j (proxies m) g1 in
      let last = λ (j : GroupKey).
        find-insert x socket_bind j (socket_binds bind) (insert x proxy (proxies m) g1) in
      let first = λ (j : GroupKey). find-insert x uri j (uris u) g in
      (
        last uri ∙ third uri ∙ first uri,
        last version ∙ third version ∙ first version ∙ hv,
        last proxy ∙ third proxy,
        last socket_bind,
      )
  connection_id-Criteria u g (some m) (some v) tls bind hv hp =
      let g1 = insert x uri (uris u) g in
      let g2 = insert x version (versions v) g1 in
      let second = λ (j : GroupKey). find-insert x version j (versions v) g1 in
      let third = λ (j : GroupKey). find-insert x proxy j (proxies m) g2 in
      let last = λ (j : GroupKey).
        find-insert x socket_bind j (socket_binds bind) (insert x proxy (proxies m) g2) in
      let first = λ (j : GroupKey). find-insert x uri j (uris u) g in
      (
        last uri ∙ third uri ∙ second uri ∙ first uri,
        last version ∙ third version ∙ second version,
        last proxy ∙ third proxy,
        last socket_bind,
      )

  uri_same :
      (u u' : x.Uri) → ◌≡◌ {A = Option (GroupVariant x)} (some (uris u)) (some (uris u')) → u ≡ u'
  uri_same u u' h = cc

  bind_same :
      (b b' : Option x.SocketBindOptions)
      → ◌≡◌ {A = Option (GroupVariant x)} (some (socket_binds b)) (some (socket_binds b'))
      → b ≡ b'
  bind_same b b' h = cc

  version_same : (v v' : Option Version) → version_entry v ≡ version_entry v' → v ≡ v'
  version_same none none h = refl
  version_same none (some b) h = cc
  version_same (some a) none h = cc
  version_same (some a) (some b) h = cc

  proxy_same : (m m' : Option x.Matcher) → proxy_entry m ≡ proxy_entry m' → m ≡ m'
  proxy_same none none h = refl
  proxy_same none (some b) h = cc
  proxy_same (some a) none h = cc
  proxy_same (some a) (some b) h = cc

  -- Connections are interchangeable, for requests of one group that names no version and no proxy
  -- itself, only where their URI, their version, their proxy and their socket options are the same.
  pub connection_id_distinct :
      (u u' : x.Uri) (g : Group x) (m m' : Option x.Matcher) (v v' : Option Version)
      (tls tls' : Option x.TlsOptions) (bind bind' : Option x.SocketBindOptions)
      → find x version g ≡ none
      → find x proxy g ≡ none
      → (new_descriptor x u g m v tls bind).connection_id
        ≡ (new_descriptor x u' g m' v' tls' bind').connection_id
      → (u ≡ u') × (v ≡ v') × (m ≡ m') × (bind ≡ bind')
  connection_id_distinct u u' g m m' v v' tls tls' bind bind' hv hp same =
      let (a, b, c, d) = connection_id-Criteria u g m v tls bind hv hp in
      let (a', b', c', d') = connection_id-Criteria u' g m' v' tls' bind' hv hp in
      let found = λ (k : GroupKey). ap (find x k) same in
      (
        uri_same u u' (sym a ∙ found uri ∙ a'),
        version_same v v' (sym b ∙ found version ∙ b'),
        proxy_same m m' (sym c ∙ found proxy ∙ c'),
        bind_same bind bind' (sym d ∙ found socket_bind ∙ d'),
      )
