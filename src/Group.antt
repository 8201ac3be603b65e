-- ===== src/Group.antt =====
-- Groups of requests, of src/group.rs, and the keys of pooled connections, of src/conn/descriptor.rs.
-- A `BTreeMap` is the list of its entries in the order of their keys. URIs, proxy matchers and socket
-- options are compared alone, and are parameters.
use wreq.Base.{ℕ, Bool, Option, none, some, ltb, if◌then◌else◌}
use wreq.Base.Eq.{◌==◌, nat_eq}
use wreq.Base.Text.{Text}
use wreq.Cookie.Jar.Header.{Version}
pub mod Identity
pub mod Distinct
pub mod Hashing
mod Tests

-- `GroupId`.
pub data GroupId : Type 0 where
  borrowed : Text → GroupId
  owned : Text → GroupId
  number : ℕ → GroupId

-- `GroupKey`, in its order.
pub data GroupKey : Type 0 where
  request emulate named uri version proxy socket_bind : GroupKey

abbrev pub rank : GroupKey → ℕ
rank request = 0
rank emulate = 1
rank named = 2
rank uri = 3
rank version = 4
rank proxy = 5
rank socket_bind = 6

pub record Types : Type 1 where
  pub Uri : Type 0
  pub Matcher : Type 0
  pub SocketBindOptions : Type 0
  pub TlsOptions : Type 0

module _ (x : Types) where
  mutual
    pub data Group : Type 0 where
      nil : Group
      entry : GroupKey → GroupVariant → Group → Group

    pub data GroupVariant : Type 0 where
      requests : Group → GroupVariant
      emulates : Group → GroupVariant
      names : GroupId → GroupVariant
      uris : x.Uri → GroupVariant
      versions : Version → GroupVariant
      proxies : x.Matcher → GroupVariant
      socket_binds : Option x.SocketBindOptions → GroupVariant

  -- `BTreeMap::insert`.
  unfoldable pub insert : GroupKey → GroupVariant → Group → Group
  insert k v nil = entry k v nil
  insert k v (entry j w g) =
      if ltb (rank k) (rank j)
      then entry k v (entry j w g)
      else (if rank k == rank j then entry j v g else entry j w (insert k v g))

  -- `extend`.
  unfoldable pub extend : GroupKey → Option GroupVariant → Group → Group
  unfolding insert
  extend k none g = g
  extend k (some v) g = insert k v g

  unfoldable pub new : GroupId → Group
  new name = entry named (names name) nil

  unfoldable pub set_uri : x.Uri → Group → Group
  unfolding extend
  set_uri u g = extend uri (some (uris u)) g

  unfoldable pub set_version : Option Version → Group → Group
  unfolding extend
  set_version v g = extend version (elim v [ some a ↦ some (versions a) | none ↦ none ]) g

  unfoldable pub set_proxy : Option x.Matcher → Group → Group
  unfolding extend
  set_proxy m g = extend proxy (elim m [ some a ↦ some (proxies a) | none ↦ none ]) g

  unfoldable pub set_socket_bind : Option x.SocketBindOptions → Group → Group
  unfolding extend
  set_socket_bind opts g = extend socket_bind (some (socket_binds opts)) g

  unfoldable pub set_request : Group → Group → Group
  unfolding extend
  set_request inner g = extend request (some (requests inner)) g

  unfoldable pub set_emulate : Group → Group → Group
  unfolding extend
  set_emulate inner g = extend emulate (some (emulates inner)) g

  -- `ConnectionDescriptor`; its id is the group of its `ConnectionId`.
  pub record ConnectionDescriptor : Type 0 where
    pub target : x.Uri
    pub version : Option Version
    pub proxy : Option x.Matcher
    pub tls_options : Option x.TlsOptions
    pub socket_bind : Option x.SocketBindOptions
    pub connection_id : Group

  unfoldable pub new_descriptor :
      x.Uri
      → Group
      → Option x.Matcher
      → Option Version
      → Option x.TlsOptions
      → Option x.SocketBindOptions
      → ConnectionDescriptor
  unfolding set_uri set_version set_proxy set_socket_bind
  new_descriptor u group m v tls bind = record {
    target = u;
    version = v;
    proxy = m;
    tls_options = tls;
    socket_bind = bind;
    connection_id = set_socket_bind bind (set_proxy m (set_version v (set_uri u group)));
  }

  -- `ConnectionId`: its group, and the hash that is kept of it, 0 where there is none.
  pub record ConnectionId : Type 0 where
    pub group : Group
    pub kept : ℕ

  -- The value that `hash` computes, given the hash of a group.
  unfoldable pub computed_hash : (Group → ℕ) → Group → ℕ
  computed_hash hash_one g = if hash_one g == 0 then 1 else hash_one g

  -- `hash`: the number written, and the id with what it keeps.
  unfoldable pub hash : (Group → ℕ) → ConnectionId → ℕ × ConnectionId
  unfolding computed_hash
  hash hash_one id =
      if id.kept == 0
      then (computed_hash hash_one id.group, record id { kept = computed_hash hash_one id.group })
      else (id.kept, id)
