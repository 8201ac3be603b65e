-- ===== src/HttpClient/Uris.antt =====
-- The forms of a request's URI at the end of src/client/layer/client.rs. `none` stands for the panic of
-- an `expect`.
use wreq.Base.{
  ℕ, ◌≡◌, ◌≢◌, refl, Bool, true, false, ◌&&◌, ◌||◌, not, Option, none, some, ◌∷◌, ◌++◌,
  if◌then◌else◌, inl, inr, ◌⊎◌, Bool-cases, arith, ap, sym,
}
use wreq.Base.Eq.{◌==◌, eq_iff, list_eq, nat_eq, option_eq}
use wreq.Base.Maybe.{◌>>=◌, unwrap_or}
use wreq.Base.Text.{Text, codes}
use wreq.Base.Results.{Result, ok, err}
use wreq.Uri.{Scheme, http, https, other, scheme_eq}
use wreq.HttpClient.{
  Method, connect, named, Uri, Authority, Port, Crates, slash, default_uri, only_authority,
  only_path, base, Error, Request, plain, user_absolute_uri_required,
}

abbrev pub is_connect : Method → Bool
is_connect connect = true
is_connect (named m) = false

abbrev pub scheme_str : Scheme → Text
scheme_str http = codes "http"
scheme_str https = codes "https"
scheme_str (other s) = s

unfoldable pub is_schema_secure : Uri → Bool
is_schema_secure uri = elim uri.scheme [
  | none ↦ false
  | some s ↦ scheme_str s == codes "wss" || scheme_str s == codes "https"
]

-- The port that `generate_host_header` writes.
unfoldable pub host_port : Uri → Option Port → Option Port
unfolding is_schema_secure
host_port uri none = none
host_port uri (some p) =
    if (p.as_u16 == 443 && is_schema_secure uri) || (p.as_u16 == 80 && not (is_schema_secure uri))
    then none
    else some p

abbrev pub with_port : Text → Option Port → Text
with_port hostname none = hostname
with_port hostname (some p) = hostname ++ (b':' ∷ p.as_str)

module _ (x : Crates) where
  unfoldable pub origin_form : Uri → Option Uri
  origin_form uri = elim uri.path_and_query [
    | some path ↦ if path == slash then some default_uri else x.from_parts (only_path path)
    | none ↦ some default_uri
  ]

  -- The checks of a debug build aside.
  abbrev pub absolute_form : Uri → Uri
  absolute_form uri = uri

  unfoldable pub authority_form : Uri → Option Uri
  authority_form uri = elim uri.authority [
    | some auth ↦ x.from_parts (only_authority auth)
    | none ↦ none
  ]

  unfoldable pub generate_host_header : Uri → Option Text
  unfolding host_port
  generate_host_header uri = do
    auth ← uri.authority
    let value = with_port auth.host (host_port uri auth.port)
    if x.is_header_value value then some value else none

  unfoldable pub set_scheme : Scheme → Uri → Option Uri
  set_scheme scheme uri =
      x.from_parts (record uri { scheme = some scheme; path_and_query = some slash })

  -- The scheme of a `CONNECT` to an authority.
  unfoldable pub connect_scheme : Authority → Scheme
  connect_scheme auth = elim auth.port [
    | some p ↦ if p.as_u16 == 443 then https else http
    | none ↦ http
  ]

  -- The request and the base URI of the connection; `none` is a panic.
  unfoldable pub normalize_uri : Request x → Bool → Option (Result (Error x) (Request x × Uri))
  unfolding set_scheme connect_scheme
  normalize_uri req is_http_connect = elim req.uri.authority [
    | none ↦ some (err (plain x user_absolute_uri_required))
    | some auth ↦ elim req.uri.scheme [
      | some scheme ↦ some (ok (req, base scheme auth))
      | none ↦
          if is_http_connect
          then (do
            uri ← set_scheme (connect_scheme auth) req.uri
            some (ok (record req { uri = uri }, base (connect_scheme auth) auth)))
          else some (err (plain x user_absolute_uri_required))
    ]
  ]

  -- A URI that a connection can be made for: it has a scheme and an authority.
  abbrev pub IsAbsolute : Uri → Type 0
  IsAbsolute u = (s : Scheme) × (a : Authority) × (u.scheme ≡ some s) × (u.authority ≡ some a)

  -- A request and the URI to connect to, for the request that was given.
  abbrev pub IsNormalized : Request x → Bool → Option (Result (Error x) (Request x × Uri)) → Type 0
  IsNormalized req is_http_connect none = ⊥
  IsNormalized req is_http_connect (some (err e)) =
      (e ≡ plain x user_absolute_uri_required)
      × ((req.uri.authority ≡ none) ⊎ ((req.uri.scheme ≡ none) × (is_http_connect ≡ false)))
  IsNormalized req is_http_connect (some (ok (req', uri))) =
      (record req' { uri = req.uri } ≡ req)
      × (req'.uri.authority ≡ req.uri.authority)
      × ((req.uri.scheme ≡ none) ⊎ (req'.uri ≡ req.uri))
      × ((s : Scheme) × (a : Authority) × (req'.uri.scheme ≡ some s)
          × (req'.uri.authority ≡ some a)
          × (uri ≡ base s a))

  -- What the client makes of the request's URI: nothing panics; a request is refused exactly where it
  -- has no authority, or no scheme and is not a `CONNECT`; else the request keeps all but its URI,
  -- which keeps its authority and has the scheme that the connection is made with.
  pub normalize_uri-IsNormalized :
      (req : Request x) (is_http_connect : Bool)
      → IsNormalized req is_http_connect (normalize_uri req is_http_connect)
  unfolding normalize_uri set_scheme connect_scheme
  normalize_uri-IsNormalized req c = go req.uri.authority req.uri.scheme c
    where
      at : Option Authority → Option Scheme → Request x
      at a s = record req {
        uri = record { scheme = s; authority = a; path_and_query = req.uri.path_and_query };
      }

      go :
          (a : Option Authority) (s : Option Scheme) (c : Bool)
          → IsNormalized (at a s) c (normalize_uri (at a s) c)
      go none s c = (refl, inl refl)
      go (some a) (some s) c = (refl, refl, inr refl, (s, a, refl, refl, refl))
      go (some a) none true =
          rw (x.from_parts-absolute (connect_scheme a) a)
            (refl, refl, inl refl, (connect_scheme a, a, refl, refl, refl))
      go (some a) none false = (refl, inr (refl, refl))

  -- The request that is sent has the path of the URI alone, and `/` where there is none.
  pub origin_form-path :
      (uri : Uri) → origin_form uri ≡ some (only_path (unwrap_or slash uri.path_and_query))
  unfolding origin_form
  origin_form-path uri = go uri.path_and_query
    where
      go :
          (p : Option Text)
          → origin_form (record uri { path_and_query = p }) ≡ some (only_path (unwrap_or slash p))
      go none = refl
      go (some p) = elim (Bool-cases (p == slash)) [
        | inl same ↦
            let is_slash : p ≡ slash = (eq_iff p slash).0 same in
            rw same (ap (λ q. some (only_path q)) (sym is_slash))
        | inr differs ↦ rw differs (x.from_parts-path p)
      ]

-- The port of a URI, where it is written or else that of a secure or an insecure scheme.
abbrev pub effective_port : Uri → Option Port → ℕ
effective_port uri none = if is_schema_secure uri then 443 else 80
effective_port uri (some p) = p.as_u16

-- A `Host` header says the port of the URI, and says it only where it is not the default one.
host_port-exact :
    (uri : Uri) (port : Option Port)
    → (effective_port uri (host_port uri port) ≡ effective_port uri port)
      × ((p : Port) → host_port uri port ≡ some p → p.as_u16 ≢ effective_port uri none)
unfolding host_port
host_port-exact uri none = (refl, λ p e. cc)
host_port-exact uri (some q) = elim (Bool-cases (is_schema_secure uri)) [
  | inl s ↦ (ground arith, λ p e. ground arith)
  | inr s ↦ (ground arith, λ p e. ground arith)
]
