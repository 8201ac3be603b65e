-- ===== src/Redirect/Crates.antt =====
-- What src/redirect.rs and src/client/layer/redirect.rs take from others: the header maps, methods and
-- bodies of the `http` crates, and the `url` crate.
use wreq.Base.{ℕ, ◌≡◌, Bool, Option, none, some, List, if◌then◌else◌}
use wreq.Base.Eq.{◌==◌, list_eq, nat_eq}
use wreq.Base.Text.{Text, codes}
use wreq.Uri.{Uri, Scheme}

-- A `HeaderName` is its lower-case text.
abbrev pub HeaderName : Type 0
HeaderName = Text

abbrev pub authorization : HeaderName
authorization = codes "authorization"

abbrev pub cookie : HeaderName
cookie = codes "cookie"

abbrev pub cookie2 : HeaderName
cookie2 = codes "cookie2"

abbrev pub proxy_authorization : HeaderName
proxy_authorization = codes "proxy-authorization"

abbrev pub www_authenticate : HeaderName
www_authenticate = codes "www-authenticate"

abbrev pub referer : HeaderName
referer = codes "referer"

abbrev pub referrer_policy : HeaderName
referrer_policy = codes "referrer-policy"

abbrev pub content_type : HeaderName
content_type = codes "content-type"

abbrev pub content_length : HeaderName
content_length = codes "content-length"

abbrev pub content_encoding : HeaderName
content_encoding = codes "content-encoding"

abbrev pub transfer_encoding : HeaderName
transfer_encoding = codes "transfer-encoding"

abbrev pub location : HeaderName
location = codes "location"

-- `http::HeaderMap` and `http::HeaderValue`.
pub record HeaderMaps : Type 1 where
  pub Map : Type 0
  pub Value : Type 0
  pub get : HeaderName → Map → Option Value
  pub get_all : HeaderName → Map → List Value
  pub insert : HeaderName → Value → Map → Map
  pub remove : HeaderName → Map → Map
  pub as_bytes : Value → Text
  pub to_str : Value → Option Text
  pub try_from : Text → Option Value
  pub is_sensitive : Value → Bool
  pub set_sensitive : Bool → Value → Value
  pub get-insert :
      (k j : HeaderName) (v : Value) (m : Map)
      → get j (insert k v m) ≡ (if k == j then some v else get j m)
  pub get-remove :
      (k j : HeaderName) (m : Map) → get j (remove k m) ≡ (if k == j then none else get j m)

-- `url::Url`, and the texts of an `http::Uri`.
pub record Urls : Type 1 where
  pub Url : Type 0
  pub parse : Text → Option Url
  pub join : Url → Text → Option Url
  pub as_str : Url → Text
  pub scheme : Url → Text
  pub host_str : Url → Option Text
  pub port_or_known_default : Url → Option ℕ
  pub clear_username : Url → Option Url
  pub clear_password : Url → Option Url
  pub clear_path : Url → Url
  pub clear_query : Url → Url
  pub clear_fragment : Url → Url
  pub parse_scheme : Text → Option Scheme
  pub parse_uri : Text → Option Uri
  pub show_uri : Uri → Text
  pub is_utf8 : Text → Bool

-- `Body`, with its exact size where it is known.
pub record Bodies : Type 1 where
  pub Body : Type 0
  pub default : Body
  pub exact_size : Body → Option ℕ
  pub try_clone : Body → Option Body

pub data Method : Type 0 where
  get head post : Method
  other : Text → Method

pub record Request (H : HeaderMaps) : Type 0 where
  pub method : Method
  pub uri : Uri
  pub headers : H.Map
