-- ===== src/Proxy.antt =====
-- The choice of a proxy for a destination, src/proxy/matcher.rs.
pub mod Crates
pub mod Domains
pub mod Exempt
pub mod Listed
pub mod Env
pub mod Choosing
mod Tests
use wreq.Base.{ℕ, Bool, true, false, ◌&&◌, ◌||◌, Option, none, some, if◌then◌else◌, is_none}
use wreq.Base.Text.{Text}
use wreq.Config.{or}
use wreq.Uri.{Uri, is_http, is_https}
use mathlib.Core.Option
use Crates.{Libraries}
use Exempt
use Exempt.{NoProxy}
use Env.{Intercept, parse_env_uri, with_extra}

-- `H` is the type of a header map, and `U` that of a socket's path.
pub record Builder (U : Type 0) : Type 0 where
  pub is_cgi : Bool
  pub all : Text
  pub http : Text
  pub https : Text
  pub no : Text
  pub unix : Option U

pub data Intercepted (H U : Type 0) : Type 0 where
  proxy : Intercept H → Intercepted H U
  unix_socket : U → Intercepted H U

pub record Matcher (x : Libraries) (H U : Type 0) : Type 0 where
  pub http : Option (Intercept H)
  pub https : Option (Intercept H)
  pub no : NoProxy x
  pub unix : Option U

module _ (x : Libraries) {H U : Type 0} where
  -- `Builder::build`
  unfoldable pub build : Builder U → Env.Extra H → Matcher x H U
  unfolding Exempt.no_proxy Exempt.from_string parse_env_uri
  build b extra =
      if b.is_cgi
      then record { http = none; https = none; no = Exempt.no_proxy x; unix = none }
      else let all = parse_env_uri x b.all in
        let http = Option.map (with_extra extra) (parse_env_uri x b.http) in
        let https = Option.map (with_extra extra) (parse_env_uri x b.https) in
        let all' =
          if is_none http || is_none https then Option.map (with_extra extra) all else all in
        record {
          http = or http all';
          https = or https all';
          no = Exempt.from_string x b.no;
          unix = b.unix;
        }

  unfoldable pub intercept : Matcher x H U → Uri → Option (Intercepted H U)
  unfolding Exempt.contains is_http is_https
  intercept m dst = elim m.unix [
    | some path ↦ some (unix_socket path)
    | none ↦ elim dst.host [
      | none ↦ none
      | some host ↦
          if Exempt.contains x m.no host
          then none
          else if is_http dst
          then Option.map proxy m.http
          else if is_https dst
          then Option.map proxy m.https
          else none
    ]
  ]
