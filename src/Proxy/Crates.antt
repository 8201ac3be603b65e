-- ===== src/Proxy/Crates.antt =====
-- What src/proxy/matcher.rs takes from others: the addresses of the standard library and of `ipnet`,
-- the URIs of `http`, `percent_encoding` and base64.
use wreq.Base.{Bool, Option}
use wreq.Base.Eq.{Eq}
use wreq.Base.Text.{Text}
use wreq.Uri.{Uri}

-- The parts of a parsed URI that the code reads.
pub record Parsed : Type 0 where
  pub scheme : Option Text
  pub authority : Option Text

pub record Libraries : Type 1 where
  pub IpAddr : Type 0
  pub IpNet : Type 0
  pub addr_eq : Eq IpAddr
  pub parse_addr : Text → Option IpAddr
  pub parse_net : Text → Option IpNet
  pub net_contains : IpNet → IpAddr → Bool
  pub parse_uri : Text → Option Parsed
  pub authority_has_port : Text → Bool
  pub parse_authority : Text → Option Text
  pub build_uri : Text → Text → Option Uri
  pub percent_decode_lossy : Text → Text
  pub base64 : Text → Text
