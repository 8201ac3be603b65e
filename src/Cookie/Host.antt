-- ===== src/Cookie/Host.antt =====
-- Hosts as cookie domains: `CanonicalHost`, `domain_match` and `canonical_host` of
-- src/cookie/store.rs. The parser `url::Host::parse` is a parameter.
mod Defs
mod Laws
unfoldable pub use Defs.*
pub use Laws.*
