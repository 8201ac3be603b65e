-- ===== src/Cookie/Host/Defs.antt =====
-- `CanonicalHost`, `domain_match` and `canonical_host` of src/cookie/store.rs.
use wreq.Base.{
  ℕ, ◌-◌, ◌≡◌, ◌↔◌, Bool, true, false, ◌&&◌, Option, some, [], ◌∷◌, arith, length, get_elem?, ltb,
  if◌then◌else◌,
}
use wreq.Base.Eq.{Eq, ◌==◌, eq_iff, nat_eq, list_eq, option_eq}
use wreq.Base.Text.{Text, ends_with}

pub data Host : Type 0 where
  domain : Text → Host
  ipv4 ipv6 : ℕ → Host

abbrev pub host_beq : Host → Host → Bool
host_beq (domain a) (domain b) = a == b
host_beq (ipv4 a) (ipv4 b) = a == b
host_beq (ipv6 a) (ipv6 b) = a == b
host_beq _ _ = false

pub host_beq_iff : (a b : Host) → (host_beq a b ≡ true) ↔ (a ≡ b)
host_beq_iff (domain a) (domain b) = ground (arith, eq_iff a b)
host_beq_iff (domain a) (ipv4 b) = ground arith
host_beq_iff (domain a) (ipv6 b) = ground arith
host_beq_iff (ipv4 a) (domain b) = ground arith
host_beq_iff (ipv4 a) (ipv4 b) = ground (arith, eq_iff a b)
host_beq_iff (ipv4 a) (ipv6 b) = ground arith
host_beq_iff (ipv6 a) (domain b) = ground arith
host_beq_iff (ipv6 a) (ipv4 b) = ground arith
host_beq_iff (ipv6 a) (ipv6 b) = ground (arith, eq_iff a b)

instance abbrev pub host_eq : Eq Host
host_eq = record { beq = host_beq; beq_iff = host_beq_iff }

-- The two names compared from the right, with a dot before the shorter one.
unfoldable pub is_subdomain : Text → Text → Bool
is_subdomain host suffix =
    ltb (length suffix) (length host)
    && (get_elem? host (length host - length suffix - 1) == some b'.')
    && ends_with host suffix

unfoldable pub both_domains : Host → Host → Bool
unfolding is_subdomain
both_domains (domain host) (domain suffix) = is_subdomain host suffix
both_domains _ _ = false

unfoldable pub domain_match : Host → Host → Bool
unfolding both_domains
domain_match host suffix = if host == suffix then true else both_domains host suffix

-- `host.strip_prefix('.').unwrap_or(host)`.
unfoldable pub strip_dot : Text → Text
strip_dot [] = []
strip_dot (c ∷ host) = if c == b'.' then host else c ∷ host

unfoldable pub canonical_host : (Text → Option Host) → Text → Option Host
unfolding strip_dot
canonical_host parse host = parse (strip_dot host)
