-- ===== src/Uri.antt =====
-- The parts of an `http::Uri` that the program reads, and `trait UriExt` of src/ext.rs.
pub mod Userinfo
mod Tests
use wreq.Base.{ℕ, ◌≡◌, Bool, true, false, Option, none, some, arith, ◌↔◌}
use wreq.Base.Text.{Text}
use wreq.Base.Eq.{Eq, ◌==◌, eq_iff, nat_eq, list_eq, option_eq}

pub data Scheme : Type 0 where
  http : Scheme
  https : Scheme
  other : Text → Scheme

abbrev pub scheme_beq : Scheme → Scheme → Bool
scheme_beq http http = true
scheme_beq https https = true
scheme_beq (other s) (other t) = s == t
scheme_beq _ _ = false

pub scheme_beq_iff : (a b : Scheme) → (scheme_beq a b ≡ true) ↔ (a ≡ b)
scheme_beq_iff http http = ground arith
scheme_beq_iff http https = ground arith
scheme_beq_iff http (other t) = ground arith
scheme_beq_iff https http = ground arith
scheme_beq_iff https https = ground arith
scheme_beq_iff https (other t) = ground arith
scheme_beq_iff (other s) http = ground arith
scheme_beq_iff (other s) https = ground arith
scheme_beq_iff (other s) (other t) = ground (arith, eq_iff s t)

instance abbrev pub scheme_eq : Eq Scheme
scheme_eq = record { beq = scheme_beq; beq_iff = scheme_beq_iff }

pub record Uri : Type 0 where
  pub scheme : Option Scheme
  pub host : Option Text
  pub port : Option ℕ
  pub path : Text

unfoldable pub is_http : Uri → Bool
is_http u = u.scheme == some http

unfoldable pub is_https : Uri → Bool
is_https u = u.scheme == some https

-- The explicit port, or the default one of the scheme.
unfoldable pub port_or_default : Uri → ℕ
unfolding is_https
port_or_default u = elim u.port [
  | some p ↦ p
  | none ↦ elim (is_https u) [ true ↦ 443 | false ↦ 80 ]
]
