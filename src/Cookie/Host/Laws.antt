-- ===== src/Cookie/Host/Laws.antt =====
-- `domain_match` of src/cookie/store.rs against the definition of RFC 6265, section 5.1.3.
use mathlib.Core.List.{append_assoc}
use wreq.Base.{
  suc, ◌-◌, ◌<◌, ◌≡◌, refl, sym, ap, ◌∙◌, ◌↔◌, ◌⊎◌, inl, inr, true, some, ◌∷◌, ◌++◌, [], Bool-cases,
  arith, length, drop, get_elem?, length-append,
}
use wreq.Base.Eq.{◌==◌, eq_iff, option_eq, nat_eq, list_eq}
use wreq.Base.Text.{
  Text, take, ends_with, ends_with_iff, split_at_elem, get_elem?-append_length, drop-append_length,
}
use wreq.Cookie.Host.Defs.{
  Host, domain, ipv4, ipv6, is_subdomain, both_domains, domain_match, host_eq,
}

-- `host` is `label.suffix` for some label.
abbrev pub IsSubdomain : Text → Text → Type 0
IsSubdomain host suffix = (label : Text) × (host ≡ label ++ (b'.' ∷ suffix))

-- What follows the position of the dot is the suffix.
drop-suffix :
    (h d p : Text) → h ≡ p ++ d → length d < length h → drop (suc (length h - length d - 1)) h ≡ d
drop-suffix h d p e l =
    let n : suc (length h - length d - 1) ≡ length p =
      omega (arith, ap length e, length-append p d) in
    rw n (ap (drop (length p)) e ∙ drop-append_length p d)

is_subdomain_sound : (h d : Text) → is_subdomain h d ≡ true → IsSubdomain h d
unfolding is_subdomain
is_subdomain_sound h d e =
    let (p, q) = (ends_with_iff h d).0 (ground arith) in
    let i = length h - length d - 1 in
    let dot : get_elem? h i ≡ some b'.' = ground (arith, eq_iff (get_elem? h i) (some b'.')) in
    (
      take i h,
      split_at_elem h i b'.' dot
          ∙ ap (λ t. take i h ++ (b'.' ∷ t)) (drop-suffix h d p q (ground arith)),
    )

is_subdomain_complete : (d label : Text) → is_subdomain (label ++ (b'.' ∷ d)) d ≡ true
unfolding is_subdomain
is_subdomain_complete d label =
    let n : length (label ++ (b'.' ∷ d)) - length d - 1 ≡ length label =
      omega (arith, length-append label (b'.' ∷ d)) in
    let tail : ends_with (label ++ (b'.' ∷ d)) d ≡ true =
      (ends_with_iff _ d).1 (label ++ (b'.' ∷ []), sym (append_assoc label (b'.' ∷ []) d)) in
    rw (n, get_elem?-append_length label d b'.', tail)
      (ground (arith, length-append label (b'.' ∷ d)))

-- `domain_match` as RFC 6265 defines it.
abbrev pub DomainMatches : Host → Host → Type 0
DomainMatches host suffix =
    (host ≡ suffix)
    ⊎ ((h : Text) × (d : Text) × (host ≡ domain h) × (suffix ≡ domain d) × IsSubdomain h d)

both_domains-eq-true :
    (host suffix : Host) → both_domains host suffix ≡ true → DomainMatches host suffix
unfolding both_domains
both_domains-eq-true (domain h) (domain d) e = inr (h, d, refl, refl, is_subdomain_sound h d e)
both_domains-eq-true (domain h) (ipv4 b) e = cc
both_domains-eq-true (domain h) (ipv6 b) e = cc
both_domains-eq-true (ipv4 a) suffix e = cc
both_domains-eq-true (ipv6 a) suffix e = cc

domain_match_complete :
    (host suffix : Host) → DomainMatches host suffix → domain_match host suffix ≡ true
unfolding domain_match
domain_match_complete host suffix (inl e) = ground (arith, eq_iff host suffix)
domain_match_complete host suffix (inr (h, d, e, f, (label, g))) =
    rw (e, f, g) (ground (arith, is_subdomain_complete d label))

-- A host domain-matches a domain exactly when they are the same host, or both are names and the
-- first is the second behind a label and a dot.
pub domain_match_iff :
    (host suffix : Host) → (domain_match host suffix ≡ true) ↔ DomainMatches host suffix
unfolding domain_match
domain_match_iff host suffix = (
  λ e. elim (Bool-cases (host == suffix)) [
    | inl same ↦ inl ((eq_iff host suffix).0 same)
    | inr differ ↦ both_domains-eq-true host suffix (ground arith)
  ],
  domain_match_complete host suffix,
)

pub domain_match_refl : (host : Host) → domain_match host host ≡ true
domain_match_refl host = domain_match_complete host host (inl refl)
