-- ===== src/Proxy/Listed.antt =====
-- The list of hosts without a proxy of src/proxy/matcher.rs, from its text to the test of a host.
use wreq.Base.{
  ◌≡◌, refl, ap, ◌∙◌, Bool, true, false, not, ◌&&◌, ◌||◌, Option, none, some, List, [], ◌∷◌, ◌++◌,
  inl, inr, arith, any, is_empty, is_none, Bool-cases, Option-cases,
}
use wreq.Base.Eq.{nat_eq}
use wreq.Base.Text.{Text}
use wreq.Proxy.Crates.{Libraries}
use wreq.Proxy.Domains
use wreq.Proxy.Domains.{matches_domain, matches_lem, is_exempt, is_ascii}
use wreq.Proxy.Exempt.{
  NoProxy, no_proxy, address, network, add_part, add_parts, from_string, matches_ip, contains_ip,
  contains, strip_ipv6_brackets, split, trim,
}

any_snoc :
    {A : Type 0} (p : A → Bool) (xs : List A) (y : A) → any p (xs ++ (y ∷ [])) ≡ (any p xs || p y)
unfolding any
any_snoc p [] y = ground arith
any_snoc p (x ∷ xs) y = ground (arith, any_snoc p xs y)

module _ (x : Libraries) where
  -- A part of the list names an address: as a network, or as itself.
  abbrev pub lists_addr : x.IpAddr → Text → Bool
  lists_addr addr part = elim (x.parse_net part) [
    | some net ↦ x.net_contains net addr
    | none ↦ elim (x.parse_addr part) [ some a ↦ x.addr_eq.beq addr a | none ↦ false ]
  ]

  -- A part of the list is a name.
  abbrev pub is_name : Text → Bool
  is_name part =
      is_none (x.parse_net part) && is_none (x.parse_addr part) && not (is_empty (trim part))

  -- A part of the list exempts a host.
  abbrev pub lists : Option x.IpAddr → Text → Text → Bool
  lists (some addr) host part = lists_addr addr part
  lists none host part = is_name part && is_exempt host part

  add_part-ips :
      (n : NoProxy x) (part : Text) (addr : x.IpAddr)
      → contains_ip x (add_part x n part).ips addr
        ≡ (contains_ip x n.ips addr || lists_addr addr part)
  unfolding add_part contains_ip matches_ip
  add_part-ips n part addr = elim (Option-cases (x.parse_net part)) [
    | inr (net, e) ↦ rw (e, add_part, lists_addr) (any_snoc (matches_ip x addr) n.ips (network net))
    | inl e ↦ elim (Option-cases (x.parse_addr part)) [
      | inr (a, e') ↦
          rw (e, e', add_part, lists_addr) (any_snoc (matches_ip x addr) n.ips (address a))
      | inl e' ↦ ground arith
    ]
  ]

  add_part-domains :
      (n : NoProxy x) (part host : Text)
      → Domains.contains (add_part x n part).domains host
        ≡ (Domains.contains n.domains host || (is_name part && matches_domain host part))
  unfolding add_part Domains.contains
  add_part-domains n part host = elim (Option-cases (x.parse_net part)) [
    | inr (net, e) ↦ ground arith
    | inl e ↦ elim (Option-cases (x.parse_addr part)) [
      | inr (a, e') ↦ ground arith
      | inl e' ↦ elim (Bool-cases (is_empty (trim part))) [
        | inl e'' ↦ ground arith
        | inr e'' ↦ rw (e, e', e'', add_part) (any_snoc (matches_domain host) n.domains part)
      ]
    ]
  ]

  add_parts-ips :
      (n : NoProxy x) (parts : List Text) (addr : x.IpAddr)
      → contains_ip x (add_parts x n parts).ips addr
        ≡ (contains_ip x n.ips addr || any (λ p. lists_addr addr (trim p)) parts)
  unfolding add_parts any
  add_parts-ips n [] addr = ground arith
  add_parts-ips n (part ∷ parts) addr =
      ground (
        arith,
        add_parts-ips (add_part x n (trim part)) parts addr,
        add_part-ips n (trim part) addr,
      )

  add_parts-domains :
      (n : NoProxy x) (parts : List Text) (host : Text)
      → Domains.contains (add_parts x n parts).domains host ≡ (
          Domains.contains n.domains host
          || any (λ p. is_name (trim p) && matches_domain host (trim p)) parts)
  unfolding add_parts any
  add_parts-domains n [] host = ground arith
  add_parts-domains n (part ∷ parts) host = ground (
    arith,
    add_parts-domains (add_part x n (trim part)) parts host,
    add_part-domains n (trim part) host,
  )

  names_lem :
      (parts : List Text) (host : Text)
      → is_ascii host ≡ true
      → any (λ p. is_name (trim p) && matches_domain host (trim p)) parts
        ≡ any (λ p. is_name (trim p) && is_exempt host (trim p)) parts
  unfolding any
  names_lem [] host ascii = refl
  names_lem (part ∷ parts) host ascii = rw (matches_lem host (trim part) ascii) (
      ap (λ b. is_name (trim part) && is_exempt host (trim part) || b) (names_lem parts host ascii))

  -- A host, in ASCII, is exempt from the proxy exactly when one of the parts of the list, between
  -- commas and without the white space around them, exempts it. For a host that is an address,
  -- brackets around it left out, that is a part that is this address or a network with it in it; for
  -- any other host a part that is neither an address nor a network, and is not empty, and that is
  -- the host or a name above it, with its leading dot left out, or a lone star, which exempts each
  -- host that does not itself end in one.
  pub contains-from_string :
      (list host : Text)
      → is_ascii (strip_ipv6_brackets host) ≡ true
      → contains x (from_string x list) host
        ≡ any
            (λ part.
              lists
                (x.parse_addr (strip_ipv6_brackets host))
                (strip_ipv6_brackets host)
                (trim part))
            (split b',' list)
  unfolding contains from_string no_proxy Domains.contains contains_ip any
  contains-from_string list host ascii =
      elim (Option-cases (x.parse_addr (strip_ipv6_brackets host))) [
        | inl e ↦
            rw (e, contains)
              (add_parts-domains (no_proxy x) (split b',' list) (strip_ipv6_brackets host)
                ∙ names_lem (split b',' list) (strip_ipv6_brackets host) ascii)
        | inr (addr, e) ↦ rw (e, contains) (add_parts-ips (no_proxy x) (split b',' list) addr)
      ]
