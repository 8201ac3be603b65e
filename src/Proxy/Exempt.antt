-- ===== src/Proxy/Exempt.antt =====
-- `NoProxy` and `IpMatcher` of src/proxy/matcher.rs, and `strip_ipv6_brackets` of src/util.rs.
use wreq.Base.{
  ℕ, zero, suc, leb, Bool, not, ◌&&◌, ◌||◌, Option, none, some, List, [], ◌∷◌, ◌++◌, if◌then◌else◌,
  any, is_empty,
}
use wreq.Base.Eq.{Eq, ◌==◌, nat_eq}
use wreq.Base.Maybe.{unwrap_or}
use wreq.Base.Text.{Text}
use wreq.Proxy.Crates.{Libraries}
use wreq.Proxy.Domains
use wreq.Proxy.Domains.{strip_prefix}

-- `strip_suffix` of one character.
unfoldable pub strip_suffix : ℕ → Text → Option Text
strip_suffix c [] = none
strip_suffix c (x ∷ []) = if x == c then some [] else none
strip_suffix c (x ∷ y ∷ xs) = elim (strip_suffix c (y ∷ xs)) [ none ↦ none | some t ↦ some (x ∷ t) ]

unfoldable pub strip_ipv6_brackets : Text → Text
unfolding strip_prefix strip_suffix
strip_ipv6_brackets host = elim (strip_prefix b'[' host) [
  | none ↦ host
  | some inner ↦ unwrap_or host (strip_suffix b']' inner)
]

-- `str::split` at a character.
unfoldable pub split : ℕ → Text → List Text
split c [] = [] ∷ []
split c (x ∷ xs) = elim (split c xs) [
  | [] ↦ []
  | part ∷ parts ↦ if x == c then [] ∷ part ∷ parts else (x ∷ part) ∷ parts
]

-- White space of one byte of UTF-8.
abbrev pub is_white : ℕ → Bool
is_white a = a == 32 || (leb 9 a && leb a 13)

-- White space of two bytes: U+0085 and U+00A0.
abbrev pub is_white_pair : ℕ → ℕ → Bool
is_white_pair a b = a == 194 && (b == 133 || b == 160)

-- White space of three bytes: U+1680, U+2000 to U+200A, U+2028, U+2029, U+202F, U+205F and U+3000.
abbrev pub is_white_triple : ℕ → ℕ → ℕ → Bool
is_white_triple a b c =
    (a == 225 && b == 154 && c == 128)
    || (a == 226
        && ((b == 128 && ((leb 128 c && leb c 138) || c == 168 || c == 169 || c == 175))
            || (b == 129 && c == 159)))
    || (a == 227 && b == 128 && c == 128)

-- How many bytes of UTF-8 the white space of Unicode takes that a text begins with, if it does.
abbrev pub white_length : Text → ℕ
white_length [] = 0
white_length (a ∷ []) = if is_white a then 1 else 0
white_length (a ∷ b ∷ []) = if is_white a then 1 else if is_white_pair a b then 2 else 0
white_length (a ∷ b ∷ c ∷ rest) =
    if is_white a
    then 1
    else if is_white_pair a b
    then 2
    else if is_white_triple a b c
    then 3
    else 0

-- A text without the white space that it begins with, from after so many bytes.
unfoldable pub trim_start_after : ℕ → Text → Text
trim_start_after n [] = []
trim_start_after (suc n) (x ∷ xs) = trim_start_after n xs
trim_start_after zero (x ∷ xs) = elim (white_length (x ∷ xs)) [
  | zero ↦ x ∷ xs
  | suc n ↦ trim_start_after n xs
]

unfoldable pub trim_start : Text → Text
unfolding trim_start_after
trim_start t = trim_start_after 0 t

unfoldable pub trim_end : Text → Text
unfolding trim_start
trim_end [] = []
trim_end (x ∷ xs) =
    let rest = trim_end xs in if is_empty (trim_start (x ∷ xs)) then [] else x ∷ rest

-- `str::trim`, of a text in UTF-8.
unfoldable pub trim : Text → Text
unfolding trim_start trim_end
trim t = trim_end (trim_start t)

module _ (x : Libraries) where
  instance abbrev pub addrs : Eq x.IpAddr
  addrs = x.addr_eq

  pub data Ip : Type 0 where
    address : x.IpAddr → Ip
    network : x.IpNet → Ip

  pub record NoProxy : Type 0 where
    pub ips : List Ip
    pub domains : List Text

  unfoldable pub no_proxy : NoProxy
  no_proxy = record { ips = []; domains = [] }

  -- One part of the list.
  unfoldable pub add_part : NoProxy → Text → NoProxy
  unfolding trim
  add_part n part = elim (x.parse_net part) [
    | some net ↦ record n { ips = n.ips ++ (network net ∷ []) }
    | none ↦ elim (x.parse_addr part) [
      | some addr ↦ record n { ips = n.ips ++ (address addr ∷ []) }
      | none ↦
          if not (is_empty (trim part)) then record n { domains = n.domains ++ (part ∷ []) } else n
    ]
  ]

  unfoldable pub add_parts : NoProxy → List Text → NoProxy
  unfolding add_part
  add_parts n [] = n
  add_parts n (part ∷ parts) = add_parts (add_part n (trim part)) parts

  unfoldable pub from_string : Text → NoProxy
  unfolding add_parts no_proxy split
  from_string no_proxy_list = add_parts no_proxy (split b',' no_proxy_list)

  unfoldable pub matches_ip : x.IpAddr → Ip → Bool
  matches_ip addr (address a) = addr == a
  matches_ip addr (network net) = x.net_contains net addr

  unfoldable pub contains_ip : List Ip → x.IpAddr → Bool
  unfolding matches_ip
  contains_ip ips addr = any (matches_ip addr) ips

  unfoldable pub contains : NoProxy → Text → Bool
  unfolding contains_ip strip_ipv6_brackets
  contains n host =
      let bare = strip_ipv6_brackets host in
      elim (x.parse_addr bare) [
        | some ip ↦ contains_ip n.ips ip
        | none ↦ Domains.contains n.domains bare
      ]
