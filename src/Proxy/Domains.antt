-- ===== src/Proxy/Domains.antt =====
-- `DomainMatcher` of src/proxy/matcher.rs. Hosts are bytes; a slice of a `str` has to start at the
-- first byte of a character.
use wreq.Base.{
  ℕ, suc, zero, ◌+◌, ◌-◌, ltb, leb, ◌≡◌, refl, sym, ap, subst, ◌∙◌, Bool, true, false, not, ◌&&◌,
  ◌||◌, Option, none, some, List, [], ◌∷◌, inl, inr, arith, if◌then◌else◌, length, drop, get_elem?,
  any, is_some_and, Bool-cases,
}
use wreq.Base.Eq.{◌==◌, nat_eq, list_eq, option_eq, eq_iff, list_beq}
use wreq.Base.Text.{Text, codes, eq_ignore_ascii_case, starts_with, to_ascii_lowercase}

-- `str::get(i..)`
unfoldable pub get_from : Text → ℕ → Option Text
get_from t i =
    if leb i (length t) && not (is_some_and (get_elem? t i) (λ b. leb 128 b && leb b 191))
    then some (drop i t)
    else none

-- `strip_prefix` of one character.
unfoldable pub strip_prefix : ℕ → Text → Option Text
strip_prefix c [] = none
strip_prefix c (x ∷ xs) = if x == c then some xs else none

-- What the loop over the domains makes of one of them.
unfoldable pub matches_domain : Text → Text → Bool
unfolding get_from strip_prefix
matches_domain domain d =
    if eq_ignore_ascii_case d domain
      || is_some_and (strip_prefix b'.' d) (λ s. eq_ignore_ascii_case s domain)
    then true
    else if is_some_and (get_from domain (length domain - length d)) (λ s. eq_ignore_ascii_case s d)
    then (if starts_with d (codes ".")
        then true
        else get_elem? domain (length domain - (length d + 1)) == some b'.')
    else d == codes "*"

-- `DomainMatcher::contains`
unfoldable pub contains : List Text → Text → Bool
unfolding matches_domain
contains ds domain = any (matches_domain domain) ds

-- The name without the dot that it may begin with.
abbrev pub bare : Text → Text
bare [] = []
bare (c ∷ d) = if c == b'.' then d else c ∷ d

-- The host is some text, a dot, and the name.
abbrev pub is_below : Text → Text → Bool
is_below [] name = false
is_below (c ∷ host) name = (c == b'.' && eq_ignore_ascii_case host name) || is_below host name

abbrev pub ends_in_star : Text → Bool
ends_in_star host = eq_ignore_ascii_case (drop (length host - 1) host) (codes "*")

abbrev pub is_ascii : Text → Bool
is_ascii [] = true
is_ascii (c ∷ t) = leb c 127 && is_ascii t

length_of_eq : (a b : Text) → eq_ignore_ascii_case a b ≡ true → length a ≡ length b
unfolding eq_ignore_ascii_case
length_of_eq [] [] h = refl
length_of_eq [] (y ∷ b) h = ground arith
length_of_eq (x ∷ a) [] h = ground arith
length_of_eq (x ∷ a) (y ∷ b) h = ground (arith, length_of_eq a b)

eq_comm : (a b : Text) → eq_ignore_ascii_case a b ≡ eq_ignore_ascii_case b a
unfolding eq_ignore_ascii_case
eq_comm [] [] = refl
eq_comm [] (y ∷ b) = refl
eq_comm (x ∷ a) [] = refl
eq_comm (x ∷ a) (y ∷ b) = ground (arith, eq_comm a b)

boundary :
    (t : Text) (i : ℕ)
    → is_ascii t ≡ true
    → is_some_and (get_elem? t i) (λ b. leb 128 b && leb b 191) ≡ false
boundary [] i h = refl
boundary (c ∷ t) zero h = ground arith
boundary (c ∷ t) (suc i) h = boundary t i (ground arith)

drop_dot :
    (t s : Text) (n : ℕ)
    → eq_ignore_ascii_case (drop n t) (b'.' ∷ s)
      ≡ (get_elem? t n == some b'.' && eq_ignore_ascii_case (drop (suc n) t) s)
unfolding eq_ignore_ascii_case to_ascii_lowercase
drop_dot [] s zero = refl
drop_dot [] s (suc n) = refl
drop_dot (c ∷ t) s zero = ground arith
drop_dot (c ∷ t) s (suc n) = drop_dot t s n

is_below_lem :
    (host name : Text)
    → is_below host name ≡ (
        ltb (length name) (length host)
        && get_elem? host (length host - (length name + 1)) == some b'.'
        && eq_ignore_ascii_case (drop (length host - length name) host) name)
is_below_lem [] name = ground arith
is_below_lem (c ∷ host) name = elim (Bool-cases (ltb (length name) (length host))) [
  | inl e ↦
      let at : suc (length host) - (length name + 1) ≡ suc (length host - (length name + 1)) =
        ground arith in
      let from : suc (length host) - length name ≡ suc (length host - length name) = ground arith in
      rw (at, from) (ground (arith, is_below_lem host name, length_of_eq host name))
  | inr e ↦ elim (Bool-cases (length name == length host)) [
    | inl e' ↦
        let at : suc (length host) - (length name + 1) ≡ 0 = ground arith in
        let from : suc (length host) - length name ≡ 1 = ground arith in
        rw (at, from) (ground (arith, is_below_lem host name))
    | inr e' ↦ ground (arith, is_below_lem host name, length_of_eq host name)
  ]
]

-- What the list of hosts without a proxy means for one of its names.
abbrev pub is_exempt : Text → Text → Bool
is_exempt host d =
    eq_ignore_ascii_case host (bare d)
    || is_below host (bare d)
    || (d == codes "*" && not (ends_in_star host))

get_from_lem :
    (host : Text) (n : ℕ)
    → is_ascii host ≡ true
    → get_from host (length host - n) ≡ some (drop (length host - n) host)
unfolding get_from
get_from_lem host n ascii = ground (arith, boundary host (length host - n) ascii)

-- A name that does not begin with a dot.
plain_lem :
    (host d : Text)
    → (if eq_ignore_ascii_case d host
        then true
        else if eq_ignore_ascii_case (drop (length host - length d) host) d
        then get_elem? host (length host - (length d + 1)) == some b'.'
        else d == codes "*")
      ≡ (eq_ignore_ascii_case host d
          || is_below host d
          || (d == codes "*" && not (ends_in_star host)))
plain_lem host d =
    let short : ltb (length d) (length host) ≡ false → drop (length host - length d) host ≡ host =
      λ h.
        (let zeroth : length host - length d ≡ 0 = ground arith in ap (λ n. drop n host) zeroth) in
    let star : (d == codes "*") ≡ true
        → eq_ignore_ascii_case (drop (length host - length d) host) d ≡ ends_in_star host =
      λ h.
        ap (λ t. eq_ignore_ascii_case (drop (length host - length t) host) t)
          ((eq_iff d (codes "*")).0 h) in
    elim (Bool-cases (ltb (length d) (length host))) [
      | inl e ↦ ground (arith, eq_comm d host, is_below_lem host d, star)
      | inr e ↦ ground (
        arith,
        eq_comm d host,
        is_below_lem host d,
        star,
        ap (λ t. eq_ignore_ascii_case t d) (short e),
      )
    ]

-- A name that begins with one.
dotted_lem :
    (host d : Text)
    → (eq_ignore_ascii_case (b'.' ∷ d) host
        || eq_ignore_ascii_case d host
        || eq_ignore_ascii_case (drop (length host - suc (length d)) host) (b'.' ∷ d))
      ≡ (eq_ignore_ascii_case host d || is_below host d)
dotted_lem host d = elim (Bool-cases (ltb (length d) (length host))) [
  | inl e ↦
      let at : suc (length host - (length d + 1)) ≡ length host - length d = ground arith in
      let whole : eq_ignore_ascii_case (b'.' ∷ d) host ≡ true
          → eq_ignore_ascii_case (drop (length host - (length d + 1)) host) (b'.' ∷ d) ≡ true =
        λ h.
          (let zeroth : length host - (length d + 1) ≡ 0 =
              omega (arith, length_of_eq (b'.' ∷ d) host h) in
            ap (λ n. eq_ignore_ascii_case (drop n host) (b'.' ∷ d)) zeroth
            ∙ eq_comm host (b'.' ∷ d)
            ∙ h) in
      let before : length host - suc (length d) ≡ length host - (length d + 1) = omega arith in
      rw before (
        ground (
          arith,
          is_below_lem host d,
          drop_dot host d (length host - (length d + 1)),
          ap (λ n. eq_ignore_ascii_case (drop n host) d) at,
          whole,
          eq_comm d host,
        ))
  | inr e ↦
      let zeroth : length host - suc (length d) ≡ 0 = ground arith in
      rw zeroth (
        ground (
          arith,
          is_below_lem host d,
          length_of_eq host (b'.' ∷ d),
          eq_comm (b'.' ∷ d) host,
          eq_comm d host,
        ))
]

dot_not_star : (d : Text) → ((b'.' ∷ d) == codes "*") ≡ false
unfolding list_beq
dot_not_star d = refl

pub matches_lem : (host d : Text) → is_ascii host ≡ true → matches_domain host d ≡ is_exempt host d
unfolding matches_domain strip_prefix starts_with
matches_lem host [] ascii = rw (get_from_lem host 0 ascii) (ground (arith, plain_lem host []))
matches_lem host (c ∷ d) ascii = elim (Bool-cases (c == b'.')) [
  | inl e ↦
      subst (λ x. matches_domain host (x ∷ d) ≡ is_exempt host (x ∷ d)) (sym ((eq_iff c b'.').0 e))
        (rw (get_from_lem host (suc (length d)) ascii)
          (ground (arith, dotted_lem host d, dot_not_star d)))
  | inr e ↦ rw (get_from_lem host (suc (length d)) ascii) (ground (arith, plain_lem host (c ∷ d)))
]
