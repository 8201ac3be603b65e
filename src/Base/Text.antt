-- ===== src/Base/Text.antt =====
-- Texts as lists of bytes, with the methods of `str` that the program calls.
use Prim.Native.Nat.{ℕ, zero, suc, ◌+◌, ◌-◌}
use Prim.Native.Char.{code}
use Prim.Native.String.{String}
use mathlib.Core.Path.{◌≡◌, refl, ap, sym, ◌∙◌}
use mathlib.Core.Logic.{◌↔◌, ◌≢◌, inl, inr}
use mathlib.Core.Bool.{Bool, true, false, ◌&&◌}
use mathlib.Core.Option.{Option, none, some}
use mathlib.Core.List.{List, [], ◌∷◌, ◌++◌}
use native.Mathlib.Omega.{arith}
use wreq.Base.Tests.{leb, nat_beq, if◌then◌else◌, Option-cases}
use wreq.Base.Eq.{◌==◌, nat_eq, list_eq, list_beq_iff}
use wreq.Base.Lists.{length, drop, get_elem?, length-append}

abbrev pub Text : Type 0
Text = List ℕ

-- The bytes of an ASCII literal.
abbrev pub codes : String → Text
codes String.[] = []
codes (String.◌∷◌ c s) = code c ∷ codes s

abbrev pub take {ℓ} : {A : Type ℓ} → ℕ → List A → List A
take zero xs = []
take (suc n) [] = []
take (suc n) (x ∷ xs) = x ∷ take n xs

unfoldable pub starts_with : Text → Text → Bool
starts_with xs [] = true
starts_with [] (p ∷ ps) = false
starts_with (x ∷ xs) (p ∷ ps) = nat_beq x p && starts_with xs ps

unfoldable pub ends_with : Text → Text → Bool
ends_with xs s = leb (length s) (length xs) && (drop (length xs - length s) xs == s)

-- The position of the last occurrence of a byte.
unfoldable pub rfind : ℕ → Text → Option ℕ
rfind c [] = none
rfind c (x ∷ xs) = elim (rfind c xs) [
  | some i ↦ some (suc i)
  | none ↦ if nat_beq x c then some 0 else none
]

-- One letter of `eq_ignore_ascii_case`.
unfoldable pub to_ascii_lowercase : ℕ → ℕ
to_ascii_lowercase c = if leb b'A' c && leb c b'Z' then c + 32 else c

unfoldable pub eq_ignore_ascii_case : Text → Text → Bool
unfolding to_ascii_lowercase
eq_ignore_ascii_case [] [] = true
eq_ignore_ascii_case [] (y ∷ ys) = false
eq_ignore_ascii_case (x ∷ xs) [] = false
eq_ignore_ascii_case (x ∷ xs) (y ∷ ys) =
    nat_beq (to_ascii_lowercase x) (to_ascii_lowercase y) && eq_ignore_ascii_case xs ys

pub take-append-drop {ℓ} : {A : Type ℓ} (n : ℕ) (xs : List A) → take n xs ++ drop n xs ≡ xs
take-append-drop zero xs = refl
take-append-drop (suc n) [] = refl
take-append-drop (suc n) (x ∷ xs) = rw (take-append-drop n xs)

pub drop-append_length {ℓ} : {A : Type ℓ} (xs ys : List A) → drop (length xs) (xs ++ ys) ≡ ys
drop-append_length [] ys = refl
drop-append_length (x ∷ xs) ys = drop-append_length xs ys

-- A byte that stands in a text splits it.
pub split_at_elem :
    (xs : Text) (i : ℕ) (c : ℕ) → get_elem? xs i ≡ some c → xs ≡ take i xs ++ (c ∷ drop (suc i) xs)
split_at_elem [] i c h = cc
split_at_elem (x ∷ xs) zero c h = ground arith
split_at_elem (x ∷ xs) (suc i) c h = ap (◌∷◌ x) (split_at_elem xs i c h)

pub get_elem?-append_length :
    (xs ys : Text) (c : ℕ) → get_elem? (xs ++ (c ∷ ys)) (length xs) ≡ some c
get_elem?-append_length [] ys c = refl
get_elem?-append_length (x ∷ xs) ys c = get_elem?-append_length xs ys c

pub starts_with_append : (p r : Text) → starts_with (p ++ r) p ≡ true
unfolding starts_with
starts_with_append [] r = refl
starts_with_append (x ∷ p) r = ground (arith, starts_with_append p r)

pub append_of_starts_with : (xs p : Text) → starts_with xs p ≡ true → xs ≡ p ++ drop (length p) xs
unfolding starts_with
append_of_starts_with xs [] h = refl
append_of_starts_with [] (p ∷ ps) h = cc
append_of_starts_with (x ∷ xs) (p ∷ ps) h = ground (arith, append_of_starts_with xs ps)

pub ends_with_iff : (xs s : Text) → (ends_with xs s ≡ true) ↔ ((p : Text) × (xs ≡ p ++ s))
unfolding ends_with
ends_with_iff xs s = (
  λ h. (
    take (length xs - length s) xs,
    sym (take-append-drop (length xs - length s) xs)
        ∙ ap (λ t. take (length xs - length s) xs ++ t)
            ((list_beq_iff (drop (length xs - length s) xs) s).0 (ground arith)),
  ),
  λ r. let (p, e) = r in rw e (suffix p),
)
  where
    suffix :
        (p : Text)
        → (leb (length s) (length (p ++ s)) && (drop (length (p ++ s) - length s) (p ++ s) == s))
          ≡ true
    suffix p =
        let n : length (p ++ s) - length s ≡ length p = omega (arith, length-append p s) in
        rw (n, drop-append_length p s) (ground (arith, length-append p s, list_beq_iff s s))

-- The last occurrence: the byte stands there, and not after.
abbrev pub Free : ℕ → Text → Type 0
Free c [] = Unit {0}
Free c (x ∷ xs) = (x ≢ c) × Free c xs

pub rfind-Free : (c : ℕ) (xs : Text) → rfind c xs ≡ none → Free c xs
unfolding rfind
rfind-Free c [] h = tt
rfind-Free c (x ∷ xs) h = ground (arith, rfind-Free c xs)

pub rfind-some :
    (c : ℕ) (xs : Text) (i : ℕ)
    → rfind c xs ≡ some i
    → (r : Text) × (xs ≡ take i xs ++ (c ∷ r)) × Free c r
unfolding rfind
rfind-some c [] i h = cc
rfind-some c (x ∷ xs) i h = elim (Option-cases (rfind c xs)) [
  | inl e ↦ (xs, ground arith, rfind-Free c xs e)
  | inr (j, e) ↦
      let (r, q, f) = rfind-some c xs j e in
      let at : i ≡ suc j = ground arith in (r, rw at (ap (◌∷◌ x) q), f)
]
