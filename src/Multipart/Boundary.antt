-- ===== src/Multipart/Boundary.antt =====
-- `gen_boundary` of src/client/multipart.rs, for two random numbers of 64 bits.
use wreq.Base.{
  ℕ, suc, zero, ◌<◌, leb, ◌≡◌, refl, Bool, true, ◌&&◌, ◌||◌, Option, none, some, [], ◌∷◌, ◌++◌,
  length, length-append, get_elem?, arith, if◌then◌else◌,
}
use wreq.Base.Eq.{◌==◌, nat_eq}
use wreq.Base.Text.{Text, codes}
use Prim.Native.Nat.{◌%◌, ◌/◌}

abbrev pub alpha_numeric_encoding_map : Text
alpha_numeric_encoding_map =
    codes "ABCDEFGHIJKLMNOPQRSTUVWXYZabcdefghijklmnopqrstuvwxyz0123456789AB"

-- The inner loop: an index out of range would panic.
unfoldable pub draw : ℕ → ℕ → Option Text
draw zero randomness = some []
draw (suc n) randomness =
    let rest = draw n (randomness / 64) in
    elim (get_elem? alpha_numeric_encoding_map (randomness % 64)) [
      | none ↦ none
      | some c ↦ elim rest [ none ↦ none | some cs ↦ some (c ∷ cs) ]
    ]

unfoldable pub gen_boundary : ℕ → ℕ → Option Text
unfolding draw
gen_boundary first second = elim (draw 8 first) [
  | none ↦ none
  | some xs ↦ elim (draw 8 second) [
    | none ↦ none
    | some ys ↦
        let boundary = codes "----WebKitFormBoundary" ++ (xs ++ ys) in
        if length boundary == 38 then some boundary else none
  ]
]

abbrev pub is_legal : ℕ → Bool
is_legal c =
    (leb b'A' c && leb c b'Z')
    || (leb b'a' c && leb c b'z')
    || (leb b'0' c && leb c b'9')
    || c == b'-'

abbrev pub all_legal : Text → Bool
all_legal [] = true
all_legal (c ∷ cs) = is_legal c && all_legal cs

all_legal-append : (xs ys : Text) → all_legal (xs ++ ys) ≡ (all_legal xs && all_legal ys)
all_legal-append [] ys = refl
all_legal-append (x ∷ xs) ys = ground (arith, all_legal-append xs ys)

all_legal-get_elem? :
    (t : Text) (i : ℕ)
    → all_legal t ≡ true
    → i < length t
    → (c : ℕ) × (get_elem? t i ≡ some c) × (is_legal c ≡ true)
all_legal-get_elem? [] i h small = (0, ground arith, ground arith)
all_legal-get_elem? (x ∷ xs) zero h small = (x, refl, ground arith)
all_legal-get_elem? (x ∷ xs) (suc i) h small =
    all_legal-get_elem? xs i (ground arith) (omega (arith, small))

draw-legal :
    (n randomness : ℕ)
    → (t : Text) × (draw n randomness ≡ some t) × (length t ≡ n) × (all_legal t ≡ true)
unfolding draw
draw-legal zero randomness = ([], refl, refl, refl)
draw-legal (suc n) randomness =
    let (c, drawn, legal) =
      all_legal-get_elem? alpha_numeric_encoding_map (randomness % 64) refl (omega arith) in
    let (t, rest, count, legal') = draw-legal n (randomness / 64) in
    let draws : draw (suc n) randomness ≡ some (c ∷ t) = rw (drawn, rest, draw) refl in
    (c ∷ t, draws, omega (arith, count), ground arith)

-- For any two random numbers a boundary is generated, with no index out of range and the assertion
-- on its length met: 38 bytes, each of them an ASCII letter, a digit or a hyphen.
pub gen_boundary-legal :
    (first second : ℕ)
    → (t : Text) × (gen_boundary first second ≡ some t) × (length t ≡ 38) × (all_legal t ≡ true)
unfolding gen_boundary
gen_boundary-legal first second =
    let (xs, drawn, count, legal) = draw-legal 8 first in
    let (ys, drawn', count', legal') = draw-legal 8 second in
    let boundary = codes "----WebKitFormBoundary" ++ (xs ++ ys) in
    let n : length boundary ≡ 38 = omega (arith, length-append xs ys, count, count') in
    let made : gen_boundary first second ≡ some boundary =
      rw (drawn, drawn', gen_boundary) (rw n refl) in
    (boundary, made, n, ground (arith, all_legal-append xs ys))
