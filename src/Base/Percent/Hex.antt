-- ===== src/Base/Percent/Hex.antt =====
-- An encoder that has the laws of `percent_encoding`.
use wreq.Base.{
  ℕ, ◌+◌, leb, ◌≡◌, refl, Bool, true, not, ◌&&◌, ◌||◌, [], ◌∷◌, is_empty, arith, if◌then◌else◌,
}
use wreq.Base.Eq.{◌==◌, nat_eq}
use wreq.Base.Text.{Text}
use Prim.Native.Nat.{◌%◌, ◌/◌}
use wreq.Base.Percent.{Percent, AsciiSet, owned, all_encoded, is_encoded_byte}

abbrev hex : ℕ → ℕ
hex d = if leb d 9 then 48 + d else 55 + d

hex-encoded : (s : AsciiSet) (d : ℕ) → leb d 15 ≡ true → is_encoded_byte s (hex d) ≡ true
hex-encoded s d h = ground arith

abbrev encode : Text → AsciiSet → Text
encode [] s = []
encode (x ∷ xs) s =
    if s x || leb 128 x
    then 37 ∷ hex (x / 16 % 16) ∷ hex (x % 16) ∷ encode xs s
    else x ∷ encode xs s

pub encode-encoded : (t : Text) (s : AsciiSet) → all_encoded s (encode t s) ≡ true
encode-encoded [] s = refl
encode-encoded (x ∷ xs) s =
    ground (arith, encode-encoded xs s, hex-encoded s (x / 16 % 16), hex-encoded s (x % 16))

pub controls-low : (b : ℕ) → leb b 31 ≡ true → (leb b 31 || b == 127) ≡ true
controls-low b h = ground arith

abbrev is_alphanumeric : ℕ → Bool
is_alphanumeric b = (leb 48 b && leb b 57) || (leb 65 b && leb b 90) || (leb 97 b && leb b 122)

pub low-not : (b : ℕ) → leb b 47 ≡ true → not (is_alphanumeric b) ≡ true
low-not b h = ground arith

pub encode-empty : (t : Text) (s : AsciiSet) → is_empty (encode t s) ≡ is_empty t
encode-empty [] s = refl
encode-empty (c ∷ cs) s = ground arith

abbrev pub percent : Percent
percent = record {
  controls = λ b. leb b 31 || b == 127;
  non_alphanumeric = λ b. not (is_alphanumeric b);
  utf8_percent_encode = λ t s. owned (encode t s);
  controls-low = controls-low;
  non_alphanumeric-low = low-not;
  encode-encoded = encode-encoded;
  encode-empty = encode-empty;
}
