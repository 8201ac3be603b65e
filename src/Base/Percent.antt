-- ===== src/Base/Percent.antt =====
-- What src/ext.rs and src/client/multipart.rs use of the crate `percent_encoding`.
use wreq.Base.{ℕ, ◌≡◌, ap, Bool, true, false, ◌&&◌, ◌||◌, not, leb, [], ◌∷◌, arith, is_empty}
use wreq.Base.Eq.{◌==◌, nat_eq}
use wreq.Base.Text.{Text, Free}
pub mod Hex

-- `Cow<'_, str>`, as far as the code tells its cases apart.
pub data Cow : Type 0 where
  borrowed owned : Text → Cow

-- An `AsciiSet`, by its members.
abbrev pub AsciiSet : Type 0
AsciiSet = ℕ → Bool

abbrev pub add : ℕ → AsciiSet → AsciiSet
add c s b = b == c || s b

abbrev pub remove : ℕ → AsciiSet → AsciiSet
remove c s b = not (b == c) && s b

-- Whether an encoded byte is left as it is, a percent sign or a hexadecimal digit in upper case.
abbrev pub is_encoded_byte : AsciiSet → ℕ → Bool
is_encoded_byte s b =
    (not (s b) && leb b 127)
    || b == b'%'
    || (leb b'0' b && leb b b'9')
    || (leb b'A' b && leb b b'F')

abbrev pub all_encoded : AsciiSet → Text → Bool
all_encoded s [] = true
all_encoded s (b ∷ bs) = is_encoded_byte s b && all_encoded s bs

abbrev pub text_of : Cow → Text
text_of (borrowed t) = t
text_of (owned t) = t

-- The crate `percent_encoding`.
pub record Percent : Type 0 where
  pub controls : AsciiSet
  pub non_alphanumeric : AsciiSet
  pub utf8_percent_encode : Text → AsciiSet → Cow
  pub controls-low : (b : ℕ) → leb b 31 ≡ true → controls b ≡ true
  pub non_alphanumeric-low : (b : ℕ) → leb b 47 ≡ true → non_alphanumeric b ≡ true
  pub encode-encoded :
      (t : Text) (s : AsciiSet) → all_encoded s (text_of (utf8_percent_encode t s)) ≡ true
  pub encode-empty :
      (t : Text) (s : AsciiSet) → is_empty (text_of (utf8_percent_encode t s)) ≡ is_empty t

-- A byte of the set that is no part of an encoding is not in what is encoded.
pub all_encoded-Free :
    (s : AsciiSet) (c : ℕ) (t : Text)
    → is_encoded_byte s c ≡ false
    → all_encoded s t ≡ true
    → Free c t
all_encoded-Free s c [] other h = tt
all_encoded-Free s c (x ∷ xs) other h = (
  λ e. ground (arith, ap (λ b. is_encoded_byte s b) e),
  all_encoded-Free s c xs other (ground arith),
)
