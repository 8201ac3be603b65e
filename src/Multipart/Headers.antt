-- ===== src/Multipart/Headers.antt =====
-- The headers of a part, of src/client/multipart.rs.
use wreq.Base.{ℕ, Option, none, some, List, [], ◌∷◌, ◌++◌, if◌then◌else◌}
use wreq.Base.Eq.{◌==◌, nat_eq}
use wreq.Base.Text.{Text, codes}
use wreq.Base.Percent.{Percent, AsciiSet, add, remove, Cow, borrowed, owned}

pub record PartMetadata : Type 0 where
  pub mime : Option Text
  pub file_name : Option Text
  pub headers : List (Text × Text)

pub data PercentEncoding : Type 0 where
  path_segment attr_char noop : PercentEncoding

-- `str::replace` of one character.
unfoldable pub replace : ℕ → Text → Text → Text
replace c t [] = []
replace c t (x ∷ xs) = if x == c then t ++ replace c t xs else x ∷ replace c t xs

unfoldable pub legal_filename : Text → Text
unfolding replace
legal_filename filename =
    replace 10 (92 ∷ 10 ∷ []) (
      replace 13 (92 ∷ 13 ∷ [])
        (replace b'"' (92 ∷ b'"' ∷ []) (replace 92 (92 ∷ 92 ∷ []) filename)))

unfoldable pub header_lines : List (Text × Text) → Text
header_lines [] = []
header_lines ((k, v) ∷ hs) = codes "\r\n" ++ (k ++ (codes ": " ++ (v ++ header_lines hs)))

module _ (P : Percent) where
  unfoldable pub fragment_encode_set : AsciiSet
  fragment_encode_set = add b'`' (add b'>' (add b'<' (add b'"' (add b' ' P.controls))))

  unfoldable pub path_encode_set : AsciiSet
  unfolding fragment_encode_set
  path_encode_set = add b'}' (add b'{' (add b'?' (add b'#' fragment_encode_set)))

  unfoldable pub path_segment_encode_set : AsciiSet
  unfolding path_encode_set
  path_segment_encode_set = add b'%' (add b'/' path_encode_set)

  unfoldable pub attr_char_encode_set : AsciiSet
  attr_char_encode_set = remove b'~' (
      remove b'|' (
        remove b'`' (
          remove b'_' (
            remove b'^' (
              remove b'.' (
                remove b'-' (
                  remove b'+' (
                    remove b'&' (remove b'$' (remove b'#' (remove b'!' P.non_alphanumeric)))))))))))

  unfoldable pub percent_encode : PercentEncoding → Text → Cow
  unfolding path_segment_encode_set attr_char_encode_set
  percent_encode path_segment value = P.utf8_percent_encode value path_segment_encode_set
  percent_encode attr_char value = P.utf8_percent_encode value attr_char_encode_set
  percent_encode noop value = borrowed value

  unfoldable pub name_of : Cow → Text
  name_of (borrowed value) = codes "name=\"" ++ (value ++ codes "\"")
  name_of (owned value) = codes "name*=utf-8''" ++ value

  unfoldable pub encode_headers : PercentEncoding → Text → PartMetadata → Text
  unfolding percent_encode name_of legal_filename header_lines
  encode_headers e name field =
      codes "Content-Disposition: form-data; "
      ++ (name_of (percent_encode e name)
          ++ (elim field.file_name [
            | some filename ↦ codes "; filename=\"" ++ (legal_filename filename ++ codes "\"")
            | none ↦ []
          ]
              ++ (elim field.mime [ some mime ↦ codes "\r\nContent-Type: " ++ mime | none ↦ [] ]
                  ++ header_lines field.headers)))
