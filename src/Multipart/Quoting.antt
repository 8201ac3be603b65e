-- ===== src/Multipart/Quoting.antt =====
-- What a reader makes of the names in the headers of src/client/multipart.rs.
use wreq.Base.{
  ℕ, ◌≡◌, refl, Bool, true, false, ◌||◌, Option, none, some, [], ◌∷◌, ◌++◌, arith, if◌then◌else◌,
}
use wreq.Base.Eq.{◌==◌, nat_eq}
use wreq.Base.Text.{Text, Free}
use wreq.Base.Percent.{Percent, text_of, all_encoded-Free}
use wreq.Multipart.Headers.{
  replace, legal_filename, percent_encode, PercentEncoding, path_segment, attr_char, noop,
  path_segment_encode_set, path_encode_set, fragment_encode_set, attr_char_encode_set,
}

abbrev prepend : ℕ → Option (Text × Text) → Option (Text × Text)
prepend x none = none
prepend x (some (t, behind)) = some (x ∷ t, behind)

-- A reader of a quoted string, from after its first quote or, with `true`, from after a backslash:
-- the string, and what stands behind its last quote. A carriage return or a line feed ends the header,
-- so it is refused where no backslash stands before it.
abbrev pub read_quoted : Bool → Text → Option (Text × Text)
read_quoted escaped [] = none
read_quoted true (x ∷ xs) = prepend x (read_quoted false xs)
read_quoted false (x ∷ xs) =
    let plain = prepend x (read_quoted false xs) in
    let after_backslash = read_quoted true xs in
    if x == b'"'
    then some ([], xs)
    else if x == 92
    then after_backslash
    else if x == 13 || x == 10
    then none
    else plain

-- One pass over the text that escapes what the four replacements escape.
escape : Text → Text
escape [] = []
escape (x ∷ xs) =
    if x == 92 || x == b'"' || x == 13 || x == 10 then 92 ∷ x ∷ escape xs else x ∷ escape xs

legal_filename-escape : (t : Text) → legal_filename t ≡ escape t
unfolding legal_filename replace escape
legal_filename-escape [] = refl
legal_filename-escape (x ∷ xs) = ground (arith, legal_filename-escape xs)

escape_read : (t behind : Text) → read_quoted false (escape t ++ (b'"' ∷ behind)) ≡ some (t, behind)
unfolding escape
escape_read [] behind = refl
escape_read (x ∷ xs) behind = ground (arith, escape_read xs behind)

-- The file name of a part is read back as it was given, whatever bytes it has, by a reader that refuses
-- a line break without a backslash before it, and what follows the quoted string in the header is
-- left as it is: no file name ends the string, and none has a bare line break in the header.
pub legal_filename_read :
    (filename behind : Text)
    → read_quoted false (legal_filename filename ++ (b'"' ∷ behind)) ≡ some (filename, behind)
legal_filename_read filename behind =
    rw (legal_filename-escape filename) (escape_read filename behind)

-- Under the two encodings that encode, the name of a part has no line feed, no carriage return and
-- no quote in its header, whatever name was given.
percent_encode-Free :
    (P : Percent) (e : PercentEncoding) (name : Text) (c : ℕ)
    → (c == 10 || c == 13 || c == b'"') ≡ true
    → (elim e [ path_segment ↦ true | attr_char ↦ true | noop ↦ false ]) ≡ true
    → Free c (text_of (percent_encode P e name))
unfolding percent_encode path_segment_encode_set path_encode_set fragment_encode_set
    attr_char_encode_set
percent_encode-Free P path_segment name c breaking h =
    all_encoded-Free (path_segment_encode_set P) c
      (text_of (P.utf8_percent_encode name (path_segment_encode_set P)))
      (ground (arith, P.controls-low c)) (P.encode-encoded name (path_segment_encode_set P))
percent_encode-Free P attr_char name c breaking h =
    all_encoded-Free (attr_char_encode_set P) c
      (text_of (P.utf8_percent_encode name (attr_char_encode_set P)))
      (ground (arith, P.non_alphanumeric-low c)) (P.encode-encoded name (attr_char_encode_set P))
percent_encode-Free P noop name c breaking h = ground arith
