-- ===== src/Multipart.antt =====
-- Multipart forms of src/client/multipart.rs. Texts are lists of bytes; a data stream is the list of
-- its items.
pub mod Crates
pub mod Headers
pub mod Boundary
pub mod Length
pub mod Quoting
mod Tests
use wreq.Base.{
  ℕ, ◌+◌, Bool, true, false, Option, none, some, List, [], ◌∷◌, ◌++◌, length, is_empty, is_some,
  if◌then◌else◌,
}
use wreq.Base.Text.{Text, codes}
use wreq.Base.Results.{Result, ok, err}
use Prim.Native.Nat.{◌%◌, ◌^◌}
use wreq.Base.Percent.{Percent}
use Crates.{Bodies}
use Headers.{PartMetadata, PercentEncoding, encode_headers, path_segment}

abbrev pub two_64 : ℕ
two_64 = 2 ^ 64

-- `Part`, with a body of the type `B`.
pub record Part (B : Type 0) : Type 0 where
  pub meta : PartMetadata
  pub value : B
  pub body_length : Option ℕ

pub record Form (B : Type 0) : Type 0 where
  pub boundary : Text
  pub computed_headers : List Text
  pub fields : List (Text × Part B)
  pub percent_encoding : PercentEncoding

abbrev pub with_boundary : {B : Type 0} → Text → Form B
with_boundary boundary = record {
  boundary = boundary;
  computed_headers = [];
  fields = [];
  percent_encoding = path_segment;
}

unfoldable pub part : {B : Type 0} → Text → Part B → Form B → Form B
part name p f = record f { fields = f.fields ++ ((name, p) ∷ []) }

module _ {X : Type 0} (H : Bodies X) (P : Percent) where
  unfoldable pub value_len : Part H.Body → Option ℕ
  value_len p = if is_some p.body_length then p.body_length else H.content_length p.value

  -- `part_stream`
  unfoldable pub part_stream : Form H.Body → Text × Part H.Body → List (Result X Text)
  part_stream f (name, p) =
      ok (codes "--" ++ (f.boundary ++ codes "\r\n"))
      ∷ ok (encode_headers P f.percent_encoding name p.meta ++ codes "\r\n\r\n")
      ∷ (H.data_stream p.value ++ (ok (codes "\r\n") ∷ []))

  -- The `fold` of `into_stream`.
  unfoldable pub chain :
      Form H.Body → List (Result X Text) → List (Text × Part H.Body) → List (Result X Text)
  unfolding part_stream
  chain f memo [] = memo
  chain f memo (field ∷ fields) = chain f (memo ++ part_stream f field) fields

  unfoldable pub last_boundary : Form H.Body → List (Result X Text)
  last_boundary f = ok (codes "--" ++ (f.boundary ++ codes "--\r\n")) ∷ []

  unfoldable pub stream_of : Form H.Body → List (Text × Part H.Body) → List (Result X Text)
  unfolding chain last_boundary part_stream
  stream_of f [] = []
  stream_of f (first ∷ fields) = chain f (part_stream f first) fields ++ last_boundary f

  unfoldable pub into_stream : Form H.Body → List (Result X Text)
  unfolding stream_of
  into_stream f = stream_of f f.fields

  -- The loop of `compute_length`, with the length so far; the second answer is the headers that it
  -- pushed.
  unfoldable pub count : Form H.Body → ℕ → List (Text × Part H.Body) → Option ℕ × List Text
  unfolding value_len
  count f n [] = (some n, [])
  count f n ((name, p) ∷ fields) =
      let header = encode_headers P f.percent_encoding name p.meta in
      let add = λ (v : ℕ). (n + (2 + length f.boundary + 2 + length header + 4 + v + 2)) % two_64 in
      elim (value_len p) [
        | none ↦ (none, [])
        | some v ↦ let rest = count f (add v) fields in (rest.0, header ∷ rest.1)
      ]

  -- The boundary after the last field.
  unfoldable pub count_last : Form H.Body → List (Text × Part H.Body) → Option ℕ → Option ℕ
  count_last f fields none = none
  count_last f [] (some n) = some n
  count_last f (field ∷ fields) (some n) = some ((n + (2 + length f.boundary + 4)) % two_64)

  unfoldable pub compute_length : Form H.Body → Option ℕ × Form H.Body
  unfolding count count_last
  compute_length f =
      let (counted, headers) = count f 0 f.fields in
      (count_last f f.fields counted, record f { computed_headers = f.computed_headers ++ headers })
