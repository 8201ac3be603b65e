-- ===== src/Multipart/Length.antt =====
-- The length that `compute_length` of src/client/multipart.rs gives, against the stream.
use wreq.Base.{
  ℕ, ◌+◌, ◌<◌, ◌≡◌, refl, ap, ◌∙◌, Bool, true, ◌&&◌, none, some, List, [], ◌∷◌, ◌++◌, inl, inr,
  arith, length, length-append, is_some, if◌then◌else◌, Bool-cases, Option-cases,
}
use wreq.Base.Text.{Text, codes}
use wreq.Base.Results.{Result, ok, err}
use Prim.Native.Nat.{◌%◌}
use wreq.Multipart.{
  Form, Part, two_64, value_len, part_stream, chain, last_boundary, into_stream, stream_of, count,
  count_last, compute_length,
}
use wreq.Base.Percent.{Percent}
use wreq.Multipart.Crates.{Bodies}
use wreq.Multipart.Headers.{encode_headers}

-- The bytes that a stream carries.
abbrev pub bytes : {X : Type 0} → List (Result X Text) → ℕ
bytes [] = 0
bytes (ok t ∷ items) = length t + bytes items
bytes (err x ∷ items) = bytes items

bytes-append : {X : Type 0} (xs ys : List (Result X Text)) → bytes (xs ++ ys) ≡ bytes xs + bytes ys
bytes-append [] ys = omega arith
bytes-append (ok t ∷ xs) ys = omega (arith, bytes-append xs ys)
bytes-append (err x ∷ xs) ys = bytes-append xs ys

wrap_lem : (n a b : ℕ) → ((n + a) % two_64 + b) % two_64 ≡ (n + (a + b)) % two_64
wrap_lem n a b = omega arith

module _ {X : Type 0} (H : Bodies X) (P : Percent) where
  -- The length of a part's value, where it is known, is the number of bytes of its stream.
  abbrev pub IsExact : List (Text × Part H.Body) → Type 0
  IsExact [] = Unit {0}
  IsExact ((name, p) ∷ fields) =
      ((v : ℕ) → value_len H P p ≡ some v → bytes (H.data_stream p.value) ≡ v) × IsExact fields

  abbrev pub all_known : List (Text × Part H.Body) → Bool
  all_known [] = true
  all_known ((name, p) ∷ fields) = is_some (value_len H P p) && all_known fields

  total : Form H.Body → List (Text × Part H.Body) → ℕ
  total f [] = 0
  total f (field ∷ fields) = bytes (part_stream H P f field) + total f fields

  part_stream-bytes :
      (f : Form H.Body) (name : Text) (p : Part H.Body)
      → bytes (part_stream H P f (name, p))
        ≡ 2
          + length f.boundary
          + 2
          + length (encode_headers P f.percent_encoding name p.meta)
          + 4
          + bytes (H.data_stream p.value)
          + 2
  unfolding part_stream
  part_stream-bytes f name p = omega (
    arith,
    bytes-append (H.data_stream p.value) (ok (codes "\r\n") ∷ []),
    length-append f.boundary (codes "\r\n"),
    length-append (encode_headers P f.percent_encoding name p.meta) (codes "\r\n\r\n"),
  )

  chain-bytes :
      (f : Form H.Body) (memo : List (Result X Text)) (fields : List (Text × Part H.Body))
      → bytes (chain H P f memo fields) ≡ bytes memo + total f fields
  unfolding chain total
  chain-bytes f memo [] = omega arith
  chain-bytes f memo (field ∷ fields) = omega (
    arith,
    chain-bytes f (memo ++ part_stream H P f field) fields,
    bytes-append memo (part_stream H P f field),
  )

  count_lem :
      (f : Form H.Body) (n : ℕ) (fields : List (Text × Part H.Body))
      → n < two_64
      → IsExact fields
      → (count H P f n fields).0
        ≡ (if all_known fields then some ((n + total f fields) % two_64) else none)
  unfolding count total
  count_lem f n [] small exact = ap some (omega (arith, small))
  count_lem f n ((name, p) ∷ fields) small exact = elim (Option-cases (value_len H P p)) [
    | inl e ↦ rw (e, count) refl
    | inr (v, e) ↦
        let a =
          2
          + length f.boundary
          + 2
          + length (encode_headers P f.percent_encoding name p.meta)
          + 4
          + v
          + 2 in
        let rest = count_lem f ((n + a) % two_64) fields (omega arith) exact.1 in
        rw (e, count)
          (rw rest (elim (Bool-cases (all_known fields)) [
            | inr e' ↦ rw e' refl
            | inl e' ↦ rw e' (ap some (omega (arith, part_stream-bytes f name p, exact.0 v e)))
          ]))
  ]

  last_lem :
      (f : Form H.Body) (fields : List (Text × Part H.Body))
      → count_last H P f fields
          (if all_known fields then some ((0 + total f fields) % two_64) else none)
        ≡ (if all_known fields then some (bytes (stream_of H P f fields) % two_64) else none)
  unfolding count_last stream_of last_boundary total
  last_lem f [] = refl
  last_lem f (first ∷ fields) = elim (Bool-cases (all_known (first ∷ fields))) [
    | inr e ↦ rw (e, count_last) refl
    | inl e ↦
        rw (e, count_last)
          (ap some (
            omega (
              arith,
              chain-bytes f (part_stream H P f first) fields,
              length-append f.boundary (codes "--\r\n"),
              bytes-append (chain H P f (part_stream H P f first) fields) (last_boundary H P f),
            )))
  ]

  -- Where each part's known length is the number of bytes that its stream yields, the computed length
  -- of a form is the number of bytes of the form's whole stream, boundaries and headers included,
  -- modulo 2 ^ 64, and is given exactly when the length of every part is known.
  pub compute_length-into_stream :
      (f : Form H.Body)
      → IsExact f.fields
      → (compute_length H P f).0
        ≡ (if all_known f.fields then some (bytes (into_stream H P f) % two_64) else none)
  unfolding compute_length into_stream
  compute_length-into_stream f exact =
      ap (count_last H P f f.fields) (count_lem f 0 f.fields (omega arith) exact)
      ∙ last_lem f f.fields
