-- ===== src/Multipart/Tests.antt =====
-- Bodies that are one chunk.
use wreq.Base.{ℕ, ◌≡◌, true, false, none, some, [], ◌∷◌, ◌++◌, length, arith}
use wreq.Base.Eq.{nat_eq}
use wreq.Base.Text.{Text, codes}
use wreq.Base.Results.{ok}
use wreq.Multipart.{Form, Part, with_boundary, compute_length, into_stream, value_len}
use wreq.Base.Percent.Hex.{percent}
use wreq.Multipart.Crates.{Bodies}
use wreq.Multipart.Headers.{legal_filename, encode_headers}
use wreq.Multipart.Boundary.{gen_boundary, all_legal, gen_boundary-legal}
use wreq.Multipart.Length.{IsExact, compute_length-into_stream}
use wreq.Multipart.Quoting.{read_quoted, legal_filename_read}

abbrev chunks : Bodies ℕ
chunks = record { Body = Text; data_stream = λ b. ok b ∷ []; content_length = λ b. some (length b) }

abbrev plain_part : Text → Part Text
plain_part t = record {
  meta = record { mime = none; file_name = none; headers = [] };
  value = t;
  body_length = none;
}

abbrev form : Form Text
form = with_boundary (codes "b")

abbrev sent : Form Text
sent = record form { fields = (codes "k", plain_part (codes "hello")) ∷ [] }

sent-IsExact : IsExact chunks percent sent.fields
unfolding value_len
sent-IsExact = ((λ v e. ground arith), tt)

compute_length-into_stream_example : (compute_length chunks percent sent).0 ≡ some 69
unfolding compute_length into_stream encode_headers
compute_length-into_stream_example = compute_length-into_stream chunks percent sent sent-IsExact

legal_filename_read_example :
    read_quoted false (legal_filename (codes "a\"; x=\"\r\nY: z") ++ (34 ∷ codes "; c"))
    ≡ some (codes "a\"; x=\"\r\nY: z", codes "; c")
legal_filename_read_example = legal_filename_read (codes "a\"; x=\"\r\nY: z") (codes "; c")

gen_boundary-legal_example :
    (t : Text) × (gen_boundary 123456789012345 987654321 ≡ some t)
    × (length t ≡ 38)
    × (all_legal t ≡ true)
gen_boundary-legal_example = gen_boundary-legal 123456789012345 987654321
