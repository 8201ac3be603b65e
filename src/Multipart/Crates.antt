-- ===== src/Multipart/Crates.antt =====
-- What src/client/multipart.rs takes from others: the bodies of src/client/body.rs.
use wreq.Base.{ℕ, Option, List}
use wreq.Base.Eq.{nat_eq}
use wreq.Base.Text.{Text}
use wreq.Base.Results.{Result}

-- A body: the items of its data stream, and its length where that is known.
pub record Bodies (X : Type 0) : Type 1 where
  pub Body : Type 0
  pub data_stream : Body → List (Result X Text)
  pub content_length : Body → Option ℕ
