-- ===== src/Base/Results.antt =====
-- `Result` and `Poll`.

pub data Result (X A : Type 0) : Type 0 where
  ok : A → Result X A
  err : X → Result X A

-- `Pending` is spelled `waiting`.
pub data Poll (A : Type 0) : Type 0 where
  waiting : Poll A
  ready : A → Poll A
