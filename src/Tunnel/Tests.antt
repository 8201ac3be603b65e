-- ===== src/Tunnel/Tests.antt =====
-- A parser that reads a code as the sum of two bytes.
use wreq.Base.{ℕ, ◌+◌, refl, some, [], ◌∷◌, ◌++◌, map, arith}
use wreq.Base.Results.{Result, ok}
use wreq.Base.Text.{Text}
use wreq.Tunnel.{read_response}
use wreq.Tunnel.Crates.{Status, partial, complete}
use wreq.Tunnel.Reading.{IsStable, Outcome, read_response-Outcome}

abbrev two_bytes : Text → Result ℕ Status
two_bytes [] = ok partial
two_bytes (a ∷ []) = ok partial
two_bytes (a ∷ b ∷ rest) = ok (complete (some (a + b)))

two_bytes-IsStable : IsStable two_bytes
two_bytes-IsStable [] u h = ground (arith, h refl)
two_bytes-IsStable (a ∷ []) u h = ground (arith, h refl)
two_bytes-IsStable (a ∷ b ∷ t) u h = refl

abbrev early_end : Result ℕ Text
early_end = ok []

read_response-Outcome_example :
    Outcome
      (read_response two_bytes (200 ∷ 207 ∷ 7 ∷ []) (early_end ∷ []))
      (ok (complete (some 407)))
      (read_response two_bytes [] (map ok ((200 ∷ []) ∷ (207 ∷ 7 ∷ []) ∷ []) ++ (early_end ∷ [])))
read_response-Outcome_example =
    read_response-Outcome two_bytes ((200 ∷ []) ∷ (207 ∷ 7 ∷ []) ∷ []) (early_end ∷ [])
      two_bytes-IsStable refl refl
