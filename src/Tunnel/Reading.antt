-- ===== src/Tunnel/Reading.antt =====
-- The loop of src/conn/proxy/tunnel.rs against one parse of all that the proxy sends.
use wreq.Base.{
  ◌≡◌, ◌≢◌, refl, sym, Bool, true, not, ◌&&◌, none, some, List, [], ◌∷◌, ◌++◌, map, inl, inr, arith,
  is_empty, Option, Option-cases, ◌↔◌, if◌then◌else◌, false, ℕ,
}
use mathlib.Core.List.{append-nil, append_assoc}
use wreq.Base.Eq.{◌==◌, eq_iff, nat_eq}
use wreq.Config.{or}
use wreq.Base.Results.{Result, ok, err}
use wreq.Base.Text.{Text}
use wreq.Tunnel.{
  TunnelError, parse, proxy_auth_required, tunnel_unsuccessful, judge, settle, read_response,
}
use wreq.Tunnel.Crates.{Status, partial, complete}

abbrev pub all_filled : List Text → Bool
all_filled [] = true
all_filled (chunk ∷ chunks) = not (is_empty chunk) && all_filled chunks

abbrev pub concat : List Text → Text
concat [] = []
concat (chunk ∷ chunks) = chunk ++ concat chunks

-- How `tunnel` has to answer a parse of what the proxy sent: with success for a complete response of
-- the code 200 alone, with the matching error for another code, for none and for a parse error. On a
-- partial parse it answers what it answers to the reads that follow, `rest`.
pub data Outcome {E P : Type 0} (rest : Option (Result (TunnelError E P) (Unit {0})))
    : Result P Status → Option (Result (TunnelError E P) (Unit {0})) → Type 0 where
  success : {code : ℕ} → code ≡ 200 → Outcome rest (ok (complete (some code))) (some (ok tt))
  auth_required :
      {code : ℕ}
      → code ≡ 407
      → Outcome rest (ok (complete (some code))) (some (err proxy_auth_required))
  refused :
      {code : ℕ}
      → code ≢ 200
      → code ≢ 407
      → Outcome rest (ok (complete (some code))) (some (err tunnel_unsuccessful))
  no_code : Outcome rest (ok (complete none)) (some (err tunnel_unsuccessful))
  unparsed : {e : P} → Outcome rest (err e) (some (err (parse e)))
  waiting : Outcome rest (ok partial) rest

module _ {P : Type 0} (parser : Text → Result P Status) where
  -- More bytes after those that settled a parse do not change it.
  abbrev pub IsStable : Type 0
  IsStable = (t u : Text) → parser t ≢ ok partial → parser (t ++ u) ≡ parser t

module _ {E P : Type 0} (parser : Text → Result P Status) where
  settle_partial :
      (r : Result P Status) (v : Result (TunnelError E P) (Unit {0}))
      → settle r ≡ some v
      → r ≢ ok partial
  unfolding settle
  settle_partial (err e) v h q = ground arith
  settle_partial (ok partial) v h q = ground arith
  settle_partial (ok (complete code)) v h q = ground arith

  chunks_lem :
      (buf : Text) (chunks : List Text) (reads : List (Result E Text))
      → IsStable parser
      → settle {E = E} (parser buf) ≡ none
      → all_filled chunks ≡ true
      → read_response parser buf (map ok chunks ++ reads)
        ≡ or
            (settle (parser (buf ++ concat chunks)))
            (read_response parser (buf ++ concat chunks) reads)
  unfolding read_response
  chunks_lem buf [] reads stable open_ filled = rw (append-nil buf, open_) refl
  chunks_lem buf ([] ∷ chunks) reads stable open_ filled = ground arith
  chunks_lem buf ((c ∷ cs) ∷ chunks) reads stable open_ filled =
      elim (Option-cases (settle {E = E} (parser (buf ++ (c ∷ cs))))) [
        | inl e ↦
            rw (e, read_response, sym (append_assoc buf (c ∷ cs) (concat chunks)))
              (chunks_lem (buf ++ (c ∷ cs)) chunks reads stable e filled)
        | inr (v, e) ↦
            let same =
              stable (buf ++ (c ∷ cs)) (concat chunks)
                (settle_partial (parser (buf ++ (c ∷ cs))) v e) in
            rw (e, read_response, sym (append_assoc buf (c ∷ cs) (concat chunks)), same, e) refl
      ]

  answer_code-Outcome :
      (code : ℕ) (rest : Option (Result (TunnelError E P) (Unit {0}))) (is_200 is_407 : Bool)
      → (is_200 ≡ true) ↔ (code ≡ 200)
      → (is_407 ≡ true) ↔ (code ≡ 407)
      → Outcome rest (ok (complete (some code))) (
          some (
            if is_200
            then ok tt
            else if is_407
            then err proxy_auth_required
            else err tunnel_unsuccessful))
  answer_code-Outcome code rest true is_407 ok_iff auth_iff = success (ok_iff.0 refl)
  answer_code-Outcome code rest false true ok_iff auth_iff = auth_required (auth_iff.0 refl)
  answer_code-Outcome code rest false false ok_iff auth_iff =
      refused (λ e. ground (arith, ok_iff.1 e)) (λ e. ground (arith, auth_iff.1 e))

  settle-Outcome :
      (r : Result P Status) (rest : Option (Result (TunnelError E P) (Unit {0})))
      → Outcome rest r (or (settle r) rest)
  unfolding settle judge
  settle-Outcome (err e) rest = unparsed
  settle-Outcome (ok partial) rest = waiting
  settle-Outcome (ok (complete none)) rest = no_code
  settle-Outcome (ok (complete (some code))) rest =
      answer_code-Outcome code rest (code == 200) (code == 407) (eq_iff code 200) (eq_iff code 407)

  -- However the bytes that the proxy sends are cut into reads, none of them empty, the loop answers
  -- them as one parse of all of them asks for: with success exactly for a complete response of the
  -- code 200, with `proxy_auth_required` for the code 407, `tunnel_unsuccessful` for another code or
  -- none, and with the error of a parse that fails. While the parse is partial the loop goes on with
  -- the reads that follow. The parser has to keep its answer when more bytes come, and to want more
  -- of no bytes.
  pub read_response-Outcome :
      (chunks : List Text) (reads : List (Result E Text))
      → IsStable parser
      → parser [] ≡ ok partial
      → all_filled chunks ≡ true
      → Outcome
          (read_response parser (concat chunks) reads)
          (parser (concat chunks))
          (read_response parser [] (map ok chunks ++ reads))
  unfolding settle
  read_response-Outcome chunks reads stable empty filled =
      rw (chunks_lem [] chunks reads stable (rw empty refl) filled)
        (settle-Outcome (parser (concat chunks)) (read_response parser (concat chunks) reads))
