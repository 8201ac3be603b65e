-- ===== src/Tls/Tests.antt =====
-- A session cache with numbers for keys and sessions; the sessions from ten on are of TLS 1.3.
use wreq.Base.{
  ℕ, leb, ◌≡◌, refl, Bool, true, false, not, Option, none, some, List, [], ◌∷◌, ◌++◌, keep, any,
  length, if◌then◌else◌, arith,
}
use wreq.Base.Map
use wreq.Base.Eq.{◌==◌, nat_eq}
use wreq.Tls.{new, put, pop, forget, evict, sessions_or_new}
use wreq.Tls.Lru.{LruCache, head?, tail, has_room}
use wreq.Tls.Queues.{sessions}
use wreq.Tls.SingleUse.{
  Call, put_call, pop_call, answers, after, handed_out, handed_out_once, AllFresh,
}
use wreq.Tls.Serving.{served, answers-served}

put_items :
    (s : ℕ) (c : Option ℕ × List ℕ)
    → has_room c.0 (length c.1) ≡ true
    → keep (λ t. not (t == s)) (if has_room c.0 (length c.1) then c.1 else tail c.1) ++ (s ∷ [])
      ≡ keep (λ t. not (t == s)) c.1 ++ (s ∷ [])
put_items s c room = ground arith

abbrev lists : LruCache ℕ
lists = record {
  Cache = Option ℕ × List ℕ;
  items = λ c. c.1;
  cap = λ c. c.0;
  new = λ n. (some n, []);
  unbounded = (none, []);
  put = λ s c. (
    c.0,
    keep (λ t. not (t == s)) (if has_room c.0 (length c.1) then c.1 else tail c.1) ++ (s ∷ []),
  );
  pop_lru = λ c. (head? c.1, (c.0, tail c.1));
  peek_lru = λ c. head? c.1;
  pop = λ s c. (c.0, keep (λ t. not (t == s)) c.1);
  items-new = λ n. refl;
  cap-new = λ n. refl;
  items-unbounded = refl;
  cap-unbounded = refl;
  items-put = put_items;
  cap-put = λ s c. refl;
  pop_lru_head = λ c. refl;
  pop_lru_tail = λ c. refl;
  cap-pop_lru = λ c. refl;
  peek_lru_head = λ c. refl;
  items-pop = λ s c. refl;
  cap-pop = λ s c. refl;
}

abbrev modern : ℕ → Bool
modern s = leb 10 s

abbrev early : List (Call ℕ ℕ)
early = put_call 1 11 ∷ put_call 2 12 ∷ put_call 1 13 ∷ put_call 1 5 ∷ []

abbrev later : List (Call ℕ ℕ)
later = pop_call 1 ∷ pop_call 2 ∷ pop_call 1 ∷ []

early-answers :
    answers lists modern (new lists 2) (early ++ (pop_call 1 ∷ later))
    ≡ none ∷ none ∷ none ∷ none ∷ some 13 ∷ some 5 ∷ some 12 ∷ some 5 ∷ []
unfolding new put pop forget evict sessions_or_new Map.get Map.insert keep Map.remove
early-answers = refl

early-AllFresh : AllFresh lists modern (new lists 2) (early ++ (pop_call 1 ∷ later))
unfolding new put pop forget evict sessions_or_new sessions Map.get Map.insert Map.remove keep any
early-AllFresh =
    (λ j e. refl, (λ j e. ground arith, (λ j e. ground arith, (λ j e. ground arith, tt))))

handed_out_once_example :
    handed_out 13
      (answers lists modern (pop lists modern (after lists modern (new lists 2) early) 1).0 later)
    ≡ false
unfolding new put pop forget evict sessions_or_new Map.get Map.insert keep
handed_out_once_example =
    handed_out_once lists modern 2 early later 1 13 early-AllFresh refl refl refl

answers-served_example :
    answers lists modern (new lists 2) (early ++ (pop_call 1 ∷ later))
    ≡ served modern 2 (λ k. []) (early ++ (pop_call 1 ∷ later))
answers-served_example =
    answers-served lists modern 2 (early ++ (pop_call 1 ∷ later)) early-AllFresh
