-- ===== src/Tls/Serving.antt =====
-- The cache of src/tls/session.rs against one bounded queue of sessions for each key.
use wreq.Base.{
  ℕ, ◌≤◌, ◌≡◌, refl, ap, sym, ◌∙◌, fun_ext, inl, inr, Bool, true, false, ◌&&◌, Option, none, some,
  List, [], ◌∷◌, arith, any, keep, max, length, if◌then◌else◌, Option-cases, Bool-cases,
}
use wreq.Base.Eq.{Eq, ◌==◌, option_eq, nat_eq, eq_iff}
use wreq.Base.Map
use wreq.Tls.{Inner, new, put, forget, pop}
use wreq.Tls.Lru.{LruCache, head?, tail}
use wreq.Tls.Queues.{sessions, enqueue, sessions-put, AllSized, put-AllSized, bound_of}
use wreq.Tls.Distinct.{has, without, IsDistinct}
use wreq.Tls.Linked.{IsLinked, put-IsLinked, forget-sessions, forget-AllSized}
use wreq.Tls.SingleUse.{
  Call, put_call, pop_call, answers, after, AllFresh, use_up, pop_use_up, pop_head, pop-IsLinked,
  new-IsLinked,
}

module _ {S : Type 0} ⦃es : Eq S⦄ where
  without-absent : (s : S) (q : List S) → has q s ≡ false → without s q ≡ q
  unfolding any keep
  without-absent s [] h = refl
  without-absent s (x ∷ q) h = ground (arith, without-absent s q)

  without-head : (s : S) (q : List S) → IsDistinct q → head? q ≡ some s → without s q ≡ tail q
  unfolding keep
  without-head s [] d h = refl
  without-head s (x ∷ q) d h = ground (arith, without-absent s q, eq_iff x s, ap (has q))

  head_of : (s : S) (q : List S) → head? q ≡ some s → has q s ≡ true
  unfolding any
  head_of s [] h = ground arith
  head_of s (x ∷ q) h = ground (arith, eq_iff x s)

module _ {K S : Type 0} ⦃ek : Eq K⦄ ⦃es : Eq S⦄ (is_tls13 : S → Bool) where
  -- A session of TLS 1.3 leaves the queue of the key that it was handed out for.
  unfoldable pub dequeue : Option S → K → (K → List S) → K → List S
  dequeue none k q j = q j
  dequeue (some s) k q j = if is_tls13 s && k == j then tail (q j) else q j

  -- The queues after a call, and the answer: `put` enqueues the session at its key; `pop` answers
  -- the first session of the key, and dequeues it when it is one of TLS 1.3.
  unfoldable pub serve : ℕ → (K → List S) → Call K S → (K → List S) × Option S
  serve n q (put_call k s) = (λ j. if k == j then enqueue n s (q k) else q j, none)
  serve n q (pop_call k) = (dequeue (head? (q k)) k q, head? (q k))

  unfoldable pub served : ℕ → (K → List S) → List (Call K S) → List (Option S)
  served n q [] = []
  served n q (c ∷ calls) = (serve n q c).1 ∷ served n (serve n q c).0 calls

module _ {K S : Type 0} ⦃ek : Eq K⦄ ⦃es : Eq S⦄ (L : LruCache S) (is_tls13 : S → Bool) where
  sessions-use_up :
      (o : Option S) (i : Inner K L) (k j : K)
      → IsLinked L i
      → head? (sessions L i k) ≡ o
      → sessions L (use_up L is_tls13 o i) j ≡ dequeue is_tls13 o k (sessions L i) j
  unfolding dequeue use_up
  sessions-use_up none i k j l e = refl
  sessions-use_up (some s) i k j l e = elim (Bool-cases (is_tls13 s)) [
    | inr e' ↦ rw e' refl
    | inl e' ↦
        let named =
          (eq_iff (Map.get s i.reverse) (some k)).0
            (sym (l.linked k s) ∙ head_of s (sessions L i k) e) in
        rw (e', forget-sessions L i s j, named)
          (elim (Bool-cases (k == j)) [
            | inl e'' ↦ rw e'' (
                without-head s (sessions L i j) (l.distinct j)
                  (ap (λ u. head? (sessions L i u)) (sym ((eq_iff k j).0 e'')) ∙ e))
            | inr e'' ↦ rw e'' refl
          ])
  ]

  sessions-pop :
      (i : Inner K L) (k j : K)
      → IsLinked L i
      → sessions L (pop L is_tls13 i k).0 j
        ≡ dequeue is_tls13 (head? (sessions L i k)) k (sessions L i) j
  sessions-pop i k j l =
      rw (pop_use_up L is_tls13 i k, pop_head L is_tls13 i k)
        (sessions-use_up (head? (sessions L i k)) i k j l refl)

  put-capacity :
      (i : Inner K L) (k : K) (s : S)
      → (put L i k s).per_host_session_capacity ≡ i.per_host_session_capacity
  unfolding put
  put-capacity i k s = refl

  forget-capacity :
      (i : Inner K L) (s : S)
      → (forget L i s).per_host_session_capacity ≡ i.per_host_session_capacity
  unfolding forget
  forget-capacity i s = elim (Option-cases (Map.get s i.reverse)) [
    | inl e ↦ rw (e, forget) refl
    | inr (k, e) ↦ elim (Option-cases (Map.get k i.per_host_sessions)) [
      | inl e' ↦ rw (e, e', forget) refl
      | inr (c, e') ↦ rw (e, e', forget) refl
    ]
  ]

  use_up-capacity :
      (o : Option S) (i : Inner K L)
      → (use_up L is_tls13 o i).per_host_session_capacity ≡ i.per_host_session_capacity
  unfolding use_up
  use_up-capacity none i = refl
  use_up-capacity (some s) i = ground (arith, forget-capacity i s)

  pop-capacity :
      (i : Inner K L) (k : K)
      → (pop L is_tls13 i k).0.per_host_session_capacity ≡ i.per_host_session_capacity
  pop-capacity i k =
      ap (λ o. o.per_host_session_capacity) (pop_use_up L is_tls13 i k)
      ∙ use_up-capacity (pop L is_tls13 i k).1 i

  use_up-AllSized :
      (o : Option S) (i : Inner K L) → AllSized L i → AllSized L (use_up L is_tls13 o i)
  unfolding use_up
  use_up-AllSized none i sized = sized
  use_up-AllSized (some s) i sized = elim (Bool-cases (is_tls13 s)) [
    | inl e ↦ rw e (forget-AllSized L i s sized)
    | inr e ↦ rw e sized
  ]

  serving_lem :
      (n : ℕ) (i : Inner K L) (q : K → List S) (calls : List (Call K S))
      → IsLinked L i
      → AllFresh L is_tls13 i calls
      → i.per_host_session_capacity ≡ n
      → sessions L i ≡ q
      → answers L is_tls13 i calls ≡ served is_tls13 n q calls
  unfolding served serve
  serving_lem n i q [] l fresh cap same = refl
  serving_lem n i q (put_call k s ∷ calls) l fresh cap same =
      ap (λ os. none ∷ os)
        (serving_lem n (put L i k s) (serve is_tls13 n q (put_call k s)).0 calls
          (put-IsLinked L i k s l fresh.0) fresh.1 (put-capacity i k s ∙ cap)
          (fun_ext (λ j. rw (sym same, sym cap) (sessions-put L i k j s l.sized))))
  serving_lem n i q (pop_call k ∷ calls) l fresh cap same =
      let rest =
        serving_lem n (pop L is_tls13 i k).0 (serve is_tls13 n q (pop_call k)).0 calls
          (pop-IsLinked L is_tls13 i k l) fresh (pop-capacity i k ∙ cap)
          (fun_ext (λ j. sessions-pop i k j l ∙ rw same refl)) in
      rw (rest, pop_head L is_tls13 i k, same) refl

  -- From an empty cache, any history of calls whose puts each bring a session that no other key has
  -- at that moment is answered the way one queue per key answers it: a put moves its session to the
  -- end of its key's queue, dropping the first one when the queue is full, a pop answers the first
  -- session of its key, and takes it out of the queue when it is one of TLS 1.3.
  pub answers-served :
      (n : ℕ) (calls : List (Call K S))
      → AllFresh L is_tls13 (new L n) calls
      → answers L is_tls13 (new L n) calls ≡ served is_tls13 n (λ k. []) calls
  unfolding new sessions Map.get
  answers-served n calls fresh =
      serving_lem n (new L n) (λ k. []) calls (new-IsLinked L is_tls13 n) fresh refl refl

  pop-AllSized : (i : Inner K L) (k : K) → AllSized L i → AllSized L (pop L is_tls13 i k).0
  pop-AllSized i k sized =
      rw (pop_use_up L is_tls13 i k) (use_up-AllSized (pop L is_tls13 i k).1 i sized)

  after-AllSized :
      (i : Inner K L) (calls : List (Call K S))
      → AllSized L i
      → (AllSized L (after L is_tls13 i calls))
        × ((after L is_tls13 i calls).per_host_session_capacity ≡ i.per_host_session_capacity)
  after-AllSized i [] sized = (sized, refl)
  after-AllSized i (put_call k s ∷ calls) sized =
      let (sized', same) = after-AllSized (put L i k s) calls (put-AllSized L i k s sized) in
      (sized', same ∙ put-capacity i k s)
  after-AllSized i (pop_call k ∷ calls) sized =
      let (sized', same) = after-AllSized (pop L is_tls13 i k).0 calls (pop-AllSized i k sized) in
      (sized', same ∙ pop-capacity i k)

  sessions-bound :
      (i : Inner K L) (k : K)
      → AllSized L i
      → length (sessions L i k) ≤ bound_of i.per_host_session_capacity
  unfolding sessions
  sessions-bound i k sized = elim (Option-cases (Map.get k i.per_host_sessions)) [
    | inl e ↦ rw e (ground arith)
    | inr (c, e) ↦ rw e (sized k c e).1
  ]

  -- After any history of calls from an empty cache, no key has more sessions than the capacity, or
  -- than one where the capacity is zero.
  sessions_bounded :
      (n : ℕ) (calls : List (Call K S)) (k : K)
      → length (sessions L (after L is_tls13 (new L n) calls) k) ≤ max n 1
  unfolding new
  sessions_bounded n calls k =
      let l = new-IsLinked L is_tls13 n in
      let (sized, same) = after-AllSized (new L n) calls l.sized in
      let bound = sessions-bound (after L is_tls13 (new L n) calls) k sized in
      ground (arith, bound, same)
