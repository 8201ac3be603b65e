-- ===== src/Tls/Linked.antt =====
-- The two maps of the session cache of src/tls/session.rs against each other.
use wreq.Base.{
  ◌≡◌, refl, ap, sym, ◌∙◌, inl, inr, false, none, some, arith, leb, length, keep, is_empty,
  if◌then◌else◌, Option-cases, Bool-cases,
}
use wreq.Base.Eq.{Eq, ◌==◌, option_eq, nat_eq, eq_iff, eq_refl}
use wreq.Base.Map
use wreq.Base.Map.{get-insert, get-remove}
use wreq.Tls.{Inner, sessions_or_new, evict, put, forget}
use wreq.Tls.Lru.{LruCache, head?}
use wreq.Tls.Queues.{
  sessions, AllSized, write-AllSized, pop-IsSized, sessions_or_new-IsSized, sessions-put,
  put-AllSized,
}
use wreq.Tls.Distinct.{
  has, without, IsDistinct, given_up, given_up-has, has-without, has-enqueue, IsDistinct-enqueue,
  IsDistinct-without,
}

module _ {K S : Type 0} ⦃ek : Eq K⦄ ⦃es : Eq S⦄ (L : LruCache S) where
  -- A session stands in the queue of a key exactly when the reverse map names that key.
  pub record IsLinked (i : Inner K L) : Type 0 where
    pub sized : AllSized L i
    pub distinct : (k : K) → IsDistinct (sessions L i k)
    pub linked : (k : K) (t : S) → has (sessions L i k) t ≡ (Map.get t i.reverse == some k)

  -- No other key has the session.
  abbrev pub IsFresh : Inner K L → K → S → Type 0
  IsFresh i k s = (j : K) → (k == j) ≡ false → has (sessions L i j) s ≡ false

  put-reverse :
      (i : Inner K L) (k : K) (s t : S)
      → AllSized L i
      → Map.get t (put L i k s).reverse ≡ (
          if s == t
          then some k
          else if given_up i.per_host_session_capacity (sessions L i k) == some t
          then none
          else Map.get t i.reverse)
  unfolding put evict
  put-reverse i k s t sized =
      let c = sessions_or_new L i k in
      let (same, _) = sessions_or_new-IsSized L i k sized in
      elim (Bool-cases (leb i.per_host_session_capacity (length (L.items c)))) [
        | inr e ↦ rw e (ground (arith, get-insert s t k i.reverse, ap length same))
        | inl e ↦ elim (Option-cases (head? (L.items c))) [
          | inl e' ↦
              rw (e, L.pop_lru_head c ∙ e')
                (ground (arith, get-insert s t k i.reverse, ap length same, ap head? same))
          | inr (out, e') ↦
              rw (e, L.pop_lru_head c ∙ e')
                (ground (
                  arith,
                  get-insert s t k (Map.remove out i.reverse),
                  get-remove out t i.reverse,
                  eq_iff out t,
                  ap length same,
                  ap head? same,
                ))
        ]
      ]

  pub put-IsLinked :
      (i : Inner K L) (k : K) (s : S) → IsLinked i → IsFresh i k s → IsLinked (put L i k s)
  put-IsLinked i k s l fresh = record {
    sized = put-AllSized L i k s l.sized;
    distinct = λ j. rw (sessions-put L i k j s l.sized) (elim (Bool-cases (k == j)) [
      | inl e ↦
          rw e (IsDistinct-enqueue i.per_host_session_capacity s (sessions L i k) (l.distinct k))
      | inr e ↦ rw e (l.distinct j)
    ]);
    linked = λ j t.
        rw (sessions-put L i k j s l.sized, put-reverse i k s t l.sized)
          (elim (Bool-cases (k == j)) [
            | inl e ↦ rw e (
                ground (
                  arith,
                  has-enqueue i.per_host_session_capacity s (sessions L i k) t (l.distinct k),
                  l.linked k t,
                  eq_iff k j,
                ))
            | inr e ↦ rw e (elim (Bool-cases (s == t)) [
              | inl e' ↦
                  rw e'
                    (ap (has (sessions L i j)) (sym ((eq_iff s t).0 e')) ∙ fresh j e ∙ ground arith)
              | inr e' ↦ rw e' (elim (Option-cases (Map.get t i.reverse)) [
                | inl q ↦ ground (
                  arith,
                  l.linked k t,
                  l.linked j t,
                  given_up-has i.per_host_session_capacity (sessions L i k) t,
                )
                | inr (v, q) ↦ ground (
                  arith,
                  l.linked k t,
                  l.linked j t,
                  eq_iff k j,
                  eq_iff v k,
                  eq_iff v j,
                  given_up-has i.per_host_session_capacity (sessions L i k) t,
                )
              ])
            ])
          ]);
  }

  pub forget-sessions :
      (i : Inner K L) (s : S) (j : K)
      → sessions L (forget L i s) j
        ≡ (if Map.get s i.reverse == some j then without s (sessions L i j) else sessions L i j)
  unfolding forget sessions keep
  forget-sessions i s j = elim (Option-cases (Map.get s i.reverse)) [
    | inl e ↦ rw (e, forget) refl
    | inr (k, e) ↦ elim (Option-cases (Map.get k i.per_host_sessions)) [
      | inl e' ↦ rw (e, forget) (ground (arith, eq_iff k j))
      | inr (c, e') ↦
          rw (e, e', forget)
            (ground (
              arith,
              L.items-pop s c,
              get-remove k j i.per_host_sessions,
              get-insert k j (L.pop s c) i.per_host_sessions,
              eq_iff k j,
            ))
    ]
  ]

  forget-reverse :
      (i : Inner K L) (s t : S)
      → Map.get t (forget L i s).reverse ≡ (if s == t then none else Map.get t i.reverse)
  unfolding forget
  forget-reverse i s t = elim (Option-cases (Map.get s i.reverse)) [
    | inl e ↦ rw (e, forget) (ground (arith, ap (λ u. Map.get u i.reverse), eq_iff s t))
    | inr (k, e) ↦ elim (Option-cases (Map.get k i.per_host_sessions)) [
      | inl e' ↦ rw (e, e', forget) (get-remove s t i.reverse)
      | inr (c, e') ↦ rw (e, e', forget) (get-remove s t i.reverse)
    ]
  ]

  pub forget-AllSized : (i : Inner K L) (s : S) → AllSized L i → AllSized L (forget L i s)
  unfolding forget
  forget-AllSized i s sized = elim (Option-cases (Map.get s i.reverse)) [
    | inl e ↦ rw (e, forget) sized
    | inr (k, e) ↦ elim (Option-cases (Map.get k i.per_host_sessions)) [
      | inl e' ↦ rw (e, e', forget) sized
      | inr (c, e') ↦
          rw (e, e', forget)
            (write-AllSized L i.per_host_session_capacity (is_empty (L.items (L.pop s c)))
              i.per_host_sessions k (L.pop s c)
              (pop-IsSized L i.per_host_session_capacity s c (sized k c e')) sized)
    ]
  ]

  pub forget-IsLinked : (i : Inner K L) (s : S) → IsLinked i → IsLinked (forget L i s)
  forget-IsLinked i s l = record {
    sized = forget-AllSized i s l.sized;
    distinct = λ j. rw (forget-sessions i s j) (elim (Bool-cases (Map.get s i.reverse == some j)) [
      | inl e ↦ rw e (IsDistinct-without s (sessions L i j) (l.distinct j))
      | inr e ↦ rw e (l.distinct j)
    ]);
    linked = λ j t.
        rw (forget-sessions i s j, forget-reverse i s t)
          (elim (Bool-cases (s == t)) [
            | inl e ↦
                rw ((eq_iff s t).0 e)
                  (ground (arith, has-without t (sessions L i j) t, l.linked j t, eq_refl t))
            | inr e ↦ ground (arith, has-without s (sessions L i j) t, l.linked j t)
          ]);
  }
