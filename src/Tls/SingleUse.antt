-- ===== src/Tls/SingleUse.antt =====
-- The sessions that the cache of src/tls/session.rs hands out over a history of calls.
use wreq.Base.{
  ℕ, ◌≡◌, refl, ap, sym, ◌∙◌, inl, inr, Bool, true, false, not, ◌&&◌, ◌||◌, Option, none, some,
  List, [], ◌∷◌, ◌++◌, arith, any, if◌then◌else◌, Option-cases, Bool-cases,
}
use wreq.Base.Eq.{Eq, ◌==◌, option_eq, nat_eq, eq_refl}
use wreq.Base.Map
use wreq.Tls.{Inner, new, put, forget, pop}
use wreq.Tls.Lru.{LruCache, head?}
use wreq.Tls.Queues.{sessions, sessions-put}
use wreq.Tls.Distinct.{has, has-without, has-enqueue}
use wreq.Tls.Linked.{IsLinked, IsFresh, put-IsLinked, forget-IsLinked, forget-sessions}

-- The calls of the trait `TlsSessionCache`.
pub data Call (K S : Type 0) : Type 0 where
  put_call : K → S → Call K S
  pop_call : K → Call K S

-- No call of the history puts the session.
abbrev pub never_puts : {K S : Type 0} → ⦃es : Eq S⦄ → S → List (Call K S) → Bool
never_puts s [] = true
never_puts s (put_call k t ∷ calls) = not (t == s) && never_puts s calls
never_puts s (pop_call k ∷ calls) = never_puts s calls

abbrev pub handed_out : {S : Type 0} → ⦃es : Eq S⦄ → S → List (Option S) → Bool
handed_out s [] = false
handed_out s (answer ∷ answers) = answer == some s || handed_out s answers

module _ {S : Type 0} ⦃es : Eq S⦄ where
  head-has : (q : List S) (s : S) → has q s ≡ false → (head? q == some s) ≡ false
  unfolding any
  head-has [] s h = refl
  head-has (x ∷ q) s h = ground arith

module _ {K S : Type 0} ⦃ek : Eq K⦄ ⦃es : Eq S⦄ (L : LruCache S) (is_tls13 : S → Bool) where
  -- A session that was handed out leaves its queue when it is one of TLS 1.3.
  unfoldable pub use_up : Option S → Inner K L → Inner K L
  use_up none i = i
  use_up (some s) i = if is_tls13 s then forget L i s else i

  pub pop_head : (i : Inner K L) (k : K) → (pop L is_tls13 i k).1 ≡ head? (sessions L i k)
  unfolding pop sessions
  pop_head i k = elim (Option-cases (Map.get k i.per_host_sessions)) [
    | inl e ↦ rw (e, pop) refl
    | inr (c, e) ↦ elim (Option-cases (L.peek_lru c)) [
      | inl e' ↦ rw (e, e', pop) (sym e' ∙ L.peek_lru_head c)
      | inr (s, e') ↦ rw (e, e', pop) (sym e' ∙ L.peek_lru_head c)
    ]
  ]

  pub pop_use_up :
      (i : Inner K L) (k : K) → (pop L is_tls13 i k).0 ≡ use_up (pop L is_tls13 i k).1 i
  unfolding pop use_up
  pop_use_up i k = elim (Option-cases (Map.get k i.per_host_sessions)) [
    | inl e ↦ rw (e, pop) refl
    | inr (c, e) ↦ elim (Option-cases (L.peek_lru c)) [
      | inl e' ↦ rw (e, e', pop) refl
      | inr (s, e') ↦ rw (e, e', pop) refl
    ]
  ]

  -- One call, and the answer where it is a `pop`.
  abbrev pub step : Inner K L → Call K S → Inner K L × Option S
  step i (put_call k s) = (put L i k s, none)
  step i (pop_call k) = pop L is_tls13 i k

  abbrev pub after : Inner K L → List (Call K S) → Inner K L
  after i [] = i
  after i (c ∷ calls) = after (step i c).0 calls

  abbrev pub answers : Inner K L → List (Call K S) → List (Option S)
  answers i [] = []
  answers i (c ∷ calls) = (step i c).1 ∷ answers (step i c).0 calls

  -- Each `put` of the history brings a session that no other key has.
  abbrev pub AllFresh : Inner K L → List (Call K S) → Type 0
  AllFresh i [] = Unit {0}
  AllFresh i (put_call k s ∷ calls) = (IsFresh L i k s) × (AllFresh (put L i k s) calls)
  AllFresh i (pop_call k ∷ calls) = AllFresh (pop L is_tls13 i k).0 calls

  fresh_split :
      (i : Inner K L) (before later : List (Call K S))
      → AllFresh i (before ++ later)
      → (AllFresh i before) × (AllFresh (after i before) later)
  fresh_split i [] later fresh = (tt, fresh)
  fresh_split i (put_call k s ∷ before) later fresh =
      let (early, late) = fresh_split (put L i k s) before later fresh.1 in ((fresh.0, early), late)
  fresh_split i (pop_call k ∷ before) later fresh =
      fresh_split (pop L is_tls13 i k).0 before later fresh

  use_up-IsLinked : (o : Option S) (i : Inner K L) → IsLinked L i → IsLinked L (use_up o i)
  unfolding use_up
  use_up-IsLinked none i l = l
  use_up-IsLinked (some s) i l = elim (Bool-cases (is_tls13 s)) [
    | inl e ↦ rw e (forget-IsLinked L i s l)
    | inr e ↦ rw e l
  ]

  pub pop-IsLinked : (i : Inner K L) (k : K) → IsLinked L i → IsLinked L (pop L is_tls13 i k).0
  pop-IsLinked i k l = rw (pop_use_up i k) (use_up-IsLinked (pop L is_tls13 i k).1 i l)

  pub after-IsLinked :
      (i : Inner K L) (calls : List (Call K S))
      → IsLinked L i
      → AllFresh i calls
      → IsLinked L (after i calls)
  after-IsLinked i [] l fresh = l
  after-IsLinked i (put_call k s ∷ calls) l fresh =
      after-IsLinked (put L i k s) calls (put-IsLinked L i k s l fresh.0) fresh.1
  after-IsLinked i (pop_call k ∷ calls) l fresh =
      after-IsLinked (pop L is_tls13 i k).0 calls (pop-IsLinked i k l) fresh

  pub new-IsLinked : (n : ℕ) → IsLinked L (new {K = K} L n)
  unfolding new sessions any Map.get
  new-IsLinked n = record {
    sized = λ k c got. ground arith;
    distinct = λ k. tt;
    linked = λ k t. refl;
  }

  -- No key has the session.
  abbrev pub IsAbsent : Inner K L → S → Type 0
  IsAbsent i s = (j : K) → has (sessions L i j) s ≡ false

  put-IsAbsent :
      (i : Inner K L) (k : K) (t s : S)
      → IsLinked L i
      → (t == s) ≡ false
      → IsAbsent i s
      → IsAbsent (put L i k t) s
  put-IsAbsent i k t s l other absent j = rw (sessions-put L i k j t l.sized) (
      ground (
        arith,
        has-enqueue i.per_host_session_capacity t (sessions L i k) s (l.distinct k),
        absent k,
        absent j,
      ))

  forget-has :
      (i : Inner K L) (t s : S) (j : K)
      → has (sessions L (forget L i t) j) s
        ≡ (has (sessions L i j) s && not (t == s && Map.get t i.reverse == some j))
  forget-has i t s j =
      rw (forget-sessions L i t j) (elim (Bool-cases (Map.get t i.reverse == some j)) [
        | inl e ↦ rw e (ground (arith, has-without t (sessions L i j) s))
        | inr e ↦ rw e (ground arith)
      ])

  use_up-IsAbsent : (o : Option S) (i : Inner K L) (s : S) → IsAbsent i s → IsAbsent (use_up o i) s
  unfolding use_up
  use_up-IsAbsent none i s absent = absent
  use_up-IsAbsent (some t) i s absent = elim (Bool-cases (is_tls13 t)) [
    | inl e ↦ rw e (λ j.
        forget-has i t s j
        ∙ ap (λ b. b && not (t == s && Map.get t i.reverse == some j)) (absent j))
    | inr e ↦ rw e absent
  ]

  -- An absent session is not handed out before it is put again.
  absent_lem :
      (i : Inner K L) (s : S) (calls : List (Call K S))
      → IsLinked L i
      → AllFresh i calls
      → IsAbsent i s
      → never_puts s calls ≡ true
      → handed_out s (answers i calls) ≡ false
  absent_lem i s [] l fresh absent never = refl
  absent_lem i s (put_call k t ∷ calls) l fresh absent never = ground (
    arith,
    absent_lem (put L i k t) s calls (put-IsLinked L i k t l fresh.0) fresh.1
        (put-IsAbsent i k t s l (ground arith) absent),
  )
  absent_lem i s (pop_call k ∷ calls) l fresh absent never =
      let later =
        absent_lem (pop L is_tls13 i k).0 s calls (pop-IsLinked i k l) fresh
          (rw (pop_use_up i k) (use_up-IsAbsent (pop L is_tls13 i k).1 i s absent)) never in
      ground (arith, later, pop_head i k, head-has (sessions L i k) s (absent k))

  popped-IsAbsent :
      (i : Inner K L) (k : K) (s : S)
      → IsLinked L i
      → (pop L is_tls13 i k).1 ≡ some s
      → is_tls13 s ≡ true
      → IsAbsent (pop L is_tls13 i k).0 s
  unfolding use_up
  popped-IsAbsent i k s l popped modern j =
      rw (pop_use_up i k, popped, modern)
        (ground (arith, forget-has i s s j, l.linked j s, eq_refl s))

  -- Over any history that starts from an empty cache and puts no session that another key has at
  -- that moment: a session of TLS 1.3 that `pop` hands out is not handed out again, to any key,
  -- by any later calls that do not put it again.
  pub handed_out_once :
      (n : ℕ) (before later : List (Call K S)) (k : K) (s : S)
      → AllFresh (new L n) (before ++ (pop_call k ∷ later))
      → (pop L is_tls13 (after (new L n) before) k).1 ≡ some s
      → is_tls13 s ≡ true
      → never_puts s later ≡ true
      → handed_out s (answers (pop L is_tls13 (after (new L n) before) k).0 later) ≡ false
  handed_out_once n before later k s fresh popped modern never =
      let (early, late) = fresh_split (new L n) before (pop_call k ∷ later) fresh in
      let l = after-IsLinked (new L n) before (new-IsLinked n) early in
      absent_lem (pop L is_tls13 (after (new L n) before) k).0 s later
        (pop-IsLinked (after (new L n) before) k l) late
        (popped-IsAbsent (after (new L n) before) k s l popped modern) never
