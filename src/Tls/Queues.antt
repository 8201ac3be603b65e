-- ===== src/Tls/Queues.antt =====
-- The session cache of src/tls/session.rs as one queue of sessions for each key.
use wreq.Base.{
  ℕ, suc, ◌-◌, ◌≤◌, ◌≡◌, refl, ap, subst, ◌∙◌, inl, inr, Bool, true, false, not, Option, none, some,
  List, [], ◌∷◌, ◌++◌, arith, leb, length, length-append, length-keep-le, keep, if◌then◌else◌,
  Option-cases, Bool-cases,
}
use wreq.Base.Eq.{Eq, ◌==◌, nat_eq}
use wreq.Base.Map
use wreq.Base.Map.{get-insert, get-remove}
use wreq.Tls.{Inner, sessions_or_new, evict, put}
use wreq.Tls.Lru.{LruCache, tail}

length-tail : {A : Type 0} (xs : List A) → length (tail xs) ≡ length xs - 1
length-tail [] = refl
length-tail (x ∷ xs) = omega arith

-- The capacity that a cache is made with.
abbrev pub cap_of : ℕ → Option ℕ
cap_of n = if n == 0 then none else some n

-- How many sessions a key may have: a capacity of zero still leaves one.
abbrev pub bound_of : ℕ → ℕ
bound_of n = if n == 0 then 1 else n

module _ {S : Type 0} ⦃es : Eq S⦄ where
  abbrev pub items_of : (L : LruCache S) → Option L.Cache → List S
  items_of L none = []
  items_of L (some c) = L.items c

  -- A queue that is full gives up its first session; a new one comes last, and only once.
  abbrev pub enqueue : ℕ → S → List S → List S
  enqueue n s q = keep (λ t. not (t == s)) (if leb n (length q) then tail q else q) ++ (s ∷ [])

  -- A cache has the capacity that it was made with, and no more sessions than that.
  abbrev pub IsSized : (L : LruCache S) → ℕ → L.Cache → Type 0
  IsSized L n c = (L.cap c ≡ cap_of n) × (length (L.items c) ≤ bound_of n)

  put-IsSized :
      (L : LruCache S) (n : ℕ) (s : S) (c : L.Cache)
      → L.cap c ≡ cap_of n
      → suc (length (L.items c)) ≤ bound_of n
      → (L.items (L.put s c) ≡ keep (λ t. not (t == s)) (L.items c) ++ (s ∷ []))
        × IsSized L n (L.put s c)
  put-IsSized L n s c capped room =
      let items = L.items-put s c (ground arith) in
      let count = length-append (keep (λ t. not (t == s)) (L.items c)) (s ∷ []) in
      let kept = length-keep-le (λ t. not (t == s)) (L.items c) in
      (items, (L.cap-put s c ∙ capped, omega (arith, ap length items, count, kept, room)))

  pub pop-IsSized :
      (L : LruCache S) (n : ℕ) (s : S) (c : L.Cache) → IsSized L n c → IsSized L n (L.pop s c)
  pop-IsSized L n s c (capped, bound) = (
    L.cap-pop s c ∙ capped,
    omega
        (arith, ap length (L.items-pop s c), length-keep-le (λ t. not (t == s)) (L.items c), bound),
  )

some-inj : {A : Type 0} {a b : A} → some a ≡ some b → a ≡ b
some-inj h = cc

module _ {K S : Type 0} ⦃ek : Eq K⦄ ⦃es : Eq S⦄ (L : LruCache S) where
  -- The sessions of a key, from the one that was put first.
  unfoldable pub sessions : Inner K L → K → List S
  sessions i k = items_of L (Map.get k i.per_host_sessions)

  abbrev pub AllSized : Inner K L → Type 0
  AllSized i =
      (k : K) (c : L.Cache)
      → Map.get k i.per_host_sessions ≡ some c
      → IsSized L i.per_host_session_capacity c

  pub sessions_or_new-IsSized :
      (i : Inner K L) (k : K)
      → AllSized i
      → (L.items (sessions_or_new L i k) ≡ sessions i k)
        × IsSized L i.per_host_session_capacity (sessions_or_new L i k)
  unfolding sessions_or_new sessions
  sessions_or_new-IsSized i k sized = elim (Option-cases (Map.get k i.per_host_sessions)) [
    | inl e ↦
        rw (e, sessions_or_new)
          (ground (
            arith,
            L.items-unbounded,
            L.cap-unbounded,
            L.items-new i.per_host_session_capacity,
            L.cap-new i.per_host_session_capacity,
          ))
    | inr (c, e) ↦ rw (e, sessions_or_new) (refl, sized k c e)
  ]

  evict-IsSized :
      (i : Inner K L) (c : L.Cache)
      → IsSized L i.per_host_session_capacity c
      → (L.items (evict L i c).1 ≡ (
          if leb i.per_host_session_capacity (length (L.items c))
          then tail (L.items c)
          else L.items c))
        × (L.cap (evict L i c).1 ≡ L.cap c)
        × (suc (length (L.items (evict L i c).1)) ≤ bound_of i.per_host_session_capacity)
  unfolding evict
  evict-IsSized i c sized =
      ground (arith, L.pop_lru_tail c, L.cap-pop_lru c, length-tail (L.items c))

  -- What `put` writes under the key.
  put_cache :
      (i : Inner K L) (k : K) (s : S)
      → AllSized i
      → (c : L.Cache) × ((put L i k s).per_host_sessions ≡ Map.insert k c i.per_host_sessions)
        × (L.items c ≡ enqueue i.per_host_session_capacity s (sessions i k))
        × IsSized L i.per_host_session_capacity c
  unfolding put
  put_cache i k s sized =
      let (same, is_sized) = sessions_or_new-IsSized i k sized in
      let (items, capped, room) = evict-IsSized i (sessions_or_new L i k) is_sized in
      let (stored, stored_sized) =
        put-IsSized L i.per_host_session_capacity s (evict L i (sessions_or_new L i k)).1
          (capped ∙ is_sized.0) room in
      (
        L.put s (evict L i (sessions_or_new L i k)).1,
        refl,
        stored
            ∙ ap (λ q. keep (λ t. not (t == s)) q ++ (s ∷ []))
                (items
                  ∙ ap (λ q. if leb i.per_host_session_capacity (length q) then tail q else q)
                      same),
        stored_sized,
      )

  put-capacity :
      (i : Inner K L) (k : K) (s : S)
      → (put L i k s).per_host_session_capacity ≡ i.per_host_session_capacity
  unfolding put
  put-capacity i k s = refl

  -- One cache written, or removed.
  pub write-AllSized :
      (n : ℕ) (removed : Bool) (m : List (K × L.Cache)) (k : K) (c : L.Cache)
      → IsSized L n c
      → ((j : K) (d : L.Cache) → Map.get j m ≡ some d → IsSized L n d)
      → (j : K) (d : L.Cache)
      → Map.get j (if removed then Map.remove k m else Map.insert k c m) ≡ some d
      → IsSized L n d
  write-AllSized n true m k c is_sized sized j d got = sized j d (ground (arith, get-remove k j m))
  write-AllSized n false m k c is_sized sized j d got = elim (Bool-cases (k == j)) [
    | inl e ↦ subst (IsSized L n) (some-inj (ground (arith, get-insert k j c m))) is_sized
    | inr e ↦ sized j d (ground (arith, get-insert k j c m))
  ]

  pub put-AllSized : (i : Inner K L) (k : K) (s : S) → AllSized i → AllSized (put L i k s)
  put-AllSized i k s sized =
      let (c, written, _, is_sized) = put_cache i k s sized in
      rw (put-capacity i k s, written)
        (write-AllSized i.per_host_session_capacity false i.per_host_sessions k c is_sized sized)

  -- `put` puts the session last in the queue of its key, and touches no other queue.
  pub sessions-put :
      (i : Inner K L) (k j : K) (s : S)
      → AllSized i
      → sessions (put L i k s) j
        ≡ (if k == j then enqueue i.per_host_session_capacity s (sessions i k) else sessions i j)
  unfolding sessions
  sessions-put i k j s sized =
      let (c, written, items, _) = put_cache i k s sized in
      ground (arith, get-insert k j c i.per_host_sessions)
