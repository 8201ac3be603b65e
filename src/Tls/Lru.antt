-- ===== src/Tls/Lru.antt =====
-- `lru::LruCache<S, ()>` as src/tls/session.rs uses it: a list of keys from the one that was used
-- least recently, with a capacity that an insertion has to respect.
use wreq.Base.{ℕ, ltb, ◌≡◌, Bool, true, not, Option, none, some, List, [], ◌∷◌, ◌++◌, keep, length}
use wreq.Base.Eq.{Eq, ◌==◌}

abbrev pub head? {ℓ} : {A : Type ℓ} → List A → Option A
head? [] = none
head? (x ∷ xs) = some x

abbrev pub tail {ℓ} : {A : Type ℓ} → List A → List A
tail [] = []
tail (x ∷ xs) = xs

-- Whether a cache of this capacity takes one more key.
abbrev pub has_room : Option ℕ → ℕ → Bool
has_room none n = true
has_room (some cap) n = ltb n cap

pub record LruCache (S : Type 0) ⦃e : Eq S⦄ : Type 1 where
  pub Cache : Type 0
  pub items : Cache → List S
  pub cap : Cache → Option ℕ
  pub new : ℕ → Cache
  pub unbounded : Cache
  pub put : S → Cache → Cache
  pub pop_lru : Cache → Option S × Cache
  pub peek_lru : Cache → Option S
  pub pop : S → Cache → Cache
  pub items-new : (n : ℕ) → items (new n) ≡ []
  pub cap-new : (n : ℕ) → cap (new n) ≡ some n
  pub items-unbounded : items unbounded ≡ []
  pub cap-unbounded : cap unbounded ≡ none
  pub items-put :
      (s : S) (c : Cache)
      → has_room (cap c) (length (items c)) ≡ true
      → items (put s c) ≡ keep (λ t. not (t == s)) (items c) ++ (s ∷ [])
  pub cap-put : (s : S) (c : Cache) → cap (put s c) ≡ cap c
  pub pop_lru_head : (c : Cache) → (pop_lru c).0 ≡ head? (items c)
  pub pop_lru_tail : (c : Cache) → items (pop_lru c).1 ≡ tail (items c)
  pub cap-pop_lru : (c : Cache) → cap (pop_lru c).1 ≡ cap c
  pub peek_lru_head : (c : Cache) → peek_lru c ≡ head? (items c)
  pub items-pop : (s : S) (c : Cache) → items (pop s c) ≡ keep (λ t. not (t == s)) (items c)
  pub cap-pop : (s : S) (c : Cache) → cap (pop s c) ≡ cap c
