-- ===== src/Base/Map.antt =====
-- A `HashMap` as an association list. Its iteration order is the list's: theorems do not rest on it.
use mathlib.Core.Path.{◌≡◌, refl, subst}
use mathlib.Core.Logic.{inl, inr}
use mathlib.Core.Bool.{true, false}
use mathlib.Core.Option.{Option, none, some}
use mathlib.Core.List.{List, [], ◌∷◌, Memᴰ}
use native.Mathlib.Omega.{arith}
use wreq.Base.Tests.{if◌then◌else◌, Bool-cases}
use wreq.Base.Eq.{Eq, ◌==◌, eq_iff}
use wreq.Base.Lists.{is_empty, All}

none-ne-some {ℓ} : {A : Type ℓ} (v : A) → none ≡ some v → ⊥
none-ne-some v e = cc

module _ {ℓ κ} {K : Type ℓ} {V : Type κ} ⦃e : Eq K⦄ where
  unfoldable pub get : K → List (K × V) → Option V
  get k [] = none
  get k ((j, v) ∷ m) = if j == k then some v else get k m

  unfoldable pub insert : K → V → List (K × V) → List (K × V)
  insert k v [] = (k, v) ∷ []
  insert k v ((j, w) ∷ m) = if j == k then (j, v) ∷ m else (j, w) ∷ insert k v m

  unfoldable pub remove : K → List (K × V) → List (K × V)
  remove k [] = []
  remove k ((j, v) ∷ m) = if j == k then remove k m else (j, v) ∷ remove k m

  pub get-insert :
      (k j : K) (v : V) (m : List (K × V))
      → get j (insert k v m) ≡ (if k == j then some v else get j m)
  unfolding get insert
  get-insert k j v [] = refl
  get-insert k j v ((i, w) ∷ m) =
      ground (arith, eq_iff k j, eq_iff i k, eq_iff i j, get-insert k j v m)

  pub get-remove :
      (k j : K) (m : List (K × V)) → get j (remove k m) ≡ (if k == j then none else get j m)
  unfolding get remove
  get-remove k j [] = ground arith
  get-remove k j ((i, w) ∷ m) = ground (arith, eq_iff k j, eq_iff i k, eq_iff i j, get-remove k j m)

  pub mem_of_get : (k : K) (m : List (K × V)) {v : V} → get k m ≡ some v → Memᴰ (k, v) m
  unfolding get
  mem_of_get k [] {v} h = elim (none-ne-some v h) [ ]
  mem_of_get k ((j, w) ∷ m) h = elim (Bool-cases (j == k)) [
    | inl q ↦ Memᴰ.head (ground (arith, eq_iff j k))
    | inr q ↦ Memᴰ.tail (mem_of_get k m (ground arith))
  ]

  pub get-is_empty : (k : K) (m : List (K × V)) → is_empty m ≡ true → get k m ≡ none
  unfolding get
  get-is_empty k [] h = refl
  get-is_empty k (x ∷ m) h = cc

  pub is_empty-insert : (k : K) (v : V) (m : List (K × V)) → is_empty (insert k v m) ≡ false
  unfolding insert
  is_empty-insert k v [] = refl
  is_empty-insert k v ((j, w) ∷ m) = ground arith

-- Predicates on the values of a map.
module _ {ℓ κ μ} {K : Type ℓ} {V : Type κ} ⦃e : Eq K⦄ (P : V → Type μ) where
  pub All-insert :
      (k : K) (v : V) (m : List (K × V))
      → All (λ p. P p.1) m
      → P v
      → All (λ p. P p.1) (insert k v m)
  unfolding insert
  All-insert k v [] h p = (p, tt)
  All-insert k v ((j, w) ∷ m) h p = elim (Bool-cases (j == k)) [
    | inl q ↦ rw q (p, h.1)
    | inr q ↦ rw q (h.0, All-insert k v m h.1 p)
  ]

  pub All-remove : (k : K) (m : List (K × V)) → All (λ p. P p.1) m → All (λ p. P p.1) (remove k m)
  unfolding remove
  All-remove k [] h = tt
  All-remove k ((j, w) ∷ m) h = elim (Bool-cases (j == k)) [
    | inl q ↦ rw q (All-remove k m h.1)
    | inr q ↦ rw q (h.0, All-remove k m h.1)
  ]

  pub All-get : (k : K) (m : List (K × V)) {v : V} → All (λ p. P p.1) m → get k m ≡ some v → P v
  unfolding get
  All-get k [] {v} h q = absurd (none-ne-some v q)
  All-get k ((j, w) ∷ m) h q = elim (Bool-cases (j == k)) [
    | inl r ↦ subst P (ground (arith)) h.0
    | inr r ↦ All-get k m h.1 (ground arith)
  ]
