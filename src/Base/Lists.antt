-- ===== src/Base/Lists.antt =====
-- Lists measured by native numbers, quantifiers over lists, and membership.
use Prim.Native.Nat.{ℕ, zero, suc, ◌+◌, ◌≤◌}
use mathlib.Core.Path.{◌≡◌, refl, sym, ap, subst, ◌∙◌}
use mathlib.Core.Bool.{Bool, true, false, ◌||◌}
use mathlib.Core.Logic.{◌⊎◌, inl, inr}
use mathlib.Core.List.{List, [], ◌∷◌, ◌++◌, map, Memᴰ}
use mathlib.Core.Option.{Option, none, some}
use native.Mathlib.Omega.{arith}
use wreq.Base.Tests.{if◌then◌else◌, Bool-cases}

false-ne-true : false ≡ true → ⊥
false-ne-true e = cc

module _ {ℓ} {A : Type ℓ} where
  abbrev pub length : List A → ℕ
  length [] = 0
  length (x ∷ xs) = suc (length xs)

  abbrev pub is_empty : List A → Bool
  is_empty [] = true
  is_empty (x ∷ xs) = false

  abbrev pub drop : ℕ → List A → List A
  drop zero xs = xs
  drop (suc n) [] = []
  drop (suc n) (x ∷ xs) = drop n xs

  abbrev pub get_elem? : List A → ℕ → Option A
  get_elem? [] i = none
  get_elem? (x ∷ xs) zero = some x
  get_elem? (x ∷ xs) (suc i) = get_elem? xs i

  unfoldable pub any : (A → Bool) → List A → Bool
  any p [] = false
  any p (x ∷ xs) = p x || any p xs

  -- `Iterator::filter`, and `Vec::retain`.
  unfoldable pub keep : (A → Bool) → List A → List A
  keep p [] = []
  keep p (x ∷ xs) = if p x then x ∷ keep p xs else keep p xs

  pub length-append : (xs ys : List A) → length (xs ++ ys) ≡ length xs + length ys
  length-append [] ys = omega arith
  length-append (x ∷ xs) ys = omega (arith, length-append xs ys)

  pub length-keep-le : (p : A → Bool) (xs : List A) → length (keep p xs) ≤ length xs
  unfolding keep
  length-keep-le p [] = omega arith
  length-keep-le p (x ∷ xs) = ground (arith, length-keep-le p xs)

  pub any_of_mem : (p : A → Bool) {x : A} {xs : List A} → Memᴰ x xs → p x ≡ true → any p xs ≡ true
  unfolding any
  any_of_mem p (Memᴰ.head e) h = ground arith
  any_of_mem p (Memᴰ.tail m) h = ground (arith, any_of_mem p m h)

  pub mem_of_any :
      (p : A → Bool) (xs : List A) → any p xs ≡ true → (x : A) × Memᴰ x xs × (p x ≡ true)
  unfolding any
  mem_of_any p [] h = elim (false-ne-true h) [ ]
  mem_of_any p (x ∷ xs) h = elim (Bool-cases (p x)) [
    | inl e ↦ (x, Memᴰ.head refl, e)
    | inr e ↦ let (y, m, q) = mem_of_any p xs (ground arith) in (y, Memᴰ.tail m, q)
  ]

  pub mem-cons_cases : {x y : A} {ys : List A} → Memᴰ x (y ∷ ys) → (x ≡ y) ⊎ Memᴰ x ys
  mem-cons_cases (Memᴰ.head e) = inl e
  mem-cons_cases (Memᴰ.tail m) = inr m

  pub mem-append_left : {x : A} {xs : List A} (ys : List A) → Memᴰ x xs → Memᴰ x (xs ++ ys)
  mem-append_left ys (Memᴰ.head e) = Memᴰ.head e
  mem-append_left ys (Memᴰ.tail m) = Memᴰ.tail (mem-append_left ys m)

  pub mem-append_right : {x : A} (xs : List A) {ys : List A} → Memᴰ x ys → Memᴰ x (xs ++ ys)
  mem-append_right [] m = m
  mem-append_right (x ∷ xs) m = Memᴰ.tail (mem-append_right xs m)

  pub mem-append_cases :
      {x : A} (xs : List A) {ys : List A} → Memᴰ x (xs ++ ys) → Memᴰ x xs ⊎ Memᴰ x ys
  mem-append_cases [] m = inr m
  mem-append_cases (x ∷ xs) (Memᴰ.head e) = inl (Memᴰ.head e)
  mem-append_cases (x ∷ xs) (Memᴰ.tail m) = elim (mem-append_cases xs m) [
    | inl l ↦ inl (Memᴰ.tail l)
    | inr r ↦ inr r
  ]

module _ {ℓ κ} {A : Type ℓ} (P : A → Type κ) where
  abbrev pub All : List A → Type κ
  All [] = Unit
  All (x ∷ xs) = P x × All xs

  pub All-append : (xs ys : List A) → All xs → All ys → All (xs ++ ys)
  All-append [] ys hx hy = hy
  All-append (x ∷ xs) ys hx hy = (hx.0, All-append xs ys hx.1 hy)

module _ {ℓ κ} {A : Type ℓ} {B : Type κ} where
  unfoldable pub flat_map : (A → List B) → List A → List B
  flat_map f [] = []
  flat_map f (x ∷ xs) = f x ++ flat_map f xs

  pub mem-flat_map :
      (f : A → List B) {x : A} {y : B} {xs : List A}
      → Memᴰ x xs
      → Memᴰ y (f x)
      → Memᴰ y (flat_map f xs)
  unfolding flat_map
  mem-flat_map f {xs = []} m h = elim m [ ]
  mem-flat_map f {y} {xs = z ∷ zs} (Memᴰ.head e) h =
      mem-append_left (flat_map f zs) (subst (λ a. Memᴰ y (f a)) e h)
  mem-flat_map f {xs = z ∷ zs} (Memᴰ.tail m) h = mem-append_right (f z) (mem-flat_map f m h)

  pub mem_of_mem-flat_map :
      (f : A → List B) {y : B} (xs : List A)
      → Memᴰ y (flat_map f xs)
      → (x : A) × Memᴰ x xs × Memᴰ y (f x)
  unfolding flat_map
  mem_of_mem-flat_map f [] m = elim m [ ]
  mem_of_mem-flat_map f (x ∷ xs) m = elim (mem-append_cases (f x) m) [
    | inl l ↦ (x, Memᴰ.head refl, l)
    | inr r ↦ let (z, p, q) = mem_of_mem-flat_map f xs r in (z, Memᴰ.tail p, q)
  ]

  pub mem-map : (f : A → B) {x : A} {xs : List A} → Memᴰ x xs → Memᴰ (f x) (map f xs)
  mem-map f (Memᴰ.head e) = Memᴰ.head (ap f e)
  mem-map f (Memᴰ.tail m) = Memᴰ.tail (mem-map f m)

  pub mem_of_mem-map :
      (f : A → B) {y : B} (xs : List A) → Memᴰ y (map f xs) → (x : A) × Memᴰ x xs × (y ≡ f x)
  mem_of_mem-map f [] m = elim m [ ]
  mem_of_mem-map f (x ∷ xs) (Memᴰ.head e) = (x, Memᴰ.head refl, e)
  mem_of_mem-map f (x ∷ xs) (Memᴰ.tail m) =
      let (z, p, q) = mem_of_mem-map f xs m in (z, Memᴰ.tail p, q)

module _ {ℓ} {A : Type ℓ} (p : A → Bool) where
  pub mem-keep : {x : A} {xs : List A} → Memᴰ x xs → p x ≡ true → Memᴰ x (keep p xs)
  unfolding keep
  mem-keep {xs = []} m h = elim m [ ]
  mem-keep {x} {xs = z ∷ zs} (Memᴰ.head e) h = rw (ap p (sym e) ∙ h) (Memᴰ.head e)
  mem-keep {xs = z ∷ zs} (Memᴰ.tail m) h = elim (Bool-cases (p z)) [
    | inl q ↦ rw q (Memᴰ.tail (mem-keep m h))
    | inr q ↦ rw q (mem-keep m h)
  ]

  pub mem_of_mem-keep : {x : A} (xs : List A) → Memᴰ x (keep p xs) → Memᴰ x xs × (p x ≡ true)
  unfolding keep
  mem_of_mem-keep [] m = elim m [ ]
  mem_of_mem-keep {x} (z ∷ zs) m = elim (Bool-cases (p z)) [
    | inl q ↦ elim (mem-cons_cases (rw q at m)) [
      | inl same ↦ (Memᴰ.head same, ap p same ∙ q)
      | inr later ↦ let (n, r) = mem_of_mem-keep zs later in (Memᴰ.tail n, r)
    ]
    | inr q ↦ let (n, r) = mem_of_mem-keep zs (rw q at m) in (Memᴰ.tail n, r)
  ]
