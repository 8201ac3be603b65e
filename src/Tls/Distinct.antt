-- ===== src/Tls/Distinct.antt =====
-- Queues of sessions without repetition, for the session cache of src/tls/session.rs.
use wreq.Base.{
  ℕ, ◌≡◌, refl, ap, inl, inr, Bool, true, false, not, ◌&&◌, ◌||◌, Option, none, some, List, [], ◌∷◌,
  ◌++◌, arith, leb, any, length, keep, if◌then◌else◌, Bool-cases,
}
use wreq.Base.Eq.{Eq, ◌==◌, option_eq, nat_eq, eq_iff, eq_refl}
use wreq.Tls.Lru.{head?, tail}
use wreq.Tls.Queues.{enqueue}

module _ {S : Type 0} ⦃es : Eq S⦄ where
  abbrev pub has : List S → S → Bool
  has q t = any (λ u. u == t) q

  abbrev pub without : S → List S → List S
  without s q = keep (λ t. not (t == s)) q

  -- No session stands in the queue twice.
  abbrev pub IsDistinct : List S → Type 0
  IsDistinct [] = Unit {0}
  IsDistinct (x ∷ xs) = (has xs x ≡ false) × IsDistinct xs

  pub has-without : (s : S) (q : List S) (t : S) → has (without s q) t ≡ (has q t && not (s == t))
  unfolding any keep
  has-without s [] t = refl
  has-without s (x ∷ q) t = ground (arith, has-without s q t, eq_iff x s, eq_iff x t, eq_iff s t)

  pub has-snoc : (q : List S) (s t : S) → has (q ++ (s ∷ [])) t ≡ (has q t || s == t)
  unfolding any
  has-snoc [] s t = ground arith
  has-snoc (x ∷ q) s t = ground (arith, has-snoc q s t)

  has-tail :
      (q : List S) (t : S) → IsDistinct q → has (tail q) t ≡ (has q t && not (head? q == some t))
  unfolding any
  has-tail [] t d = refl
  has-tail (x ∷ q) t d = elim (Bool-cases (x == t)) [
    | inl e ↦ ground (arith, ap (has q) ((eq_iff x t).0 e))
    | inr e ↦ ground arith
  ]

  pub IsDistinct-without : (s : S) (q : List S) → IsDistinct q → IsDistinct (without s q)
  unfolding keep
  IsDistinct-without s [] d = tt
  IsDistinct-without s (x ∷ q) d = ground (arith, IsDistinct-without s q d.1, has-without s q x)

  IsDistinct-snoc :
      (q : List S) (s : S) → has q s ≡ false → IsDistinct q → IsDistinct (q ++ (s ∷ []))
  unfolding any
  IsDistinct-snoc [] s h d = ground arith
  IsDistinct-snoc (x ∷ q) s h d =
      ground (arith, IsDistinct-snoc q s, has-snoc q s x, eq_iff s x, eq_iff x s)

  IsDistinct-tail : (q : List S) → IsDistinct q → IsDistinct (tail q)
  IsDistinct-tail [] d = tt
  IsDistinct-tail (x ∷ q) d = d.1

  pub IsDistinct-enqueue : (n : ℕ) (s : S) (q : List S) → IsDistinct q → IsDistinct (enqueue n s q)
  IsDistinct-enqueue n s q d = elim (Bool-cases (leb n (length q))) [
    | inl e ↦ rw e (
        IsDistinct-snoc (without s (tail q)) s (ground (arith, has-without s (tail q) s, eq_refl s))
          (IsDistinct-without s (tail q) (IsDistinct-tail q d)))
    | inr e ↦ rw e (
        IsDistinct-snoc (without s q) s (ground (arith, has-without s q s, eq_refl s))
          (IsDistinct-without s q d))
  ]

  -- The session that a full queue gives up.
  abbrev pub given_up : ℕ → List S → Option S
  given_up n q = if leb n (length q) then head? q else none

  pub given_up-has : (n : ℕ) (q : List S) (t : S) → (given_up n q == some t) ≡ true → has q t ≡ true
  unfolding any
  given_up-has n [] t h = ground arith
  given_up-has n (x ∷ q) t h = ground arith

  pub has-enqueue :
      (n : ℕ) (s : S) (q : List S) (t : S)
      → IsDistinct q
      → has (enqueue n s q) t ≡ ((has q t && not (given_up n q == some t)) || s == t)
  has-enqueue n s q t d = elim (Bool-cases (leb n (length q))) [
    | inl e ↦ rw e (
        ground (arith, has-snoc (without s (tail q)) s t, has-without s (tail q) t, has-tail q t d))
    | inr e ↦ rw e (ground (arith, has-snoc (without s q) s t, has-without s q t))
  ]
