-- ===== src/Pool/Popping.antt =====
-- `IdlePopper::pop` of src/client/layer/client/pool.rs: which idle connection is taken.
use wreq.Base.{
  ℕ, ◌≤◌, ◌≡◌, refl, ap, ◌∙◌, ◌⊎◌, inl, inr, true, false, Option, none, some, [], ◌∷◌, ◌++◌, arith,
  length, All, Bool-cases,
}
use wreq.Pool.Crates.{Reservation, shared, unique, Poolable}
use wreq.Pool.{Idle, Idles, expires, pop_idle}

module _ {T : Type 0} (P : Poolable T) (timeout : Option ℕ) (now : ℕ) where
  -- A connection that may be given out: open, and not idle for longer than the timeout.
  abbrev pub IsUsable : Idle T → Type 0
  IsUsable entry = (P.is_open entry.value ≡ true) × (expires timeout entry.idle_at now ≡ false)

  -- One that is dropped on the way.
  abbrev pub IsStale : Idle T → Type 0
  IsStale entry = (P.is_open entry.value ≡ false) ⊎ (expires timeout entry.idle_at now ≡ true)

  -- The list after the entry is taken: a shared connection goes back, as idle from now on.
  abbrev pub after_reserve : Idle T → Reservation T → Idles T → Option (Idle T) × Idles T
  after_reserve entry (shared keep give) rest = (
    some (record { idle_at = entry.idle_at; value = give }),
    record { idle_at = now; value = keep } ∷ rest,
  )
  after_reserve entry (unique v) rest = (some (record { idle_at = entry.idle_at; value = v }), rest)

  abbrev pub Popped : Idles T → Type 0
  Popped list =
      (All IsStale list × (pop_idle P timeout now list ≡ (none, [])))
      ⊎ ((stale : Idles T) × (entry : Idle T) × (rest : Idles T) × (list ≡ stale ++ (entry ∷ rest))
          × All IsStale stale
          × IsUsable entry
          × (pop_idle P timeout now list ≡ after_reserve entry (P.reserve entry.value) rest))

  Popped-stale :
      (entry : Idle T) (list : Idles T)
      → IsStale entry
      → pop_idle P timeout now (entry ∷ list) ≡ pop_idle P timeout now list
      → Popped list
      → Popped (entry ∷ list)
  Popped-stale entry list s e (inl (all, q)) = inl ((s, all), e ∙ q)
  Popped-stale entry list s e (inr (stale, found, rest, at, all, usable, q)) =
      inr (entry ∷ stale, found, rest, ap (◌∷◌ entry) at, (s, all), usable, e ∙ q)

  -- The pool takes the last idle connection that is open and not expired, drops the closed and
  -- expired ones behind it, keeps those before it, and finds none only where every one is closed or
  -- expired.
  pub pop_idle-Popped : (list : Idles T) → Popped list
  unfolding pop_idle
  pop_idle-Popped [] = inl (tt, refl)
  pop_idle-Popped (entry ∷ list) = elim (Bool-cases (P.is_open entry.value)) [
    | inr closed ↦ Popped-stale entry list (inl closed) (ground arith) (pop_idle-Popped list)
    | inl opened ↦ elim (Bool-cases (expires timeout entry.idle_at now)) [
      | inl old ↦ Popped-stale entry list (inr old) (ground arith) (pop_idle-Popped list)
      | inr young ↦ inr ([], entry, list, refl, tt, (opened, young), taken entry list opened young)
    ]
  ]
    where
      taken :
          (entry : Idle T) (list : Idles T)
          → P.is_open entry.value ≡ true
          → expires timeout entry.idle_at now ≡ false
          → pop_idle P timeout now (entry ∷ list) ≡ after_reserve entry (P.reserve entry.value) list
      taken entry list o y = ground arith

  -- The list does not grow.
  pub length-pop_idle-le : (list : Idles T) → length (pop_idle P timeout now list).1 ≤ length list
  unfolding pop_idle
  length-pop_idle-le [] = omega arith
  length-pop_idle-le (entry ∷ list) = ground (arith, length-pop_idle-le list)
