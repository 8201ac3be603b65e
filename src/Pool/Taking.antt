-- ===== src/Pool/Taking.antt =====
-- What a request gets from the pool: `Checkout` of src/client/layer/client/pool.rs.
use wreq.Base.{
  ℕ, ◌≡◌, refl, ◌⊎◌, inl, inr, true, Option, none, some, [], Memᴰ, mem-append_right, arith,
  Option-cases,
}
use wreq.Base.Eq.{Eq}
use wreq.Pool.Crates.{Reservation, shared, unique, Poolable, Channels, LruCache}
use wreq.Pool.{Idle, Idles, PoolInner, pop_idle}
use wreq.Pool.Popping.{IsUsable, after_reserve, pop_idle-Popped}
use wreq.Pool.Bounds.{idles}
use wreq.Pool.Handles.{
  Checkout, Pooled, ready, Received, ok, canceled, take_idle, checkout, reuse, poll_waiter,
  poll_checkout,
}

-- The part of a reservation that the request uses.
abbrev pub given : {T : Type 0} → Reservation T → T
given (shared keep give) = give
given (unique v) = v

module _ {K T : Type 0} ⦃e : Eq K⦄ (L : LruCache K (Idles T)) (P : Poolable T) (ch : Channels) where
  -- A connection that lay idle under the key, open and not expired.
  abbrev pub FromIdle : ℕ → PoolInner L → K → T → Type 0
  FromIdle now p k v =
      (entry : Idle T) × Memᴰ entry (idles L p k)
      × IsUsable P p.timeout now entry
      × (v ≡ given (P.reserve entry.value))

  pop_idle-FromIdle :
      (now : ℕ) (timeout : Option ℕ) (list : Idles T) (found : Idle T)
      → (pop_idle P timeout now list).0 ≡ some found
      → (entry : Idle T) × Memᴰ entry list
        × IsUsable P timeout now entry
        × (found.value ≡ given (P.reserve entry.value))
  pop_idle-FromIdle now timeout list found h = elim (pop_idle-Popped P timeout now list) [
    | inl (_, q) ↦ absurd (nothing q)
    | inr (stale, entry, rest, at, _, usable, q) ↦ (
      entry,
      rw at (mem-append_right stale (Memᴰ.head refl)),
      usable,
      given_value entry rest (P.reserve entry.value) q,
    )
  ]
    where
      nothing : pop_idle P timeout now list ≡ (none, []) → ⊥
      nothing q = cc

      given_value :
          (entry : Idle T) (rest : Idles T) (r : Reservation T)
          → pop_idle P timeout now list ≡ after_reserve P timeout now entry r rest
          → found.value ≡ given r
      given_value entry rest (shared keep give) q = ground arith
      given_value entry rest (unique v) q = ground arith

  take_idle-FromIdle :
      (now : ℕ) (p : PoolInner L) (k : K) (found : Idle T)
      → (take_idle L P ch now p k).0 ≡ some found
      → FromIdle now p k found.value
  unfolding take_idle
  take_idle-FromIdle now p k found h = elim (Option-cases (L.peek k p.idle)) [
    | inl q ↦ absurd (missing q)
    | inr (list, q) ↦
        let (entry, m, usable, v) = pop_idle-FromIdle now p.timeout list found (ground arith) in
        (entry, rw q m, usable, v)
  ]
    where
      missing : L.peek k p.idle ≡ none → ⊥
      missing q = ground arith

  checkout-some :
      (tx now : ℕ) (p : PoolInner L) (c : Checkout K) (r : Pooled K T)
      → (checkout L P ch tx now p c).2 ≡ some r
      → (found : Idle T) × ((take_idle L P ch now p c.key).0 ≡ some found)
        × (r.is_reused ≡ true)
        × (r.key ≡ c.key)
        × (r.value ≡ some found.value)
  unfolding checkout reuse
  checkout-some tx now p c r h = elim (Option-cases (take_idle L P ch now p c.key).0) [
    | inl q ↦ absurd (nothing q)
    | inr (found, q) ↦ (found, q, ground arith, ground arith, ground arith)
  ]
    where
      nothing : (take_idle L P ch now p c.key).0 ≡ none → ⊥
      nothing q = ground arith

  -- What a ready answer of a poll comes from.
  poll_checkout_cases :
      (tx now : ℕ) (p : PoolInner L) (c : Checkout K) (rx : Received T) (r : Pooled K T)
      → (poll_checkout L P ch tx now (some p) c rx).2 ≡ ready r
      → ((v : T) × (rx ≡ ok v) × (P.is_open v ≡ true) × (r ≡ reuse L P ch (some p) c.key v))
        ⊎ ((checkout L P ch tx now p c).2 ≡ some r)
  unfolding poll_checkout poll_waiter
  poll_checkout_cases tx now p c Received.pending r h = inr (ground arith)
  poll_checkout_cases tx now p c canceled r h = inr (ground arith)
  poll_checkout_cases tx now p c (ok v) r h = elim (Option-cases c.waiter) [
    | inl q ↦ inr (ground arith)
    | inr (t, q) ↦ inl (v, refl, ground arith, ground arith)
  ]

  -- A request is given an open connection only: one that another request handed over to it, still
  -- open, or one that lay idle under its key, open and within the idle timeout. It is marked as
  -- reused.
  pub poll_checkout_ready :
      (tx now : ℕ) (p : PoolInner L) (c : Checkout K) (rx : Received T) (r : Pooled K T)
      → (poll_checkout L P ch tx now (some p) c rx).2 ≡ ready r
      → (r.is_reused ≡ true)
        × (r.key ≡ c.key)
        × ((v : T) × (r.value ≡ some v)
            × (((rx ≡ ok v) × (P.is_open v ≡ true)) ⊎ FromIdle now p c.key v))
  unfolding reuse
  poll_checkout_ready tx now p c rx r h = elim (poll_checkout_cases tx now p c rx r h) [
    | inl (v, received, opened, same) ↦
        (ground arith, ground arith, (v, ground arith, inl (received, opened)))
    | inr q ↦
        let (found, taken, reused, key, at) = checkout-some tx now p c r q in
        (reused, key, (found.value, at, inr (take_idle-FromIdle now p c.key found taken)))
  ]
