-- ===== src/Group/Hashing.antt =====
-- The kept hash of a `ConnectionId`, of src/conn/descriptor.rs.
use wreq.Base.{ℕ, ◌≡◌, ◌≢◌, ◌⊎◌, refl, sym, ap, ◌∙◌, arith, inl, inr, Bool-cases}
use wreq.Base.Eq.{◌==◌, nat_eq}
use wreq.Group.{Types, Group, ConnectionId, computed_hash, hash}

module _ (x : Types) (hash_one : Group x → ℕ) where
  -- What the calls of `hash` may leave in an id.
  pub data Hashed (g : Group x) : ConnectionId x → Type 0 where
    made : Hashed g (record { group = g; kept = 0 })
    again : {id : ConnectionId x} → Hashed g id → Hashed g (hash x hash_one id).1

  Hashed-kept :
      (g : Group x) (id : ConnectionId x)
      → Hashed g id
      → (id.group ≡ g) × ((id.kept ≡ 0) ⊎ (id.kept ≡ computed_hash x hash_one g))
  unfolding hash
  Hashed-kept g id made = (refl, inl refl)
  Hashed-kept g id (again {id = i} h) =
      let (same, kept) = Hashed-kept g i h in
      elim (Bool-cases (i.kept == 0)) [
        | inl zero ↦ rw (zero, hash) (same, inr (ap (computed_hash x hash_one) same))
        | inr there ↦ rw (there, hash) (same, kept)
      ]

  computed_hash-ne_zero : (g : Group x) → computed_hash x hash_one g ≢ 0
  unfolding computed_hash
  computed_hash-ne_zero g = ground arith

  hash-computed :
      (g : Group x) (a : ConnectionId x)
      → Hashed g a
      → (hash x hash_one a).0 ≡ computed_hash x hash_one g
  unfolding hash
  hash-computed g a h =
      let (same, kept) = Hashed-kept g a h in
      elim (Bool-cases (a.kept == 0)) [
        | inl zero ↦ rw (zero, hash) (ap (computed_hash x hash_one) same)
        | inr there ↦
            let known : a.kept ≡ computed_hash x hash_one g = ground (arith, kept, there) in
            rw (there, hash) known
      ]

  -- Ids of one group hash alike and never to 0, however often either was hashed before, so equal ids
  -- find each other in the pool's maps.
  hash_agrees :
      (g : Group x) (a b : ConnectionId x)
      → Hashed g a
      → Hashed g b
      → ((hash x hash_one a).0 ≡ (hash x hash_one b).0) × ((hash x hash_one a).0 ≢ 0)
  hash_agrees g a b ha hb = (
    hash-computed g a ha ∙ sym (hash-computed g b hb),
    λ zero. computed_hash-ne_zero g (sym (hash-computed g a ha) ∙ zero),
  )
