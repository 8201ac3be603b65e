-- ===== src/Group/Identity.antt =====
-- When two groups or two connections are the same, for src/group.rs and src/conn/descriptor.rs.
use wreq.Base.{
  ℕ, ◌<◌, ◌⊎◌, ◌≡◌, ◌≢◌, refl, sym, ap, Bool, true, false, Option, none, some, ltb, arith, inl, inr,
  if◌then◌else◌,
}
use wreq.Base.Eq.{◌==◌, nat_eq}
use wreq.Config.{or}
use wreq.Group.{GroupKey, rank, Types, Group, nil, entry, GroupVariant, insert, extend}

compare_ranks : (m n : ℕ) → (m < n) ⊎ ((m ≡ n) ⊎ (n < m))
compare_ranks m n = ground arith

-- How two ranks compare.
abbrev Below : ℕ → ℕ → Type 0
Below m n = (ltb m n ≡ true) × (ltb n m ≡ false) × ((m == n) ≡ false) × ((n == m) ≡ false)

below : (m n : ℕ) → m < n → Below m n
below m n h = (ground (arith, h), ground (arith, h), ground (arith, h), ground (arith, h))

module _ (x : Types) where
  insert_under :
      (a j : GroupKey) (v u : GroupVariant x) (g : Group x)
      → rank a < rank j
      → insert x a v (entry j u g) ≡ entry a v (entry j u g)
  unfolding insert
  insert_under a j v u g h = rw ((below (rank a) (rank j) h).0, insert) refl

  insert_at :
      (a j : GroupKey) (v u : GroupVariant x) (g : Group x)
      → rank a ≡ rank j
      → insert x a v (entry j u g) ≡ entry j v g
  unfolding insert
  insert_at a j v u g h =
      let not_below : ltb (rank a) (rank j) ≡ false = ground (arith, h) in
      let same : (rank a == rank j) ≡ true = ground (arith, h) in rw (not_below, same, insert) refl

  insert_over :
      (a j : GroupKey) (v u : GroupVariant x) (g : Group x)
      → rank j < rank a
      → insert x a v (entry j u g) ≡ entry j u (insert x a v g)
  unfolding insert
  insert_over a j v u g h =
      let (_, not_below, _, differs) = below (rank j) (rank a) h in
      rw (not_below, differs, insert) refl

  insert_nil : (a : GroupKey) (v : GroupVariant x) → insert x a v nil ≡ entry a v nil
  unfolding insert
  insert_nil a v = refl

  insert_ordered :
      (a b : GroupKey) (v w : GroupVariant x) (g : Group x)
      → rank a < rank b
      → insert x a v (insert x b w g) ≡ insert x b w (insert x a v g)
  insert_ordered a b v w nil h =
      rw
        (
          insert_nil b w,
          insert_nil a v,
          insert_under a b v w nil h,
          insert_over b a w v nil h,
          insert_nil b w,
        )
        refl
  insert_ordered a b v w (entry j u g) h = elim (compare_ranks (rank b) (rank j)) [
    | inl b_under ↦
        let a_under : rank a < rank j = omega (arith, h, b_under) in
        rw
          (
            insert_under b j w u g b_under,
            insert_under a j v u g a_under,
            insert_under a b v w (entry j u g) h,
            insert_over b a w v (entry j u g) h,
            insert_under b j w u g b_under,
          )
          refl
    | inr (inl b_at) ↦
        let a_under : rank a < rank j = omega (arith, h, b_at) in
        rw
          (
            insert_at b j w u g b_at,
            insert_under a j v w g a_under,
            insert_under a j v u g a_under,
            insert_over b a w v (entry j u g) h,
            insert_at b j w u g b_at,
          )
          refl
    | inr (inr b_over) ↦ rw (insert_over b j w u g b_over) (elim (compare_ranks (rank a) (rank j)) [
      | inl a_under ↦
          rw
            (
              insert_under a j v u (insert x b w g) a_under,
              insert_under a j v u g a_under,
              insert_over b a w v (entry j u g) h,
              insert_over b j w u g b_over,
            )
            refl
      | inr (inl a_at) ↦
          rw
            (
              insert_at a j v u (insert x b w g) a_at,
              insert_at a j v u g a_at,
              insert_over b j w v g b_over,
            )
            refl
      | inr (inr a_over) ↦
          rw
            (
              insert_over a j v u (insert x b w g) a_over,
              insert_over a j v u g a_over,
              insert_over b j w u (insert x a v g) b_over,
            )
            (ap (entry j u) (insert_ordered a b v w g h))
    ])
  ]

  insert_comm :
      (a b : GroupKey) (v w : GroupVariant x) (g : Group x)
      → rank a ≢ rank b
      → insert x a v (insert x b w g) ≡ insert x b w (insert x a v g)
  insert_comm a b v w g h = elim (compare_ranks (rank a) (rank b)) [
    | inl under ↦ insert_ordered a b v w g under
    | inr (inl same) ↦ elim (h same) [ ]
    | inr (inr over) ↦ sym (insert_ordered b a w v g over)
  ]

  extend_comm :
      (a b : GroupKey) (v w : Option (GroupVariant x)) (g : Group x)
      → rank a ≢ rank b
      → extend x a v (extend x b w g) ≡ extend x b w (extend x a v g)
  unfolding extend
  extend_comm a b none none g h = refl
  extend_comm a b none (some w) g h = refl
  extend_comm a b (some v) none g h = refl
  extend_comm a b (some v) (some w) g h = insert_comm a b v w g h

  -- `BTreeMap::get`.
  abbrev pub find : GroupKey → Group x → Option (GroupVariant x)
  find k nil = none
  find k (entry j v g) = if rank j == rank k then some v else find k g

  shadowed :
      (b : Bool) (v u o : Option (GroupVariant x))
      → (if b then v else o) ≡ (if b then v else (if b then u else o))
  shadowed true v u o = refl
  shadowed false v u o = refl

  apart :
      (i k j : ℕ)
      → i < k
      → (u v o : Option (GroupVariant x))
      → (if i == j then u else (if k == j then v else o))
        ≡ (if k == j then v else (if i == j then u else o))
  apart i k j h u v o = ground (arith, h)

  pub find-insert :
      (k j : GroupKey) (v : GroupVariant x) (g : Group x)
      → find j (insert x k v g) ≡ (if rank k == rank j then some v else find j g)
  find-insert k j v nil = rw (insert_nil k v) refl
  find-insert k j v (entry i u g) = elim (compare_ranks (rank k) (rank i)) [
    | inl under ↦ rw (insert_under k i v u g under) refl
    | inr (inl at) ↦
        rw (insert_at k i v u g at, at) (shadowed (rank i == rank j) (some v) (some u) (find j g))
    | inr (inr over) ↦
        rw (insert_over k i v u g over, find-insert k j v g)
          (apart (rank i) (rank k) (rank j) over (some u) (some v) (find j g))
  ]

  find-extend :
      (k j : GroupKey) (v : Option (GroupVariant x)) (g : Group x)
      → find j (extend x k v g) ≡ (if rank k == rank j then or v (find j g) else find j g)
  unfolding extend
  find-extend k j none g = same (rank k == rank j) (find j g)
    where
      same : (b : Bool) (o : Option (GroupVariant x)) → o ≡ (if b then or none o else o)
      same true o = refl
      same false o = refl
  find-extend k j (some v) g = find-insert k j v g

  -- Two criteria of different kinds that are added to a group are both in it, each in place of the one
  -- of its kind that the group had, one that is absent leaves that one, every other criterion is as
  -- before, and the order in which they are added does not matter.
  pub extend_both :
      (a b j : GroupKey) (v w : Option (GroupVariant x)) (g : Group x)
      → rank a ≢ rank b
      → (extend x a v (extend x b w g) ≡ extend x b w (extend x a v g))
        × (find j (extend x a v (extend x b w g)) ≡ (
            if rank a == rank j
            then or v (find j g)
            else if rank b == rank j
            then or w (find j g)
            else find j g))
  extend_both a b j v w g h = (
    extend_comm a b v w g h,
    rw (find-extend a j v (extend x b w g), find-extend b j w g)
        (chosen (rank a) (rank b) (rank j) h v w (find j g)),
  )
    where
      chosen :
          (i k m : ℕ)
          → i ≢ k
          → (v w o : Option (GroupVariant x))
          → (if i == m then or v (if k == m then or w o else o) else (if k == m then or w o else o))
            ≡ (if i == m then or v o else if k == m then or w o else o)
      chosen i k m d v w o = ground (arith, d)
