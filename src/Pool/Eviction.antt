-- ===== src/Pool/Eviction.antt =====
-- `clear_expired` of src/client/layer/client/pool.rs.
use mathlib.Core.Option
use wreq.Base.{
  ℕ, ◌≡◌, refl, sym, ap, ◌∙◌, inl, inr, Option, none, some, List, [], ◌∷◌, arith, any, any_of_mem,
  mem-keep, mem_of_mem-keep, is_empty, is_some_and, Bool-cases, Option-cases, if◌then◌else◌,
  mem_of_any,
}
use wreq.Base.Eq.{Eq, ◌==◌, eq_iff, eq_refl}
use wreq.Pool.Crates.{Poolable, LruCache}
use wreq.Pool.{Idles, PoolInner, retain_idle, pop_all, clear_expired}
use wreq.Pool.Bounds.{removed_keys, clear_expired-idle}

module _ {K T : Type 0} ⦃e : Eq K⦄ (L : LruCache K (Idles T)) where
  peek-pop_all :
      (ks : List K) (j : K) (c : L.Cache)
      → L.peek j (pop_all L ks c) ≡ (if any (λ k. k == j) ks then none else L.peek j c)
  unfolding pop_all any
  peek-pop_all [] j c = refl
  peek-pop_all (k ∷ ks) j c = ground (arith, peek-pop_all ks j (L.pop k c), L.peek-pop k j c)

  -- What is left of an idle list: nothing where all of it goes.
  abbrev pub swept : Poolable T → ℕ → ℕ → Option (Idles T) → Option (Idles T)
  swept P dur now none = none
  swept P dur now (some list) =
      let kept = retain_idle L P dur now list in if is_empty kept then none else some kept

  peek-removed :
      (c : L.Cache) (j : K) (v : Idles T)
      → L.peek j c ≡ some v
      → any (λ k. k == j) (removed_keys L c) ≡ is_empty v
  unfolding removed_keys
  peek-removed c j v q = elim (Bool-cases (is_empty v)) [
    | inl none_left ↦
        any_of_mem (λ k. k == j)
          (mem-keep (λ k. is_some_and (L.peek k c) is_empty) (L.mem-keys j c q) (ground arith))
          (eq_refl j)
        ∙ sym none_left
    | inr some_left ↦ elim (Bool-cases (any (λ k. k == j) (removed_keys L c))) [
      | inr kept ↦ kept ∙ sym some_left
      | inl taken ↦
          let (k, m, same) = mem_of_any (λ k. k == j) (removed_keys L c) taken in
          let (_, was_empty) =
            mem_of_mem-keep (λ k. is_some_and (L.peek k c) is_empty) (L.keys c) m in
          ground (arith, eq_iff k j)
    ]
  ]

  -- The sweep keeps, of each idle list and in its order, exactly the connections that are open and
  -- not idle for longer than the timeout, and forgets the keys that have none.
  clear_expired-swept :
      (P : Poolable T) (now dur : ℕ) (p q : PoolInner L) (k : K)
      → p.timeout ≡ some dur
      → clear_expired L P now p ≡ some q
      → L.peek k q.idle ≡ swept P dur now (L.peek k p.idle)
  clear_expired-swept P now dur p q k t h = elim (Option-cases (L.peek k p.idle)) [
    | inl absent ↦
        rw ((clear_expired-idle L P now dur p q t h).0, peek-pop_all, absent)
          (ground (arith, L.peek-map_values (retain_idle L P dur now) k p.idle))
    | inr (list, there) ↦
        let c = L.map_values (retain_idle L P dur now) p.idle in
        let at : L.peek k c ≡ some (retain_idle L P dur now list) =
          L.peek-map_values (retain_idle L P dur now) k p.idle
          ∙ ap (Option.map (retain_idle L P dur now)) there in
        rw (
          (clear_expired-idle L P now dur p q t h).0,
          peek-pop_all,
          there,
          peek-removed c k (retain_idle L P dur now list) at,
          at,
        )
  ]
