-- ===== src/Headers/Listed.antt =====
-- A header map as the list of its values, which shows that the laws of `HeaderMaps` can hold.
use wreq.Base.{
  ◌≡◌, refl, List, [], ◌∷◌, ◌++◌, not, is_empty, flat_map, ◌&&◌, inl, inr, Bool-cases, arith,
  if◌then◌else◌, any,
}
use wreq.Base.Eq.{◌==◌, eq_iff, list_eq, nat_eq}
use wreq.Headers.{HeaderName, HeaderMaps, has_name, AreDistinct, group}

abbrev pub Lines : Type 0 → Type 0
Lines V = List (HeaderName × V)

unfoldable pub drop_name : HeaderName → List HeaderName → List HeaderName
drop_name j [] = []
drop_name j (k ∷ ks) = if j == k then drop_name j ks else k ∷ drop_name j ks

has_name-drop_name :
    (j k : HeaderName) (ks : List HeaderName)
    → has_name j (drop_name k ks) ≡ not (k == j) && has_name j ks
unfolding any drop_name
has_name-drop_name j k [] = ground arith
has_name-drop_name j k (i ∷ ks) =
    ground (arith, eq_iff k j, eq_iff k i, eq_iff i j, has_name-drop_name j k ks)

drop_name-AreDistinct :
    (k : HeaderName) (ks : List HeaderName) → AreDistinct ks → AreDistinct (drop_name k ks)
unfolding drop_name
drop_name-AreDistinct k [] d = tt
drop_name-AreDistinct k (i ∷ ks) d = elim (Bool-cases (k == i)) [
  | inl e ↦ rw e (drop_name-AreDistinct k ks d.1)
  | inr e ↦ rw e (ground (arith, has_name-drop_name i k ks, d.0), drop_name-AreDistinct k ks d.1)
]

module _ {V : Type 0} where
  unfoldable pub values : HeaderName → Lines V → List V
  values j [] = []
  values j ((k, v) ∷ m) = if k == j then v ∷ values j m else values j m

  unfoldable pub without : HeaderName → Lines V → Lines V
  without j [] = []
  without j ((k, v) ∷ m) = if j == k then without j m else (k, v) ∷ without j m

  unfoldable pub names : Lines V → List HeaderName
  names [] = []
  names ((k, v) ∷ m) = k ∷ drop_name k (names m)

  abbrev pub add : HeaderName → V → Lines V → Lines V
  add k v m = m ++ ((k, v) ∷ [])

  pub values-add :
      (k j : HeaderName) (v : V) (m : Lines V)
      → values j (add k v m) ≡ (if k == j then values j m ++ (v ∷ []) else values j m)
  unfolding values
  values-add k j v [] = ground arith
  values-add k j v ((i, w) ∷ m) = ground (arith, values-add k j v m)

  pub values-without :
      (k j : HeaderName) (m : Lines V)
      → values j (without k m) ≡ (if k == j then [] else values j m)
  unfolding values without
  values-without k j [] = ground arith
  values-without k j ((i, w) ∷ m) =
      ground (arith, eq_iff k j, eq_iff k i, eq_iff i j, values-without k j m)

  pub values-set :
      (k j : HeaderName) (v : V) (m : Lines V)
      → values j (add k v (without k m)) ≡ (if k == j then v ∷ [] else values j m)
  values-set k j v m = elim (Bool-cases (k == j)) [
    | inl e ↦ rw (values-add k j v (without k m), values-without k j m, e) refl
    | inr e ↦ rw (values-add k j v (without k m), values-without k j m, e) refl
  ]

  pub names-AreDistinct : (m : Lines V) → AreDistinct (names m)
  unfolding names
  names-AreDistinct [] = tt
  names-AreDistinct ((k, v) ∷ m) = (
    ground (arith, has_name-drop_name k k (names m), eq_iff k k),
    drop_name-AreDistinct k (names m) (names-AreDistinct m),
  )

  pub has_name-names :
      (j : HeaderName) (m : Lines V) → has_name j (names m) ≡ not (is_empty (values j m))
  unfolding names values any
  has_name-names j [] = refl
  has_name-names j ((k, v) ∷ m) = elim (Bool-cases (k == j)) [
    | inl e ↦ rw e refl
    | inr e ↦ rw (e, has_name-drop_name j k (names m), e) (has_name-names j m)
  ]

  pub values-empty : (j : HeaderName) → values j [] ≡ []
  unfolding values
  values-empty j = refl

  abbrev pub listed : HeaderMaps V
  listed = record {
    Map = Lines V;
    empty = [];
    keys = names;
    get_all = values;
    insert = λ k v m. add k v (without k m);
    append = add;
    remove = without;
    entries = λ m. flat_map (λ k. group k (values k m)) (names m);
    get_all-empty = values-empty;
    get_all-insert = values-set;
    get_all-append = values-add;
    get_all-remove = values-without;
    keys-AreDistinct = names-AreDistinct;
    has_name-keys = has_name-names;
    entries_eq = λ m. refl;
  }
