-- ===== src/Headers/Groups.antt =====
-- The loop over the entries of a header map that src/util.rs and src/header.rs share: a named value
-- replaces the header, an unnamed one is appended to the header before it.
use mathlib.Core.List.{append_assoc, append-nil}
use wreq.Base.{
  ◌≡◌, refl, sym, ◌∙◌, ap, List, [], ◌∷◌, ◌++◌, map, false, not, Option, none, some, is_empty, any,
  flat_map, ◌&&◌, inl, inr, Bool-cases, arith, if◌then◌else◌, subst,
}
use wreq.Base.Eq.{◌==◌, eq_iff, list_eq, nat_eq}
use wreq.Headers.{HeaderName, HeaderMaps, has_name, AreDistinct, group}

module _ {V : Type 0} (H : HeaderMaps V) where
  abbrev pub Entry : Type 0
  Entry = Option HeaderName × V

  abbrev pub append_all : HeaderName → List V → H.Map → H.Map
  append_all k [] m = m
  append_all k (v ∷ vs) m = append_all k vs (H.append k v m)

  pub get_all-append_all :
      (k j : HeaderName) (vs : List V) (m : H.Map)
      → H.get_all j (append_all k vs m) ≡ (if k == j then H.get_all j m ++ vs else H.get_all j m)
  get_all-append_all k j [] m = elim (Bool-cases (k == j)) [
    | inl e ↦ rw e (sym (append-nil (H.get_all j m)))
    | inr e ↦ rw e refl
  ]
  get_all-append_all k j (v ∷ vs) m = elim (Bool-cases (k == j)) [
    | inl e ↦
        rw (get_all-append_all k j vs (H.append k v m), H.get_all-append k j v m, e)
          (append_assoc (H.get_all j m) (v ∷ []) vs)
    | inr e ↦ rw (get_all-append_all k j vs (H.append k v m), H.get_all-append k j v m, e) refl
  ]

  -- The loop, with the name of the last header.
  unfoldable pub append_entries : Option HeaderName → List Entry → H.Map → H.Map
  append_entries prev [] m = m
  append_entries prev ((some k, v) ∷ es) m = append_entries (some k) es (H.insert k v m)
  append_entries (some k) ((none, v) ∷ es) m = append_entries (some k) es (H.append k v m)
  append_entries none ((none, v) ∷ es) m = append_entries none es m

  append_entries-unnamed :
      (k : HeaderName) (vs : List V) (es : List Entry) (m : H.Map)
      → append_entries (some k) (map (λ w. (none, w)) vs ++ es) m
        ≡ append_entries (some k) es (append_all k vs m)
  unfolding append_entries
  append_entries-unnamed k [] es m = refl
  append_entries-unnamed k (v ∷ vs) es m = append_entries-unnamed k vs es (H.append k v m)

  abbrev pub groups : (HeaderName → List V) → List HeaderName → List Entry
  groups vals ks = flat_map (λ k. group k (vals k)) ks

  -- The values of `j` after the groups of `ks`, over what it had.
  abbrev pub over : (HeaderName → List V) → List HeaderName → HeaderName → List V → List V
  over vals ks j old = if has_name j ks && not (is_empty (vals j)) then vals j else old

  module _ (vals : HeaderName → List V) (j : HeaderName) where
    -- One group in front, given what the others do.
    get_all-group :
        (k : HeaderName) (ks : List HeaderName) (vs : List V)
        → vals k ≡ vs
        → has_name k ks ≡ false
        → ((prev : Option HeaderName) (m : H.Map)
            → H.get_all j (append_entries prev (groups vals ks) m) ≡ over vals ks j (H.get_all j m))
        → (prev : Option HeaderName) (m : H.Map)
        → H.get_all j (append_entries prev (group k vs ++ groups vals ks) m)
          ≡ over vals (k ∷ ks) j (H.get_all j m)
    unfolding append_entries any
    get_all-group k ks [] here fresh rest prev m = elim (Bool-cases (k == j)) [
      | inl e ↦
          let same : k ≡ j = ground (arith, eq_iff k j) in
          let none_here : vals j ≡ [] = ap vals (sym same) ∙ here in
          rw (rest prev m, e, none_here) (ground arith)
      | inr e ↦ rw e (rest prev m)
    ]
    get_all-group k ks (v ∷ vs) here fresh rest prev m =
        let m' = append_all k vs (H.insert k v m) in
        let later = rest (some k) m' in
        let first = append_entries-unnamed k vs (groups vals ks) (H.insert k v m) in
        let old = get_all-append_all k j vs (H.insert k v m) in
        let new = H.get_all-insert k j v m in
        elim (Bool-cases (k == j)) [
          | inl e ↦
              let same : k ≡ j = ground (arith, eq_iff k j) in
              let fresh' : has_name j ks ≡ false = subst (λ a. has_name a ks ≡ false) same fresh in
              let here' : vals j ≡ v ∷ vs = ap vals (sym same) ∙ here in
              ap (H.get_all j) first ∙ later ∙ rw (old, new, e, fresh', here') refl
          | inr e ↦ ap (H.get_all j) first ∙ later ∙ rw (old, new, e) refl
        ]

    pub get_all-append_entries :
        (ks : List HeaderName)
        → AreDistinct ks
        → (prev : Option HeaderName) (m : H.Map)
        → H.get_all j (append_entries prev (groups vals ks) m) ≡ over vals ks j (H.get_all j m)
    unfolding append_entries flat_map any
    get_all-append_entries [] d prev m = refl
    get_all-append_entries (k ∷ ks) d prev m =
        get_all-group k ks (vals k) refl d.0 (get_all-append_entries ks d.1) prev m
