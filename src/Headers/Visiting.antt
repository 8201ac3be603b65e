-- ===== src/Headers/Visiting.antt =====
-- `call_visit` of `OrigHeaderMap` in src/header.rs, which writes the headers of a request one by one: the
-- calls of its callback are a list.
use mathlib.Core.List.{append_assoc, append-nil}
use wreq.Base.{
  ◌≡◌, refl, sym, ◌∙◌, ap, subst, List, [], ◌∷◌, ◌++◌, map, Bool, true, false, not, Option, none,
  some, is_empty, flat_map, inl, inr, Bool-cases, arith, if◌then◌else◌, any, All,
}
use wreq.Base.Eq.{◌==◌, eq_iff, eq_refl, list_eq, nat_eq}
use wreq.Base.Text.{Text}
use wreq.Headers.{HeaderName, HeaderMaps, has_name, AreDistinct, group}
use wreq.Headers.Groups.{Entry, groups}
use wreq.Headers.Original.{HeaderCaseName, as_ref}

-- What `iter` yields: each name with each of its values.
abbrev pub iter : {V : Type 0} (H : HeaderMaps V) → H.Map → List (HeaderName × V)
iter H m = flat_map (λ k. map (λ v. (k, v)) (H.get_all k m)) (H.keys m)

module _ {V : Type 0} (H : HeaderMaps V) where
  -- The loop over the order: what is written, and what is left.
  unfoldable pub visit_ordered :
      List (HeaderName × HeaderCaseName) → H.Map → List (Text × V) × H.Map
  visit_ordered [] headers = ([], headers)
  visit_ordered ((k, orig) ∷ ts) headers =
      let (written, left) = visit_ordered ts (H.remove k headers) in
      (map (λ v. (as_ref orig, v)) (H.get_all k headers) ++ written, left)

  -- The loop over what is left, with the name of the last header.
  unfoldable pub visit_rest : Option Text → List (Entry H) → List (Text × V)
  visit_rest prev [] = []
  visit_rest prev ((some k, v) ∷ es) = (k, v) ∷ visit_rest (some k) es
  visit_rest (some k) ((none, v) ∷ es) = (k, v) ∷ visit_rest (some k) es
  visit_rest none ((none, v) ∷ es) = visit_rest none es

  unfoldable pub call_visit : (O : HeaderMaps HeaderCaseName) → O.Map → H.Map → List (Text × V)
  unfolding visit_ordered visit_rest
  call_visit O orig headers =
      let (written, left) = visit_ordered (iter O orig) headers in
      written ++ visit_rest none (H.entries left)

  module _ (lower : Text → HeaderName) (j : HeaderName) where
    -- The values that are written under a spelling of `j`.
    abbrev pub under : List (Text × V) → List V
    under [] = []
    under ((t, v) ∷ es) = if lower t == j then v ∷ under es else under es

    under-append : (es fs : List (Text × V)) → under (es ++ fs) ≡ under es ++ under fs
    under-append [] fs = refl
    under-append ((t, v) ∷ es) fs = elim (Bool-cases (lower t == j)) [
      | inl e ↦ rw (e, under-append es fs) refl
      | inr e ↦ rw (e, under-append es fs) refl
    ]

    nothing : (b : Bool) → ◌≡◌ {A = List V} [] (if b then [] else [])
    nothing true = refl
    nothing false = refl

    under-map :
        (t : Text) (k : HeaderName) (vs : List V)
        → lower t ≡ k
        → under (map (λ v. (t, v)) vs) ≡ (if k == j then vs else [])
    under-map t k [] h = nothing (k == j)
    under-map t k (v ∷ vs) h = elim (Bool-cases (k == j)) [
      | inl e ↦ rw (h, e, under-map t k vs h, e) refl
      | inr e ↦ rw (h, e, under-map t k vs h, e) refl
    ]

    visit_ordered-under :
        (ts : List (HeaderName × HeaderCaseName)) (m : H.Map)
        → All (λ t. lower (as_ref t.1) ≡ t.0) ts
        → let (written, left) = visit_ordered ts m in
          under written ++ H.get_all j left ≡ H.get_all j m
    unfolding visit_ordered
    visit_ordered-under [] m h = refl
    visit_ordered-under ((k, orig) ∷ ts) m h =
        let rest = visit_ordered-under ts (H.remove k m) h.1 in
        let (written, left) = visit_ordered ts (H.remove k m) in
        let first = under-map (as_ref orig) k (H.get_all k m) h.0 in
        elim (Bool-cases (k == j)) [
          | inl e ↦
              rw
                (
                  under-append (map (λ v. (as_ref orig, v)) (H.get_all k m)) written,
                  first,
                  e,
                  append_assoc (H.get_all k m) (under written) (H.get_all j left),
                  rest,
                  H.get_all-remove k j m,
                  e,
                  append-nil (H.get_all k m),
                )
                (ap (λ a. H.get_all a m) ((eq_iff k j).0 e))
          | inr e ↦
              rw
                (
                  under-append (map (λ v. (as_ref orig, v)) (H.get_all k m)) written,
                  first,
                  e,
                  rest,
                  H.get_all-remove k j m,
                  e,
                )
                refl
        ]

    -- The values of the groups that are left.
    visit_rest-named :
        (k : HeaderName) (vs : List V) (es : List (Entry H))
        → visit_rest (some k) (map (λ w. (none, w)) vs ++ es)
          ≡ map (λ v. (k, v)) vs ++ visit_rest (some k) es
    unfolding visit_rest
    visit_rest-named k [] es = refl
    visit_rest-named k (v ∷ vs) es = ap (λ l. (k, v) ∷ l) (visit_rest-named k vs es)

    visit_rest-groups :
        (vals : HeaderName → List V) (ks : List HeaderName)
        → (prev : Option Text)
        → visit_rest prev (groups H vals ks) ≡ flat_map (λ k. map (λ v. (k, v)) (vals k)) ks
    unfolding visit_rest flat_map
    visit_rest-groups vals [] prev = refl
    visit_rest-groups vals (k ∷ ks) prev = go (vals k) (visit_rest-groups vals ks)
      where
        go :
            (vs : List V)
            → ((prev : Option Text)
                → visit_rest prev (groups H vals ks)
                  ≡ flat_map (λ i. map (λ v. (i, v)) (vals i)) ks)
            → visit_rest prev (group k vs ++ groups H vals ks)
              ≡ map (λ v. (k, v)) vs ++ flat_map (λ i. map (λ v. (i, v)) (vals i)) ks
        go [] rest = rest prev
        go (v ∷ vs) rest =
            ap (λ l. (k, v) ∷ l)
              (visit_rest-named k vs (groups H vals ks) ∙ rw (rest (some k)) refl)

    under-rest :
        (vals : HeaderName → List V) (ks : List HeaderName)
        → AreDistinct ks
        → ((k : HeaderName) → has_name k ks ≡ true → lower k ≡ k)
        → under (flat_map (λ k. map (λ v. (k, v)) (vals k)) ks)
          ≡ (if has_name j ks then vals j else [])
    unfolding flat_map any
    under-rest vals [] d low = refl
    under-rest vals (k ∷ ks) d low =
        let es : List (Text × V) = flat_map (λ i. map (λ v. (i, v)) (vals i)) ks in
        let rest = under-rest vals ks d.1 (λ i h. low i (ground (arith, h))) in
        let first = under-map k k (vals k) (low k (ground (arith, eq_refl k))) in
        under-append (map (λ v. (k, v)) (vals k)) es ∙ elim (Bool-cases (k == j)) [
          | inl e ↦
              let same : k ≡ j = (eq_iff k j).0 e in
              let fresh : has_name j ks ≡ false = subst (λ a. has_name a ks ≡ false) same d.0 in
              rw (first, rest, e, fresh, append-nil (vals k)) (ap vals same)
          | inr e ↦ rw (first, rest, e) refl
        ]

  kept : (vs : List V) → (if not (is_empty vs) then vs else []) ≡ vs
  kept [] = refl
  kept (v ∷ vs) = refl

  part : (es fs vs : List V) → es ++ fs ≡ vs → not (is_empty fs) ≡ true → not (is_empty vs) ≡ true
  part es [] vs h n = cc
  part [] (v ∷ fs) vs h n = rw⁻¹ h refl
  part (e ∷ es) (v ∷ fs) vs h n = rw⁻¹ h refl

  -- Writing the headers in an order loses none and adds none: under the spellings of a header the values
  -- are written that it has, in their order, where each spelling of the order is one of its name and the
  -- names of the headers are in lower case.
  pub call_visit-under :
      (lower : Text → HeaderName) (O : HeaderMaps HeaderCaseName) (orig : O.Map) (headers : H.Map)
      (j : HeaderName)
      → All (λ t. lower (as_ref t.1) ≡ t.0) (iter O orig)
      → ((k : HeaderName) → has_name k (H.keys headers) ≡ true → lower k ≡ k)
      → under lower j (call_visit O orig headers) ≡ H.get_all j headers
  unfolding call_visit
  call_visit-under lower O orig headers j spelled low =
      let (written, left) = visit_ordered (iter O orig) headers in
      let vals = λ (k : HeaderName). H.get_all k left in
      let low_left : (k : HeaderName) → has_name k (H.keys left) ≡ true → lower k ≡ k = λ k here.
        low k (
          H.has_name-keys k headers
          ∙ part (under lower k written) (H.get_all k left) _
              (visit_ordered-under lower k (iter O orig) headers spelled)
              (sym (H.has_name-keys k left) ∙ here)) in
      let rest : under lower j (visit_rest none (H.entries left)) ≡ H.get_all j left =
        rw (H.entries_eq left, visit_rest-groups lower j vals (H.keys left) none)
          (under-rest lower j vals (H.keys left) (H.keys-AreDistinct left) low_left
            ∙ rw (H.has_name-keys j left) (kept (H.get_all j left))) in
      under-append lower j written (visit_rest none (H.entries left))
      ∙ rw rest (visit_ordered-under lower j (iter O orig) headers spelled)
