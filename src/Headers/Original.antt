-- ===== src/Headers/Original.antt =====
-- `OrigHeaderMap` of src/header.rs.
use mathlib.Core.List.{append-nil}
use wreq.Base.{
  ◌≡◌, ◌⊎◌, refl, ◌∙◌, ap, List, [], ◌∷◌, ◌++◌, not, Option, none, some, is_empty, ◌&&◌, ◌||◌, inl,
  inr, Bool-cases, if◌then◌else◌, length, leb,
}
use wreq.Base.Eq.{◌==◌, eq_iff, list_eq, nat_eq}
use wreq.Base.Text.{Text}
use wreq.Headers.{HeaderName, HeaderMaps}
use wreq.Headers.Groups.{append_all, append_entries, get_all-append_entries, get_all-append_all}

-- `Repr` of a `HeaderCaseName`.
pub data HeaderCaseName : Type 0 where
  cased : Text → HeaderCaseName
  standard : HeaderName → HeaderCaseName

-- `as_ref`.
abbrev pub as_ref : HeaderCaseName → Text
as_ref (cased orig) = orig
as_ref (standard name) = name

module _ (O : HeaderMaps HeaderCaseName) where
  -- `insert`, given `HeaderName::from_bytes`; the map alone, without the answer.
  unfoldable pub insert_orig : (Text → Option HeaderName) → HeaderCaseName → O.Map → O.Map
  insert_orig from_bytes (cased bytes) m = elim (from_bytes bytes) [
    | some name ↦ O.append name (cased bytes) m
    | none ↦ m
  ]
  insert_orig from_bytes (standard name) m = O.append name (standard name) m

module _ {V : Type 0} (H : HeaderMaps V) where
  -- The loop of `call` over the names of the order: what is sorted, and what is left.
  unfoldable pub insert_ordered : List HeaderName → H.Map → H.Map → H.Map × H.Map
  insert_ordered [] sorted headers = (sorted, headers)
  insert_ordered (k ∷ ks) sorted headers =
      insert_ordered ks (append_all H k (H.get_all k headers) sorted) (H.remove k headers)

  unfoldable pub call : (O : HeaderMaps HeaderCaseName) → O.Map → H.Map → H.Map
  unfolding insert_ordered append_entries
  call O orig headers =
      if leb (length (H.entries headers)) 1 || is_empty (O.entries orig)
      then headers
      else (let (sorted, left) = insert_ordered (O.keys orig) H.empty headers in
          append_entries H none (H.entries left) sorted)

  -- The values of a header are all sorted, or all left.
  abbrev Placed : List V → List V → List V → Type 0
  Placed all sorted left = ((sorted ≡ []) × (left ≡ all)) ⊎ ((sorted ≡ all) × (left ≡ []))

  joined : (all sorted left : List V) → Placed all sorted left → sorted ++ left ≡ all
  joined all sorted left (inl (s, l)) = rw (s, l) refl
  joined all sorted left (inr (s, l)) = rw (s, l) (append-nil all)

  collected :
      (all sorted left : List V)
      → Placed all sorted left
      → (if not (is_empty left) && not (is_empty left) then left else sorted) ≡ all
  collected all sorted left (inl (s, l)) = rw (s, l) (kept all)
    where
      kept : (vs : List V) → (if not (is_empty vs) && not (is_empty vs) then vs else []) ≡ vs
      kept [] = refl
      kept (v ∷ vs) = refl
  collected all sorted left (inr (s, l)) = rw (s, l) refl

  insert_ordered-Placed :
      (j : HeaderName) (all : List V) (ks : List HeaderName) (sorted left : H.Map)
      → Placed all (H.get_all j sorted) (H.get_all j left)
      → let (sorted', left') = insert_ordered ks sorted left in
        Placed all (H.get_all j sorted') (H.get_all j left')
  unfolding insert_ordered
  insert_ordered-Placed j all [] sorted left h = h
  insert_ordered-Placed j all (k ∷ ks) sorted left h =
      let vs = H.get_all k left in
      insert_ordered-Placed j all ks (append_all H k vs sorted) (H.remove k left)
        (elim (Bool-cases (k == j)) [
          | inl same ↦
              let here : H.get_all k left ≡ H.get_all j left =
                ap (λ a. H.get_all a left) ((eq_iff k j).0 same) in
              rw (get_all-append_all H k j vs sorted, H.get_all-remove k j left, same)
                (inr (ap (λ b. H.get_all j sorted ++ b) here ∙ joined _ _ _ h, refl))
          | inr differs ↦
              rw (get_all-append_all H k j vs sorted, H.get_all-remove k j left, differs) h
        ])

  -- Ordering the headers of a request loses none and adds none: each has the values that it had, in
  -- their order.
  pub call-get_all :
      (O : HeaderMaps HeaderCaseName) (orig : O.Map) (headers : H.Map) (j : HeaderName)
      → H.get_all j (call O orig headers) ≡ H.get_all j headers
  unfolding call
  call-get_all O orig headers j =
      let (sorted, left) = insert_ordered (O.keys orig) H.empty headers in
      let placed =
        insert_ordered-Placed j (H.get_all j headers) (O.keys orig) H.empty headers
          (inl (H.get_all-empty j, refl)) in
      elim (Bool-cases (leb (length (H.entries headers)) 1 || is_empty (O.entries orig))) [
        | inl short ↦ rw (short, call) refl
        | inr long ↦
            rw (long, call, H.entries_eq left)
              (get_all-append_entries H (λ k. H.get_all k left) j (H.keys left)
                  (H.keys-AreDistinct left) none sorted
                ∙ rw (H.has_name-keys j left) (collected _ _ _ placed))
      ]
