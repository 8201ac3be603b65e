-- ===== src/Headers/Replacing.antt =====
-- `replace_headers` of src/util.rs.
use wreq.Base.{
  ◌≡◌, refl, ◌∙◌, List, [], ◌∷◌, ◌++◌, map, not, Option, none, some, is_empty, flat_map, ◌&&◌,
  if◌then◌else◌,
}
use wreq.Base.Eq.{list_eq, nat_eq}
use wreq.Headers.{HeaderName, HeaderMaps, group}
use wreq.Headers.Groups.{Entry, append_entries, groups, get_all-append_entries}

module _ {V : Type 0} (H : HeaderMaps V) where
  -- The loop, with the name of `prev_entry`; `none` where it is `unreachable!`.
  unfoldable pub replace_entries : Option HeaderName → List (Entry H) → H.Map → Option H.Map
  replace_entries prev [] m = some m
  replace_entries prev ((some k, v) ∷ es) m = replace_entries (some k) es (H.insert k v m)
  replace_entries (some k) ((none, v) ∷ es) m = replace_entries (some k) es (H.append k v m)
  replace_entries none ((none, v) ∷ es) m = none

  unfoldable pub replace_headers : H.Map → H.Map → Option H.Map
  unfolding replace_entries
  replace_headers dst src = replace_entries none (H.entries src) dst

  replace_entries-named :
      (k : HeaderName) (es : List (Entry H)) (m : H.Map)
      → replace_entries (some k) es m ≡ some (append_entries H (some k) es m)
  unfolding replace_entries append_entries
  replace_entries-named k [] m = refl
  replace_entries-named k ((some j, v) ∷ es) m = replace_entries-named j es (H.insert j v m)
  replace_entries-named k ((none, v) ∷ es) m = replace_entries-named k es (H.append k v m)

  replace_entries-groups :
      (vals : HeaderName → List V) (ks : List HeaderName) (m : H.Map)
      → replace_entries none (groups H vals ks) m
        ≡ some (append_entries H none (groups H vals ks) m)
  unfolding replace_entries append_entries flat_map
  replace_entries-groups vals [] m = refl
  replace_entries-groups vals (k ∷ ks) m = go (vals k) (replace_entries-groups vals ks m)
    where
      go :
          (vs : List V)
          → replace_entries none (groups H vals ks) m
            ≡ some (append_entries H none (groups H vals ks) m)
          → replace_entries none (group k vs ++ groups H vals ks) m
            ≡ some (append_entries H none (group k vs ++ groups H vals ks) m)
      go [] rest = rest
      go (v ∷ vs) rest =
          replace_entries-named k (map (λ w. (none, w)) vs ++ groups H vals ks) (H.insert k v m)

  flip :
      (new old : List V)
      → (if not (is_empty new) && not (is_empty new) then new else old)
        ≡ (if is_empty new then old else new)
  flip [] old = refl
  flip (v ∷ vs) old = refl

  -- The headers of the one map replace those of the other, whole and in their order, and the headers
  -- that it does not have stay; the loop never reaches its `unreachable!`.
  pub replace_headers-get_all :
      (dst src : H.Map)
      → (m : H.Map) × (replace_headers dst src ≡ some m)
        × ((j : HeaderName)
            → H.get_all j m
              ≡ (if is_empty (H.get_all j src) then H.get_all j dst else H.get_all j src))
  unfolding replace_headers
  replace_headers-get_all dst src =
      let vals = λ (k : HeaderName). H.get_all k src in
      (
        append_entries H none (groups H vals (H.keys src)) dst,
        rw (H.entries_eq src) (replace_entries-groups vals (H.keys src) dst),
        λ j.
            get_all-append_entries H vals j (H.keys src) (H.keys-AreDistinct src) none dst
            ∙ rw (H.has_name-keys j src) (flip (H.get_all j src) (H.get_all j dst)),
      )
