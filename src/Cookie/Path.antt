-- ===== src/Cookie/Path.antt =====
-- Cookie paths: `path_match` and `normalize_path` of src/cookie/store.rs.
use wreq.Base.{
  ℕ, ◌≡◌, refl, sym, ap, ◌∙◌, ◌↔◌, ◌⊎◌, inl, inr, Bool, true, ◌&&◌, ◌||◌, some, none, [], ◌∷◌, ◌++◌,
  arith, length, drop, if◌then◌else◌, Bool-cases, Option-cases, not,
}
use wreq.Base.Eq.{◌==◌, eq_iff, nat_eq, list_eq}
use wreq.Base.Text.{
  Text, take, starts_with, ends_with, ends_with_iff, rfind, rfind-some, Free, rfind-Free,
  starts_with_append, append_of_starts_with, drop-append_length,
}

-- `DEFAULT_PATH`.
abbrev pub default_path : Text
default_path = b'/' ∷ []

unfoldable pub path_match : Text → Text → Bool
path_match request_path cookie_path =
    request_path == cookie_path
    || (starts_with request_path cookie_path
        && (ends_with cookie_path default_path
            || starts_with (drop (length cookie_path) request_path) default_path))

unfoldable pub normalize_path : Text → Text
normalize_path path =
    if not (starts_with path default_path) then default_path else (elim (rfind b'/' path) [
      | some pos ↦ if pos == 0 then default_path else take pos path
      | none ↦ default_path
    ])

-- The cookie's path is a prefix of the request's that ends at a boundary between segments.
abbrev pub PathMatches : Text → Text → Type 0
PathMatches request_path cookie_path =
    (request_path ≡ cookie_path)
    ⊎ ((rest : Text) × (request_path ≡ cookie_path ++ rest)
        × (((stem : Text) × (cookie_path ≡ stem ++ default_path))
            ⊎ ((more : Text) × (rest ≡ b'/' ∷ more))))

starts_slash : (xs : Text) → starts_with xs default_path ≡ true → (more : Text) × (xs ≡ b'/' ∷ more)
unfolding starts_with
starts_slash [] h = cc
starts_slash (x ∷ xs) h = (xs, ground arith)

path_match_complete : (r c : Text) → PathMatches r c → path_match r c ≡ true
unfolding path_match
path_match_complete r c (inl e) = ground (arith, eq_iff r c)
path_match_complete r c (inr (rest, e, inl stem)) =
    rw e (ground (arith, starts_with_append c rest, (ends_with_iff c default_path).1 stem))
path_match_complete r c (inr (rest, e, inr (more, f))) =
    rw (e, f)
      (ground (
        arith,
        starts_with_append c (b'/' ∷ more),
        drop-append_length c (b'/' ∷ more),
        starts_with_append default_path more,
      ))

path_match_sound : (r c : Text) → path_match r c ≡ true → PathMatches r c
unfolding path_match
path_match_sound r c h = elim (Bool-cases (r == c)) [
  | inl same ↦ inl ((eq_iff r c).0 same)
  | inr differ ↦
      let rest = drop (length c) r in
      let at : r ≡ c ++ rest = append_of_starts_with r c (ground arith) in
      elim (Bool-cases (ends_with c default_path)) [
        | inl stem ↦ inr (rest, at, inl ((ends_with_iff c default_path).0 stem))
        | inr bare ↦ inr (rest, at, inr (starts_slash rest (ground arith)))
      ]
]

-- `path_match` is the path-match of RFC 6265, section 5.1.4: equal paths, or a prefix that ends
-- with a slash or is followed by one.
path_match_iff : (r c : Text) → (path_match r c ≡ true) ↔ PathMatches r c
path_match_iff r c = (path_match_sound r c, path_match_complete r c)

pub path_match_refl : (p : Text) → path_match p p ≡ true
path_match_refl p = path_match_complete p p (inl refl)

-- The default path of RFC 6265, section 5.1.4, for an absolute request path.
abbrev pub IsDefaultPath : Text → Text → Type 0
IsDefaultPath path result =
    (last : Text) × Free b'/' last
    × (((result ≡ default_path) × (path ≡ b'/' ∷ last)) ⊎ (path ≡ result ++ (b'/' ∷ last)))

normalize_path-rfind :
    (more : Text) (i : ℕ)
    → rfind b'/' (b'/' ∷ more) ≡ some i
    → IsDefaultPath (b'/' ∷ more) (normalize_path (b'/' ∷ more))
unfolding normalize_path starts_with
normalize_path-rfind more i e =
    let (last, q, free) = rfind-some b'/' (b'/' ∷ more) i e in
    elim (Bool-cases (i == 0)) [
      | inl first ↦ (
        last,
        free,
        inl (
          ground arith,
          q ∙ ap (λ k. take k (b'/' ∷ more) ++ (b'/' ∷ last)) ((eq_iff i 0).0 first),
        ),
      )
      | inr later ↦ (last, free, inr (q ∙ ap (λ t. t ++ (b'/' ∷ last)) (ground arith)))
    ]

-- The default path of an absolute request path is the path up to its last slash, that slash left
-- out, or a lone slash where nothing stands before it.
normalize_path-IsDefaultPath :
    (more : Text) → IsDefaultPath (b'/' ∷ more) (normalize_path (b'/' ∷ more))
normalize_path-IsDefaultPath more = elim (Option-cases (rfind b'/' (b'/' ∷ more))) [
  | inl e ↦ absurd ((rfind-Free b'/' (b'/' ∷ more) e).0 refl)
  | inr (i, e) ↦ normalize_path-rfind more i e
]

-- A cookie that takes its path from the request that set it applies to that request again.
pub path_match-normalize_path :
    (more : Text) → path_match (b'/' ∷ more) (normalize_path (b'/' ∷ more)) ≡ true
path_match-normalize_path more =
    let (last, free, place) = normalize_path-IsDefaultPath more in
    elim place [
      | inl (root, e) ↦
          path_match_complete _ _ (inr (last, e ∙ ap (λ t. t ++ last) (sym root), inl ([], root)))
      | inr e ↦ path_match_complete _ _ (inr (b'/' ∷ last, e, inr (last, refl)))
    ]
