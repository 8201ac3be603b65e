-- ===== src/Cookie/Jar/Header.antt =====
-- The `Cookie` header of a request: `cookies` of src/cookie/jar.rs. The check of
-- `HeaderValue::from_maybe_shared` is a parameter.
use mathlib.Core.List.{Perm, append_assoc, append-nil}
use wreq.Base.{
  ℕ, ◌<◌, ◌≤◌, ◌≡◌, refl, sym, ◌∙◌, ◌⊎◌, Bool, true, false, ◌&&◌, ◌||◌, Option, none, some, List,
  [], ◌∷◌, ◌++◌, map, arith, is_empty, keep, length, ltb, leb, if◌then◌else◌, All,
}
use wreq.Base.Eq.{◌==◌, nat_eq}
use wreq.Base.Sort.{sort, sort-perm, sort-IsSorted, IsSorted}
use wreq.Base.Text.{Text}
use wreq.Base.Maybe.{◌>>=◌, >>=-eq-some}
use wreq.Uri.{Uri}
use wreq.Cookie.Host.{Host, canonical_host}
use wreq.Cookie.Raw.{RawCookie}
use wreq.Cookie.Store.{Store}
use wreq.Cookie.Store.Matching.{Selected, matching_cookies}
use wreq.Cookie.Jar.{Crates}

-- `Cookies` of src/cookie.rs.
pub data Cookies : Type 0 where
  compressed : Text → Cookies
  uncompressed : List Text → Cookies
  empty : Cookies

pub data Version : Type 0 where
  http_09 http_10 http_11 http_2 http_3 : Version

abbrev pub is_multiplexed : Version → Bool
is_multiplexed http_2 = true
is_multiplexed http_3 = true
is_multiplexed _ = false

-- Longest path first, then oldest first.
unfoldable pub precedes : Selected → Selected → Bool
precedes (_, left_path, left) (_, right_path, right) =
    ltb (length right_path) (length left_path)
    || (length right_path == length left_path && leb left.creation_index right.creation_index)

unfoldable pub pair : RawCookie → Text
pair c = c.name ++ (b'=' ∷ c.value)

-- The `fold` of the compressed form.
unfoldable pub fold_pairs : Text → List RawCookie → Text
unfolding pair
fold_pairs cookies [] = cookies
fold_pairs cookies (c ∷ cs) =
    fold_pairs ((if is_empty cookies then cookies else cookies ++ (b';' ∷ b' ' ∷ [])) ++ pair c) cs

unfoldable pub selection : Crates → ℕ → Store → Uri → Option (List RawCookie)
unfolding precedes
selection x now s uri = do
  host ← uri.host >>= canonical_host x.parse_host
  some (map (λ (t : Selected). t.2.cookie) (sort precedes (matching_cookies uri host now s)))

unfoldable pub render : (Text → Bool) → Version → List RawCookie → Cookies
unfolding fold_pairs
render is_header_value version cs =
    if is_multiplexed version
    then uncompressed (keep is_header_value (map pair cs))
    else (let value = fold_pairs [] cs in
        if is_empty value then empty else if is_header_value value then compressed value else empty)

unfoldable pub cookies : Crates → (Text → Bool) → ℕ → Store → Uri → Version → Cookies
unfolding selection render
cookies x is_header_value now s uri version = elim (selection x now s uri) [
  | none ↦ empty
  | some cs ↦ render is_header_value version cs
]

precedes-total : (a b : Selected) → precedes a b ≡ false → precedes b a ≡ true
unfolding precedes
precedes-total (_, p, a) (_, q, b) h = ground arith

precedes_trans :
    (a b c : Selected) → precedes a b ≡ true → precedes b c ≡ true → precedes a c ≡ true
unfolding precedes
precedes_trans (_, p, a) (_, q, b) (_, r, c) h k = ground arith

-- The order of the header: a cookie of a longer path comes before one of a shorter path, and of two
-- with paths of one length the older comes first.
abbrev pub InOrder : Selected → Selected → Type 0
InOrder a b =
    (length b.1 < length a.1)
    ⊎ ((length b.1 ≡ length a.1) × (a.2.creation_index ≤ b.2.creation_index))

abbrev pub IsOrdered : List Selected → Type 0
IsOrdered [] = Unit {0}
IsOrdered (a ∷ ts) = All (InOrder a) ts × IsOrdered ts

precedes-InOrder : (a b : Selected) → precedes a b ≡ true → InOrder a b
unfolding precedes
precedes-InOrder (_, p, a) (_, q, b) h = ground arith

All-InOrder :
    (a : Selected) (bs : List Selected) → All (λ b. precedes a b ≡ true) bs → All (InOrder a) bs
All-InOrder a [] h = tt
All-InOrder a (b ∷ bs) h = (precedes-InOrder a b h.0, All-InOrder a bs h.1)

IsSorted-IsOrdered : (ts : List Selected) → IsSorted precedes ts → IsOrdered ts
IsSorted-IsOrdered [] h = tt
IsSorted-IsOrdered (a ∷ ts) h = (All-InOrder a ts h.0, IsSorted-IsOrdered ts h.1)

-- The cookies of a request are the selected ones, each as often, with longer paths first and then
-- older cookies first.
selection_order :
    (x : Crates) (now : ℕ) (s : Store) (uri : Uri) (cs : List RawCookie)
    → selection x now s uri ≡ some cs
    → (ts : List Selected) × (cs ≡ map (λ (t : Selected). t.2.cookie) ts)
      × IsOrdered ts
      × ((host : Host) × ((uri.host >>= canonical_host x.parse_host) ≡ some host)
          × Perm (matching_cookies uri host now s) ts)
unfolding selection
selection_order x now s uri cs h =
    let (host, of_host, q) = >>=-eq-some (uri.host >>= canonical_host x.parse_host) _ h in
    let found = matching_cookies uri host now s in
    (
      sort precedes found,
      cc,
      IsSorted-IsOrdered _ (sort-IsSorted precedes precedes-total precedes_trans found),
      (host, of_host, sort-perm precedes found),
    )

-- Texts with `; ` between them.
abbrev tail_of : List Text → Text
tail_of [] = []
tail_of (t ∷ ts) = b';' ∷ b' ' ∷ (t ++ tail_of ts)

abbrev pub join : List Text → Text
join [] = []
join (t ∷ ts) = t ++ tail_of ts

is_empty-pair : (c : RawCookie) (acc : Text) → is_empty (acc ++ pair c) ≡ false
unfolding pair
is_empty-pair c [] = go c.name
  where
    go : (n : Text) → is_empty (n ++ (b'=' ∷ c.value)) ≡ false
    go [] = refl
    go (b ∷ n) = refl
is_empty-pair c (b ∷ acc) = refl

fold_pairs-tail_of :
    (acc : Text) (cs : List RawCookie)
    → is_empty acc ≡ false
    → fold_pairs acc cs ≡ acc ++ tail_of (map pair cs)
unfolding fold_pairs
fold_pairs-tail_of acc [] h = sym (append-nil acc)
fold_pairs-tail_of acc (c ∷ cs) h = rw h (
    fold_pairs-tail_of ((acc ++ (b';' ∷ b' ' ∷ [])) ++ pair c) cs (is_empty-pair c _)
    ∙ simp append_assoc)

fold_pairs-join : (cs : List RawCookie) → fold_pairs [] cs ≡ join (map pair cs)
unfolding fold_pairs
fold_pairs-join [] = refl
fold_pairs-join (c ∷ cs) = fold_pairs-tail_of (pair c) cs (is_empty-pair c [])

keep-All : (p : Text → Bool) (ts : List Text) → All (λ t. p t ≡ true) ts → keep p ts ≡ ts
unfolding keep
keep-All p [] h = refl
keep-All p (t ∷ ts) h = rw (h.0, keep-All p ts h.1)

is_empty-append : (xs ys : Text) → is_empty xs ≡ false → is_empty (xs ++ ys) ≡ false
is_empty-append [] ys h = cc
is_empty-append (x ∷ xs) ys h = refl

is_empty-join_pairs :
    (c : RawCookie) (cs : List RawCookie) → is_empty (join (map pair (c ∷ cs))) ≡ false
is_empty-join_pairs c cs = is_empty-append (pair c) (tail_of (map pair cs)) (is_empty-pair c [])

-- Where every pair and their join are valid header values, HTTP/1 sends in one header the values
-- that HTTP/2 and HTTP/3 send one by one, with `; ` between them.
render_agree :
    (valid : Text → Bool) (one many : Version) (c : RawCookie) (cs : List RawCookie)
    → is_multiplexed one ≡ false
    → is_multiplexed many ≡ true
    → All (λ t. valid t ≡ true) (map pair (c ∷ cs))
    → valid (join (map pair (c ∷ cs))) ≡ true
    → (render valid many (c ∷ cs) ≡ uncompressed (map pair (c ∷ cs)))
      × (render valid one (c ∷ cs) ≡ compressed (join (map pair (c ∷ cs))))
unfolding render
render_agree valid one many c cs single split each whole = (
  rw (split, keep-All valid (map pair (c ∷ cs)) each),
  rw (single, fold_pairs-join (c ∷ cs), is_empty-join_pairs c cs, whole),
)
