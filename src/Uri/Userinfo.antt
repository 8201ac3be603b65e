-- ===== src/Uri/Userinfo.antt =====
-- `userinfo` and `set_userinfo` of src/ext.rs, on the text of a URI's authority, with the set of the
-- bytes that they encode. The crate `percent_encoding` and the checks of the `http` crate are
-- parameters.
use mathlib.Core.List.{append_assoc}
use wreq.Base.{
  ℕ, suc, ◌≡◌, refl, sym, ap, ◌∙◌, Bool, true, false, Option, none, some, [], ◌∷◌, ◌++◌, is_empty,
  length, drop, inl, inr, Option-cases, arith, if◌then◌else◌,
}
use wreq.Base.Eq.{nat_eq}
use wreq.Base.Percent.{Percent, AsciiSet, add, text_of, is_encoded_byte, all_encoded-Free}
use wreq.Base.Maybe.{◌>>=◌}
use wreq.Base.Text.{Text, take, rfind, rfind-Free, Free}
use wreq.Proxy.Env.{split_once, rsplit_once}

-- `(!text.is_empty()).then_some(text)`.
abbrev pub non_empty : Text → Option Text
non_empty t = if is_empty t then none else some t

abbrev pub split_user : Text → Option (Text × Text) → Option Text × Option Text
split_user userinfo (some (u, p)) = (non_empty u, non_empty p)
split_user userinfo none = (some userinfo, none)

abbrev pub read_user : Option (Text × Text) → Option Text × Option Text
read_user none = (none, none)
read_user (some (userinfo, host)) = split_user userinfo (split_once b':' userinfo)

unfoldable pub userinfo : Option Text → Option Text × Option Text
unfolding split_once rsplit_once
userinfo none = (none, none)
userinfo (some authority) = read_user (rsplit_once b'@' authority)

abbrev pub host_of : Text → Option (Text × Text) → Text
host_of authority (some (userinfo, host)) = host
host_of authority none = authority

module _ (P : Percent) where
  abbrev pub fragment : AsciiSet
  fragment = add b'`' (add b'>' (add b'<' (add b'"' (add b' ' P.controls))))

  abbrev pub path : AsciiSet
  path = add b'}' (add b'{' (add b'?' (add b'#' fragment)))

  -- 92 is a backslash.
  unfoldable pub userinfo_set : AsciiSet
  userinfo_set = add b'|' (
      add b'^'
        (add b']' (add 92 (add b'[' (add b'@' (add b'=' (add b';' (add b':' (add b'/' path)))))))))

  unfoldable pub encode : Text → Text
  unfolding userinfo_set
  encode t = text_of (P.utf8_percent_encode t userinfo_set)

  abbrev pub with_userinfo : Text → Option Text → Text → Text
  with_userinfo [] none host = host
  with_userinfo [] (some password) host = b':' ∷ (encode password ++ (b'@' ∷ host))
  with_userinfo (u ∷ us) (some password) host =
      encode (u ∷ us) ++ (b':' ∷ (encode password ++ (b'@' ∷ host)))
  with_userinfo (u ∷ us) none host = encode (u ∷ us) ++ (b'@' ∷ host)

  -- The authority after `set_userinfo`; `accepts` is whether the `http` crate takes the new one.
  unfoldable pub set_userinfo : (Text → Bool) → Text → Option Text → Option Text → Option Text
  unfolding rsplit_once encode
  set_userinfo accepts username password none = none
  set_userinfo accepts username password (some authority) =
      let host = host_of authority (rsplit_once b'@' authority) in
      let new = with_userinfo username password host in
      some (if accepts new then new else authority)

Free-rfind : (c : ℕ) (xs : Text) → Free c xs → rfind c xs ≡ none
unfolding rfind
Free-rfind c [] h = refl
Free-rfind c (x ∷ xs) h = ground (arith, Free-rfind c xs h.1, h.0)

rfind-at : (c : ℕ) (xs ys : Text) → Free c ys → rfind c (xs ++ (c ∷ ys)) ≡ some (length xs)
unfolding rfind
rfind-at c [] ys h = ground (arith, Free-rfind c ys h)
rfind-at c (x ∷ xs) ys h = ground (arith, rfind-at c xs ys h)

take-length : (xs ys : Text) → take (length xs) (xs ++ ys) ≡ xs
take-length [] ys = refl
take-length (x ∷ xs) ys = ap (◌∷◌ x) (take-length xs ys)

drop-past : (c : ℕ) (xs ys : Text) → drop (suc (length xs)) (xs ++ (c ∷ ys)) ≡ ys
drop-past c [] ys = refl
drop-past c (x ∷ xs) ys = drop-past c xs ys

rsplit_once-at : (c : ℕ) (xs ys : Text) → Free c ys → rsplit_once c (xs ++ (c ∷ ys)) ≡ some (xs, ys)
unfolding rsplit_once
rsplit_once-at c xs ys h =
    rw (rfind-at c xs ys h, rsplit_once, take-length xs (c ∷ ys), drop-past c xs ys) refl

rsplit_once-none : (c : ℕ) (xs : Text) → Free c xs → rsplit_once c xs ≡ none
unfolding rsplit_once
rsplit_once-none c xs h = rw (Free-rfind c xs h, rsplit_once) refl

split_once-at : (c : ℕ) (xs ys : Text) → Free c xs → split_once c (xs ++ (c ∷ ys)) ≡ some (xs, ys)
unfolding split_once
split_once-at c [] ys h = ground arith
split_once-at c (x ∷ xs) ys h = ground (arith, split_once-at c xs ys h.1, h.0)

split_once-none : (c : ℕ) (xs : Text) → Free c xs → split_once c xs ≡ none
unfolding split_once
split_once-none c [] h = refl
split_once-none c (x ∷ xs) h = ground (arith, split_once-none c xs h.1, h.0)

rfind-drop : (c : ℕ) (xs : Text) (i : ℕ) → rfind c xs ≡ some i → Free c (drop (suc i) xs)
unfolding rfind
rfind-drop c [] i h = cc
rfind-drop c (x ∷ xs) i h = elim (Option-cases (rfind c xs)) [
  | inl e ↦ let first : i ≡ 0 = ground arith in rw first (rfind-Free c xs e)
  | inr (j, e) ↦ let later : i ≡ suc j = ground arith in rw later (rfind-drop c xs j e)
]

host_of-Free : (authority : Text) → Free b'@' (host_of authority (rsplit_once b'@' authority))
unfolding rsplit_once
host_of-Free authority = elim (Option-cases (rfind b'@' authority)) [
  | inl e ↦ rw (e, rsplit_once) (rfind-Free b'@' authority e)
  | inr (i, e) ↦ rw (e, rsplit_once) (rfind-drop b'@' authority i e)
]

module _ (P : Percent) where
  encode-Free :
      (c : ℕ) (t : Text) → is_encoded_byte (userinfo_set P) c ≡ false → Free c (encode P t)
  unfolding encode
  encode-Free c t h =
      all_encoded-Free (userinfo_set P) c (text_of (P.utf8_percent_encode t (userinfo_set P))) h
        (P.encode-encoded t (userinfo_set P))

  -- The encoding leaves neither a colon nor an `@`, and makes nothing of nothing alone.
  encode_lem :
      (t : Text)
      → Free b':' (encode P t) × Free b'@' (encode P t) × (is_empty (encode P t) ≡ is_empty t)
  unfolding encode userinfo_set
  encode_lem t =
      (encode-Free b':' t refl, encode-Free b'@' t refl, P.encode-empty t (userinfo_set P))

  with_userinfo-read :
      (username : Text) (password : Option Text) (host : Text)
      → Free b'@' host
      → read_user (rsplit_once b'@' (with_userinfo P username password host)) ≡ (
        elim (is_empty username) [ true ↦ none | false ↦ some (encode P username) ],
        password >>= λ p. if is_empty p then none else some (encode P p),
      )
  with_userinfo-read [] none host free = rw (rsplit_once-none b'@' host free) refl
  with_userinfo-read [] (some p) host free =
      rw
        (
          rsplit_once-at b'@' (b':' ∷ encode P p) host free,
          split_once-at b':' [] (encode P p) tt,
          (encode_lem p).2,
        )
        refl
  with_userinfo-read (u ∷ us) none host free =
      rw
        (
          rsplit_once-at b'@' (encode P (u ∷ us)) host free,
          split_once-none b':' (encode P (u ∷ us)) (encode_lem (u ∷ us)).0,
        )
        refl
  with_userinfo-read (u ∷ us) (some p) host free =
      let user = encode P (u ∷ us) in
      let whole = append_assoc user (b':' ∷ encode P p) (b'@' ∷ host) in
      ap (λ t. read_user (rsplit_once b'@' t)) (sym whole)
      ∙ rw
          (
            rsplit_once-at b'@' (user ++ (b':' ∷ encode P p)) host free,
            split_once-at b':' user (encode P p) (encode_lem (u ∷ us)).0,
            (encode_lem (u ∷ us)).2,
            (encode_lem p).2,
          )
          refl

  -- The user name and the password that are set are read back, percent encoded, whatever stood before the
  -- host, where the new authority is accepted; an empty one of the two is read as none. The encoder
  -- has to encode the bytes of its set, and to make nothing of nothing alone.
  pub userinfo-set_userinfo :
      (accepts : Text → Bool) (username : Text) (password : Option Text) (authority : Text)
      → accepts (with_userinfo P username password (host_of authority (rsplit_once b'@' authority)))
        ≡ true
      → userinfo (set_userinfo P accepts username password (some authority)) ≡ (
        elim (is_empty username) [ true ↦ none | false ↦ some (encode P username) ],
        password >>= λ p. if is_empty p then none else some (encode P p),
      )
  unfolding userinfo set_userinfo
  userinfo-set_userinfo accepts username password authority h = rw h (
      with_userinfo-read username password (host_of authority (rsplit_once b'@' authority))
        (host_of-Free authority))
