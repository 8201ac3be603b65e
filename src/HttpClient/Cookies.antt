-- ===== src/HttpClient/Cookies.antt =====
-- The `Cookie` header that `try_send_request` of src/client/layer/client.rs adds to a request.
use wreq.Base.{
  ◌≡◌, refl, true, ◌&&◌, some, List, [], ◌∷◌, is_empty, if◌then◌else◌, inl, inr, Bool-cases, ◌∙◌,
  subst,
}
use wreq.Base.Eq.{◌==◌, eq_iff, list_eq, nat_eq}
use wreq.Base.Text.{Text}
use wreq.Headers.{HeaderName}
use wreq.Headers.Groups.{get_all-append_all}
use wreq.Cookie.Jar.Header.{Version, http_2, http_11, Cookies, compressed, uncompressed, empty}
use wreq.HttpClient.{Uri, Crates, HeaderMap, PoolClient, is_http2}
use wreq.HttpClient.Preparing.{cookie, get_all, insert_cookies, add_cookies}

is_empty-nil : (vs : List Text) → is_empty vs ≡ true → vs ≡ []
is_empty-nil [] h = refl
is_empty-nil (v ∷ vs) h = cc

module _ (x : Crates) where
  -- The values of `Cookie` that a store's answer stands for.
  abbrev pub cookie_values : Cookies → List Text
  cookie_values (compressed value) = value ∷ []
  cookie_values (uncompressed values) = values
  cookie_values empty = []

  -- Every header after the cookies of a store: only a request that has no `Cookie` is given the ones
  -- that the store has for this URI, in one value for HTTP/1 and in the store's own for HTTP/2.
  abbrev pub with_cookies :
      (Uri → Version → Cookies) → PoolClient x → Uri → HeaderMap x → HeaderName → List Text
  with_cookies cookies pooled uri m j =
      if cookie == j && is_empty (get_all x cookie m)
      then cookie_values (cookies uri (if is_http2 x pooled then http_2 else http_11))
      else get_all x j m

  no_values :
      (m : HeaderMap x) (j : HeaderName)
      → is_empty (get_all x cookie m) ≡ true
      → (cookie == j) ≡ true
      → get_all x j m ≡ []
  no_values m j e same =
      is_empty-nil (get_all x j m)
        (subst (λ a. is_empty (get_all x a m) ≡ true) ((eq_iff cookie j).0 same) e)

  insert_cookies-get_all :
      (c : Cookies) (m : HeaderMap x) (j : HeaderName)
      → is_empty (get_all x cookie m) ≡ true
      → get_all x j (insert_cookies x c m)
        ≡ (if cookie == j then cookie_values c else get_all x j m)
  insert_cookies-get_all (compressed value) m j e = x.headers.get_all-insert cookie j value m
  insert_cookies-get_all (uncompressed values) m j e = elim (Bool-cases (cookie == j)) [
    | inl same ↦
        let here : cookie ≡ j = (eq_iff cookie j).0 same in
        let none_here = no_values m j e same in
        get_all-append_all x.headers cookie j values m ∙ rw (same, none_here) refl
    | inr differs ↦ get_all-append_all x.headers cookie j values m ∙ rw differs refl
  ]
  insert_cookies-get_all empty m j e = elim (Bool-cases (cookie == j)) [
    | inl same ↦ rw same (no_values m j e same)
    | inr differs ↦ rw differs refl
  ]

  -- Cookies are added to a request exactly where it has no `Cookie` of its own: then it has those that
  -- the store gives for the URI, in the form for the connection's version; every other header stays.
  pub add_cookies-get_all :
      (cookies : Uri → Version → Cookies) (pooled : PoolClient x) (uri : Uri) (m : HeaderMap x)
      (j : HeaderName)
      → get_all x j (add_cookies x (some cookies) pooled uri m)
        ≡ with_cookies cookies pooled uri m j
  unfolding add_cookies
  add_cookies-get_all cookies pooled uri m j = elim (Bool-cases (is_empty (get_all x cookie m))) [
    | inl e ↦
        let found = cookies uri (if is_http2 x pooled then http_2 else http_11) in
        elim (Bool-cases (cookie == j)) [
          | inl same ↦ rw (e, same) (insert_cookies-get_all found m j e ∙ rw same refl)
          | inr differs ↦ rw (e, differs) (insert_cookies-get_all found m j e ∙ rw differs refl)
        ]
    | inr e ↦ elim (Bool-cases (cookie == j)) [
      | inl same ↦ rw (e, same) refl
      | inr differs ↦ rw (e, differs) refl
    ]
  ]
