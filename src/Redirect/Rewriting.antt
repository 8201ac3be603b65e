-- ===== src/Redirect/Rewriting.antt =====
-- What a redirect makes of the method, the body and the payload headers of its request, in
-- src/client/layer/redirect/future.rs.
use wreq.Base.{
  ℕ, ◌≡◌, Bool, true, false, ◌&&◌, ◌||◌, not, none, some, List, [], ◌∷◌, arith, any, if◌then◌else◌,
}
use wreq.Base.Eq.{◌==◌, list_eq, nat_eq}
use wreq.Redirect.Crates.{
  HeaderMaps, HeaderName, Method, get, Request, content_type, content_length, content_encoding,
  transfer_encoding,
}
use wreq.Redirect.Layer.{is_post, is_head, rewrite, drop_payload_headers}

abbrev pub payload : List HeaderName
payload = content_type ∷ content_length ∷ content_encoding ∷ transfer_encoding ∷ []

-- The redirects that lose the body: 303, and 301 or 302 of a `POST`.
abbrev pub loses_body : ℕ → Method → Bool
loses_body status m = status == 303 || (is_post m && (status == 301 || status == 302))

abbrev pub redirects : ℕ → Bool
redirects status = any (λ n. status == n) (301 ∷ 302 ∷ 303 ∷ 307 ∷ 308 ∷ [])

drop_payload_headers-get :
    (H : HeaderMaps) (m : H.Map) (k : HeaderName)
    → H.get k (drop_payload_headers H m) ≡ (if any (λ n. n == k) payload then none else H.get k m)
unfolding drop_payload_headers any
drop_payload_headers-get H m k =
    rw (H.get-remove, H.get-remove, H.get-remove, H.get-remove) (ground arith)

-- The statuses 301, 302, 303, 307 and 308 redirect, and no others.
rewrite-none :
    (H : HeaderMaps) (status : ℕ) (req : Request H)
    → rewrite H status req ≡ none
    → redirects status ≡ false
unfolding rewrite any
rewrite-none H status req h = ground arith

-- A rewritten request is of a redirecting status and goes to the same URI. It is told to send an
-- empty body exactly on 303, and on 301 and 302 of a `POST`. Then its method is `GET`, or `HEAD` where
-- it was, and its payload headers are gone; the other headers stay. Else it is the request itself.
rewrite-redirects :
    (H : HeaderMaps) (status : ℕ) (req sent : Request H) (drops_body : Bool) (k : HeaderName)
    → rewrite H status req ≡ some (sent, drops_body)
    → (redirects status ≡ true)
      × (sent.uri ≡ req.uri)
      × (drops_body ≡ loses_body status req.method)
      × (sent.method ≡ (if drops_body && not (is_head req.method) then get else req.method))
      × (H.get k sent.headers
          ≡ (if drops_body && any (λ n. n == k) payload then none else H.get k req.headers))
unfolding rewrite any
rewrite-redirects H status req sent drops_body k h = (
  ground arith,
  ground arith,
  ground arith,
  ground arith,
  ground (arith, drop_payload_headers-get H req.headers k),
)
