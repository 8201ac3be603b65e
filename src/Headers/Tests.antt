-- ===== src/Headers/Tests.antt =====
-- Runs of the code of src/header.rs, src/util.rs and src/client/layer/config.rs.
use wreq.Base.{
  ℕ, ◌≡◌, refl, Bool, true, false, none, some, Option, [], ◌∷◌, any, flat_map, Bool-cases, inl, inr,
  arith, subst, map, ◌||◌,
}
use wreq.Base.Eq.{◌==◌, eq_iff, list_eq, nat_eq, list_beq}
use wreq.Base.Text.{Text, codes, to_ascii_lowercase}
use wreq.Config.{RequestConfig, Extensions}
use wreq.Uri.{https}
use wreq.Headers.{HeaderMaps, has_name}
use wreq.Headers.Listed.{names, drop_name, Lines, listed, values}
use wreq.Headers.Original.{HeaderCaseName, cased, call, call-get_all}
use wreq.Headers.Visiting.{under, call_visit, call_visit-under}
use wreq.Headers.Service
use wreq.Headers.Service.{Defaults, IsHanded, call-IsHanded, new_defaults}

abbrev headers : HeaderMaps ℕ
headers = listed

abbrev sent : Lines ℕ
sent = (codes "host", 1) ∷ (codes "cookie", 2) ∷ (codes "cookie", 3) ∷ []

abbrev order : Lines HeaderCaseName
order = (codes "cookie", cased (codes "Cookie")) ∷ []

call-get_all_example : values (codes "cookie") (call listed listed order sent) ≡ 2 ∷ 3 ∷ []
unfolding values list_beq
call-get_all_example = call-get_all listed listed order sent (codes "cookie")

abbrev extensions : (A : Type 0) → Extensions (RequestConfig A)
extensions A = record {
  Ext = Option (RequestConfig A);
  get = λ e. e;
  insert = λ a e. some a;
  remove = λ e. none;
  get-insert = λ a e. refl;
  get-remove = λ e. refl;
}

abbrev defaults : Defaults headers (extensions ℕ) (extensions Bool)
defaults =
    new_defaults headers (extensions ℕ) (extensions Bool) (λ o. false) true
      ((codes "accept", 7) ∷ (codes "cookie", 8) ∷ []) 6

abbrev request : Service.Request headers (extensions ℕ) (extensions Bool)
request = record {
  uri = record { scheme = some https; host = some (codes "a.b"); port = none; path = codes "/" };
  headers = sent;
  orig_ext = none;
  default_ext = none;
}

call-IsHanded_example :
    IsHanded headers
      (extensions ℕ)
      (extensions Bool)
      defaults
      request
      (Service.call headers (extensions ℕ) (extensions Bool) defaults request)
call-IsHanded_example = call-IsHanded headers (extensions ℕ) (extensions Bool) defaults request

abbrev lower : Text → Text
lower t = map to_ascii_lowercase t

either : (k : Text) → (codes "host" == k) || ((codes "cookie" == k) || false) ≡ true → lower k ≡ k
unfolding to_ascii_lowercase
either k here = elim (Bool-cases (codes "host" == k)) [
  | inl e ↦ subst (λ a. lower a ≡ a) ((eq_iff (codes "host") k).0 e) refl
  | inr e ↦ elim (Bool-cases (codes "cookie" == k)) [
    | inl f ↦ subst (λ a. lower a ≡ a) ((eq_iff (codes "cookie") k).0 f) refl
    | inr f ↦ let no : ⊥ = ground (arith, e, f, here) in elim no [ ]
  ]
]

lower_sent : (k : Text) → has_name k (headers.keys sent) ≡ true → lower k ≡ k
unfolding any names drop_name list_beq
lower_sent k here = either k here

call_visit-under_example :
    under headers lower (codes "cookie") (call_visit headers listed order sent) ≡ 2 ∷ 3 ∷ []
unfolding values list_beq names drop_name flat_map to_ascii_lowercase
call_visit-under_example =
    call_visit-under headers lower listed order sent (codes "cookie") (refl, tt) lower_sent
