-- ===== src/Cookie/Raw.antt =====
-- A cookie as the methods of `cookie::Cookie` show it, and `cookie_is_expired` of
-- src/cookie/store.rs. Times are seconds since the epoch; a `Max-Age` is a signed number of them.
use wreq.Base.{ℕ, Bool, ◌||◌, Option, is_some_and, leb}
use wreq.Base.Text.{Text}

-- `negsuc n` is -(n + 1).
pub data ℤ : Type 0 where
  pos : ℕ → ℤ
  negsuc : ℕ → ℤ

pub record RawCookie : Type 0 where
  pub name : Text
  pub value : Text
  pub domain : Option Text
  pub path : Option Text
  pub secure : Option Bool
  pub max_age : Option ℤ
  pub expires : Option ℕ

-- `max_age <= Duration::ZERO`.
abbrev pub is_non_positive : ℤ → Bool
is_non_positive (pos n) = leb n 0
is_non_positive (negsuc n) = leb 0 0

unfoldable pub cookie_is_expired : RawCookie → ℕ → Bool
cookie_is_expired cookie now =
    is_some_and cookie.max_age is_non_positive
    || is_some_and cookie.expires (λ deadline. leb deadline now)
