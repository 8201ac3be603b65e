-- ===== src/Tunnel/Crates.antt =====
-- What src/conn/proxy/tunnel.rs takes from others: the header map of the `http` crate and the parser
-- of `httparse`.
use wreq.Base.{ℕ, Option, List, ◌≡◌, some, if◌then◌else◌}
use wreq.Base.Eq.{◌==◌, list_eq, nat_eq}
use wreq.Base.Text.{Text}
use wreq.Config.{or}

-- `http::HeaderMap`; `or_insert` is that of an entry.
pub record HeaderMap : Type 1 where
  pub Map : Type 0
  pub get : Text → Map → Option Text
  pub lines : Map → List (Text × Text)
  pub insert : Text → Text → Map → Map
  pub or_insert : Text → Text → Map → Map
  pub extend : Map → Map → Map
  pub get-insert :
      (k j v : Text) (m : Map) → get j (insert k v m) ≡ (if k == j then some v else get j m)
  pub get-or_insert :
      (k j v : Text) (m : Map)
      → get j (or_insert k v m) ≡ (if k == j then or (get j m) (some v) else get j m)
  pub get-extend : (k : Text) (m new : Map) → get k (extend m new) ≡ or (get k new) (get k m)

-- `httparse::Status` of a response, with its code where it is complete.
pub data Status : Type 0 where
  partial : Status
  complete : Option ℕ → Status
