-- ===== src/Group/Tests.antt =====
-- Runs of the code of src/group.rs and src/conn/descriptor.rs.
use wreq.Base.{ℕ, ◌≡◌, refl, none, some, Option}
use wreq.Base.Text.{codes}
use wreq.Cookie.Jar.Header.{http_2}
use wreq.Group.{
  Types, owned, borrowed, names, versions, named, version, extend, new, new_descriptor,
}
use wreq.Group.Identity.{find, extend_both}
use wreq.Group.Distinct.{connection_id_distinct}

abbrev types : Types
types = record { Uri = ℕ; Matcher = ℕ; SocketBindOptions = ℕ; TlsOptions = ℕ }

-- The name is looked up, which the group had too.
extend_both_example :
    (extend types named
        (some (names (borrowed (codes "w"))))
        (extend types version (some (versions http_2)) (new types (owned (codes "v"))))
      ≡ extend types version (some (versions http_2)) (
          extend types named (some (names (borrowed (codes "w")))) (new types (owned (codes "v")))))
    × (find types named (
          extend types named
            (some (names (borrowed (codes "w"))))
            (extend types version (some (versions http_2)) (new types (owned (codes "v")))))
        ≡ some (names (borrowed (codes "w"))))
extend_both_example =
    extend_both types named version named (some (names (borrowed (codes "w"))))
      (some (versions http_2)) (new types (owned (codes "v"))) (λ e. cc)

-- Nothing but the options of TLS differs.
connection_id_distinct_example :
    (◌≡◌ {A = ℕ} 80 80)
    × (some http_2 ≡ some http_2)
    × (◌≡◌ {A = Option ℕ} (some 1) (some 1))
    × (◌≡◌ {A = Option ℕ} none none)
unfolding new new_descriptor
connection_id_distinct_example =
    connection_id_distinct types 80 80 (new types (owned (codes "w"))) (some 1) (some 1)
      (some http_2) (some http_2) (some 4) (some 5) none none refl refl refl
