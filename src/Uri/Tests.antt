-- ===== src/Uri/Tests.antt =====
-- Runs of the code of src/ext.rs.
use wreq.Base.{◌≡◌, refl, true, some}
use wreq.Base.Eq.{nat_eq}
use wreq.Base.Percent.Hex.{percent}
use wreq.Base.Text.{codes}
use wreq.Uri.Userinfo.{userinfo, set_userinfo, encode, userinfo_set, userinfo-set_userinfo}

userinfo-set_userinfo_example :
    userinfo (
      set_userinfo percent
        (λ t. true)
        (codes "us@er")
        (some (codes "p:1"))
        (some (codes "x:y@a.b:8")))
    ≡ (some (codes "us%40er"), some (codes "p%3A1"))
unfolding encode userinfo_set
userinfo-set_userinfo_example =
    userinfo-set_userinfo percent (λ t. true) (codes "us@er") (some (codes "p:1"))
      (codes "x:y@a.b:8") refl
