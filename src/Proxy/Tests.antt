-- ===== src/Proxy/Tests.antt =====
-- Settings read by crates that know one address and one network.
use wreq.Base.{ℕ, leb, ◌≡◌, refl, true, false, none, some, [], any, ◌∷◌, if◌then◌else◌}
use wreq.Base.Eq.{◌==◌, nat_eq, list_eq, list_beq}
use wreq.Base.Text.{Text, codes, eq_ignore_ascii_case}
use wreq.Uri
use wreq.Uri.{Uri}
use wreq.Proxy.{Builder, build, intercept}
use wreq.Proxy.Crates.{Libraries}
use wreq.Proxy.Env.{Extra}
use wreq.Proxy.Exempt
use wreq.Proxy.Exempt.{from_string, split, trim}
use wreq.Proxy.Listed.{contains-from_string}
use wreq.Proxy.Choosing.{chosen, intercept-chosen}

abbrev plain_uri : Text → Uri
plain_uri host = record { scheme = some Uri.http; host = some host; port = none; path = codes "/" }

abbrev crates : Libraries
crates = record {
  IpAddr = ℕ;
  IpNet = ℕ;
  addr_eq = nat_eq;
  parse_addr = λ t. if t == codes "10.0.0.1" then some 1 else none;
  parse_net = λ t. if t == codes "10.0.0.0/8" then some 8 else none;
  net_contains = λ net addr. leb addr net;
  parse_uri = λ t. some (record { scheme = none; authority = some t });
  authority_has_port = λ t. false;
  parse_authority = λ t. some t;
  build_uri = λ scheme authority. some (plain_uri authority);
  percent_decode_lossy = λ t. t;
  base64 = λ t. t;
}

contains-from_string_example :
    Exempt.contains crates
      (from_string crates (codes "10.0.0.0/8, .Example.com"))
      (codes "www.example.com")
    ≡ true
unfolding any split trim Exempt.strip_ipv6_brackets list_beq eq_ignore_ascii_case
contains-from_string_example =
    contains-from_string crates (codes "10.0.0.0/8, .Example.com") (codes "www.example.com") refl

abbrev settings : Builder ℕ
settings = record {
  is_cgi = false;
  all = codes "u:p@everywhere";
  http = [];
  https = [];
  no = codes "local";
  unix = none;
}

abbrev no_extra : Extra ℕ
no_extra = record { auth = none; misc = none }

intercept-chosen_example :
    intercept crates (build crates settings no_extra) (plain_uri (codes "site"))
    ≡ chosen crates settings no_extra (plain_uri (codes "site"))
intercept-chosen_example = intercept-chosen crates settings no_extra (plain_uri (codes "site"))

-- A no-break space before a name and an ideographic one after it.
trim_run : trim (194 ∷ 160 ∷ b'a' ∷ 227 ∷ 128 ∷ 128 ∷ []) ≡ b'a' ∷ []
unfolding trim
trim_run = refl
