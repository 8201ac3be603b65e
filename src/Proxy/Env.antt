-- ===== src/Proxy/Env.antt =====
-- `parse_env_uri` and `Intercept` of src/proxy/matcher.rs, and `basic_auth` of src/util.rs.
use wreq.Base.{
  ℕ, suc, Bool, true, false, not, ◌&&◌, ◌||◌, Option, none, some, [], ◌∷◌, ◌++◌, if◌then◌else◌,
  drop,
}
use wreq.Base.Eq.{◌==◌, nat_eq, list_eq}
use wreq.Base.Text.{Text, codes, rfind, take}
use wreq.Base.Maybe.{unwrap_or}
use wreq.Uri.{Uri}
use wreq.Proxy.Crates.{Libraries}
use mathlib.Core.Option

pub data Auth : Type 0 where
  no_auth : Auth
  basic : Text → Auth
  raw : Text → Text → Auth

pub record Extra (H : Type 0) : Type 0 where
  pub auth : Option Text
  pub misc : Option H

pub record Intercept (H : Type 0) : Type 0 where
  pub uri : Uri
  pub auth : Auth
  pub extra : Extra H

abbrev pub with_extra : {H : Type 0} → Extra H → Intercept H → Intercept H
with_extra extra i = record i { extra = extra }

-- `Intercept::basic_auth`
unfoldable pub intercept_basic_auth : {H : Type 0} → Intercept H → Option Text
intercept_basic_auth i = elim i.extra.auth [
  | some val ↦ some val
  | none ↦ elim i.auth [ basic val ↦ some val | no_auth ↦ none | raw u p ↦ none ]
]

-- `str::split_once` and `str::rsplit_once` at one character.
unfoldable pub split_once : ℕ → Text → Option (Text × Text)
split_once c [] = none
split_once c (y ∷ ys) =
    if y == c
    then some ([], ys)
    else elim (split_once c ys) [ none ↦ none | some (a, b) ↦ some (y ∷ a, b) ]

unfoldable pub rsplit_once : ℕ → Text → Option (Text × Text)
unfolding rfind
rsplit_once c t = elim (rfind c t) [ none ↦ none | some i ↦ some (take i t, drop (suc i) t) ]

-- The kinds of scheme that the code tells apart: whether a scheme is one of SOCKS.
unfoldable pub socks_scheme : Text → Option Bool
socks_scheme s =
    if s == codes "http" || s == codes "https"
    then some false
    else if s == codes "socks4"
        || s == codes "socks4a"
        || s == codes "socks5"
        || s == codes "socks5h"
    then some true
    else none

module _ (x : Libraries) where
  unfoldable pub basic_auth : Text → Option Text → Text
  basic_auth username password =
      codes "Basic " ++ x.base64 (username ++ (codes ":" ++ unwrap_or [] password))

  -- The authority, with the default port of SOCKS where there is none.
  unfoldable pub with_port : Bool → Text → Option Text
  with_port is_socks authority =
      if is_socks && not (x.authority_has_port authority)
      then x.parse_authority (authority ++ codes ":1080")
      else some authority

  unfoldable pub auth_of : Bool → Text → Auth
  unfolding split_once basic_auth
  auth_of is_socks userinfo =
      let parts : Text × Option Text = elim (split_once b':' userinfo) [
        | some (u, p) ↦ (u, some p)
        | none ↦ (userinfo, none)
      ] in
      let user = x.percent_decode_lossy parts.0 in
      let pass = Option.map x.percent_decode_lossy parts.1 in
      if is_socks then raw user (unwrap_or [] pass) else basic (basic_auth user pass)

  unfoldable pub split_userinfo : Bool → Text → Auth × Text
  unfolding rsplit_once auth_of
  split_userinfo is_socks authority = elim (rsplit_once b'@' authority) [
    | some (userinfo, host_port) ↦ (auth_of is_socks userinfo, host_port)
    | none ↦ (no_auth, authority)
  ]

  unfoldable pub parse_env_uri : {H : Type 0} → Text → Option (Intercept H)
  unfolding socks_scheme with_port split_userinfo
  parse_env_uri val = elim (x.parse_uri val) [
    | none ↦ none
    | some uri ↦
        let scheme = unwrap_or (codes "http") uri.scheme in
        elim (socks_scheme scheme) [
          | none ↦ none
          | some is_socks ↦ elim uri.authority [
            | none ↦ none
            | some given ↦ elim (with_port is_socks given) [
              | none ↦ none
              | some authority ↦
                  let (auth, host_port) = split_userinfo is_socks authority in
                  elim (x.build_uri scheme host_port) [
                    | none ↦ none
                    | some built ↦ some (record {
                      uri = built;
                      auth = auth;
                      extra = record { auth = none; misc = none };
                    })
                  ]
            ]
          ]
        ]
  ]
