-- ===== src/Proxy/Choosing.antt =====
-- The proxy that a matcher built by src/proxy/matcher.rs chooses for a destination.
use wreq.Base.{
  ◌≡◌, refl, ap, ◌∙◌, Bool, ◌||◌, Option, none, some, inl, inr, arith, if◌then◌else◌, is_none,
  Bool-cases, Option-cases,
}
use wreq.Config.{or}
use wreq.Uri.{Uri, is_http, is_https}
use wreq.Proxy.{Builder, Matcher, Intercepted, proxy, unix_socket, build, intercept}
use wreq.Proxy.Crates.{Libraries}
use wreq.Proxy.Env
use wreq.Proxy.Env.{Intercept, parse_env_uri, with_extra}
use wreq.Proxy.Exempt
use mathlib.Core.Option

module _ {H : Type 0} where
  either_lem :
      (extra : Env.Extra H) (own other all : Option (Intercept H))
      → or (Option.map (with_extra extra) own) (
          if is_none (Option.map (with_extra extra) own)
            || is_none (Option.map (with_extra extra) other)
          then Option.map (with_extra extra) all
          else all)
        ≡ Option.map (with_extra extra) (or own all)
  either_lem extra none other all = refl
  either_lem extra (some i) other all = refl

  either_last :
      (extra : Env.Extra H) (own other all : Option (Intercept H))
      → or (Option.map (with_extra extra) own) (
          if is_none (Option.map (with_extra extra) other)
            || is_none (Option.map (with_extra extra) own)
          then Option.map (with_extra extra) all
          else all)
        ≡ Option.map (with_extra extra) (or own all)
  either_last extra none other all = ground arith
  either_last extra (some i) other all = refl

module _ (x : Libraries) {H U : Type 0} where
  -- The setting for the scheme, or the one for all of them where it is no usable proxy.
  abbrev pub setting : Builder U → Uri → Option (Intercept H)
  setting b dst =
      if is_http dst
      then or (parse_env_uri x b.http) (parse_env_uri x b.all)
      else if is_https dst
      then or (parse_env_uri x b.https) (parse_env_uri x b.all)
      else none

  abbrev pub chosen_outside_cgi : Builder U → Env.Extra H → Uri → Option (Intercepted H U)
  chosen_outside_cgi b extra dst = elim b.unix [
    | some path ↦ some (unix_socket path)
    | none ↦ elim dst.host [
      | none ↦ none
      | some host ↦
          if Exempt.contains x (Exempt.from_string x b.no) host
          then none
          else Option.map (λ i. proxy (with_extra extra i)) (setting b dst)
    ]
  ]

  abbrev pub chosen : Builder U → Env.Extra H → Uri → Option (Intercepted H U)
  chosen b extra dst = if b.is_cgi then none else chosen_outside_cgi b extra dst

  map_map :
      (extra : Env.Extra H) (o : Option (Intercept H))
      → ◌≡◌ {A = Option (Intercepted H U)}
          (Option.map proxy (Option.map (with_extra extra) o))
          (Option.map (λ i. proxy (with_extra extra i)) o)
  map_map extra none = refl
  map_map extra (some i) = refl

  if_map :
      {o p : Option (Intercepted H U)} (c : Bool)
      → o ≡ p
      → (if c then none else o) ≡ (if c then none else p)
  if_map c h = ap (λ q. if c then none else q) h

  no_map :
      (c h s : Bool)
      → ◌≡◌ {A = Option (Intercepted H U)}
          (if c then none else if h then none else if s then none else none)
          none
  no_map c h s = ground arith

  abbrev empty : Matcher x H U
  empty = record { http = none; https = none; no = Exempt.no_proxy x; unix = none }

  nothing : (dst : Uri) → intercept x empty dst ≡ none
  unfolding intercept
  nothing dst = elim (Option-cases dst.host) [
    | inl e ↦ rw (e, intercept) refl
    | inr (host, e) ↦
        rw (e, intercept)
          (no_map (Exempt.contains x (Exempt.no_proxy x) host) (is_http dst) (is_https dst))
  ]

  abbrev settled : Builder U → Env.Extra H → Matcher x H U
  settled b extra =
      let all = parse_env_uri x b.all in
      let http = Option.map (with_extra extra) (parse_env_uri x b.http) in
      let https = Option.map (with_extra extra) (parse_env_uri x b.https) in
      let all' = if is_none http || is_none https then Option.map (with_extra extra) all else all in
      record {
        http = or http all';
        https = or https all';
        no = Exempt.from_string x b.no;
        unix = b.unix;
      }

  not_cgi :
      (b : Builder U) (extra : Env.Extra H) (dst : Uri)
      → intercept x (settled b extra) dst ≡ chosen_outside_cgi b extra dst
  unfolding intercept
  not_cgi b extra dst = elim (Option-cases b.unix) [
    | inr (path, e') ↦ rw (e', intercept) refl
    | inl e' ↦ elim (Option-cases dst.host) [
      | inl e'' ↦ rw (e', e'', intercept) refl
      | inr (host, e'') ↦
          let exempt = Exempt.contains x (Exempt.from_string x b.no) host in
          let http = parse_env_uri x b.http in
          let https = parse_env_uri x b.https in
          let all = parse_env_uri x b.all in
          rw (e', e'', intercept)
            (elim (Bool-cases (is_http dst)) [
              | inl h ↦ rw h (
                  if_map exempt (
                    ap (Option.map proxy) (either_lem extra http https all)
                    ∙ map_map extra (or http all)))
              | inr h ↦ elim (Bool-cases (is_https dst)) [
                | inl h' ↦
                    rw (h, h')
                      (if_map exempt (
                        ap (Option.map proxy) (either_last extra https http all)
                        ∙ map_map extra (or https all)))
                | inr h' ↦ rw (h, h') refl
              ]
            ])
    ]
  ]

  -- What a matcher chooses that was built from these settings, for any destination: nothing in a CGI
  -- program; else the socket, where one is set, whatever the destination; else nothing for a
  -- destination without a host or with one on the list of hosts without a proxy; else the setting
  -- for the destination's scheme or, where that is no usable proxy, the one for all schemes, with
  -- the extra headers and credentials attached, and nothing for a scheme other than http and https.
  pub intercept-chosen :
      (b : Builder U) (extra : Env.Extra H) (dst : Uri)
      → intercept x (build x b extra) dst ≡ chosen b extra dst
  unfolding build
  intercept-chosen b extra dst = elim (Bool-cases b.is_cgi) [
    | inl e ↦ rw e (nothing dst)
    | inr e ↦ rw e (not_cgi b extra dst)
  ]
