-- ===== src/Tunnel.antt =====
-- The CONNECT tunnel through an HTTP proxy, src/conn/proxy/tunnel.rs.
pub mod Crates
pub mod Reading
mod Tests
use wreq.Base.{ℕ, Bool, true, false, Option, none, some, List, [], ◌∷◌, ◌++◌, if◌then◌else◌}
use wreq.Base.Eq.{◌==◌, nat_eq}
use wreq.Config.{or}
use wreq.Base.Results.{Result, ok, err}
use wreq.Base.Text.{Text, codes}
use wreq.Uri.{Uri, port_or_default}
use Crates.{HeaderMap, Status, partial, complete}

pub data Headers (H : HeaderMap) : Type 0 where
  empty : Headers H
  auth : Text → Headers H
  extra : H.Map → Headers H

-- `E` is an error of the connection, and `P` one of the parser.
pub data TunnelError (E P : Type 0) : Type 0 where
  connect_failed io : E → TunnelError E P
  parse : P → TunnelError E P
  missing_host proxy_auth_required tunnel_unexpected_eof tunnel_unsuccessful : TunnelError E P

module _ (H : HeaderMap) where
  unfoldable pub with_auth : Headers H → Text → Headers H
  with_auth empty value = auth value
  with_auth (auth existing) value = auth value
  with_auth (extra map) value = extra (H.insert (codes "proxy-authorization") value map)

  unfoldable pub with_headers : Headers H → H.Map → Headers H
  with_headers empty headers = extra headers
  with_headers (auth value) headers =
      extra (H.or_insert (codes "proxy-authorization") value headers)
  with_headers (extra map) headers = extra (H.extend map headers)

  unfoldable pub header_lines : List (Text × Text) → Text
  header_lines [] = []
  header_lines ((name, value) ∷ lines) =
      name ++ (codes ": " ++ (value ++ (codes "\r\n" ++ header_lines lines)))

  unfoldable pub headers_text : Headers H → Text
  unfolding header_lines
  headers_text empty = []
  headers_text (auth value) = codes "Proxy-Authorization: " ++ (value ++ codes "\r\n")
  headers_text (extra map) = header_lines (H.lines map)

  -- What `tunnel` writes; `show` renders a number.
  unfoldable pub request : (ℕ → Text) → Text → ℕ → Headers H → Text
  unfolding headers_text
  request show host port headers =
      let target = host ++ (codes ":" ++ show port) in
      codes "CONNECT "
      ++ (target
          ++ (codes " HTTP/1.1\r\nHost: "
              ++ (target ++ (codes "\r\n" ++ (headers_text headers ++ codes "\r\n")))))

module _ {E P : Type 0} where
  -- A complete response, by its status code.
  unfoldable pub judge : Option ℕ → Result (TunnelError E P) (Unit {0})
  judge none = err tunnel_unsuccessful
  judge (some code) =
      if code == 200
      then ok tt
      else if code == 407
      then err proxy_auth_required
      else err tunnel_unsuccessful

  -- What a parse ends the loop with, if it does.
  unfoldable pub settle : Result P Status → Option (Result (TunnelError E P) (Unit {0}))
  unfolding judge
  settle (err e) = some (err (parse e))
  settle (ok partial) = none
  settle (ok (complete code)) = some (judge code)

module _ {E P : Type 0} (parser : Text → Result P Status) where
  -- The loop of `tunnel` over the results of its reads, with the bytes so far. `none`: the loop still
  -- waits for a read.
  unfoldable pub read_response :
      Text → List (Result E Text) → Option (Result (TunnelError E P) (Unit {0}))
  unfolding settle
  read_response buf [] = none
  read_response buf (err e ∷ reads) = some (err (io e))
  read_response buf (ok [] ∷ reads) = some (err tunnel_unexpected_eof)
  read_response buf (ok (c ∷ cs) ∷ reads) =
      let rest = read_response (buf ++ (c ∷ cs)) reads in
      or (settle (parser (buf ++ (c ∷ cs)))) rest

  -- `call`, with `tunnel`: the results of the connection, of the write and of the flush come first.
  unfoldable pub establish :
      Uri
      → Result E (Unit {0})
      → Result E (Unit {0})
      → Result E (Unit {0})
      → List (Result E Text)
      → Option (Result (TunnelError E P) (Unit {0}))
  unfolding read_response
  establish dst (err e) written flushed reads = some (err (connect_failed e))
  establish dst (ok _) written flushed reads = elim dst.host [
    | none ↦ some (err missing_host)
    | some host ↦ elim written [
      | err e ↦ some (err (io e))
      | ok _ ↦ elim flushed [ err e ↦ some (err (io e)) | ok _ ↦ read_response [] reads ]
    ]
  ]
