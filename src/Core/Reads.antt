-- ===== src/Core/Reads.antt =====
-- core/client-connector-server.go: the loop that reads the requests of a client, and its upgrade.
-- isWebSocketRequest of core/mitm.go is the function of the same name of core_refactor/utils.go.
pub mod Dispatch
use mitm_proxy.Base.{
  ℕ, Bool, true, false, not, ◌&&◌, List, [], ◌∷◌, Option, none, some, ltb, ◌==◌, if◌then◌else◌,
}
use mitm_proxy.Text.{Bytes, bytes, bytes_eq}
use mitm_proxy.Text.Table.{Table}
use mitm_proxy.Http.Error.{GoError, Result, ok, err}
use mitm_proxy.Http.Message.{Request, string_reader, read_all}
use mitm_proxy.Net.Address.{split_host_port}
use mitm_proxy.Net.Certificates.{CertLib, TlsCertificate}
use mitm_proxy.Refactor.Hosts.{is_web_socket_request}
use mitm_proxy.Core.Certificates.{Signed, sign_host}

-- A request as it is handed on: with its flag for WebSocket requests, and whether it is handled
-- beside the loop (`go`) or by the loop itself.
pub record Handed : Type 0 where
  pub request : Request
  pub is_ws : Bool
  pub beside : Bool

-- The client, the cache of certificates, the random source and the connection.
pub record Reader (Priv R W : Type 0) : Type 0 where
  pub is_tls : Bool
  pub tls_conn : Option (TlsCertificate Priv)
  pub cache : Table (TlsCertificate Priv)
  pub random : R
  pub writer : W
  pub fault : Option GoError

unfoldable pub is_small : Request → Bool → Bool
is_small req is_ws = elim req.content_length [
  | none ↦ false
  | some size ↦ not is_ws && ltb size 262144
]

-- The body of a small request is read at once; an error of that read ends the loop.
unfoldable pub handed : Request → Bool → Result Handed
handed req is_ws =
    if is_small req is_ws
    then (elim req.content_length [
      | none ↦ ok (record { request = req; is_ws = is_ws; beside = true })
      | some size ↦
          if size == 0
          then ok (record { request = req; is_ws = is_ws; beside = true })
          else (elim (read_all req.body) [
            | err e ↦ err e
            | ok body ↦ ok (record {
              request = record req { body = string_reader body };
              is_ws = is_ws;
              beside = true;
            })
          ])
    ])
    else ok (record { request = req; is_ws = is_ws; beside = false })

abbrev pub host_name : Bytes → Bytes
host_name host = elim (split_host_port host) [ some (h, p) ↦ h | none ↦ host ]

module _ {Cert Key Priv R W : Type 0} (lib : CertLib Cert Key Priv R) (cert : Cert) (key : Key)
    (write : W → Bytes → Option GoError × W) where
  unfoldable pub signed_for : Reader Priv R W → Option (Signed lib) → Reader Priv R W
  signed_for s none = s
  signed_for s (some (err e, cache, r)) = record s { cache = cache; random = r; fault = some e }
  signed_for s (some (ok c, cache, r)) = record s {
    cache = cache;
    random = r;
    is_tls = true;
    tls_conn = some c;
    fault = none;
  }

  unfoldable pub confirmed : Reader Priv R W → Bytes → Option GoError × W → Reader Priv R W
  confirmed s host (some e, w) = record s { writer = w; fault = some e }
  confirmed s host (none, w) =
      signed_for (record s { writer = w })
        (sign_host lib (host_name host ∷ []) cert key s.cache s.random)

  -- The error is kept in the client, where the loop looks at it.
  unfoldable pub upgrade_client_2_tls : Bytes → Reader Priv R W → Reader Priv R W
  upgrade_client_2_tls host s =
      confirmed s host (write s.writer (bytes "HTTP/1.1 200 Connection Established\r\n\r\n"))

  -- The first argument is what the reads return; the result has the requests that are handed on.
  unfoldable pub read_request :
      List (Result Request) → Reader Priv R W → List Handed × Reader Priv R W
  read_request [] s = ([], s)
  read_request (err e ∷ reads) s = ([], s)
  read_request (ok req ∷ reads) s =
      let upgraded = read_request reads (upgrade_client_2_tls req.host s) in
      let rest = read_request reads s in
      elim s.fault [
        | some e ↦ ([], s)
        | none ↦
            if bytes_eq req.method (bytes "CONNECT")
            then upgraded
            else (elim (handed req (is_web_socket_request req)) [
              | err e ↦ ([], s)
              | ok h ↦ (h ∷ rest.0, rest.1)
            ])
      ]
