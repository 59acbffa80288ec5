-- ===== src/Core/Connector.antt =====
-- core/client-connector-server.go: the connections of one client to its targets, the upgrade to
-- TLS and the retry of a request.
pub mod Leak
pub mod Targets
use mitm_proxy.Base.{
  ℕ, Bool, true, false, not, ◌&&◌, ◌||◌, List, [], ◌∷◌, ◌++◌, Option, none, some, ◌==◌,
  if◌then◌else◌,
}
use mitm_proxy.Text.{Bytes, bytes, bytes_eq, is_empty, contains, last_index, crlf, before}
use mitm_proxy.Text.Table.{Table, find, store}
use mitm_proxy.Text.Base64.{encode}
use mitm_proxy.Http.Error.{GoError, other, error_text, Result, ok, err}
use mitm_proxy.Http.Status.{status_ok}
use mitm_proxy.Http.Message.{Stream, Request, Response}
use mitm_proxy.Net.Upstream.{Link, Upstream, SentRequest}

-- `ProxyArray`: protocol, address, account, password.
pub record ProxyArray : Type 0 where
  pub protocol : Bytes
  pub addr : Bytes
  pub account : Bytes
  pub password : Bytes

-- The pointers in the map stand for one server each: a change goes to the map's entry.
pub record Server : Type 0 where
  pub raw : ℕ
  pub is_tls : Bool

abbrev pub link : Server → Link
link s = record { raw = s.raw; is_tls = s.is_tls }

pub record Connector (N : Type 0) : Type 0 where
  pub client_tls : Bool
  pub server : Table Server
  pub net : N
  pub body : Stream

pub record MyRequest : Type 0 where
  pub raw : Request
  pub proxy : ProxyArray

unfoldable pub is_server_tls : Request → Bool → Bool
is_server_tls req client_tls =
    if bytes_eq req.scheme (bytes "https")
    then true
    else if bytes_eq req.scheme (bytes "http")
    then false
    else if is_empty req.scheme
    then client_tls
    else false

-- The host with a port, or the proxy where one is set.
unfoldable pub target_of : MyRequest → Bool → Bytes
target_of request client_tls =
    let host = request.raw.host in
    let ported : Bytes = elim (last_index host (bytes ":")) [
      | some i ↦ host
      | none ↦ host ++ (if is_server_tls request.raw client_tls then bytes ":443" else bytes ":80")
    ] in
    if is_empty request.proxy.addr then ported else request.proxy.addr

unfoldable pub connect_text : Bytes → ProxyArray → Bytes
connect_text addr proxy =
    bytes "CONNECT "
    ++ (addr
        ++ (bytes " HTTP/1.1\r\nHost: "
            ++ (addr
                ++ (bytes "\r\nProxy-Authorization: Basic "
                    ++ (encode (proxy.account ++ (b':' ∷ proxy.password)) ++ bytes "\r\n\r\n")))))

unfoldable pub tls_addr : Bytes → Bytes
tls_addr host = if contains host (bytes ":") then host else host ++ bytes ":443"

module _ {N : Type 0} (up : Upstream N) where
  unfoldable pub connect_answer : Result Response × N → Option GoError × N
  connect_answer (err e, n) =
      (some (other (bytes "failed to read CONNECT response: " ++ error_text e)), n)
  connect_answer (ok resp, n) = (
    if resp.status_code == status_ok
        then none
        else some (other (bytes "proxy returned non-200 status: " ++ resp.status)),
    n,
  )

  unfoldable pub connect_sent : Server → Option GoError × N → Option GoError × N
  connect_sent srv (some e, n) =
      (some (other (bytes "failed to send CONNECT request: " ++ error_text e)), n)
  connect_sent srv (none, n) = connect_answer (up.receive n (link srv))

  unfoldable pub through_proxy : MyRequest → Server → N → Option GoError × N
  through_proxy request srv n =
      if is_empty request.proxy.addr
      then (none, n)
      else connect_sent srv (
          up.send n (record { raw = srv.raw; is_tls = false })
            (connect_text (tls_addr request.raw.host) request.proxy))

  unfoldable pub handshaken : Server → Option GoError × N → Option GoError × N
  handshaken srv (none, n) = (none, n)
  handshaken srv (some e, n) = (some (other (bytes "TLS handshake failed: " ++ error_text e)), n)

  -- The server is marked as TLS before the handshake, and stays so if it fails.
  unfoldable pub after_proxy :
      MyRequest → Server → Connector N → Option GoError × N → Option GoError × Connector N
  after_proxy request srv c (some e, n) = (some e, record c { net = n })
  after_proxy request srv c (none, n) =
      let marked = store request.raw.host (record srv { is_tls = true }) c.server in
      let (fault, n') = handshaken srv (
        up.handshake n (record { raw = srv.raw; is_tls = false })
          (before b':' (tls_addr request.raw.host))) in
      (fault, record c { server = marked; net = n' })

  unfoldable pub upgrade_server_2_tls :
      MyRequest → Server → Connector N → Option GoError × Connector N
  upgrade_server_2_tls request srv c = after_proxy request srv c (through_proxy request srv c.net)

  unfoldable pub upgraded : Server → Option GoError × Connector N → Result Server × Connector N
  upgraded srv (some e, c) = (err e, c)
  upgraded srv (none, c) = (ok (record srv { is_tls = true }), c)

  unfoldable pub ensure_tls : MyRequest → Server → Connector N → Result Server × Connector N
  ensure_tls request srv c =
      if is_server_tls request.raw c.client_tls && not srv.is_tls
      then upgraded srv (upgrade_server_2_tls request srv c)
      else (ok srv, c)

  -- `createConn`: the new server takes the place of the old in the map.
  unfoldable pub created : MyRequest → Connector N → Result ℕ × N → Result Server × Connector N
  created request c (err e, n) = (err e, record c { net = n })
  created request c (ok raw, n) =
      let srv : Server = record { raw = raw; is_tls = false } in
      ensure_tls request srv (record c { server = store request.raw.host srv c.server; net = n })

  unfoldable pub create_conn : MyRequest → Connector N → Result Server × Connector N
  create_conn request c = created request c (up.dial c.net (target_of request c.client_tls))

  unfoldable pub connect_server : MyRequest → Bool → Connector N → Result Server × Connector N
  connect_server request is_conn_closed c = elim (find request.raw.host c.server) [
    | none ↦ create_conn request c
    | some srv ↦ if is_conn_closed then create_conn request c else ensure_tls request srv c
  ]

  -- What is done about an error: a second attempt, or its return.
  abbrev pub Again : Type 0
  Again = Option (Connector N → Result Response × Connector N)

  unfoldable pub on_error : Again → GoError → Connector N → Result Response × Connector N
  on_error none e c = (err e, c)
  on_error (some again) e c = again c

  unfoldable pub answered :
      Again → Result Response × N → Connector N → Result Response × Connector N
  answered again (ok resp, n) c = (ok resp, record c { net = n })
  answered again (err e, n) c = on_error again e (record c { net = n })

  unfoldable pub sent : Again → Server → SentRequest N → Connector N → Result Response × Connector N
  sent again srv w c =
      let c' : Connector N = record c { net = w.after; body = w.left } in
      elim w.fault [
        | some e ↦ on_error again e c'
        | none ↦ answered again (up.receive w.after (link srv)) c'
      ]

  unfoldable pub attempt :
      Again → MyRequest → Result Server × Connector N → Result Response × Connector N
  attempt again request (err e, c) = (err e, c)
  attempt again request (ok srv, c) =
      sent again srv (up.send_request c.net (link srv) (record request.raw { body = c.body })) c

  -- The flag is `isRetry`.
  unfoldable pub do_request : MyRequest → Bool → Connector N → Result Response × Connector N
  do_request request true c = attempt none request (connect_server request true c)
  do_request request false c =
      attempt (some (λ d. attempt none request (connect_server request true d))) request
        (connect_server request false c)
