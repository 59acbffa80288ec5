-- ===== src/Core/Container.antt =====
-- core/mitm.go: what the first version does with a request of a client, and its setters.
pub mod Twice
use mitm_proxy.Base.{
  ℕ, Bool, true, false, not, ◌&&◌, List, [], ◌∷◌, ◌++◌, Option, none, some, ◌==◌, if◌then◌else◌,
}
use mitm_proxy.Text.{Bytes, bytes, bytes_eq, is_empty, before, contains}
use mitm_proxy.Text.Table.{Table, find, store}
use mitm_proxy.Http.Error.{GoError, error_text, Result, ok, err}
use mitm_proxy.Http.Header.{Header, set}
use mitm_proxy.Http.Message.{Request, Response}
use mitm_proxy.Http.Status.{
  status_no_content, status_not_found, status_bad_gateway, status_switching_protocols,
}
use mitm_proxy.Http.Writer.{Writer}
use mitm_proxy.Net.Upstream.{Upstream}
use mitm_proxy.Refactor.Hosts.{member}
use mitm_proxy.Core.Connector.{ProxyArray, MyRequest, Connector, do_request}
use mitm_proxy.Core.ResponseWriter.{
  ResponseWriter, new_response_writer, set_header, set_status, write,
}

-- `ResponseWriteFunc`, and a function that is sent on the channel of the client.
abbrev pub WriteFunc : Type 0 → Type 0
WriteFunc W = ResponseWriter W → ResponseWriter W

abbrev pub Job : Type 0 → Type 0
Job W = W → W

abbrev pub Handler : Type 0 → Type 0
Handler W = Request → WriteFunc W

-- The callbacks may change the message that they are given.
pub record Container (W : Type 0) : Type 0 where
  pub port : Bytes
  pub local_ips : List Bytes
  pub manage_router : Table (Handler W)
  pub process_proxy : Option (Request → ProxyArray)
  pub process_request : Option (Request → Option (WriteFunc W) × Request)
  pub process_response : Option (Response → Option (WriteFunc W) × Response)
  pub insert_html : Option (Response → Response)

unfoldable pub set_proxy : {W : Type 0} → (Request → ProxyArray) → Container W → Container W
set_proxy fn c = record c { process_proxy = some fn }

unfoldable pub process_request :
    {W : Type 0} → (Request → Option (WriteFunc W) × Request) → Container W → Container W
process_request fn c = record c { process_request = some fn }

unfoldable pub process_response :
    {W : Type 0} → (Response → Option (WriteFunc W) × Response) → Container W → Container W
process_response fn c = record c { process_response = some fn }

unfoldable pub handle_func : {W : Type 0} → Bytes → Handler W → Container W → Container W
handle_func path fn c = record c { manage_router = store path fn c.manage_router }

-- The connector with the jobs that were sent on its channel; `tunnel` is whether a WebSocket
-- tunnel was opened.
pub record Client (N W : Type 0) : Type 0 where
  pub connector : Connector N
  pub writer : W
  pub queue : List (Job W)
  pub tunnel : Bool

unfoldable pub send : {N W : Type 0} → Job W → Client N W → Client N W
send job c = record c { queue = c.queue ++ (job ∷ []) }

unfoldable pub behind : ℕ → Bytes → Option Bytes
behind c [] = none
behind c (d ∷ s) = if d == c then some s else behind c s

-- The port behind the first colon, up to the second, where the host has one.
unfoldable pub port_of : Bytes → Bool → Bytes
port_of host is_tls = elim (behind b':' host) [
  | some rest ↦ before b':' rest
  | none ↦ if is_tls then bytes "443" else bytes "80"
]

unfoldable pub is_local : {W : Type 0} → Container W → Request → Bool → Bool
is_local m req is_tls =
    member (before b':' req.host) m.local_ips && bytes_eq (port_of req.host is_tls) m.port

unfoldable pub with_scheme : Bool → Request → Request
with_scheme client_tls req =
    if is_empty req.scheme
    then record req { scheme = if client_tls then bytes "https" else bytes "http" }
    else req

unfoldable pub hinted : Option (Response → Response) → Request → Request
hinted none req = req
hinted (some f) req = record req {
  header = set req.header (bytes "accept-encoding") (bytes "gzip, deflate");
}

unfoldable pub processed :
    {W : Type 0}
    → Option (Request → Option (WriteFunc W) × Request)
    → Request
    → Option (WriteFunc W) × Request
processed none req = (none, req)
processed (some f) req = f req

unfoldable pub proxy_of : Option (Request → ProxyArray) → Request → ProxyArray
proxy_of none req = record { protocol = []; addr = []; account = []; password = [] }
proxy_of (some f) req = f req

unfoldable pub processed_response :
    {W : Type 0}
    → Option (Response → Option (WriteFunc W) × Response)
    → Response
    → Option (WriteFunc W) × Response
processed_response none resp = (none, resp)
processed_response (some f) resp = f resp

unfoldable pub inserted : Option (Response → Response) → Response → Response
inserted none resp = resp
inserted (some f) resp = f resp

unfoldable pub error_writer : {W : Type 0} → W → ResponseWriter W
error_writer u =
    set_header (set_status (new_response_writer u) status_bad_gateway) (bytes "Content-Type")
      (bytes "text/plain; charset=utf-8")

unfoldable pub manage_writer : {W : Type 0} → W → ResponseWriter W
manage_writer u =
    let a = set_header (new_response_writer u) (bytes "Access-Control-Allow-Origin") (bytes "*") in
    let b = set_header a (bytes "Access-Control-Allow-Methods") (bytes "GET, POST, PUT, DELETE") in
    let c = set_header b (bytes "Access-Control-Allow-Headers") (bytes "*") in
    let d = set_header c (bytes "Access-Control-Max-Age") (bytes "86400") in
    set_header d (bytes "Access-Control-Allow-Credentials") (bytes "true")

module _ {N W : Type 0} (up : Upstream N) (out : Writer W)
    (order : Header → List (Bytes × List Bytes)) (write_response : Response → Job W) where
  unfoldable pub page : (W → ResponseWriter W) → Bytes → Job W
  page draft text u = (write out order text (draft u)).1.writer

  unfoldable pub run : WriteFunc W → Job W
  run fn u = (fn (new_response_writer u)).writer

  -- The flag is whether the client's address is a loopback.
  unfoldable pub manage_job : Container W → Request → Bool → Job W
  manage_job m req loopback =
      if not loopback
      then page (λ u. set_status (manage_writer u) status_not_found) (bytes "404 not found")
      else if bytes_eq req.method (bytes "OPTIONS")
      then page (λ u. set_status (manage_writer u) status_no_content) []
      else elim (find req.path m.manage_router) [
        | some fn ↦ λ u. (fn req (manage_writer u)).writer
        | none ↦ page (λ u. set_status (manage_writer u) status_no_content) []
      ]

  unfoldable pub finished : Response → Bool → Client N W → Client N W
  finished resp is_ws c =
      if is_ws
      then record c {
        writer = write_response resp c.writer;
        tunnel = resp.status_code == status_switching_protocols;
      }
      else send (write_response resp) c

  unfoldable pub responded : Option (WriteFunc W) × Response → Bool → Client N W → Client N W
  responded (some fn, resp) is_ws c = send (run fn) c
  responded (none, resp) is_ws c = finished resp is_ws c

  unfoldable pub forwarded :
      Container W → Bool → Client N W → Result Response × Connector N → Client N W
  forwarded m is_ws c (err e, k) =
      send (page error_writer (error_text e)) (record c { connector = k })
  forwarded m is_ws c (ok resp, k) =
      responded (processed_response m.process_response (inserted m.insert_html resp)) is_ws
        (record c { connector = k })

  unfoldable pub forward : Container W → Request → Bool → Client N W → Client N W
  forward m req is_ws c = forwarded m is_ws c (
      do_request up (record { raw = req; proxy = proxy_of m.process_proxy req }) false
        (record c.connector { body = req.body }))

  -- What the callback writes is sent, and the request is forwarded all the same.
  unfoldable pub answered :
      Container W → Bool → Client N W → Option (WriteFunc W) × Request → Client N W
  answered m is_ws c (some fn, req) = forward m req is_ws (send (run fn) c)
  answered m is_ws c (none, req) = forward m req is_ws c

  unfoldable pub handle_request : Container W → Request → Bool → Bool → Client N W → Client N W
  handle_request m req is_ws loopback c =
      if is_local m req c.connector.client_tls
      then send (manage_job m req loopback) c
      else answered m is_ws c (
          processed m.process_request
            (with_scheme c.connector.client_tls (hinted m.insert_html req)))
