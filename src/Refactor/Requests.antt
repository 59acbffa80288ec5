-- ===== src/Refactor/Requests.antt =====
-- core_refactor/session.go: what is done with a request of a client, and the jobs that write to it;
-- mustManageRequest of core_refactor/mitm.go.
pub mod Answers
use mitm_proxy.Base.{
  ℕ, Bool, true, false, not, ◌&&◌, ◌||◌, List, [], ◌∷◌, ◌++◌, Option, none, some, ltb, ◌==◌,
  if◌then◌else◌,
}
use mitm_proxy.Text.{Bytes, bytes, bytes_eq, is_empty}
use mitm_proxy.Text.Table.{Table, find}
use mitm_proxy.Http.Error.{GoError, other, error_text, Result, ok, err}
use mitm_proxy.Http.Message.{Stream, Request, Response, Codec, string_reader, read_all}
use mitm_proxy.Http.Status.{
  status_no_content, status_not_found, status_bad_gateway, status_switching_protocols,
}
use mitm_proxy.Http.Writer.{Writer}
use mitm_proxy.Net.Address.{split_host_port}
use mitm_proxy.Net.Upstream.{Upstream}
use mitm_proxy.Refactor.Hosts.{member, host_port}
use mitm_proxy.Refactor.HtmlInject.{HtmlInjector, inject, enable_compression_hint}
use mitm_proxy.Refactor.Proxy.{Proxy}
use mitm_proxy.Refactor.ResponseWriter.{
  ResponseWriter, new_response_writer, set_header, write_header, write,
}
use mitm_proxy.Refactor.Server.{ServerConn}
use mitm_proxy.Refactor.Session.{Session, lookup, forward}

-- `http.HandlerFunc`, which has nothing but the request and the writer to work on.
abbrev pub Handler : Type 0 → Type 0
Handler W = Request → ResponseWriter W → ResponseWriter W

-- The handlers may change the message that they are given.
pub record Mitm (W : Type 0) : Type 0 where
  pub proxy_func : Request → Proxy
  pub request_handler : Option (Request → Option Response × Request)
  pub response_handler : Option (Response → Option Response × Response)
  pub html_injector : Option HtmlInjector
  pub manage_router : Table (Handler W)
  pub listen_port : Bytes
  pub local_ips : List Bytes

unfoldable pub must_manage_request : {W : Type 0} → Mitm W → Request → Bool
must_manage_request m req =
    let (host, port) = host_port req.host false in
    if member host m.local_ips then bytes_eq port m.listen_port else false

-- A function that writes to the client, `func() error`.
abbrev pub Job : Type 0 → Type 0
Job W = W → Option GoError × W

-- A client with its session. `queue` is what was sent on the channel of jobs, and `tunnel` the
-- connection that a WebSocket tunnel was opened to.
pub record Client (N W : Type 0) : Type 0 where
  pub session : Session N
  pub writer : W
  pub queue : List (Job W)
  pub cancelled : Bool
  pub remote : Bytes
  pub tunnel : Option ServerConn

-- The loop over the jobs, up to the first error. The flag is whether it cancels the session.
unfoldable pub write_loop : {W : Type 0} → List (Job W) → W → Bool × W
write_loop [] u = (false, u)
write_loop (job ∷ jobs) u =
    let rest = write_loop jobs (job u).1 in
    elim (job u).0 [ none ↦ rest | some e ↦ (true, (job u).1) ]

-- Behind a cancellation the loop has ended: a job that is still sent on the channel is not run.
unfoldable pub submit : {N W : Type 0} → Job W → Client N W → Client N W
submit job c = if c.cancelled then c else record c { queue = c.queue ++ (job ∷ []) }

-- A body of a known length below 2^18 is read at once.
unfoldable pub buffered : Request → Bool → Result Request
buffered req is_ws = elim req.content_length [
  | none ↦ ok req
  | some size ↦
      if not is_ws && (ltb size 262144 && ltb 0 size)
      then (elim (read_all req.body) [
        | ok body ↦ ok (record req { body = string_reader body })
        | err e ↦ err e
      ])
      else ok req
]

unfoldable pub hinted : Option HtmlInjector → Request → Request
hinted none req = req
hinted (some h) req = enable_compression_hint req

unfoldable pub with_scheme : Bool → Request → Request
with_scheme client_tls req =
    if is_empty req.scheme
    then record req { scheme = if client_tls then bytes "https" else bytes "http" }
    else req

-- The answer of the request handler, and the request as it leaves it.
unfoldable pub answered :
    Option (Request → Option Response × Request) → Request → Option Response × Request
answered none req = (none, req)
answered (some h) req = h req

unfoldable pub replaced : Option (Response → Option Response × Response) → Response → Response
replaced none resp = resp
replaced (some h) resp = let (new, left) = h resp in elim new [ none ↦ left | some r ↦ r ]

unfoldable pub injected : Codec → Codec → Option HtmlInjector → Response → Response
injected gzip zlib none resp = resp
injected gzip zlib (some h) resp = (inject gzip zlib (some h) resp).1

unfoldable pub manage_writer : {W : Type 0} → W → ResponseWriter W
manage_writer u =
    let a = set_header (new_response_writer u) (bytes "Access-Control-Allow-Origin") (bytes "*") in
    let b =
      set_header a (bytes "Access-Control-Allow-Methods")
        (bytes "GET, POST, PUT, DELETE, OPTIONS") in
    let c = set_header b (bytes "Access-Control-Allow-Headers") (bytes "*") in
    let d = set_header c (bytes "Access-Control-Max-Age") (bytes "86400") in
    set_header d (bytes "Access-Control-Allow-Credentials") (bytes "true")

unfoldable pub error_writer : {W : Type 0} → W → ResponseWriter W
error_writer u =
    set_header (write_header (new_response_writer u) status_bad_gateway) (bytes "Content-Type")
      (bytes "text/plain; charset=utf-8")

-- `loopback` is net.ParseIP with IsLoopback, `write_response` is http.Response.Write to the client.
module _ {N W : Type 0} (up : Upstream N) (out : Writer W) (gzip zlib : Codec)
    (loopback : Bytes → Option Bool) (write_response : Response → Job W) where
  unfoldable pub page : (W → ResponseWriter W) → Bytes → Job W
  page draft text u = let (r, w) = write out text (draft u) in (r.1, w.writer)

  unfoldable pub run_handler : Handler W → Request → Job W
  run_handler h req u = (none, (h req (manage_writer u)).writer)

  unfoldable pub is_outside : Bytes → Bool
  is_outside remote =
      elim (loopback (elim (split_host_port remote) [ none ↦ [] | some (h, p) ↦ h ])) [
        | none ↦ false
        | some l ↦ not l
      ]

  unfoldable pub manage_job : Mitm W → Request → Bytes → Job W
  manage_job m req remote =
      if is_outside remote
      then page (λ u. write_header (manage_writer u) status_not_found) (bytes "404 not found")
      else if bytes_eq req.method (bytes "OPTIONS")
      then page (λ u. write_header (manage_writer u) status_no_content) []
      else elim (find req.path m.manage_router) [
        | some h ↦ run_handler h req
        | none ↦ page (λ u. write_header (manage_writer u) status_no_content) []
      ]

  unfoldable pub handle_manage : Mitm W → Request → Client N W → Client N W
  handle_manage m req c = submit (manage_job m req c.remote) c

  -- `handleWebSocket` up to the tunnel: the response goes to the client at once.
  unfoldable pub handshake_sent : Request → Response → Client N W → Option GoError × W → Client N W
  handshake_sent req resp c (some e, u) = record c { writer = u }
  handshake_sent req resp c (none, u) =
      if resp.status_code == status_switching_protocols
      then record c { writer = u; tunnel = lookup req.host c.session.servers }
      else record c { writer = u }

  unfoldable pub handle_web_socket : Request → Response → Client N W → Client N W
  handle_web_socket req resp c = handshake_sent req resp c (write_response resp c.writer)

  unfoldable pub forwarded :
      Mitm W → Request → Bool → Client N W → Result Response × Session N → Client N W
  forwarded m req is_ws c (err e, s) =
      submit (page error_writer (error_text e)) (record c { session = s })
  forwarded m req is_ws c (ok resp, s) =
      let final = injected gzip zlib m.html_injector (replaced m.response_handler resp) in
      let c' : Client N W = record c { session = s } in
      if is_ws then handle_web_socket req final c' else submit (write_response final) c'

  -- Behind the request handler: its answer, or the request that is forwarded.
  unfoldable pub handled : Mitm W → Bool → Option Response × Request → Client N W → Client N W
  handled m is_ws (some resp, req) c = submit (write_response resp) c
  handled m is_ws (none, req) c =
      forwarded m req is_ws c (forward up m.proxy_func req (record c.session { body = req.body }))

  unfoldable pub prepared : Mitm W → Bool → Request → Client N W → Client N W
  prepared m is_ws req c =
      handled m is_ws
        (answered m.request_handler (with_scheme c.session.client_tls (hinted m.html_injector req)))
        c

  unfoldable pub body_read : Mitm W → Bool → Result Request → Client N W → Client N W
  body_read m is_ws (err e) c = submit (page error_writer (error_text e)) c
  body_read m is_ws (ok req) c =
      if must_manage_request m req then handle_manage m req c else prepared m is_ws req c

  unfoldable pub handle_request : Mitm W → Request → Bool → Client N W → Client N W
  handle_request m req is_ws c = body_read m is_ws (buffered req is_ws) c
