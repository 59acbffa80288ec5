-- ===== src/Refactor/Session.antt =====
-- core_refactor/session.go: the upstream connections of one client, their reuse and the retry.
pub mod Servers
pub mod Upkeep
pub mod Forward
pub mod Retry
pub mod Target
pub mod Ending
use mitm_proxy.Base.{
  ℕ, Bool, true, false, ◌&&◌, ◌||◌, List, [], ◌∷◌, Option, none, some, if◌then◌else◌,
}
use mitm_proxy.Text.{Bytes, bytes, bytes_eq, is_empty}
use mitm_proxy.Http.Error.{GoError, Result, ok, err}
use mitm_proxy.Http.Message.{Stream, Request, Response}
use mitm_proxy.Net.Address.{split_host_port, join_host_port}
use mitm_proxy.Net.Upstream.{Link, Upstream, SentRequest}
use mitm_proxy.Refactor.Hosts.{target_port}
use mitm_proxy.Refactor.Proxy.{Proxy}
use mitm_proxy.Refactor.Server.{ServerConn, link, close, dial_server, upgrade_tls}

-- `map[string]*serverConn`
abbrev pub Servers : Type 0
Servers = List (Bytes × ServerConn)

unfoldable pub lookup : Bytes → Servers → Option ServerConn
lookup k [] = none
lookup k ((j, s) ∷ m) = if bytes_eq j k then some s else lookup k m

unfoldable pub put : Bytes → ServerConn → Servers → Servers
put k s [] = (k, s) ∷ []
put k s ((j, t) ∷ m) = if bytes_eq j k then (k, s) ∷ m else (j, t) ∷ put k s m

unfoldable pub delete : Bytes → Servers → Servers
delete k [] = []
delete k ((j, s) ∷ m) = if bytes_eq j k then delete k m else (j, s) ∷ delete k m

-- The session's connections, the network, and what is left of the body of the request.
pub record Session (N : Type 0) : Type 0 where
  pub client_tls : Bool
  pub servers : Servers
  pub net : N
  pub body : Stream

-- The address to dial: the Host header, with the request's port where it has none.
unfoldable pub dial_target : Request → Bool → Bytes
dial_target req client_tls = elim (split_host_port req.host) [
  | some (h, p) ↦ req.host
  | none ↦ join_host_port req.host (target_port req client_tls)
]

unfoldable pub wants_tls : Request → Bool → Bool
wants_tls req client_tls =
    bytes_eq req.scheme (bytes "https") || (is_empty req.scheme && client_tls)

module _ {N : Type 0} (up : Upstream N) where
  unfoldable pub keep : Bytes → ServerConn → Session N → Result ServerConn × Session N
  keep key srv s = (ok srv, record s { servers = put key srv s.servers })

  -- Behind the handshake: a connection whose handshake failed is closed.
  unfoldable pub upgraded :
      Bytes → ServerConn → Session N → Result ServerConn × N → Result ServerConn × Session N
  upgraded key srv s (err e, n) = (err e, record s { net = close up srv n })
  upgraded key srv s (ok srv', n) = keep key srv' (record s { net = n })

  -- Behind the dial.
  unfoldable pub opened :
      Request → Bytes → Session N → Result ServerConn × N → Result ServerConn × Session N
  opened req target s (err e, n) = (err e, record s { net = n })
  opened req target s (ok srv, n) =
      if wants_tls req s.client_tls
      then upgraded req.host srv s (upgrade_tls up srv target n)
      else keep req.host srv (record s { net = n })

  unfoldable pub get_server : Request → Proxy → Session N → Result ServerConn × Session N
  get_server req proxy s = elim (lookup req.host s.servers) [
    | some srv ↦ (ok srv, s)
    | none ↦
        let target = dial_target req s.client_tls in
        opened req target s (dial_server up target proxy s.net)
  ]

  unfoldable pub remove_server : Bytes → Session N → Session N
  remove_server host s = elim (lookup host s.servers) [
    | none ↦ record s { servers = delete host s.servers }
    | some srv ↦ record s { servers = delete host s.servers; net = close up srv s.net }
  ]

  -- The request is sent with what is left of its body.
  unfoldable pub write_request : Request → ServerConn → Session N → Option GoError × Session N
  write_request req srv s =
      let sent = up.send_request s.net (link srv) (record req { body = s.body }) in
      (sent.fault, record s { net = sent.after; body = sent.left })

  unfoldable pub read_response : ServerConn → Session N → Result Response × Session N
  read_response srv s = let (resp, n) = up.receive s.net (link srv) in (resp, record s { net = n })

  -- `s.removeServer(req.Host); return nil, err` on an error.
  unfoldable pub or_drop : Request → Result Response × Session N → Result Response × Session N
  or_drop req (ok resp, s) = (ok resp, s)
  or_drop req (err e, s) = (err e, remove_server req.host s)

  unfoldable pub exchange :
      Request → ServerConn → Option GoError × Session N → Result Response × Session N
  exchange req srv (some e, s) = (err e, s)
  exchange req srv (none, s) = read_response srv s

  unfoldable pub retry_on : Request → Result ServerConn × Session N → Result Response × Session N
  retry_on req (err e, s) = (err e, s)
  retry_on req (ok srv, s) = or_drop req (exchange req srv (write_request req srv s))

  -- The second attempt after a response that could not be read.
  unfoldable pub read_again :
      Request → Proxy → Result Response × Session N → Result Response × Session N
  read_again req proxy (ok resp, s) = (ok resp, s)
  read_again req proxy (err e, s) = retry_on req (get_server req proxy (remove_server req.host s))

  -- The second attempt at writing the request, on a new connection.
  unfoldable pub rewritten :
      Request → Proxy → ServerConn → Option GoError × Session N → Result Response × Session N
  rewritten req proxy srv (some e, s) = (err e, remove_server req.host s)
  rewritten req proxy srv (none, s) = read_again req proxy (read_response srv s)

  unfoldable pub write_again :
      Request → Proxy → Result ServerConn × Session N → Result Response × Session N
  write_again req proxy (err e, s) = (err e, s)
  write_again req proxy (ok srv, s) = rewritten req proxy srv (write_request req srv s)

  unfoldable pub first_written :
      Request → Proxy → ServerConn → Option GoError × Session N → Result Response × Session N
  first_written req proxy srv (some e, s) =
      write_again req proxy (get_server req proxy (remove_server req.host s))
  first_written req proxy srv (none, s) = read_again req proxy (read_response srv s)

  unfoldable pub first_server :
      Request → Proxy → Result ServerConn × Session N → Result Response × Session N
  first_server req proxy (err e, s) = (err e, s)
  first_server req proxy (ok srv, s) = first_written req proxy srv (write_request req srv s)

  unfoldable pub forward : (Request → Proxy) → Request → Session N → Result Response × Session N
  forward proxy_func req s =
      let proxy = proxy_func req in first_server req proxy (get_server req proxy s)

  -- The part of `close` that is about the servers: each is closed, and the table stays.
  unfoldable pub close_each : Servers → N → N
  close_each [] n = n
  close_each ((host, srv) ∷ m) n = close_each m (close up srv n)

  unfoldable pub close_session : Session N → Session N
  close_session s = record s { net = close_each s.servers s.net }

  -- The requests of a session, one after the other, each with its body.
  unfoldable pub forward_each : (Request → Proxy) → List Request → Session N → Session N
  forward_each proxy_func [] s = s
  forward_each proxy_func (req ∷ reqs) s =
      forward_each proxy_func reqs (forward proxy_func req (record s { body = req.body })).1
