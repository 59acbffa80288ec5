-- ===== src/Refactor/Server.antt =====
-- core_refactor/server.go: a connection to a target, dialled directly or through a proxy.
use mitm_proxy.Base.{ℕ, Bool, true, false, [], ◌++◌, Option, none, some, ◌==◌, if◌then◌else◌}
use mitm_proxy.Text.{Bytes, bytes, is_empty, contains, crlf}
use mitm_proxy.Http.Error.{GoError, other, wrap, Result, ok, err}
use mitm_proxy.Http.Status.{status_ok}
use mitm_proxy.Http.Message.{Response}
use mitm_proxy.Net.Address.{split_host_port}
use mitm_proxy.Net.Upstream.{Link, Upstream}
use mitm_proxy.Refactor.Proxy.{Proxy, is_direct, basic_auth}

pub record ServerConn : Type 0 where
  pub raw : ℕ
  pub is_tls : Bool
  pub host : Bytes

-- The connection that reads and writes go to.
abbrev pub link : ServerConn → Link
link s = record { raw = s.raw; is_tls = s.is_tls }

abbrev pub with_port : Bytes → Bytes → Bytes
with_port addr port = if contains addr (bytes ":") then addr else addr ++ port

unfoldable pub connect_request : Bytes → Proxy → Bytes
connect_request addr proxy =
    bytes "CONNECT "
    ++ (addr
        ++ (bytes " HTTP/1.1\r\nHost: "
            ++ (addr
                ++ (crlf
                    ++ ((if is_empty (basic_auth proxy)
                          then []
                          else bytes "Proxy-Authorization: " ++ (basic_auth proxy ++ crlf))
                        ++ crlf)))))

-- The name that the handshake asks for.
unfoldable pub server_name : Bytes → Bytes
server_name addr = elim (split_host_port addr) [
  | none ↦ addr
  | some (h, p) ↦ if is_empty h then addr else h
]

module _ {N : Type 0} (up : Upstream N) where
  unfoldable pub close : ServerConn → N → N
  close s n = up.close n (link s)

  -- What the proxy's answer to CONNECT comes to.
  unfoldable pub connect_result : Result Response × N → Option GoError × N
  connect_result (err e, n) = (some (wrap (bytes "read CONNECT response: ") e), n)
  connect_result (ok resp, n) = (
    if resp.status_code == status_ok
        then none
        else some (other (bytes "proxy CONNECT failed: " ++ resp.status)),
    n,
  )

  unfoldable pub connect_sent : ServerConn → Option GoError × N → Option GoError × N
  connect_sent s (some e, n) = (some (wrap (bytes "write CONNECT: ") e), n)
  connect_sent s (none, n) = connect_result (up.receive n (link s))

  unfoldable pub connect_via_proxy : ServerConn → Bytes → Proxy → N → Option GoError × N
  connect_via_proxy s target proxy n =
      connect_sent s (up.send n (link s) (connect_request (with_port target (bytes ":443")) proxy))

  -- A connection that the proxy did not open is closed again.
  unfoldable pub connected : ServerConn → Option GoError × N → Result ServerConn × N
  connected s (none, n) = (ok s, n)
  connected s (some e, n) = (err e, close s n)

  unfoldable pub dialled : Bytes → Bytes → Bytes → Proxy → Result ℕ × N → Result ServerConn × N
  dialled target addr dial_addr proxy (err e, n) =
      (err (wrap (bytes "dial " ++ (dial_addr ++ bytes ": ")) e), n)
  dialled target addr dial_addr proxy (ok c, n) =
      let s : ServerConn = record { raw = c; is_tls = false; host = target } in
      if is_direct proxy then (ok s, n) else connected s (connect_via_proxy s addr proxy n)

  unfoldable pub dial_server : Bytes → Proxy → N → Result ServerConn × N
  dial_server target proxy n =
      let addr = with_port target (bytes ":80") in
      let dial_addr = if is_direct proxy then addr else proxy.host in
      dialled target addr dial_addr proxy (up.dial n dial_addr)

  unfoldable pub handshaken : ServerConn → Option GoError × N → Result ServerConn × N
  handshaken s (some e, n) = (err (wrap (bytes "tls handshake: ") e), n)
  handshaken s (none, n) = (ok (record s { is_tls = true }), n)

  unfoldable pub upgrade_tls : ServerConn → Bytes → N → Result ServerConn × N
  upgrade_tls s target n = handshaken s (
      up.handshake n (record { raw = s.raw; is_tls = false })
        (server_name (with_port target (bytes ":443"))))
