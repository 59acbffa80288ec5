-- ===== src/Refactor/Hosts.antt =====
-- core_refactor/utils.go: the local addresses, WebSocket requests, and the port of a request.
pub mod Ports
pub mod Local
use mitm_proxy.Base.{
  ℕ, Bool, true, false, not, ◌&&◌, ◌||◌, List, [], ◌∷◌, Option, none, some, if◌then◌else◌,
}
use mitm_proxy.Text.{Bytes, bytes, bytes_eq, is_empty, to_lower, equal_fold, contains}
use mitm_proxy.Http.Error.{GoError, other, Result, ok, err, ◌>>=◌}
use mitm_proxy.Http.Header.{get}
use mitm_proxy.Http.Message.{Request}
use mitm_proxy.Net.Address.{split_host_port}
use mitm_proxy.Net.Interfaces.{Addr, ipv4, other_addr, Interface}

-- A set of texts, `map[string]struct{}`.
unfoldable pub member : Bytes → List Bytes → Bool
member k [] = false
member k (j ∷ s) = bytes_eq j k || member k s

unfoldable pub add : Bytes → List Bytes → List Bytes
add k s = if member k s then s else k ∷ s

unfoldable pub add_addrs : List Addr → List Bytes → List Bytes
add_addrs [] ips = ips
add_addrs (ipv4 a ∷ rest) ips = add_addrs rest (add a ips)
add_addrs (other_addr ∷ rest) ips = add_addrs rest ips

-- The loop over the interfaces: those that are down or loopback are passed over.
unfoldable pub add_interfaces : List Interface → List Bytes → Result (List Bytes)
add_interfaces [] ips = ok ips
add_interfaces (i ∷ rest) ips =
    let skip = add_interfaces rest ips in
    let taken : Result (List Bytes) = (do
      addrs ← i.addrs
      add_interfaces rest (add_addrs addrs ips)) in
    if not i.is_up || i.is_loopback then skip else taken

unfoldable pub with_local_names : List Bytes → Result (List Bytes)
with_local_names [] = err (other (bytes "no valid non-loopback IPv4 address found"))
with_local_names (a ∷ ips) = ok (add (bytes "127.0.0.1") (add (bytes "localhost") (a ∷ ips)))

unfoldable pub local_ips : Result (List Interface) → Result (List Bytes)
local_ips interfaces = do list ← interfaces; ips ← add_interfaces list []; with_local_names ips

unfoldable pub is_web_socket_request : Request → Bool
is_web_socket_request r =
    let connection = get r.header (bytes "Connection") in
    let upgrade = get r.header (bytes "Upgrade") in
    if not (contains (to_lower connection) (bytes "upgrade"))
      || not (equal_fold upgrade (bytes "websocket"))
    then false
    else not (is_empty (get r.header (bytes "Sec-WebSocket-Key")))
      && not (is_empty (get r.header (bytes "Sec-WebSocket-Version")))

unfoldable pub host_port : Bytes → Bool → Bytes × Bytes
host_port host is_tls = elim (split_host_port host) [
  | some (h, p) ↦ (h, p)
  | none ↦ (host, if is_tls then bytes "443" else bytes "80")
]

-- The port by the scheme of the URL, where it has one of the two.
unfoldable pub scheme_port : Bytes → Bytes → Bytes
scheme_port scheme port =
    if bytes_eq scheme (bytes "https")
    then bytes "443"
    else if bytes_eq scheme (bytes "http")
    then bytes "80"
    else port

unfoldable pub target_port : Request → Bool → Bytes
unfolding host_port scheme_port
target_port req client_tls =
    let (_, port) = host_port req.host client_tls in
    elim (split_host_port req.host) [ some (h, p) ↦ p | none ↦ scheme_port req.scheme port ]
