-- ===== src/Core/Local.antt =====
-- core/mitm.go: isWebSocketRequest and getLocalIPs.
pub mod Same
use mitm_proxy.Base.{ℕ, Bool, true, false, not, ◌||◌, List, [], ◌∷◌, if◌then◌else◌}
use mitm_proxy.Text.{Bytes, bytes, is_empty, to_lower, equal_fold, contains}
use mitm_proxy.Http.Error.{other, Result, ok, err, ◌>>=◌}
use mitm_proxy.Http.Header.{get}
use mitm_proxy.Http.Message.{Request}
use mitm_proxy.Net.Interfaces.{Addr, ipv4, other_addr, Interface}
use mitm_proxy.Refactor.Hosts.{add}

unfoldable pub is_web_socket_request : Request → Bool
is_web_socket_request r =
    if not (contains (to_lower (get r.header (bytes "Connection"))) (bytes "upgrade"))
      || not (equal_fold (get r.header (bytes "Upgrade")) (bytes "websocket"))
    then false
    else if is_empty (get r.header (bytes "Sec-WebSocket-Key"))
        || is_empty (get r.header (bytes "Sec-WebSocket-Version"))
    then false
    else true

unfoldable pub add_addresses : List Addr → List Bytes → List Bytes
add_addresses [] ips = ips
add_addresses (ipv4 a ∷ rest) ips = add_addresses rest (add a ips)
add_addresses (other_addr ∷ rest) ips = add_addresses rest ips

unfoldable pub add_each : List Interface → List Bytes → Result (List Bytes)
add_each [] ips = ok ips
add_each (i ∷ rest) ips =
    let skip = add_each rest ips in
    let taken : Result (List Bytes) = (do
      addrs ← i.addrs
      add_each rest (add_addresses addrs ips)) in
    if not i.is_up || i.is_loopback then skip else taken

unfoldable pub named : List Bytes → Result (List Bytes)
named [] = err (other (bytes "could not find any valid non-loopback IP addresses"))
named (a ∷ ips) = ok (add (bytes "127.0.0.1") (add (bytes "localhost") (a ∷ ips)))

-- `getLocalIPs`
unfoldable pub get_local_ips : Result (List Interface) → Result (List Bytes)
get_local_ips interfaces = do list ← interfaces; ips ← add_each list []; named ips
