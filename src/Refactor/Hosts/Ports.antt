-- ===== src/Refactor/Hosts/Ports.antt =====
-- The port that a request goes to.
use mitm_proxy.Base.{◌≡◌, Bool, true, false, none, some, arith, if◌then◌else◌}
use mitm_proxy.Text.{bytes, bytes_eq}
use mitm_proxy.Http.Message.{Request}
use mitm_proxy.Net.Address.{split_host_port}
use mitm_proxy.Refactor.Hosts.{target_port}

-- Whether a request is for TLS by its scheme, or by its client where the scheme is neither.
pub is_secure : Request → Bool → Bool
is_secure req client_tls =
    if bytes_eq req.scheme (bytes "https")
    then true
    else if bytes_eq req.scheme (bytes "http")
    then false
    else client_tls

-- A port in the Host header is taken whatever the scheme; a host without one gets the port of TLS
-- or that of plain HTTP.
pub target_port_lem :
    (req : Request) (client_tls : Bool)
    → target_port req client_tls ≡ elim (split_host_port req.host) [
      | some (h, p) ↦ p
      | none ↦ if is_secure req client_tls then bytes "443" else bytes "80"
    ]
unfolding target_port is_secure
target_port_lem req client_tls = ground arith
