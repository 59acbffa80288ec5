-- ===== src/Refactor/Session/Target.antt =====
-- The address that a session dials for a request.
use mitm_proxy.Base.{
  ◌≡◌, refl, ◌∙◌, ap, Bool, true, false, [], ◌∷◌, ◌++◌, append_assoc, none, some, arith,
  if◌then◌else◌,
}
use mitm_proxy.Text.{Bytes, bytes}
use mitm_proxy.Http.Message.{Request}
use mitm_proxy.Net.Address.{
  split_host_port, join_host_port, split_host_port-append, split_host_port_name,
  split_host_port_bracketed, split_host_port_doubled, join_host_port_name, IsName, holds,
  holds-append, holds-cons,
}
use mitm_proxy.Refactor.Hosts.{target_port}
use mitm_proxy.Refactor.Hosts.Ports.{is_secure, target_port_lem}
use mitm_proxy.Refactor.Session.{dial_target}

abbrev default_port : Bool → Bytes
default_port secure = if secure then bytes "443" else bytes "80"

default_port-IsName : (secure : Bool) → IsName (default_port secure)
unfolding bytes holds
default_port-IsName true = (refl, refl, refl)
default_port-IsName false = (refl, refl, refl)

target_port_name :
    (req : Request) (client_tls : Bool)
    → split_host_port req.host ≡ none
    → target_port req client_tls ≡ default_port (is_secure req client_tls)
target_port_name req client_tls h = target_port_lem req client_tls ∙ rw h refl

dial_target_joined :
    (req : Request) (client_tls : Bool)
    → split_host_port req.host ≡ none
    → dial_target req client_tls ≡ join_host_port req.host (default_port (is_secure req client_tls))
unfolding dial_target
dial_target_joined req client_tls h =
    rw (h, dial_target) (ap (join_host_port req.host) (target_port_name req client_tls h))

-- A request for a host name without a port is dialled at that name, at port 443 if the request is
-- for TLS and else at port 80.
pub split_host_port-dial_target :
    (req : Request) (client_tls : Bool)
    → IsName req.host
    → split_host_port (dial_target req client_tls)
      ≡ some (req.host, if is_secure req client_tls then bytes "443" else bytes "80")
split_host_port-dial_target req client_tls h =
    let port = default_port (is_secure req client_tls) in
    rw
      (
        dial_target_joined req client_tls (split_host_port_name req.host h),
        join_host_port_name req.host port h,
      )
      (split_host_port-append req.host port h (default_port-IsName (is_secure req client_tls)))

join_host_port_bracketed :
    (literal port : Bytes)
    → holds b':' literal ≡ true
    → join_host_port (b'[' ∷ (literal ++ b']' ∷ [])) port
      ≡ b'[' ∷ b'[' ∷ (literal ++ b']' ∷ b']' ∷ b':' ∷ port)
unfolding join_host_port
join_host_port_bracketed literal port colon = ground (
  arith,
  holds-cons b':' b'[' (literal ++ b']' ∷ []),
  holds-append b':' b']' literal [],
  append_assoc literal (b']' ∷ []) (b']' ∷ b':' ∷ port),
)

-- A request for an IPv6 literal without a port gets a second pair of brackets, and what is dialled
-- is no address.
pub dial_target_bracketed :
    (req : Request) (client_tls : Bool) (literal : Bytes)
    → req.host ≡ b'[' ∷ (literal ++ b']' ∷ [])
    → holds b':' literal ≡ true
    → holds b']' literal ≡ false
    → split_host_port (dial_target req client_tls) ≡ none
dial_target_bracketed req client_tls literal e colon closed =
    let port = default_port (is_secure req client_tls) in
    rw
      (
        dial_target_joined req client_tls (rw e (split_host_port_bracketed literal closed)),
        ap (λ h. join_host_port h port) e,
        join_host_port_bracketed literal port colon,
      )
      (split_host_port_doubled literal port closed)
