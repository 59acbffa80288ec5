-- ===== src/Core/Reads/Dispatch.antt =====
-- Which requests the loop hands on.
use mitm_proxy.Base.{
  ◌≡◌, Bool, false, ◌&&◌, List, [], ◌∷◌, Option, arith, All, Bool-cases, Option-cases, inl, inr,
}
use mitm_proxy.Text.{Bytes, bytes, bytes_eq}
use mitm_proxy.Http.Error.{GoError, Result, ok, err, Result-cases}
use mitm_proxy.Http.Message.{Request}
use mitm_proxy.Net.Certificates.{CertLib}
use mitm_proxy.Refactor.Hosts.{is_web_socket_request}
use mitm_proxy.Core.Reads.{Handed, Reader, is_small, handed, upgrade_client_2_tls, read_request}

-- No CONNECT request, and no WebSocket request beside the loop.
abbrev pub IsHandled : Handed → Type 0
IsHandled h = (bytes_eq h.request.method (bytes "CONNECT") ≡ false) × (h.beside && h.is_ws ≡ false)

handed_lem :
    (req : Request) (is_ws : Bool) (h : Handed)
    → handed req is_ws ≡ ok h
    → (h.request.method ≡ req.method) × (h.beside && h.is_ws ≡ false)
unfolding handed is_small
handed_lem req is_ws h e = ground arith

handed-IsHandled :
    (req : Request) (is_ws : Bool) (h : Handed)
    → handed req is_ws ≡ ok h
    → bytes_eq req.method (bytes "CONNECT") ≡ false
    → IsHandled h
handed-IsHandled req is_ws h e plain =
    let (same, alone) = handed_lem req is_ws h e in (rw same plain, alone)

module _ {Cert Key Priv R W : Type 0} (lib : CertLib Cert Key Priv R) (cert : Cert) (key : Key)
    (write : W → Bytes → Option GoError × W) where
  -- Whatever is read, no CONNECT request is handed on, and no WebSocket request is handled beside
  -- the loop.
  pub read_request-IsHandled :
      (reads : List (Result Request)) (s : Reader Priv R W)
      → All IsHandled (read_request lib cert key write reads s).0
  unfolding read_request
  read_request-IsHandled [] s = tt
  read_request-IsHandled (err e ∷ reads) s = tt
  read_request-IsHandled (ok req ∷ reads) s = elim (Option-cases s.fault) [
    | inr (e, f) ↦ rw (f, read_request) tt
    | inl f ↦ elim (Bool-cases (bytes_eq req.method (bytes "CONNECT"))) [
      | inl c ↦
          rw (f, read_request)
            (rw c
              (read_request-IsHandled reads (upgrade_client_2_tls lib cert key write req.host s)))
      | inr c ↦ elim (Result-cases (handed req (is_web_socket_request req))) [
        | inl (h, e) ↦
            rw (f, read_request)
              (rw c (rw e (handed-IsHandled req _ h e c, read_request-IsHandled reads s)))
        | inr (e, g) ↦ rw (f, read_request) (rw c (rw g tt))
      ]
    ]
  ]
