-- ===== src/Refactor/Client.antt =====
-- core_refactor/client.go: the connection of a client, and its upgrade to TLS behind a CONNECT.
pub mod Upgrade
use mitm_proxy.Base.{ℕ, Bool, true, false, List, [], ◌∷◌, Option, none, some}
use mitm_proxy.Text.{Bytes, bytes}
use mitm_proxy.Http.Error.{GoError, Result, ok, err}
use mitm_proxy.Net.Address.{split_host_port}
use mitm_proxy.Net.Certificates.{CertLib, TlsCertificate}
use mitm_proxy.Refactor.Ca.{Ca, Signed, sign_host}

-- The layer of TLS is the certificate that the client was shown.
pub record ClientConn (Priv : Type 0) : Type 0 where
  pub tls_conn : Option (TlsCertificate Priv)
  pub is_tls : Bool

unfoldable pub new_client_conn : {Priv : Type 0} → ClientConn Priv
new_client_conn = record { tls_conn = none; is_tls = false }

-- The raw connection: what a write and a handshake as the server return.
pub record RawConn (Priv W : Type 0) : Type 0 where
  pub write : W → Bytes → Option GoError × W
  pub server_handshake : W → TlsCertificate Priv → Option GoError × W

unfoldable pub host_name : Bytes → Bytes
host_name host = elim (split_host_port host) [ some (h, p) ↦ h | none ↦ host ]

abbrev pub established : Bytes
established = bytes "HTTP/1.1 200 Connection Established\r\n\r\n"

module _ {Cert Key Priv R W : Type 0} (lib : CertLib Cert Key Priv R) (conn : RawConn Priv W) where
  -- The error, the client, the root with its cache, the random source and the raw connection.
  abbrev pub Upgraded : Type 0
  Upgraded = Option GoError × ClientConn Priv × Ca Cert Key Priv × R × W

  unfoldable pub shaken :
      TlsCertificate Priv → ClientConn Priv → Ca Cert Key Priv → R → Option GoError × W → Upgraded
  shaken cert c ca r (some e, w) = (some e, c, ca, r, w)
  shaken cert c ca r (none, w) = (none, record { tls_conn = some cert; is_tls = true }, ca, r, w)

  unfoldable pub with_certificate : ClientConn Priv → W → Signed lib → Upgraded
  with_certificate c w (err e, ca, r) = (some e, c, ca, r, w)
  with_certificate c w (ok cert, ca, r) = shaken cert c ca r (conn.server_handshake w cert)

  unfoldable pub confirmed :
      ClientConn Priv → Ca Cert Key Priv → R → Bytes → Option GoError × W → Upgraded
  confirmed c ca r host (some e, w) = (some e, c, ca, r, w)
  confirmed c ca r host (none, w) = with_certificate c w (sign_host lib (host_name host ∷ []) ca r)

  unfoldable pub upgrade_tls : ClientConn Priv → Ca Cert Key Priv → R → W → Bytes → Upgraded
  upgrade_tls c ca r w host = confirmed c ca r host (conn.write w established)
