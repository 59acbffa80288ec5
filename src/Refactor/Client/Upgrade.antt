-- ===== src/Refactor/Client/Upgrade.antt =====
-- What an upgrade of a client leaves.
use mitm_proxy.Base.{◌≡◌, true, none, some}
use mitm_proxy.Text.{Bytes}
use mitm_proxy.Net.Certificates.{CertLib, TlsCertificate}
use mitm_proxy.Refactor.Ca.{Ca}
use mitm_proxy.Refactor.Ca.Calls.Issued.{IsIssued}
use mitm_proxy.Refactor.Client.{ClientConn, RawConn, Upgraded}

module _ {Cert Key Priv R W : Type 0} (lib : CertLib Cert Key Priv R) (conn : RawConn Priv W) where
  -- Without an error the client is on TLS, with a certificate that the root signed for the name;
  -- with one it is as it was.
  abbrev pub Shown : Bytes → ClientConn Priv → Ca Cert Key Priv → Upgraded lib conn → Type 0
  Shown name c ca (some e, c', ca', r, w) = c' ≡ c
  Shown name c ca (none, c', ca', r, w) =
      (c'.is_tls ≡ true)
      × ((t : TlsCertificate Priv) × (c'.tls_conn ≡ some t) × IsIssued lib ca name t)
