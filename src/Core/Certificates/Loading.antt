-- ===== src/Core/Certificates/Loading.antt =====
-- The two versions load the same root certificates.
use mitm_proxy.Base.{◌≡◌, Option, none, some, arith}
use mitm_proxy.Text.{Bytes}
use mitm_proxy.Http.Error.{Result, ok, err}
use mitm_proxy.Net.Certificates.{CertLib}
use mitm_proxy.Refactor.Ca.{Ca}
use mitm_proxy.Refactor.Ca as Second
use mitm_proxy.Core.Certificates.{parse_key, load_ca}

abbrev pub pair : {Cert Key Priv : Type 0} → Result (Ca Cert Key Priv) → Option (Cert × Key)
pair (ok ca) = some (ca.cert, ca.key)
pair (err e) = none

abbrev pub value {ℓ} : {A : Type ℓ} → Result A → Option A
value (ok a) = some a
value (err e) = none

module _ {Cert Key Priv R : Type 0} (lib : CertLib Cert Key Priv R) where
  -- Both versions accept the same files, and take the same certificate and key out of them: they
  -- differ only in the texts of their errors.
  pub load_ca-load_ca :
      (cert_path key_path : Bytes)
      → value (load_ca lib cert_path key_path) ≡ pair (Second.load_ca lib cert_path key_path)
  unfolding load_ca parse_key Second.load_ca Second.parse_ca Second.parse_key Second.known_kind
  load_ca-load_ca cert_path key_path = ground arith
