-- ===== src/Core/Certificates.antt =====
-- core/singer.go: the root certificate, and the certificates that it signs for hosts.
pub mod Loading
pub mod Cache
use mitm_proxy.Base.{ℕ, Bool, true, false, List, [], ◌∷◌, ◌++◌, Option, none, some, if◌then◌else◌}
use mitm_proxy.Text.{Bytes, bytes, bytes_eq}
use mitm_proxy.Text.Table.{Table, find, store}
use mitm_proxy.Http.Error.{GoError, other, error_text, Result, ok, err, ◌>>=◌}
use mitm_proxy.Net.Certificates.{PemBlock, Template, CertLib, TlsCertificate}

-- `fmt.Errorf` with `%v` behind a text: only the text of the error is kept.
abbrev pub described {ℓ} : {A : Type ℓ} → Bytes → Result A → Result A
described m (ok a) = ok a
described m (err e) = err (other (m ++ error_text e))

abbrev pub present {ℓ} : {A : Type ℓ} → Bytes → Option A → Result A
present m none = err (other m)
present m (some a) = ok a

module _ {Cert Key Priv R : Type 0} (lib : CertLib Cert Key Priv R) where
  unfoldable pub parse_key : PemBlock → Result Key
  parse_key block =
      if bytes_eq block.kind (bytes "PRIVATE KEY")
      then described (bytes "failed to parse CA private key: ") (lib.parse_pkcs8 block.content)
      else if bytes_eq block.kind (bytes "EC PRIVATE KEY")
      then described (bytes "failed to parse CA private key: ") (lib.parse_ec block.content)
      else if bytes_eq block.kind (bytes "RSA PRIVATE KEY")
      then described (bytes "failed to parse CA private key: ") (lib.parse_pkcs1 block.content)
      else err (other (bytes "unsupported private key type: " ++ block.kind))

  unfoldable pub load_ca : Bytes → Bytes → Result (Cert × Key)
  unfolding parse_key
  load_ca cert_path key_path = do
    cert_pem ← described (bytes "failed to read CA cert: ") (lib.read_file cert_path)
    key_pem ← described (bytes "failed to read CA key: ") (lib.read_file key_path)
    block ← present (bytes "failed to parse CA cert PEM") (lib.pem_decode cert_pem)
    cert ←
        described (bytes "failed to parse CA certificate: ") (lib.parse_certificate block.content)
    key_block ← present (bytes "failed to parse CA key PEM") (lib.pem_decode key_pem)
    key ← parse_key key_block
    ok (cert, key)

  unfoldable pub with_hosts : List Bytes → Template → Template
  with_hosts [] t = t
  with_hosts (h ∷ hosts) t = with_hosts hosts (elim (lib.parse_ip h) [
    | some ip ↦ record t { ip_addresses = t.ip_addresses ++ (ip ∷ []) }
    | none ↦ record t { dns_names = t.dns_names ++ (h ∷ []) }
  ])

  unfoldable pub template : R → Template × R
  template r =
      let (serial, r1) = lib.now r in
      let (before, r2) = lib.now r1 in
      let (after, r3) = lib.now r2 in
      (
        record {
          serial = lib.unix_nano serial;
          common_name = bytes "PYJ";
          organization = bytes "PYJ";
          not_before = before;
          not_after = lib.a_year_after after;
          server_auth = true;
          client_auth = true;
          ip_addresses = [];
          dns_names = [];
        },
        r3,
      )

  -- The result, the cache and the random source.
  abbrev pub Signed : Type 0
  Signed = Result (TlsCertificate Priv) × Table (TlsCertificate Priv) × R

  unfoldable pub signed : Table (TlsCertificate Priv) → Bytes → Priv → Result Bytes × R → Signed
  signed cache name priv (err e, r) =
      (err (other (bytes "failed to create certificate: " ++ error_text e)), cache, r)
  signed cache name priv (ok der, r) =
      let c : TlsCertificate Priv = record { certificate = der; private_key = priv } in
      (ok c, store name c cache, r)

  unfoldable pub with_key :
      Cert → Key → Table (TlsCertificate Priv) → Bytes → List Bytes → Result Priv × R → Signed
  with_key cert key cache name hosts (err e, r) =
      (err (other (bytes "failed to generate private key: " ++ error_text e)), cache, r)
  with_key cert key cache name hosts (ok priv, r) =
      let (t, r') = template r in
      signed cache name priv (lib.create_certificate r' (with_hosts hosts t) cert priv key)

  -- For no host at all the index is out of range, and the function panics: none.
  unfoldable pub sign_host :
      List Bytes → Cert → Key → Table (TlsCertificate Priv) → R → Option Signed
  sign_host [] cert key cache r = none
  sign_host (name ∷ hosts) cert key cache r = some (elim (find name cache) [
    | some c ↦ (ok c, cache, r)
    | none ↦ with_key cert key cache name (name ∷ hosts) (lib.generate_key r)
  ])
