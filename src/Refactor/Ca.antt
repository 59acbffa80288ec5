-- ===== src/Refactor/Ca.antt =====
-- core_refactor/ca.go: the root certificate, and the certificates that it signs for hosts.
pub mod Hosts
pub mod Calls
use mitm_proxy.Base.{
  ℕ, ◌+◌, ◌-◌, Bool, true, false, List, [], ◌∷◌, ◌++◌, Option, none, some, if◌then◌else◌,
}
use mitm_proxy.Text.{Bytes, bytes, bytes_eq}
use mitm_proxy.Text.Table.{Table, find, store}
use mitm_proxy.Http.Error.{GoError, other, wrap, Result, ok, err, wrapped, ◌>>=◌}
use mitm_proxy.Net.Certificates.{PemBlock, Template, CertLib, TlsCertificate}

pub record Ca (Cert Key Priv : Type 0) : Type 0 where
  pub cert : Cert
  pub key : Key
  pub cache : Table (TlsCertificate Priv)

abbrev pub or_error {ℓ} : {A : Type ℓ} → Option A → Bytes → Result A
or_error none m = err (other m)
or_error (some a) m = ok a

module _ {Cert Key Priv R : Type 0} (lib : CertLib Cert Key Priv R) where
  unfoldable pub parse_key : PemBlock → Result Key
  parse_key block =
      if bytes_eq block.kind (bytes "PRIVATE KEY")
      then lib.parse_pkcs8 block.content
      else if bytes_eq block.kind (bytes "EC PRIVATE KEY")
      then lib.parse_ec block.content
      else lib.parse_pkcs1 block.content

  unfoldable pub known_kind : Bytes → Bool
  known_kind kind =
      if bytes_eq kind (bytes "PRIVATE KEY")
      then true
      else if bytes_eq kind (bytes "EC PRIVATE KEY")
      then true
      else bytes_eq kind (bytes "RSA PRIVATE KEY")

  unfoldable pub parse_ca : Bytes → Bytes → Result (Cert × Key)
  parse_ca cert_pem key_pem = do
    block ← or_error (lib.pem_decode cert_pem) (bytes "parse CA cert PEM failed")
    cert ← wrapped (bytes "parse CA certificate: ") (lib.parse_certificate block.content)
    key_block ← or_error (lib.pem_decode key_pem) (bytes "parse CA key PEM failed")
    key ←
        (if known_kind key_block.kind
          then wrapped (bytes "parse CA private key: ") (parse_key key_block)
          else err (other (bytes "unsupported private key type: " ++ key_block.kind)))
    ok (cert, key)

  unfoldable pub load_ca : Bytes → Bytes → Result (Ca Cert Key Priv)
  unfolding parse_ca parse_key known_kind
  load_ca cert_path key_path = do
    cert_pem ←
        wrapped (bytes "read CA cert " ++ (lib.quote cert_path ++ bytes ": "))
          (lib.read_file cert_path)
    key_pem ←
        wrapped (bytes "read CA key " ++ (lib.quote key_path ++ bytes ": "))
          (lib.read_file key_path)
    pair ← parse_ca cert_pem key_pem
    ok (record { cert = pair.0; key = pair.1; cache = [] })

  -- The loop over the hosts: each goes to the addresses or to the names.
  unfoldable pub with_hosts : List Bytes → Template → Template
  with_hosts [] t = t
  with_hosts (h ∷ hosts) t = with_hosts hosts (elim (lib.parse_ip h) [
    | some ip ↦ record t { ip_addresses = t.ip_addresses ++ (ip ∷ []) }
    | none ↦ record t { dns_names = t.dns_names ++ (h ∷ []) }
  ])

  -- The clock is read for the serial number and for each end of the validity.
  unfoldable pub template : Bytes → R → Template × R
  template name r =
      let (serial, r1) = lib.now r in
      let (before, r2) = lib.now r1 in
      let (after, r3) = lib.now r2 in
      (
        record {
          serial = lib.unix_nano serial;
          common_name = name;
          organization = bytes "mitm-proxy";
          not_before = before - 3600;
          not_after = lib.a_year_after after;
          server_auth = true;
          client_auth = false;
          ip_addresses = [];
          dns_names = [];
        },
        r3,
      )

  abbrev pub Made : Type 0
  Made = Result (TlsCertificate Priv) × R

  unfoldable pub signed : Priv → Result Bytes × R → Made
  signed priv (err e, r) = (err (wrap (bytes "create certificate: ") e), r)
  signed priv (ok der, r) = (ok (record { certificate = der; private_key = priv }), r)

  unfoldable pub with_key : Cert → Key → Bytes → List Bytes → Result Priv × R → Made
  with_key cert key name hosts (err e, r) = (err (wrap (bytes "generate private key: ") e), r)
  with_key cert key name hosts (ok priv, r) =
      let (t, r') = template name r in
      signed priv (lib.create_certificate r' (with_hosts hosts t) cert priv key)

  -- What `SignHost` does without the lock, for a first name that it did not find.
  unfoldable pub issue : Cert → Key → Bytes → List Bytes → R → Made
  issue cert key name hosts r = with_key cert key name (name ∷ hosts) (lib.generate_key r)

  -- What it does under the second lock.
  unfoldable pub keep : Bytes → TlsCertificate Priv → Ca Cert Key Priv → Ca Cert Key Priv
  keep name c ca = record ca { cache = store name c ca.cache }

  abbrev pub Signed : Type 0
  Signed = Result (TlsCertificate Priv) × Ca Cert Key Priv × R

  unfoldable pub kept : Bytes → Ca Cert Key Priv → Made → Signed
  kept name ca (err e, r) = (err e, ca, r)
  kept name ca (ok c, r) = (ok c, keep name c ca, r)

  -- A call with no other between its two locks; `Calls` has them interleaved.
  unfoldable pub sign_host : List Bytes → Ca Cert Key Priv → R → Signed
  sign_host [] ca r = (err (other (bytes "no hosts provided")), ca, r)
  sign_host (name ∷ hosts) ca r = elim (find name ca.cache) [
    | some c ↦ (ok c, ca, r)
    | none ↦ kept name ca (issue ca.cert ca.key name hosts r)
  ]
