-- ===== src/Net/Certificates.antt =====
-- What the proxy uses of crypto, crypto/x509, encoding/pem and os: operations on certificates and
-- keys that stay abstract; `quote` is fmt's `%q`. `R` is the state of the random source and the clock.
use mitm_proxy.Base.{ℕ, List, Option, Bool}
use mitm_proxy.Text.{Bytes}
use mitm_proxy.Http.Error.{Result}

pub record PemBlock : Type 0 where
  pub kind : Bytes
  pub content : Bytes

-- The template of a leaf certificate. Times are in seconds, and a year is what AddDate makes of it.
pub record Template : Type 0 where
  pub serial : ℕ
  pub common_name : Bytes
  pub organization : Bytes
  pub not_before : ℕ
  pub not_after : ℕ
  pub server_auth : Bool
  pub client_auth : Bool
  pub ip_addresses : List Bytes
  pub dns_names : List Bytes

pub record CertLib (Cert Key Priv R : Type 0) : Type 0 where
  pub read_file : Bytes → Result Bytes
  pub quote : Bytes → Bytes
  pub pem_decode : Bytes → Option PemBlock
  pub parse_certificate : Bytes → Result Cert
  pub parse_pkcs8 : Bytes → Result Key
  pub parse_ec : Bytes → Result Key
  pub parse_pkcs1 : Bytes → Result Key
  pub generate_key : R → Result Priv × R
  pub now : R → ℕ × R
  pub unix_nano : ℕ → ℕ
  pub a_year_after : ℕ → ℕ
  pub parse_ip : Bytes → Option Bytes
  pub create_certificate : R → Template → Cert → Priv → Key → Result Bytes × R

-- A certificate with its private key, `tls.Certificate`.
pub record TlsCertificate (Priv : Type 0) : Type 0 where
  pub certificate : Bytes
  pub private_key : Priv
