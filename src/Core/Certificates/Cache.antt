-- ===== src/Core/Certificates/Cache.antt =====
-- The cache of signed certificates of the first version.
use mitm_proxy.Base.{◌≡◌, refl, List, ◌∷◌, Option, none, some, Option-cases, inl, inr}
use mitm_proxy.Text.{Bytes}
use mitm_proxy.Text.Table.{Table, find, find-store_self}
use mitm_proxy.Http.Error.{Result, ok, err}
use mitm_proxy.Net.Certificates.{CertLib, TlsCertificate}
use mitm_proxy.Core.Certificates.{Signed, signed, with_key, sign_host}

module _ {Cert Key Priv R : Type 0} (lib : CertLib Cert Key Priv R) where
  abbrev pub Cached : Bytes → Table (TlsCertificate Priv) → Option (Signed lib) → Type 0
  Cached name cache none = ⊥
  Cached name cache (some (ok c, cache', r)) = find name cache' ≡ some c
  Cached name cache (some (err e, cache', r)) = cache' ≡ cache

  signed-Cached :
      (cache : Table (TlsCertificate Priv)) (name : Bytes) (priv : Priv) (r : Result Bytes × R)
      → Cached name cache (some (signed lib cache name priv r))
  unfolding signed
  signed-Cached cache name priv (err e, r) = refl
  signed-Cached cache name priv (ok der, r) =
      find-store_self name (record { certificate = der; private_key = priv }) cache

  with_key-Cached :
      (cert : Cert) (key : Key) (cache : Table (TlsCertificate Priv)) (name : Bytes)
      (hosts : List Bytes) (r : Result Priv × R)
      → Cached name cache (some (with_key lib cert key cache name hosts r))
  unfolding with_key
  with_key-Cached cert key cache name hosts (err e, r) = refl
  with_key-Cached cert key cache name hosts (ok priv, r) = signed-Cached cache name priv _

  -- For at least one host the first version does not panic: a certificate that it returns is in the
  -- cache for the first name, and a call that fails leaves the cache as it was.
  pub sign_host_first :
      (name : Bytes) (hosts : List Bytes) (cert : Cert) (key : Key)
      (cache : Table (TlsCertificate Priv)) (r : R)
      → Cached name cache (sign_host lib (name ∷ hosts) cert key cache r)
  unfolding sign_host
  sign_host_first name hosts cert key cache r = elim (Option-cases (find name cache)) [
    | inl e ↦
        rw (e, sign_host) (with_key-Cached cert key cache name (name ∷ hosts) (lib.generate_key r))
    | inr (c, e) ↦ rw (e, sign_host) e
  ]
