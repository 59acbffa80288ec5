-- ===== src/Refactor/Ca/Calls/Issued.antt =====
-- What the calls return, and what the cache holds.
use mitm_proxy.Base.{
  ℕ, ◌≡◌, refl, true, ap, List, ◌∷◌, some, arith, is_some, Bool-cases, Option-cases, inl, inr, sym,
}
use mitm_proxy.Text.{Bytes, bytes_eq, bytes_eq_iff}
use mitm_proxy.Text.Table.{find, find-store}
use mitm_proxy.Http.Error.{ok, err}
use mitm_proxy.Net.Certificates.{CertLib, TlsCertificate}
use mitm_proxy.Refactor.Ca.{Ca, Made, Signed, issue, keep, kept, sign_host}
use mitm_proxy.Refactor.Ca.Calls.{Stage, unused, started, missed, holding, returned, World}

module _ {Cert Key Priv R : Type 0} (lib : CertLib Cert Key Priv R) where
  -- The root signed the certificate, for hosts of which the first is the name.
  abbrev pub IsIssued : Ca Cert Key Priv → Bytes → TlsCertificate Priv → Type 0
  IsIssued ca name t =
      (hosts : List Bytes) × (r : R) × ((issue lib ca.cert ca.key name hosts r).0 ≡ ok t)

  -- Each certificate of the cache was issued for its name.
  abbrev pub IsRight : Ca Cert Key Priv → Type 0
  IsRight ca =
      (name : Bytes) (t : TlsCertificate Priv) → find name ca.cache ≡ some t → IsIssued ca name t

  abbrev pub Fits : Ca Cert Key Priv → Bytes → Stage Priv → Type 0
  Fits ca name unused = Unit
  Fits ca name started = Unit
  Fits ca name missed = Unit
  Fits ca name (holding t) = IsIssued ca name t
  Fits ca name (returned (err e)) = Unit
  Fits ca name (returned (ok t)) = IsIssued ca name t × (is_some (find name ca.cache) ≡ true)

  pub record Inv (w : World Cert Key Priv R) : Type 0 where
    pub right : IsRight w.ca
    pub fits : (n : ℕ) → Fits w.ca (w.calls n).name (w.calls n).stage

  keep-IsRight :
      (k : Bytes) (t : TlsCertificate Priv) (ca : Ca Cert Key Priv)
      → IsIssued ca k t
      → IsRight ca
      → IsRight (keep lib k t ca)
  unfolding keep
  keep-IsRight k t ca issued h name d e = elim (Bool-cases (bytes_eq k name)) [
    | inl b ↦
        let same : t ≡ d = ground (arith, find-store k name t ca.cache, b, e) in
        let same_name : k ≡ name = ground (arith, bytes_eq_iff k name, b) in
        rw (sym same, sym same_name) issued
    | inr b ↦ h name d (ground (arith, find-store k name t ca.cache, b, e))
  ]

  -- The root is the same, and no name has left the cache.
  pub record Grown (w v : World Cert Key Priv R) : Type 0 where
    pub same_cert : v.ca.cert ≡ w.ca.cert
    pub same_key : v.ca.key ≡ w.ca.key
    pub stays :
        (name : Bytes)
        → is_some (find name w.ca.cache) ≡ true
        → is_some (find name v.ca.cache) ≡ true

  -- What one call returns, and the cache that it leaves.
  abbrev pub Right : Bytes → Ca Cert Key Priv → Signed lib → Type 0
  Right name ca (err e, ca', r) = ca' ≡ ca
  Right name ca (ok t, ca', r) = IsIssued ca name t × IsRight ca'

  kept-Right :
      (name : Bytes) (hosts : List Bytes) (ca : Ca Cert Key Priv) (r : R) (made : Made lib)
      → issue lib ca.cert ca.key name hosts r ≡ made
      → IsRight ca
      → Right name ca (kept lib name ca made)
  unfolding kept
  kept-Right name hosts ca r (err e, r') m h = refl
  kept-Right name hosts ca r (ok t, r') m h =
      let issued : IsIssued ca name t = (hosts, r, ap (λ x. x.0) m) in
      (issued, keep-IsRight name t ca issued h)

  pub sign_host-Right :
      (name : Bytes) (hosts : List Bytes) (ca : Ca Cert Key Priv) (r : R)
      → IsRight ca
      → Right name ca (sign_host lib (name ∷ hosts) ca r)
  unfolding sign_host
  sign_host-Right name hosts ca r h = elim (Option-cases (find name ca.cache)) [
    | inl e ↦ rw (e, sign_host) (kept-Right name hosts ca r _ refl h)
    | inr (c, e) ↦ rw (e, sign_host) (h name c e, h)
  ]
