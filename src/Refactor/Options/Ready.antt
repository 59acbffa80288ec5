-- ===== src/Refactor/Options/Ready.antt =====
-- What New guarantees of the proxy that it returns.
use mitm_proxy.Base.{◌≡◌, ◌≢◌, List, none, arith, inl, inr}
use mitm_proxy.Text.{Bytes}
use mitm_proxy.Http.Error.{Result, ok, Result-cases}
use mitm_proxy.Net.Interfaces.{Interface}
use mitm_proxy.Refactor.Hosts.{local_ips}
use mitm_proxy.Refactor.Options.{Settings, Setter, defaults, apply, default_logger, ensure_ca, new}

module _ {C L W : Type 0} (load : Bytes → Bytes → Result C) (discard : L) where
  default_logger_lem : (m : Settings C L W) → (default_logger discard m).logger ≢ none
  unfolding default_logger
  default_logger_lem m = ground arith

  ensure_ca_lem :
      (m m' : Settings C L W) → ensure_ca load m ≡ ok m' → (m'.ca ≢ none) × (m'.logger ≡ m.logger)
  unfolding ensure_ca
  ensure_ca_lem m m' h = ground arith

  -- Where New returns a proxy, whatever its options are, the proxy has a root certificate and a
  -- logger, and its local addresses are those of the interfaces.
  pub new_ready :
      (interfaces : Result (List Interface)) (opts : List (Setter C L W)) (m : Settings C L W)
      → new load discard interfaces opts ≡ ok m
      → (m.ca ≢ none) × (m.logger ≢ none) × (local_ips interfaces ≡ ok m.local_ips)
  unfolding new
  new_ready interfaces opts m h =
      let start = default_logger discard (apply opts defaults) in
      elim (Result-cases (ensure_ca load start)) [
        | inl (m', e) ↦ elim (Result-cases (local_ips interfaces)) [
          | inl (ips, i) ↦
              ground
                (arith, e, i, h, ensure_ca_lem start m' e, default_logger_lem (apply opts defaults))
          | inr (f, i) ↦ ground (arith, e, i, h)
        ]
        | inr (f, e) ↦ ground (arith, e, h)
      ]
