-- ===== src/Refactor/Ca/Calls.antt =====
-- core_refactor/ca.go: calls of SignHost by several goroutines. The lock is given back between the
-- look into the cache and the store, so that other calls come between.
pub mod Issued
use mitm_proxy.Base.{
  ℕ, Bool, ◌≡◌, refl, true, ap, ◌∙◌, List, ◌∷◌, Option, none, some, arith, ◌==◌, if◌then◌else◌,
  is_some, branch, Bool-cases, Option-cases, inl, inr, subst, sym,
}
use mitm_proxy.Text.{Bytes, bytes_eq, bytes_eq_iff}
use mitm_proxy.Text.Table.{find, store, find-store, find-store_self}
use mitm_proxy.Http.Error.{GoError, Result, ok, err}
use mitm_proxy.Net.Certificates.{CertLib, TlsCertificate}
use mitm_proxy.Refactor.Ca.{Ca, Made, Signed, issue, keep, kept, sign_host}

-- Before the call; before the first lock; behind it, with no certificate found; with a certificate
-- that was signed, before the second lock; behind the return.
pub data Stage (Priv : Type 0) : Type 0 where
  unused started missed : Stage Priv
  holding : TlsCertificate Priv → Stage Priv
  returned : Result (TlsCertificate Priv) → Stage Priv

pub record Call (Priv : Type 0) : Type 0 where
  pub name : Bytes
  pub hosts : List Bytes
  pub stage : Stage Priv

unfoldable pub set_call : {Priv : Type 0} → ℕ → Call Priv → (ℕ → Call Priv) → ℕ → Call Priv
set_call k c calls n = if k == n then c else calls n

-- The calls by their numbers, and what the clock and the random source have left.
pub record World (Cert Key Priv R : Type 0) : Type 0 where
  pub ca : Ca Cert Key Priv
  pub source : R
  pub calls : ℕ → Call Priv

module _ {Cert Key Priv R : Type 0} (lib : CertLib Cert Key Priv R) where
  unfoldable pub looked : Option (TlsCertificate Priv) → Stage Priv
  looked none = missed
  looked (some t) = returned (ok t)

  unfoldable pub signed_stage : Result (TlsCertificate Priv) → Stage Priv
  signed_stage (err e) = returned (err e)
  signed_stage (ok t) = holding t

  unfoldable pub move : ℕ → Stage Priv → World Cert Key Priv R → World Cert Key Priv R
  move n s w = record w { calls = set_call n (record (w.calls n) { stage = s }) w.calls }

  pub data Step (w v : World Cert Key Priv R) : Type 0 where
    begin :
        (n : ℕ) (name : Bytes) (hosts : List Bytes)
        → (w.calls n).stage ≡ unused
        → v ≡ record w {
          calls = set_call n (record { name = name; hosts = hosts; stage = started }) w.calls;
        }
        → Step w v
    look :
        (n : ℕ)
        → (w.calls n).stage ≡ started
        → v ≡ move n (looked (find (w.calls n).name w.ca.cache)) w
        → Step w v
    sign :
        (n : ℕ) (made : Made lib)
        → (w.calls n).stage ≡ missed
        → issue lib w.ca.cert w.ca.key (w.calls n).name (w.calls n).hosts w.source ≡ made
        → v ≡ move n (signed_stage made.0) (record w { source = made.1 })
        → Step w v
    put :
        (n : ℕ) (t : TlsCertificate Priv)
        → (w.calls n).stage ≡ holding t
        → v ≡ move n (returned (ok t)) (record w { ca = keep lib (w.calls n).name t w.ca })
        → Step w v

  pub data Steps (w : World Cert Key Priv R) : World Cert Key Priv R → Type 0 where
    here : Steps w w
    next : {u v : World Cert Key Priv R} → Steps w u → Step u v → Steps w v
