-- ===== src/DevTool/Tracker/Tables.antt =====
-- What the operations of the tracker leave of its two tables.
use mitm_proxy.Base.{
  ◌≡◌, ◌≢◌, refl, ap, ◌∙◌, subst, true, List, [], ◌∷◌, ◌++◌, Option, none, some, ℕ, All, branch,
  is_some, arith,
}
use mitm_proxy.Text.{Bytes, bytes_eq_iff, bytes_eq_refl}
use mitm_proxy.Text.Table.{Table, find, store, delete, find-store, find-delete}
use mitm_proxy.Http.Message.{Stream}
use mitm_proxy.DevTool.Rules.{Request}
use mitm_proxy.DevTool.Records.{RequestRecord}
use mitm_proxy.DevTool.Tracker.{
  TrackedRequest, PendingRequest, DevToolProxy, new_body, is_tracked, track_body,
  track_request_only, take_tracked, take_pending, with_records,
}

pub All-drop {ℓ κ} :
    {A : Type ℓ} (P : A → Type κ) (front back : List A) (x : A)
    → All P (front ++ (x ∷ back))
    → P x × All P (front ++ back)
All-drop P [] back x (p, h) = (p, h)
All-drop P (y ∷ front) back x (p, h) = let (q, k) = All-drop P front back x h in (q, (p, k))

-- Storing and deleting under another key.
pub is_some-store {ℓ} :
    {V : Type ℓ} (k id : Bytes) (v : V) (m : Table V)
    → is_some (find id m) ≡ true
    → is_some (find id (store k v m)) ≡ true
is_some-store k id v m h = ground (arith, find-store k id v m)

pub find-delete-none {ℓ} :
    {V : Type ℓ} (k id : Bytes) (m : Table V) → find id m ≡ none → find id (delete k m) ≡ none
find-delete-none k id m h = ground (arith, find-delete k id m)

find-delete_other {ℓ} :
    {V : Type ℓ} (k id : Bytes) (m : Table V) → k ≢ id → find id (delete k m) ≡ find id m
find-delete_other k id m h = ground (arith, find-delete k id m, bytes_eq_iff k id)

find-store_other {ℓ} :
    {V : Type ℓ} (k id : Bytes) (v : V) (m : Table V) → k ≢ id → find id (store k v m) ≡ find id m
find-store_other k id v m h = ground (arith, find-store k id v m, bytes_eq_iff k id)

pub find-delete_self {ℓ} : {V : Type ℓ} (k : Bytes) (m : Table V) → find k (delete k m) ≡ none
find-delete_self k m = rw (find-delete k k m, bytes_eq_refl k) refl

-- What the goroutine of a response leaves of the two tables.
pub record Keeps (id : Bytes) (s t : DevToolProxy) : Type 0 where
  pub keeps_tracked :
      is_some (find id s.tracked_requests) ≡ true → is_some (find id t.tracked_requests) ≡ true
  pub keeps_gone : find id s.pending_requests ≡ none → find id t.pending_requests ≡ none

take_tracked-Keeps :
    (k id : Bytes) (now : ℕ) (o : Option TrackedRequest) (s : DevToolProxy)
    → k ≢ id
    → Keeps id s (take_tracked k now o s).1
unfolding take_tracked
take_tracked-Keeps k id now none s h = record { keeps_tracked = λ e. e; keeps_gone = λ e. e }
take_tracked-Keeps k id now (some t) s h = record {
  keeps_tracked = λ e. ap is_some (find-delete_other k id s.tracked_requests h) ∙ e;
  keeps_gone = λ e. e;
}

pub take_pending-Keeps :
    (k id : Bytes) (now : ℕ) (o : Option PendingRequest) (s : DevToolProxy)
    → k ≢ id
    → Keeps id s (take_pending k now o s).1
unfolding take_pending
take_pending-Keeps k id now none s h = take_tracked-Keeps k id now (find k s.tracked_requests) s h
take_pending-Keeps k id now (some p) s h = record {
  keeps_tracked = λ e. e;
  keeps_gone = λ e. find-delete-none k id s.pending_requests e;
}

pub with_records-Keeps :
    (id : Bytes) (s u t : DevToolProxy) (o : Option (List RequestRecord))
    → Keeps id s u
    → with_records u o ≡ some t
    → Keeps id s t
unfolding with_records
with_records-Keeps id s u t none k e = cc
with_records-Keeps id s u t (some l) k e =
    let same : record u { request_records = l } ≡ t = cc in
    subst (Keeps id s) same (record { keeps_tracked = k.keeps_tracked; keeps_gone = k.keeps_gone })

-- What tracking a request leaves of the two tables.
pub record Spares (id : Bytes) (s t : DevToolProxy) : Type 0 where
  pub same_tracked : t.tracked_requests ≡ s.tracked_requests
  pub same_pending : find id t.pending_requests ≡ find id s.pending_requests

track_body-Spares :
    (k id : Bytes) (now : ℕ) (req : Request) (o : Option Stream) (s : DevToolProxy)
    → k ≢ id
    → Spares id s (track_body k now req o s).1
unfolding track_body new_body
track_body-Spares k id now req none s h = record { same_tracked = refl; same_pending = refl }
track_body-Spares k id now req (some body) s h = record {
  same_tracked = refl;
  same_pending =
      find-store_other k id
        (record { request = record { request = req; body = s.next_body }; request_time = now })
        s.pending_requests h;
}

pub track_request_only-Spares :
    (k id : Bytes) (now : ℕ) (req : Request) (s : DevToolProxy)
    → k ≢ id
    → Spares id s (track_request_only k now req s).1
unfolding track_request_only
track_request_only-Spares k id now req s h =
    branch (λ (r : Option TrackedRequest × DevToolProxy). Spares id s r.1) (is_tracked req s)
      (λ e. track_body-Spares k id now req req.body s h)
      (λ e. record { same_tracked = refl; same_pending = refl })
