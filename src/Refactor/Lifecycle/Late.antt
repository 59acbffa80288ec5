-- ===== src/Refactor/Lifecycle/Late.antt =====
-- A client that is served behind the return of Stop.
use mitm_proxy.Base.{ℕ, ◌+◌, ◌≡◌, refl, [], ◌∷◌, arith}
use mitm_proxy.Refactor.Lifecycle.{
  accepting, accepted, counted, swept, finished, serving, World, count_client, register, finish,
  new, Steps, here, next,
}
use mitm_proxy.Refactor.Lifecycle.Stopped.{Steps-Inv}

no_workers : {w : World} (n : ℕ) → Steps new w → w.start ≡ accepted n → w.wait ≡ 0 → w.workers ≡ []
no_workers n r h k = ground (arith, (Steps-Inv r).waits)

-- Where Stop has closed the clients of the table and waits for none, while Start has a client in
-- hand that Accept returned before the listener was closed: from there Stop may return, and behind
-- its return this client is served, with no connection closed on the way.
pub late_client :
    {w : World} (n : ℕ)
    → Steps new w
    → w.stop ≡ swept
    → w.start ≡ accepted n
    → w.wait ≡ 0
    → (v : World) × Steps w v
      × (v.stop ≡ finished)
      × (v.workers ≡ record { conn = n; stage = serving } ∷ [])
      × (v.alive ≡ w.alive)
late_client {w} n r s h k =
    let a : World = record w { stop = finished } in
    let b : World = record a { start = counted n; wait = a.wait + 1 } in
    let c : World = record b {
      start = accepting;
      clients = n ∷ b.clients;
      workers = record { conn = n; stage = serving } ∷ b.workers;
    } in
    (
      c,
      next (next (next here (finish s k refl)) (count_client n h refl)) (register n refl refl),
      refl,
      ground (arith, no_workers n r h k),
      refl,
    )
