-- ===== src/Examples/Stopping.antt =====
-- A run of the first version in which Stop comes while a client is registered.
use mitm_proxy.Base.{◌≡◌, ◌≢◌, refl, true, false, [], ◌∷◌, All}
use mitm_proxy.Core.Lifecycle.{
  accepting, listening, closed_down, waiting, checking, serving, World, stop_worker, listen,
  publish, accept, register, check, stop, new, Steps, here, next,
}
use mitm_proxy.Core.Lifecycle.Stopped.{entries, IsShut, stopped-IsShut}

abbrev seen : World
seen = record {
  start = accepting;
  closed = true;
  listener = closed_down;
  workers = record { conn = 7; stage = serving; is_open = false } ∷ [];
  count = 1;
}

run : Steps new seen
unfolding new stop_worker
run =
    next
      (next
        (next
          (next (next (next here (listen refl refl)) (publish refl refl refl))
            (accept 7 refl refl refl))
          (register (record { conn = 7; stage = waiting; is_open = true }) [] [] refl refl refl))
        (stop refl refl))
      (check (record { conn = 7; stage = checking false; is_open = false }) false [] [] refl refl
        refl)

stopped-IsShut_example :
    (1 ≡ entries (seen.workers))
    × (true ≡ true → (closed_down ≢ listening) × All IsShut (seen.workers))
stopped-IsShut_example = stopped-IsShut run
