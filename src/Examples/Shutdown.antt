-- ===== src/Examples/Shutdown.antt =====
-- Runs of Start and Stop.
use mitm_proxy.Base.{◌+◌, ◌≤◌, ◌≡◌, ◌≢◌, refl, true, [], ◌∷◌, length}
use mitm_proxy.Net.Upstream.{count}
use mitm_proxy.Refactor.Lifecycle.{
  accepting, shut, count_client, register, accepted, swept, finished, listening, closed_down,
  serving, World, listen, publish, accept, mark, close_down, sweep, finish, remove_all, new, Steps,
  here, next,
}
use mitm_proxy.Refactor.Lifecycle.Stopped.{in_hand, stopped_bound}
use mitm_proxy.Refactor.Lifecycle.Late.{late_client}
use mitm_proxy.Refactor.Lifecycle.Drain.{leaves, stop_finishes}

-- The client 7 is accepted, and Stop comes before it is counted.
abbrev waiting : World
waiting = record {
  start = accepted 7;
  stop = swept;
  closed = true;
  listener = closed_down;
  clients = [];
  workers = [];
  alive = 7 ∷ [];
  wait = 0;
}

run : Steps new waiting
unfolding new remove_all count
run =
    next
      (next
        (next
          (next (next (next here (listen refl refl)) (publish refl refl refl))
            (accept 7 refl refl refl refl))
          (mark refl refl))
        (close_down refl refl))
      (sweep refl refl)

stopped_bound_example :
    (closed_down ≢ listening) × (length (waiting.workers) + in_hand waiting.start ≤ 1)
stopped_bound_example =
    stopped_bound {w = record waiting { stop = finished }} (next run (finish refl refl refl)) refl

late_client_example :
    (v : World) × Steps waiting v
    × (v.stop ≡ finished)
    × (v.workers ≡ record { conn = 7; stage = serving } ∷ [])
    × (v.alive ≡ 7 ∷ [])
late_client_example = late_client 7 run refl refl refl

-- The client 7 is served, and the listener is closed.
abbrev served : World
served = record {
  start = accepting;
  stop = shut;
  closed = true;
  listener = closed_down;
  clients = 7 ∷ [];
  workers = record { conn = 7; stage = serving } ∷ [];
  alive = 7 ∷ [];
  wait = 1;
}

run_to_served : Steps new served
unfolding new count
run_to_served =
    next
      (next
        (next
          (next
            (next (next (next here (listen refl refl)) (publish refl refl refl))
              (accept 7 refl refl refl refl))
            (count_client 7 refl refl))
          (register 7 refl refl))
        (mark refl refl))
      (close_down refl refl)

stop_finishes_example : (v : World) × (r : Steps served v) × (leaves r ≡ 0) × (v.stop ≡ finished)
stop_finishes_example = stop_finishes run_to_served refl refl
