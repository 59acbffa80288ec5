-- ===== src/Core/Lifecycle.antt =====
-- core/mitm.go: Start, Stop and the bookkeeping of addConnector, interleaved in any order. A step is
-- what runs under the container's lock, or one call that other goroutines can see.
pub mod Stopped
use mitm_proxy.Base.{ℕ, ◌+◌, ◌-◌, ◌≡◌, Bool, true, false, List, [], ◌∷◌, ◌++◌, map, if◌then◌else◌}

-- Start: before the call; with a listener of its own; in Accept; behind the return.
pub data Start : Type 0 where
  unstarted bound accepting returned : Start

pub data Listener : Type 0 where
  unset listening closed_down : Listener

-- addConnector: before its lock; behind it with what it read of `closed`; in the loop over requests;
-- behind the deletion of its entry; behind the closing of its connection.
pub data Stage : Type 0 where
  waiting : Stage
  checking : Bool → Stage
  serving leaving gone : Stage

-- A client with the state of its connection.
pub record Worker : Type 0 where
  pub conn : ℕ
  pub stage : Stage
  pub is_open : Bool

pub record World : Type 0 where
  pub start : Start
  pub closed : Bool
  pub listener : Listener
  pub workers : List Worker
  pub count : ℕ

-- Whether the client has an entry in `connectors`.
abbrev pub in_table : Stage → Bool
in_table waiting = false
in_table (checking closed) = true
in_table serving = true
in_table leaving = false
in_table gone = false

unfoldable pub stop_worker : Worker → Worker
stop_worker a = record a { is_open = if in_table a.stage then false else a.is_open }

abbrev pub close_listener : Listener → Listener
close_listener unset = unset
close_listener listening = closed_down
close_listener closed_down = closed_down

pub data Step (w v : World) : Type 0 where
  listen : w.start ≡ unstarted → v ≡ record w { start = bound } → Step w v
  refuse : w.start ≡ bound → w.closed ≡ true → v ≡ record w { start = returned } → Step w v
  publish :
      w.start ≡ bound
      → w.closed ≡ false
      → v ≡ record w { start = accepting; listener = listening }
      → Step w v
  accept :
      (n : ℕ)
      → w.start ≡ accepting
      → w.listener ≡ listening
      → v ≡ record w { workers = record { conn = n; stage = waiting; is_open = true } ∷ w.workers }
      → Step w v
  accept_closed :
      w.start ≡ accepting → w.listener ≡ closed_down → v ≡ record w { start = returned } → Step w v
  register :
      (a : Worker) (front back : List Worker)
      → w.workers ≡ front ++ (a ∷ back)
      → a.stage ≡ waiting
      → v ≡ record w {
        workers = front ++ (record a { stage = checking w.closed } ∷ back);
        count = w.count + 1;
      }
      → Step w v
  check :
      (a : Worker) (closed : Bool) (front back : List Worker)
      → w.workers ≡ front ++ (a ∷ back)
      → a.stage ≡ checking closed
      → v ≡ record w {
        workers =
            front
            ++ (record a { stage = serving; is_open = if closed then false else a.is_open } ∷ back);
      }
      → Step w v
  unregister :
      (a : Worker) (front back : List Worker)
      → w.workers ≡ front ++ (a ∷ back)
      → a.stage ≡ serving
      → v
        ≡ record w { workers = front ++ (record a { stage = leaving } ∷ back); count = w.count - 1 }
      → Step w v
  leave :
      (a : Worker) (front back : List Worker)
      → w.workers ≡ front ++ (a ∷ back)
      → a.stage ≡ leaving
      → v ≡ record w { workers = front ++ (record a { stage = gone; is_open = false } ∷ back) }
      → Step w v
  -- Stop, which holds the lock all the time; later calls do nothing.
  stop :
      w.closed ≡ false
      → v ≡ record w {
        closed = true;
        listener = close_listener w.listener;
        workers = map stop_worker w.workers;
      }
      → Step w v

unfoldable pub new : World
new = record { start = unstarted; closed = false; listener = unset; workers = []; count = 0 }

pub data Steps (w : World) : World → Type 0 where
  here : Steps w w
  next : {u v : World} → Steps w u → Step u v → Steps w v
