-- ===== src/Refactor/Lifecycle.antt =====
-- core_refactor/mitm.go: Start, the goroutines that serve the clients, and Stop, interleaved in any
-- order. A step is what runs under one lock, or one call that other goroutines can see.
pub mod Stopped
pub mod Late
pub mod Table
pub mod Drain
use mitm_proxy.Base.{
  ℕ, ◌+◌, ◌-◌, ◌≡◌, Bool, true, false, List, [], ◌∷◌, ◌++◌, ◌==◌, if◌then◌else◌, map,
}
use mitm_proxy.Net.Upstream.{count}

-- Start: before the call; with a listener of its own; in Accept; with a client from Accept that is
-- not counted yet; with one that is counted but not in the table; behind the return.
pub data Start : Type 0 where
  unstarted bound accepting : Start
  accepted : ℕ → Start
  counted : ℕ → Start
  returned : Start

-- The call of Stop that finds `closed` unset: before the call; `closed` is set; the listener is closed; the clients are closed; behind the
-- wait; behind the return of the listener's error.
pub data Stop : Type 0 where
  idle marked shut swept finished gave_up : Stop

pub data Listener : Type 0 where
  unset listening closed_down : Listener

-- The goroutine of a client: in `serve`; behind it, with the connection closed; out of the table.
pub data Stage : Type 0 where
  serving ended unregistered : Stage

pub record Worker : Type 0 where
  pub conn : ℕ
  pub stage : Stage

-- `alive` are the connections that are not closed, `wait` is the counter of the WaitGroup `conns`.
pub record World : Type 0 where
  pub start : Start
  pub stop : Stop
  pub closed : Bool
  pub listener : Listener
  pub clients : List ℕ
  pub workers : List Worker
  pub alive : List ℕ
  pub wait : ℕ

unfoldable pub remove : ℕ → List ℕ → List ℕ
remove k [] = []
remove k (j ∷ l) = if j == k then remove k l else j ∷ remove k l

unfoldable pub remove_all : List ℕ → List ℕ → List ℕ
unfolding remove
remove_all [] l = l
remove_all (k ∷ ks) l = remove_all ks (remove k l)

abbrev pub close_listener : Listener → Listener
close_listener unset = unset
close_listener listening = closed_down
close_listener closed_down = closed_down

abbrev pub conns : List Worker → List ℕ
conns l = map (λ a. a.conn) l

pub data Step (w v : World) : Type 0 where
  listen : w.start ≡ unstarted → v ≡ record w { start = bound } → Step w v
  -- The lock of Start, where Stop came first or not.
  refuse : w.start ≡ bound → w.closed ≡ true → v ≡ record w { start = returned } → Step w v
  publish :
      w.start ≡ bound
      → w.closed ≡ false
      → v ≡ record w { start = accepting; listener = listening }
      → Step w v
  -- A connection of its own, that no goroutine has.
  accept :
      (n : ℕ)
      → count n (conns w.workers) ≡ 0
      → w.start ≡ accepting
      → w.listener ≡ listening
      → v ≡ record w { start = accepted n; alive = n ∷ w.alive }
      → Step w v
  accept_error : w.start ≡ accepting → w.listener ≡ listening → v ≡ w → Step w v
  accept_closed :
      w.start ≡ accepting → w.listener ≡ closed_down → v ≡ record w { start = returned } → Step w v
  count_client :
      (n : ℕ)
      → w.start ≡ accepted n
      → v ≡ record w { start = counted n; wait = w.wait + 1 }
      → Step w v
  register :
      (n : ℕ)
      → w.start ≡ counted n
      → v ≡ record w {
        start = accepting;
        clients = n ∷ w.clients;
        workers = record { conn = n; stage = serving } ∷ w.workers;
      }
      → Step w v
  -- `serve` returns and closes its connection: since the client ends it, or since its reads and
  -- writes fail on a connection that was closed.
  leave :
      (n : ℕ) (front back : List Worker)
      → w.workers ≡ front ++ (record { conn = n; stage = serving } ∷ back)
      → v ≡ record w {
        workers = front ++ (record { conn = n; stage = ended } ∷ back);
        alive = remove n w.alive;
      }
      → Step w v
  cut :
      (n : ℕ) (front back : List Worker)
      → count n w.alive ≡ 0
      → w.workers ≡ front ++ (record { conn = n; stage = serving } ∷ back)
      → v ≡ record w {
        workers = front ++ (record { conn = n; stage = ended } ∷ back);
        alive = remove n w.alive;
      }
      → Step w v
  unregister :
      (n : ℕ) (front back : List Worker)
      → w.workers ≡ front ++ (record { conn = n; stage = ended } ∷ back)
      → v ≡ record w {
        workers = front ++ (record { conn = n; stage = unregistered } ∷ back);
        clients = remove n w.clients;
      }
      → Step w v
  done :
      (n : ℕ) (front back : List Worker)
      → w.workers ≡ front ++ (record { conn = n; stage = unregistered } ∷ back)
      → v ≡ record w { workers = front ++ back; wait = w.wait - 1 }
      → Step w v
  mark : w.closed ≡ false → v ≡ record w { closed = true; stop = marked } → Step w v
  -- Any other call of Stop, which returns at once and waits for nothing.
  stop_again : w.closed ≡ true → v ≡ w → Step w v
  close_down :
      w.stop ≡ marked
      → v ≡ record w { stop = shut; listener = close_listener w.listener }
      → Step w v
  close_error : w.stop ≡ marked → v ≡ record w { stop = gave_up } → Step w v
  sweep :
      w.stop ≡ shut → v ≡ record w { stop = swept; alive = remove_all w.clients w.alive } → Step w v
  finish : w.stop ≡ swept → w.wait ≡ 0 → v ≡ record w { stop = finished } → Step w v

unfoldable pub new : World
new = record {
  start = unstarted;
  stop = idle;
  closed = false;
  listener = unset;
  clients = [];
  workers = [];
  alive = [];
  wait = 0;
}

pub data Steps (w : World) : World → Type 0 where
  here : Steps w w
  next : {u v : World} → Steps w u → Step u v → Steps w v
