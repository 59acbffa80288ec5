-- ===== src/Refactor/Tunnel.antt =====
-- core_refactor/session.go: the tunnel of handleWebSocket, two goroutines that copy and a wait for
-- both, interleaved in any order.
pub mod Upkeep
pub mod Ends
pub mod Delivers
use mitm_proxy.Base.{ℕ, ◌+◌, ◌-◌, ◌≡◌, Bool, true, false, List, [], ◌∷◌, ◌++◌, if◌then◌else◌}
use mitm_proxy.Text.{Bytes}

-- A goroutine: in Read; with a chunk that it has to write; in a Write that does not return while
-- the connections are open; behind io.Copy; behind closeBoth; behind wg.Done.
pub data Stage : Type 0 where
  reading : Stage
  holding blocked : Bytes → Stage
  copied closed_both finished : Stage

-- What one side sends: what the buffered reader of its connection already holds when the tunnel
-- starts; the chunks behind that; whether its end or an error of Read follows; and whether a Write
-- of them to the other side may block for good, there being no deadline.
pub record Source : Type 0 where
  pub held : List Bytes
  pub chunks : List Bytes
  pub ends : Bool
  pub blocks : Bool

-- One direction: what its source still sends, its two flags, and the chunks that were written in full
-- to its destination.
pub record Half : Type 0 where
  pub stage : Stage
  pub input : List Bytes
  pub ends : Bool
  pub blocks : Bool
  pub output : List Bytes

-- `connected` is whether the two connections are, `once` whether closeOnce was used, `wait` the counter of
-- the WaitGroup.
pub record Tunnel : Type 0 where
  pub down : Half
  pub up : Half
  pub connected : Bool
  pub once : Bool
  pub wait : ℕ
  pub returned : Bool

-- A step of io.Copy, while the connections are open or not.
pub data CopyStep (connected : Bool) (h k : Half) : Type 0 where
  read_chunk :
      (c : Bytes) (rest : List Bytes)
      → connected ≡ true
      → h.stage ≡ reading
      → h.input ≡ c ∷ rest
      → k ≡ record h { stage = holding c; input = rest }
      → CopyStep connected h k
  read_end :
      h.stage ≡ reading
      → h.input ≡ []
      → h.ends ≡ true
      → k ≡ record h { stage = copied }
      → CopyStep connected h k
  read_closed :
      connected ≡ false
      → h.stage ≡ reading
      → k ≡ record h { stage = copied }
      → CopyStep connected h k
  write_chunk :
      (c : Bytes)
      → connected ≡ true
      → h.stage ≡ holding c
      → k ≡ record h { stage = reading; output = h.output ++ (c ∷ []) }
      → CopyStep connected h k
  write_blocks :
      (c : Bytes)
      → connected ≡ true
      → h.stage ≡ holding c
      → h.blocks ≡ true
      → k ≡ record h { stage = blocked c }
      → CopyStep connected h k
  block_closed :
      (c : Bytes)
      → connected ≡ false
      → h.stage ≡ blocked c
      → k ≡ record h { stage = copied }
      → CopyStep connected h k
  -- The destination is closed, or fails while it is open.
  write_error :
      (c : Bytes) → h.stage ≡ holding c → k ≡ record h { stage = copied } → CopyStep connected h k

-- `closeBoth`
unfoldable pub close_both : Tunnel → Tunnel
close_both w = if w.once then w else record w { once = true; connected = false }

unfoldable pub set_down : Stage → Tunnel → Tunnel
set_down s w = record w { down = record w.down { stage = s } }

unfoldable pub set_up : Stage → Tunnel → Tunnel
set_up s w = record w { up = record w.up { stage = s } }

unfoldable pub count_down : Tunnel → Tunnel
count_down w = record w { wait = w.wait - 1 }

pub data Step (w v : Tunnel) : Type 0 where
  copy_down : (k : Half) → CopyStep w.connected w.down k → v ≡ record w { down = k } → Step w v
  copy_up : (k : Half) → CopyStep w.connected w.up k → v ≡ record w { up = k } → Step w v
  close_down : w.down.stage ≡ copied → v ≡ close_both (set_down closed_both w) → Step w v
  close_up : w.up.stage ≡ copied → v ≡ close_both (set_up closed_both w) → Step w v
  done_down : w.down.stage ≡ closed_both → v ≡ count_down (set_down finished w) → Step w v
  done_up : w.up.stage ≡ closed_both → v ≡ count_down (set_up finished w) → Step w v
  return : w.wait ≡ 0 → w.returned ≡ false → v ≡ record w { returned = true } → Step w v

-- io.Copy reads the connections and not their buffered readers, so that `held` is passed over.
unfoldable pub half : Source → Half
half x = record { stage = reading; input = x.chunks; ends = x.ends; blocks = x.blocks; output = [] }

unfoldable pub start : Source → Source → Tunnel
start server client = record {
  down = half server;
  up = half client;
  connected = true;
  once = false;
  wait = 2;
  returned = false;
}

-- Runs, with the number of their steps.
pub data Steps (w : Tunnel) : ℕ → Tunnel → Type 0 where
  here : Steps w 0 w
  next : {u v : Tunnel} {n : ℕ} → Steps w n u → Step u v → Steps w (n + 1) v
