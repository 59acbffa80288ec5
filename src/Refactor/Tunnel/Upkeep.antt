-- ===== src/Refactor/Tunnel/Upkeep.antt =====
-- What every step of the tunnel keeps, and what it uses up.
use mitm_proxy.Base.{
  ℕ, ◌+◌, ◌*◌, ◌≤◌, ◌≡◌, refl, ap, ◌⊎◌, inl, inr, Bool, true, false, not, arith, length, branch,
}
use mitm_proxy.Refactor.Tunnel.{
  Source, blocked, write_blocks, block_closed, half, Stage, reading, holding, copied, closed_both,
  finished, Half, Tunnel, CopyStep, read_chunk, read_end, read_closed, write_chunk, write_error,
  close_both, set_down, set_up, count_down, Step, copy_down, copy_up, close_down, close_up,
  done_down, done_up, return, Steps, here, next, start,
}

-- The steps that a goroutine can still take, reads left aside.
abbrev pub left : Stage → ℕ
left reading = 3
left (holding c) = 4
left (blocked c) = 3
left copied = 2
left closed_both = 1
left finished = 0

abbrev pub half_fuel : Half → ℕ
half_fuel h = left h.stage + 2 * length h.input

abbrev pub unreturned : Bool → ℕ
unreturned true = 0
unreturned false = 1

-- A bound on the steps that are left.
abbrev pub fuel : Tunnel → ℕ
fuel w = half_fuel w.down + half_fuel w.up + unreturned w.returned

CopyStep-fuel :
    (connected : Bool) (h k : Half) → CopyStep connected h k → half_fuel k + 1 ≤ half_fuel h
CopyStep-fuel connected h k (read_chunk c rest o s i e) = ground arith
CopyStep-fuel connected h k (read_end s i n e) = ground arith
CopyStep-fuel connected h k (read_closed o s e) = ground arith
CopyStep-fuel connected h k (write_chunk c o s e) = ground arith
CopyStep-fuel connected h k (write_error c s e) = ground arith
CopyStep-fuel connected h k (write_blocks c o s n e) = ground arith
CopyStep-fuel connected h k (block_closed c o s e) = ground arith

fuel-close_both : (w : Tunnel) → fuel (close_both w) ≡ fuel w
unfolding close_both
fuel-close_both w = branch (λ v. fuel v ≡ fuel w) w.once (λ e. refl) (λ e. refl)

Step-fuel : (w v : Tunnel) → Step w v → fuel v + 1 ≤ fuel w
unfolding set_down set_up count_down
Step-fuel w v (copy_down k s e) = rw e (omega (arith, CopyStep-fuel w.connected w.down k s))
Step-fuel w v (copy_up k s e) = rw e (omega (arith, CopyStep-fuel w.connected w.up k s))
Step-fuel w v (close_down s e) =
    rw e (omega (arith, fuel-close_both (set_down closed_both w), ap left s))
Step-fuel w v (close_up s e) =
    rw e (omega (arith, fuel-close_both (set_up closed_both w), ap left s))
Step-fuel w v (done_down s e) = rw e (omega (arith, ap left s))
Step-fuel w v (done_up s e) = rw e (omega (arith, ap left s))
Step-fuel w v (return s r e) = rw e (omega (arith, ap unreturned r))

abbrev pub unfinished : Stage → ℕ
unfinished finished = 0
unfinished _ = 1

abbrev pub is_past : Stage → Bool
is_past closed_both = true
is_past finished = true
is_past _ = false

abbrev pub is_blocked : Stage → Bool
is_blocked (blocked c) = true
is_blocked _ = false

-- A direction whose source comes to its end, or fails, and whose destination does not block.
abbrev pub Ending : Half → Type 0
Ending h = (h.ends ≡ true) × (h.blocks ≡ false) × (is_blocked h.stage ≡ false)

-- The counter counts the goroutines, and behind closeBoth the connections are closed.
pub record Inv (w : Tunnel) : Type 0 where
  pub counts : w.wait ≡ unfinished w.down.stage + unfinished w.up.stage
  pub closes : w.connected ≡ not w.once
  pub down_closed : is_past w.down.stage ≡ true → w.connected ≡ false
  pub up_closed : is_past w.up.stage ≡ true → w.connected ≡ false
  pub some_end : Ending w.down ⊎ Ending w.up

pub start-Inv :
    (server client : Source)
    → Ending (half server) ⊎ Ending (half client)
    → Inv (start server client)
unfolding start half
start-Inv server client h = record {
  counts = refl;
  closes = refl;
  down_closed = λ e. cc;
  up_closed = λ e. cc;
  some_end = h;
}

-- What a step of a copy keeps.
record Same (h k : Half) : Type 0 where
  pub same_count : unfinished k.stage ≡ unfinished h.stage
  pub same_past : is_past k.stage ≡ is_past h.stage

CopyStep-Same : (connected : Bool) (h k : Half) → CopyStep connected h k → Same h k
CopyStep-Same connected h k (read_chunk c rest o s i e) = record {
  same_count = ground arith;
  same_past = ground arith;
}
CopyStep-Same connected h k (read_end s i n e) = record {
  same_count = ground arith;
  same_past = ground arith;
}
CopyStep-Same connected h k (read_closed o s e) = record {
  same_count = ground arith;
  same_past = ground arith;
}
CopyStep-Same connected h k (write_chunk c o s e) = record {
  same_count = ground arith;
  same_past = ground arith;
}
CopyStep-Same connected h k (write_error c s e) = record {
  same_count = ground arith;
  same_past = ground arith;
}
CopyStep-Same connected h k (write_blocks c o s n e) = record {
  same_count = ground arith;
  same_past = ground arith;
}
CopyStep-Same connected h k (block_closed c o s e) = record {
  same_count = ground arith;
  same_past = ground arith;
}

CopyStep-Ending : (connected : Bool) (h k : Half) → CopyStep connected h k → Ending h → Ending k
CopyStep-Ending connected h k (read_chunk c rest o s i e) (n1, n2, n3) = ground arith
CopyStep-Ending connected h k (read_end s i n e) (n1, n2, n3) = ground arith
CopyStep-Ending connected h k (read_closed o s e) (n1, n2, n3) = ground arith
CopyStep-Ending connected h k (write_chunk c o s e) (n1, n2, n3) = ground arith
CopyStep-Ending connected h k (write_error c s e) (n1, n2, n3) = ground arith
CopyStep-Ending connected h k (write_blocks c o s n e) (n1, n2, n3) = ground arith
CopyStep-Ending connected h k (block_closed c o s e) (n1, n2, n3) = ground arith

some_end_down :
    (w : Tunnel) (k : Half)
    → CopyStep w.connected w.down k
    → Ending w.down ⊎ Ending w.up
    → Ending k ⊎ Ending w.up
some_end_down w k s (inl x) = inl (CopyStep-Ending w.connected w.down k s x)
some_end_down w k s (inr x) = inr x

some_end_up :
    (w : Tunnel) (k : Half)
    → CopyStep w.connected w.up k
    → Ending w.down ⊎ Ending w.up
    → Ending w.down ⊎ Ending k
some_end_up w k s (inl x) = inl x
some_end_up w k s (inr x) = inr (CopyStep-Ending w.connected w.up k s x)

Step-Inv : (w v : Tunnel) → Step w v → Inv w → Inv v
unfolding close_both set_down set_up count_down
Step-Inv w v (copy_down k s e) inv =
    ground (arith, CopyStep-Same w.connected w.down k s, some_end_down w k s inv.some_end)
Step-Inv w v (copy_up k s e) inv =
    ground (arith, CopyStep-Same w.connected w.up k s, some_end_up w k s inv.some_end)
Step-Inv w v (close_down s e) inv = ground arith
Step-Inv w v (close_up s e) inv = ground arith
Step-Inv w v (done_down s e) inv = ground arith
Step-Inv w v (done_up s e) inv = ground arith
Step-Inv w v (return s r e) inv = ground arith

pub Steps-Inv : {w v : Tunnel} {n : ℕ} → Steps w n v → Inv w → Inv v
Steps-Inv here inv = inv
Steps-Inv (next {u} {v} r s) inv = Step-Inv u v s (Steps-Inv r inv)

pub Steps-fuel : {w v : Tunnel} {n : ℕ} → Steps w n v → fuel v + n ≤ fuel w
Steps-fuel here = omega arith
Steps-fuel (next {u} {v} r s) = omega (arith, Steps-fuel r, Step-fuel u v s)
