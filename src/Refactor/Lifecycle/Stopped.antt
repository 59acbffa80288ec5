-- ===== src/Refactor/Lifecycle/Stopped.antt =====
-- What holds in every state that Start, Stop and the clients can reach.
use mitm_proxy.Base.{
  ℕ, ◌+◌, ◌≤◌, ◌≡◌, ◌≢◌, Bool, true, false, List, ◌∷◌, ◌++◌, arith, length, length-append,
}
use mitm_proxy.Refactor.Lifecycle.{
  Start, accepted, counted, Stop, idle, shut, swept, finished, listening, serving, ended,
  unregistered, Worker, World, Step, listen, refuse, publish, accept, accept_error, accept_closed,
  count_client, register, leave, cut, unregister, done, mark, stop_again, close_down, close_error,
  sweep, finish, new, Steps, here, next,
}

-- A client that is counted, and one that Start has in hand.
abbrev pub pending : Start → ℕ
pending (counted n) = 1
pending _ = 0

abbrev pub in_hand : Start → ℕ
in_hand (accepted n) = 1
in_hand (counted n) = 1
in_hand _ = 0

-- Stop is behind the close of the listener.
abbrev pub is_past : Stop → Bool
is_past shut = true
is_past swept = true
is_past finished = true
is_past _ = false

pub record Inv (w : World) : Type 0 where
  pub waits : w.wait ≡ length w.workers + pending w.start
  pub sealed : is_past w.stop ≡ true → w.listener ≢ listening
  pub known : w.stop ≢ idle → w.closed ≡ true
  pub last : w.stop ≡ finished → length w.workers + in_hand w.start ≤ 1

Inv-new : Inv new
unfolding new
Inv-new = ground arith

length_middle :
    (front back : List Worker) (a b : Worker)
    → length (front ++ (a ∷ back)) ≡ length (front ++ (b ∷ back))
length_middle front back a b =
    omega (arith, length-append front (a ∷ back), length-append front (b ∷ back))

length_out :
    (front back : List Worker) (a : Worker)
    → length (front ++ (a ∷ back)) ≡ length (front ++ back) + 1
length_out front back a = omega (arith, length-append front (a ∷ back), length-append front back)

Step-Inv : (w v : World) → Step w v → Inv w → Inv v
Step-Inv w v (listen h e) inv = ground arith
Step-Inv w v (refuse h k e) inv = ground arith
Step-Inv w v (publish h k e) inv = ground arith
Step-Inv w v (accept n f h k e) inv = ground arith
Step-Inv w v (accept_error h k e) inv = ground arith
Step-Inv w v (accept_closed h k e) inv = ground arith
Step-Inv w v (count_client n h e) inv = ground arith
Step-Inv w v (register n h e) inv = ground arith
Step-Inv w v (leave n front back h e) inv = ground (
  arith,
  length_middle front back (record { conn = n; stage = serving })
      (record { conn = n; stage = ended }),
)
Step-Inv w v (cut n front back z h e) inv = ground (
  arith,
  length_middle front back (record { conn = n; stage = serving })
      (record { conn = n; stage = ended }),
)
Step-Inv w v (unregister n front back h e) inv = ground (
  arith,
  length_middle front back (record { conn = n; stage = ended })
      (record { conn = n; stage = unregistered }),
)
Step-Inv w v (done n front back h e) inv =
    ground (arith, length_out front back (record { conn = n; stage = unregistered }))
Step-Inv w v (mark h e) inv = ground arith
Step-Inv w v (stop_again h e) inv = ground arith
Step-Inv w v (close_down h e) inv = ground arith
Step-Inv w v (close_error h e) inv = ground arith
Step-Inv w v (sweep h e) inv = ground arith
Step-Inv w v (finish h k e) inv = ground arith

pub Steps-Inv : {w : World} → Steps new w → Inv w
Steps-Inv here = Inv-new
Steps-Inv (next {u} {v} r s) = Step-Inv u v s (Steps-Inv r)

-- However Start, Stop and the clients interleave: once the call of Stop that closes has returned
-- from its wait, the listener is closed or was never set, and at most one client is left, in the
-- hands of Start or being served. Nothing is said of a call that returns the error of the
-- listener's Close, nor of another call, which returns at once.
pub stopped_bound :
    {w : World}
    → Steps new w
    → w.stop ≡ finished
    → (w.listener ≢ listening) × (length w.workers + in_hand w.start ≤ 1)
stopped_bound r h = let inv = Steps-Inv r in (inv.sealed (ground arith), inv.last h)
