-- ===== src/Refactor/Tunnel/Ends.antt =====
-- The tunnel comes to an end.
use mitm_proxy.Base.{
  ◌++◌, sym, ℕ, ◌+◌, ◌*◌, ◌≤◌, ◌≡◌, refl, ap, ◌∙◌, ◌⊎◌, inl, inr, Bool, true, false, List, [], ◌∷◌,
  arith, length, Bool-cases,
}
use mitm_proxy.Text.{Bytes}
use mitm_proxy.Refactor.Tunnel.{
  Source, blocked, block_closed, half, Stage, reading, holding, copied, closed_both, finished, Half,
  Tunnel, CopyStep, read_chunk, read_end, read_closed, write_chunk, write_error, close_both,
  set_down, set_up, count_down, Step, copy_down, copy_up, close_down, close_up, done_down, done_up,
  return, Steps, start,
}
use mitm_proxy.Refactor.Tunnel.Upkeep.{is_blocked, Ending, Inv, start-Inv, Steps-Inv, Steps-fuel}

abbrev pub Moves : Tunnel → Type 0
Moves w = (v : Tunnel) × Step w v

abbrev Copies : Bool → Half → Type 0
Copies connected h = (k : Half) × CopyStep connected h k

weaker :
    (connected : Bool) (h : Half)
    → (connected ≡ false) ⊎ Ending h
    → (connected ≡ false) ⊎ (h.ends ≡ true)
weaker connected h (inl c) = inl c
weaker connected h (inr (e, b, s)) = inr e

-- A read of a source that ends, or of a closed connection, returns.
reads :
    (connected : Bool) (h : Half) (input : List Bytes)
    → h.input ≡ input
    → h.stage ≡ reading
    → (connected ≡ false) ⊎ (h.ends ≡ true)
    → Copies connected h
reads connected h input i s (inl c) = (record h { stage = copied }, read_closed c s refl)
reads connected h [] i s (inr e) = (record h { stage = copied }, read_end s i e refl)
reads true h (c ∷ rest) i s (inr e) =
    (record h { stage = holding c; input = rest }, read_chunk c rest refl s i refl)
reads false h (c ∷ rest) i s (inr e) = (record h { stage = copied }, read_closed refl s refl)

-- A Write that is not blocked succeeds while the connections are open.
writes : (connected : Bool) (h : Half) (c : Bytes) → h.stage ≡ holding c → Copies connected h
writes true h c s =
    (record h { stage = reading; output = h.output ++ (c ∷ []) }, write_chunk c refl s refl)
writes false h c s = (record h { stage = copied }, write_error c s refl)

unblocks :
    (connected : Bool) (h : Half) (c : Bytes)
    → h.stage ≡ blocked c
    → (connected ≡ false) ⊎ Ending h
    → Copies connected h
unblocks connected h c s (inl e) = (record h { stage = copied }, block_closed c e s refl)
unblocks connected h c s (inr (e, b, n)) =
    let impossible : true ≡ false = sym (ap is_blocked s) ∙ n in cc

down_copies : (w : Tunnel) → Copies w.connected w.down → Moves w
down_copies w (k, s) = (record w { down = k }, copy_down k s refl)

-- The goroutine moves, where its connections are closed or its direction comes to an end.
down-Moves :
    (w : Tunnel) (s : Stage)
    → w.down.stage ≡ s
    → (w.connected ≡ false) ⊎ Ending w.down
    → Moves w ⊎ (w.down.stage ≡ finished)
down-Moves w reading e h =
    inl (down_copies w (reads w.connected w.down w.down.input refl e (weaker w.connected w.down h)))
down-Moves w (holding c) e h = inl (down_copies w (writes w.connected w.down c e))
down-Moves w (blocked c) e h = inl (down_copies w (unblocks w.connected w.down c e h))
down-Moves w copied e h = inl (close_both (set_down closed_both w), close_down e refl)
down-Moves w closed_both e h = inl (count_down (set_down finished w), done_down e refl)
down-Moves w finished e h = inr e

up_copies : (w : Tunnel) → Copies w.connected w.up → Moves w
up_copies w (k, s) = (record w { up = k }, copy_up k s refl)

-- The goroutine moves, where its connections are closed or its direction comes to an end.
up-Moves :
    (w : Tunnel) (s : Stage)
    → w.up.stage ≡ s
    → (w.connected ≡ false) ⊎ Ending w.up
    → Moves w ⊎ (w.up.stage ≡ finished)
up-Moves w reading e h =
    inl (up_copies w (reads w.connected w.up w.up.input refl e (weaker w.connected w.up h)))
up-Moves w (holding c) e h = inl (up_copies w (writes w.connected w.up c e))
up-Moves w (blocked c) e h = inl (up_copies w (unblocks w.connected w.up c e h))
up-Moves w copied e h = inl (close_both (set_up closed_both w), close_up e refl)
up-Moves w closed_both e h = inl (count_down (set_up finished w), done_up e refl)
up-Moves w finished e h = inr e

all_finished :
    (w : Tunnel)
    → Inv w
    → w.returned ≡ false
    → w.down.stage ≡ finished
    → w.up.stage ≡ finished
    → Moves w
all_finished w inv r s t =
    (record w { returned = true }, return (inv.counts ∙ rw (s, t) refl) r refl)

Inv-Moves : (w : Tunnel) → Inv w → w.returned ≡ false → Moves w
Inv-Moves w inv r = elim inv.some_end [
  | inl h ↦ elim (down-Moves w w.down.stage refl (inr h)) [
    | inl m ↦ m
    | inr s ↦ elim (up-Moves w w.up.stage refl (inl (inv.down_closed (rw s refl)))) [
      | inl m ↦ m
      | inr t ↦ all_finished w inv r s t
    ]
  ]
  | inr h ↦ elim (up-Moves w w.up.stage refl (inr h)) [
    | inl m ↦ m
    | inr t ↦ elim (down-Moves w w.down.stage refl (inl (inv.up_closed (rw t refl)))) [
      | inl m ↦ m
      | inr s ↦ all_finished w inv r s t
    ]
  ]
]

half-Ending : (x : Source) → (x.ends ≡ true) × (x.blocks ≡ false) → Ending (half x)
unfolding half
half-Ending x (e, b) = (e, b, refl)

-- Where the stream of one side comes to its end or fails, and the Writes of it to the other side do
-- not block for good, the tunnel comes to its end, however its two goroutines interleave and
-- whichever reads and writes fail: no run has more than `fuel` steps, and a run that cannot go on is
-- one behind the return of the wait. The other side need not send anything nor end, and the Writes
-- of what it sends may block for good while the connections are open.
pub start_ends :
    (server client : Source) {w : Tunnel} {n : ℕ}
    → ((server.ends ≡ true) × (server.blocks ≡ false))
      ⊎ ((client.ends ≡ true) × (client.blocks ≡ false))
    → Steps (start server client) n w
    → (n ≤ 2 * length server.chunks + 2 * length client.chunks + 7)
      × ((w.returned ≡ true) ⊎ Moves w)
start_ends server client {w} {n} h r =
    let first : Inv (start server client) =
      start-Inv server client
        (elim h [ inl x ↦ inl (half-Ending server x) | inr x ↦ inr (half-Ending client x) ]) in
    (
      unfold start half in omega (arith, Steps-fuel r),
      elim (Bool-cases w.returned) [
        | inl e ↦ inl e
        | inr e ↦ inr (Inv-Moves w (Steps-Inv r first) e)
      ],
    )
