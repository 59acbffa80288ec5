-- ===== src/Refactor/Tunnel/Delivers.antt =====
-- What the tunnel hands over.
use mitm_proxy.Base.{
  ℕ, ◌≡◌, refl, sym, ap, ◌∙◌, subst, IsPrefix, ◌⊎◌, inl, inr, Bool, List, [], ◌∷◌, ◌++◌,
  append_assoc, branch,
}
use mitm_proxy.Text.{Bytes}
use mitm_proxy.Refactor.Tunnel.{
  Source, write_blocks, block_closed, half, Stage, reading, holding, closed_both, finished, Half,
  Tunnel, CopyStep, read_chunk, read_end, read_closed, write_chunk, write_error, close_both,
  set_down, set_up, count_down, Step, copy_down, copy_up, close_down, close_up, done_down, done_up,
  return, Steps, here, next, start,
}

-- Of the chunks that a source sends, those written and the rest; a copy that reads has lost none, and
-- one that writes has the next in hand.
record Carried (sent : List Bytes) (h : Half) : Type 0 where
  pub rest : List Bytes
  pub whole : sent ≡ h.output ++ rest
  pub at_read : h.stage ≡ reading → rest ≡ h.input
  pub at_write : (c : Bytes) → h.stage ≡ holding c → rest ≡ c ∷ h.input

CopyStep-Carried :
    (sent : List Bytes) (connected : Bool) (h k : Half)
    → CopyStep connected h k
    → Carried sent h
    → Carried sent k
CopyStep-Carried sent connected h k (read_chunk c l o s i e) car =
    subst (Carried sent) (sym e) (record {
      rest = car.rest;
      whole = car.whole;
      at_read = λ f. cc;
      at_write = λ d f. let same : c ≡ d = cc in car.at_read s ∙ i ∙ ap (λ x. x ∷ l) same;
    })
CopyStep-Carried sent connected h k (write_chunk c o s e) car =
    subst (Carried sent) (sym e) (record {
      rest = h.input;
      whole =
          car.whole
          ∙ ap (λ l. h.output ++ l) (car.at_write c s)
          ∙ sym (append_assoc h.output (c ∷ []) h.input);
      at_read = λ f. refl;
      at_write = λ d f. cc;
    })
CopyStep-Carried sent connected h k (read_end s i n e) car =
    subst (Carried sent) (sym e)
      (record { rest = car.rest; whole = car.whole; at_read = λ f. cc; at_write = λ d f. cc })
CopyStep-Carried sent connected h k (read_closed o s e) car =
    subst (Carried sent) (sym e)
      (record { rest = car.rest; whole = car.whole; at_read = λ f. cc; at_write = λ d f. cc })
CopyStep-Carried sent connected h k (write_error c s e) car =
    subst (Carried sent) (sym e)
      (record { rest = car.rest; whole = car.whole; at_read = λ f. cc; at_write = λ d f. cc })
CopyStep-Carried sent connected h k (write_blocks c o s n e) car =
    subst (Carried sent) (sym e)
      (record { rest = car.rest; whole = car.whole; at_read = λ f. cc; at_write = λ d f. cc })
CopyStep-Carried sent connected h k (block_closed c o s e) car =
    subst (Carried sent) (sym e)
      (record { rest = car.rest; whole = car.whole; at_read = λ f. cc; at_write = λ d f. cc })

-- A goroutine behind its copy.
past-Carried :
    (sent : List Bytes) (h : Half) (s : Stage)
    → (s ≡ closed_both) ⊎ (s ≡ finished)
    → Carried sent h
    → Carried sent (record h { stage = s })
past-Carried sent h s p car = record {
  rest = car.rest;
  whole = car.whole;
  at_read = λ f. elim p [ inl e ↦ cc | inr e ↦ cc ];
  at_write = λ d f. elim p [ inl e ↦ cc | inr e ↦ cc ];
}

module _ (sent received : List Bytes) where
  record Both (w : Tunnel) : Type 0 where
    pub both_down : Carried sent w.down
    pub both_up : Carried received w.up

  close_both-Both : (w : Tunnel) → Both w → Both (close_both w)
  unfolding close_both
  close_both-Both w b =
      branch Both w.once (λ e. b) (λ e. record { both_down = b.both_down; both_up = b.both_up })

  Step-Both : (w v : Tunnel) → Step w v → Both w → Both v
  unfolding set_down set_up count_down
  Step-Both w v (copy_down k s e) b = subst Both (sym e) (record {
    both_down = CopyStep-Carried sent w.connected w.down k s b.both_down;
    both_up = b.both_up;
  })
  Step-Both w v (copy_up k s e) b = subst Both (sym e) (record {
    both_down = b.both_down;
    both_up = CopyStep-Carried received w.connected w.up k s b.both_up;
  })
  Step-Both w v (close_down s e) b = subst Both (sym e) (
      close_both-Both (set_down closed_both w) (record {
        both_down = past-Carried sent w.down closed_both (inl refl) b.both_down;
        both_up = b.both_up;
      }))
  Step-Both w v (close_up s e) b = subst Both (sym e) (
      close_both-Both (set_up closed_both w) (record {
        both_down = b.both_down;
        both_up = past-Carried received w.up closed_both (inl refl) b.both_up;
      }))
  Step-Both w v (done_down s e) b = subst Both (sym e) (record {
    both_down = past-Carried sent w.down finished (inr refl) b.both_down;
    both_up = b.both_up;
  })
  Step-Both w v (done_up s e) b = subst Both (sym e) (record {
    both_down = b.both_down;
    both_up = past-Carried received w.up finished (inr refl) b.both_up;
  })
  Step-Both w v (return s r e) b =
      subst Both (sym e) (record { both_down = b.both_down; both_up = b.both_up })

  Steps-Both : {w v : Tunnel} {n : ℕ} → Steps w n v → Both w → Both v
  Steps-Both here b = b
  Steps-Both (next {u} {v} r s) b = Step-Both u v s (Steps-Both r b)

half-Carried : (x : Source) → Carried x.chunks (half x)
unfolding half
half-Carried x = record { rest = x.chunks; whole = refl; at_read = λ f. refl; at_write = λ c f. cc }

-- At any time the chunks that were written to either side of the tunnel are a beginning of what the
-- other side sends behind the bytes that its buffered reader holds when the tunnel starts, which are
-- no part of it: from there on no chunk is left out, doubled or moved.
pub start_delivers :
    (server client : Source) {w : Tunnel} {n : ℕ}
    → Steps (start server client) n w
    → IsPrefix w.down.output server.chunks × IsPrefix w.up.output client.chunks
unfolding start
start_delivers server client r =
    let b =
      Steps-Both server.chunks client.chunks r
        (record { both_down = half-Carried server; both_up = half-Carried client }) in
    ((b.both_down.rest, b.both_down.whole), (b.both_up.rest, b.both_up.whole))
