-- ===== src/Refactor/ResponseWriter/Output.antt =====
-- What a series of writes puts on the wire.
use mitm_proxy.Base.{
  ℕ, ◌≡◌, refl, sym, ap, ◌∙◌, Bool, true, false, List, [], ◌∷◌, ◌++◌, append_assoc, append-nil,
  if◌then◌else◌, length,
}
use mitm_proxy.Text.{Bytes, crlf}
use mitm_proxy.Http.Writer.{Writer, IsReliable, sent-write}
use mitm_proxy.Http.Header.{Header, header_pieces}
use mitm_proxy.Refactor.ResponseWriter.{
  ResponseWriter, default_length, default_type, status_line, write_pieces, flush_header, write,
}

unfoldable pub flat : List Bytes → Bytes
flat [] = []
flat (p ∷ ps) = p ++ flat ps

-- The headers in which the first write of a text of the given length is sent.
abbrev pub sent_header : {W : Type 0} → ℕ → ResponseWriter W → Header
sent_header size w = default_type size (default_length size w.header)

unfoldable pub head : {W : Type 0} → ℕ → ResponseWriter W → Bytes
head size w = status_line w.status ++ (flat (header_pieces (sent_header size w)) ++ crlf)

-- The writes of a handler, one after the other.
unfoldable pub write_each :
    {W : Type 0} → Writer W → List Bytes → ResponseWriter W → ResponseWriter W
write_each out [] w = w
write_each out (p ∷ ps) w = write_each out ps (write out p w).1

module _ {W : Type 0} (out : Writer W) (safe : IsReliable out) where
  sent-write_pieces :
      (ps : List Bytes) (w : W) → out.sent (write_pieces out ps w) ≡ out.sent w ++ flat ps
  unfolding write_pieces flat
  sent-write_pieces [] w = sym (append-nil (out.sent w))
  sent-write_pieces (p ∷ ps) w =
      rw (safe w p, write_pieces)
        (sent-write_pieces ps (out.write w p).after
          ∙ ap (λ t. t ++ flat ps) (sent-write out safe w p)
          ∙ append_assoc (out.sent w) p (flat ps))

  sent-flush_header :
      (size : ℕ) (w : ResponseWriter W)
      → out.sent (flush_header out size w).writer ≡ out.sent w.writer ++ head size w
  unfolding flush_header head
  sent-flush_header size w =
      let pieces = header_pieces (sent_header size w) in
      let line = status_line w.status in
      let u = (out.write w.writer line).after in
      rw
        (
          sent-write out safe (write_pieces out pieces u) crlf,
          sent-write_pieces pieces u,
          sent-write out safe w.writer line,
        )
        (append_assoc (out.sent w.writer ++ line) (flat pieces) crlf
          ∙ append_assoc (out.sent w.writer) line (flat pieces ++ crlf))

-- The state behind a write: later writes leave all but the connection alone.
pub write_later :
    {W : Type 0} (out : Writer W) (p : Bytes) (w : ResponseWriter W)
    → w.header_written ≡ true
    → write out p w ≡ (
      ((out.write w.writer p).count, (out.write w.writer p).fault),
      record w { writer = (out.write w.writer p).after },
    )
unfolding write
write_later out p w h = rw (h, write)

write_first :
    {W : Type 0} (out : Writer W) (p : Bytes) (w : ResponseWriter W)
    → w.header_written ≡ false
    → let s = flush_header out (length p) w in
      (write out p w).1 ≡ record s { writer = (out.write s.writer p).after }
unfolding write
write_first out p w h =
    let after = λ (b : Bool).
      let s = if b then w else flush_header out (length p) w in
      record s { writer = (out.write s.writer p).after } in
    ap after h

module _ {W : Type 0} (out : Writer W) (safe : IsReliable out) where
  sent-write_later :
      (ps : List Bytes) (w : ResponseWriter W)
      → w.header_written ≡ true
      → out.sent (write_each out ps w).writer ≡ out.sent w.writer ++ flat ps
  unfolding write_each flat
  sent-write_later [] w h = sym (append-nil (out.sent w.writer))
  sent-write_later (p ∷ ps) w h =
      rw (write_later out p w h, write_each)
        (sent-write_later ps (record w { writer = (out.write w.writer p).after }) h
          ∙ ap (λ t. t ++ flat ps) (sent-write out safe w.writer p)
          ∙ append_assoc (out.sent w.writer) p (flat ps))

  -- On a connection that does not fail, a handler that writes at least once sends the status line
  -- and the headers once, in front of everything that it writes.
  pub sent-write_each :
      (p : Bytes) (ps : List Bytes) (w : ResponseWriter W)
      → w.header_written ≡ false
      → out.sent (write_each out (p ∷ ps) w).writer
        ≡ out.sent w.writer ++ (head (length p) w ++ flat (p ∷ ps))
  unfolding write_each flat
  sent-write_each p ps w h =
      let s = flush_header out (length p) w in
      let begun = out.sent w.writer in
      let top = head (length p) w in
      rw (write_first out p w h, write_each)
        (sent-write_later ps (record s { writer = (out.write s.writer p).after })
            (unfold flush_header in refl)
          ∙ ap (λ t. t ++ flat ps) (sent-write out safe s.writer p)
          ∙ ap (λ t. (t ++ p) ++ flat ps) (sent-flush_header out safe (length p) w)
          ∙ append_assoc (begun ++ top) p (flat ps)
          ∙ append_assoc begun top (p ++ flat ps))
