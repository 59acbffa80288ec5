-- ===== src/Core/ResponseWriter/Sends.antt =====
-- What an action of the response writer puts on the wire, whether or not a write fails.
use mitm_proxy.Base.{
  ℕ, zero, suc, ◌+◌, ◌≡◌, sym, ap, ◌∙◌, List, [], ◌∷◌, ◌++◌, append_assoc, append-nil, arith,
  Option-cases, inl, inr, take, drop, length, take_all, take-append-drop,
}
use mitm_proxy.Text.{Bytes, crlf}
use mitm_proxy.Text.Numeral.{hex}
use mitm_proxy.Http.Error.{GoError, Result, ok, err}
use mitm_proxy.Http.Writer.{Writer}
use mitm_proxy.Core.ResponseWriter.{
  ResponseWriter, Act, pure, continue, emit, header_line, chunk_at, emit_values, emit_headers,
  emit_chunks,
}

-- `Sends w p a next r`: the outcome `r` of an action begun at the writer `w`. Without an error all
-- of `p` was sent, the result is `a` and `next` is the new state; with one a beginning of `p` was.
pub data Sends {W A : Type 0} (out : Writer W) (w : W) (p : Bytes) (a : A)
    (next : W → ResponseWriter W) : Result A × ResponseWriter W → Type 0 where
  all : (w' : W) → out.sent w' ≡ out.sent w ++ p → Sends out w p a next (ok a, next w')
  part :
      (e : GoError) (s : ResponseWriter W) (q rest : Bytes)
      → p ≡ q ++ rest
      → out.sent s.writer ≡ out.sent w ++ q
      → Sends out w p a next (err e, s)

module _ {W : Type 0} (out : Writer W) where
  pub emit-Sends :
      (p : Bytes) (s : ResponseWriter W)
      → Sends out s.writer p tt (λ w. record s { writer = w }) (emit out p s)
  unfolding emit
  emit-Sends p s = elim (Option-cases (out.write s.writer p).fault) [
    | inl e ↦ rw e (
        all _ (
          out.takes s.writer p
          ∙ ap (◌++◌ (out.sent s.writer))
              (rw (out.short_fails s.writer p e) (take_all (length p) p (omega arith)))))
    | inr (f, e) ↦ rw e (
        part f _ (take (out.write s.writer p).count p) (drop (out.write s.writer p).count p)
          (sym (take-append-drop _ p)) (out.takes s.writer p))
  ]

  pub pure-Sends :
      {A : Type 0} (a : A) (s : ResponseWriter W)
      → Sends out s.writer [] a (λ w. record s { writer = w }) (pure a s)
  pure-Sends a s = all s.writer (sym (append-nil _))

  later-Sends :
      {A : Type 0} {w v : W} (p : Bytes) {q : Bytes} {a : A} {next : W → ResponseWriter W}
      {r : Result A × ResponseWriter W}
      → out.sent v ≡ out.sent w ++ p
      → Sends out v q a next r
      → Sends out w (p ++ q) a next r
  later-Sends {w = w} p {q = q} h (all u e) =
      all u (e ∙ ap (λ t. t ++ q) h ∙ append_assoc (out.sent w) p q)
  later-Sends {w = w} p h (part e s q' rest f g) =
      part e s (p ++ q') rest (ap (◌++◌ p) f ∙ sym (append_assoc p q' rest))
        (g ∙ ap (λ t. t ++ q') h ∙ append_assoc (out.sent w) p q')

  pub continue-Sends :
      {A B : Type 0} {w : W} {p q : Bytes} {a : A} {b : B} {next next' : W → ResponseWriter W}
      {r : Result A × ResponseWriter W} (f : A → Act W B)
      → Sends out w p a next r
      → ((v : W) → Sends out v q b next' (f a (next v)))
      → Sends out w (p ++ q) b next' (continue r f)
  continue-Sends {p = p} f (all v e) k = later-Sends p e (k v)
  continue-Sends {w = w} {p = p} {q = q} f (part e s q' rest g h) k =
      part e s q' (rest ++ q) (ap (λ t. t ++ q) g ∙ append_assoc q' rest q) h

  pub finish-Sends :
      {A B : Type 0} {w : W} {p : Bytes} {a : A} {b : B} {next : W → ResponseWriter W}
      {r : Result A × ResponseWriter W}
      → Sends out w p a next r
      → Sends out w p b next (continue r (λ _. pure b))
  finish-Sends (all v e) = all v e
  finish-Sends (part e s q rest g h) = part e s q rest g h

-- The bytes of the header lines and of the chunks.
unfoldable pub value_lines : Bytes → List Bytes → Bytes
value_lines key [] = []
value_lines key (v ∷ vs) = header_line key v ++ value_lines key vs

unfoldable pub header_lines : List (Bytes × List Bytes) → Bytes
unfolding value_lines
header_lines [] = []
header_lines ((key, vs) ∷ h) = value_lines key vs ++ header_lines h

unfoldable pub chunk_lines : ℕ → Bytes → ℕ → ℕ → Bytes
chunk_lines limit content i zero = []
chunk_lines limit content i (suc rounds) =
    let chunk = chunk_at limit content i in
    (hex (length chunk) ++ crlf)
    ++ (chunk ++ (crlf ++ chunk_lines limit content (i + limit) rounds))

module _ {W : Type 0} (out : Writer W) where
  pub emit_values-Sends :
      (key : Bytes) (vs : List Bytes) (s : ResponseWriter W)
      → Sends out s.writer
          (value_lines key vs)
          tt
          (λ w. record s { writer = w })
          (emit_values out key vs s)
  unfolding emit_values value_lines
  emit_values-Sends key [] s = pure-Sends out tt s
  emit_values-Sends key (v ∷ vs) s =
      continue-Sends out _ (emit-Sends out (header_line key v) s)
        λ w. emit_values-Sends key vs (record s { writer = w })

  pub emit_headers-Sends :
      (h : List (Bytes × List Bytes)) (s : ResponseWriter W)
      → Sends out s.writer (header_lines h) tt (λ w. record s { writer = w }) (emit_headers out h s)
  unfolding emit_headers header_lines
  emit_headers-Sends [] s = pure-Sends out tt s
  emit_headers-Sends ((key, vs) ∷ h) s =
      continue-Sends out _ (emit_values-Sends key vs s)
        λ w. emit_headers-Sends h (record s { writer = w })

  pub emit_chunks-Sends :
      (limit : ℕ) (content : Bytes) (i rounds : ℕ) (s : ResponseWriter W)
      → Sends out s.writer
          (chunk_lines limit content i rounds)
          tt
          (λ w. record s { writer = w })
          (emit_chunks out limit content i rounds s)
  unfolding emit_chunks chunk_lines
  emit_chunks-Sends limit content i zero s = pure-Sends out tt s
  emit_chunks-Sends limit content i (suc rounds) s = continue-Sends out _ (emit-Sends out _ s) λ w.
      continue-Sends out _ (emit-Sends out _ (record s { writer = w })) λ v.
        continue-Sends out _ (emit-Sends out crlf (record s { writer = v }))
          λ u. emit_chunks-Sends limit content (i + limit) rounds (record s { writer = u })
