-- ===== src/Core/ResponseWriter/Message.antt =====
-- The whole response that `Write` sends, and how a client reads its body back.
use mitm_proxy.Base.{
  ℕ, zero, suc, ◌+◌, ◌-◌, ◌*◌, ◌/◌, ◌≤◌, ◌<◌, ◌≡◌, ◌≢◌, ap, ◌∙◌, inl, inr, List, [], ◌++◌,
  append_assoc, append-nil, Option, none, some, arith, if◌then◌else◌, min, drop, length,
  take-append-drop, drop-drop, length-drop, length-take, take_all, drop_all, Bool-cases,
}
use native.Mathlib.Decide.{dec_le}
use mitm_proxy.Text.{Bytes, bytes, bytes_eq, crlf}
use mitm_proxy.Text.Numeral.{hex}
use mitm_proxy.Http.Writer.{Writer}
use mitm_proxy.Http.Header.{Header}
use mitm_proxy.Http.Chunked.{dechunk}
use mitm_proxy.Http.Chunked.Laws.{dechunk_chunk, dechunk_last}
use mitm_proxy.Core.ResponseWriter.{
  ResponseWriter, default_status, default_type, frame_header, status_line, get_header, chunk_at,
  max_chunk_size, emit_header, emit_body, write,
}
use mitm_proxy.Core.ResponseWriter.Sends.{
  Sends, emit-Sends, pure-Sends, continue-Sends, finish-Sends, emit_headers-Sends,
  emit_chunks-Sends, header_lines, chunk_lines,
}

-- The state in which the headers are sent.
abbrev pub ready : {W : Type 0} → Bytes → ResponseWriter W → ResponseWriter W
ready content w = frame_header content (default_type content (default_status w))

abbrev pub rounds : Bytes → ℕ
rounds content = (length content + (max_chunk_size - 1)) / max_chunk_size

unfoldable pub body_bytes : Option Header → Bytes → Bytes
body_bytes h content =
    if bytes_eq (get_header h (bytes "Transfer-Encoding")) (bytes "chunked")
    then chunk_lines max_chunk_size content 0 (rounds content) ++ bytes "0\r\n\r\n"
    else content

module _ (limit : ℕ) (content : Bytes) where
  chunk_at-append : (i : ℕ) → chunk_at limit content i ++ drop (i + limit) content ≡ drop i content
  unfolding chunk_at
  chunk_at-append i = elim (dec_le (i + limit) (length content)) [
    | yes h ↦
        let whole : min (i + limit) (length content) - i ≡ limit = omega arith in
        rw (whole, ← drop-drop limit i content) (take-append-drop limit (drop i content))
    | no h ↦
        rw
          (
            take_all (min (i + limit) (length content) - i) (drop i content)
                (omega (arith, length-drop i content)),
            drop_all (i + limit) content (omega arith),
          )
          (append-nil (drop i content))
  ]

  chunk_at-ne-nil : (i : ℕ) → 0 < limit → i < length content → chunk_at limit content i ≢ []
  unfolding chunk_at
  chunk_at-ne-nil i pos h e = omega (
    arith,
    ap length e,
    length-take (min (i + limit) (length content) - i) (drop i content),
    length-drop i content,
  )

  -- The chunks from the index `i` on are read back as the rest of the content.
  pub dechunk-chunk_lines :
      (tail : Bytes) (f i r : ℕ)
      → 0 < limit
      → length content ≤ i + limit * r
      → i + limit * r < length content + limit
      → r < f
      → dechunk f (chunk_lines limit content i r ++ (bytes "0\r\n\r\n" ++ tail))
        ≡ some (drop i content, tail)
  unfolding chunk_lines
  dechunk-chunk_lines tail zero i r pos lo hi h = absurd (omega arith)
  dechunk-chunk_lines tail (suc f) i zero pos lo hi h =
      rw (drop_all i content (omega arith)) (dechunk_last f tail)
  dechunk-chunk_lines tail (suc f) i (suc r) pos lo hi h =
      let size : Bytes = hex (length (chunk_at limit content i)) ++ crlf in
      let chunk : Bytes = chunk_at limit content i in
      let later : Bytes = chunk_lines limit content (i + limit) r in
      let rest : Bytes = bytes "0\r\n\r\n" ++ tail in
      ap (dechunk (suc f)) (append_assoc size (chunk ++ (crlf ++ later)) rest)
      ∙ ap (λ t. dechunk (suc f) (size ++ t)) (append_assoc chunk (crlf ++ later) rest)
      ∙ dechunk_chunk f chunk (later ++ rest) (drop (i + limit) content) tail
          (chunk_at-ne-nil i pos (omega arith))
          (dechunk-chunk_lines tail f (i + limit) r pos (omega arith) (omega arith) (omega arith))
      ∙ ap (λ t. some (t, tail)) (chunk_at-append i)

-- Everything that `Write` puts on the wire: the status line, the header lines in the order of the
-- range, an empty line and the body.
unfoldable pub message :
    {W : Type 0} → (Header → List (Bytes × List Bytes)) → Bytes → ResponseWriter W → Bytes
message order content s =
    let h = (ready content s).header in
    status_line (default_status s).status
    ++ (elim h [ none ↦ [] | some m ↦ header_lines (order m) ] ++ (crlf ++ body_bytes h content))

module _ {W : Type 0} (out : Writer W) where
  emit_body-Sends :
      (content : Bytes) (s : ResponseWriter W)
      → Sends out s.writer
          (body_bytes s.header content)
          tt
          (λ w. record s { writer = w })
          (emit_body out content s)
  unfolding emit_body body_bytes
  emit_body-Sends content s =
      elim (Bool-cases
        (bytes_eq (get_header s.header (bytes "Transfer-Encoding")) (bytes "chunked"))) [
          | inl e ↦ rw e (
              continue-Sends out _
                (emit_chunks-Sends out max_chunk_size content 0 (rounds content) s)
                λ w. emit-Sends out (bytes "0\r\n\r\n") (record s { writer = w }))
          | inr e ↦ rw e (emit-Sends out content s)
        ]

  module _ (order : Header → List (Bytes × List Bytes)) where
    emit_header-Sends :
        (w : W) (h : Option Header) (code : ℕ)
        → Sends out w
            (elim h [ none ↦ [] | some m ↦ header_lines (order m) ])
            tt
            (λ v. record { writer = v; header = h; status = code })
            (emit_header out order (record { writer = w; header = h; status = code }))
    unfolding emit_header
    emit_header-Sends w none code =
        pure-Sends out tt (record { writer = w; header = none; status = code })
    emit_header-Sends w (some m) code =
        emit_headers-Sends out (order m) (record { writer = w; header = some m; status = code })

    -- `Write` sends the whole message and returns the length of the content, or it stops at the
    -- first error of the connection and has sent a beginning of the message.
    pub write-Sends :
        (content : Bytes) (s : ResponseWriter W)
        → Sends out s.writer
            (message order content s)
            (length content)
            (λ w. record (ready content s) { writer = w })
            (write out order content s)
    unfolding write message default_status default_type frame_header
    write-Sends content s =
        let r = ready content s in
        continue-Sends out _ (emit-Sends out (status_line r.status) (default_status s)) λ w.
          continue-Sends out _ (emit_header-Sends w r.header r.status) λ v.
            continue-Sends out _ (emit-Sends out crlf (record r { writer = v }))
              λ u. finish-Sends out (emit_body-Sends content (record r { writer = u }))
