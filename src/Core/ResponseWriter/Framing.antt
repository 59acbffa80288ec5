-- ===== src/Core/ResponseWriter/Framing.antt =====
-- A client that follows the headers of a response reads the handler's content back.
use mitm_proxy.Base.{
  ℕ, ◌<◌, ◌≡◌, ◌≢◌, refl, ◌∙◌, ◌⊎◌, inl, inr, false, [], ◌∷◌, ◌++◌, append_assoc, Option, none,
  some, arith, if◌then◌else◌, ltb, length, Bool-cases,
}
use mitm_proxy.Text.{Bytes, bytes, bytes_eq, bytes_eq_refl}
use mitm_proxy.Text.Numeral.{decimal}
use mitm_proxy.Http.Header.{Header, get, set, canonical}
use mitm_proxy.Http.Header.Laws.{get-set_self, get-set_ne, get-nil}
use mitm_proxy.Http.Chunked.{read_body}
use mitm_proxy.Http.Framing.{
  content_length, transfer_encoding, length-ne-encoding, chunked-ne-nil, read_body_plain,
}
use mitm_proxy.Core.ResponseWriter.{
  ResponseWriter, header_map, get_header, typed, frame, default_status, default_type, frame_header,
  max_chunk_size,
}
use mitm_proxy.Core.ResponseWriter.Sends.{chunk_lines}
use mitm_proxy.Core.ResponseWriter.Message.{ready, rounds, body_bytes, dechunk-chunk_lines}

-- The caller has chosen no framing.
abbrev pub IsUnframed : Option Header → Type 0
IsUnframed h = (get_header h content_length ≡ []) × (get_header h transfer_encoding ≡ [])

type-ne-length : bytes_eq (canonical (bytes "Content-type")) (canonical content_length) ≡ false
unfolding canonical bytes bytes_eq
type-ne-length = refl

type-ne-encoding : bytes_eq (canonical (bytes "Content-type")) (canonical transfer_encoding) ≡ false
unfolding canonical bytes bytes_eq
type-ne-encoding = refl

typed-IsUnframed :
    (content : Bytes) (h : Option Header) → IsUnframed h → IsUnframed (typed content h)
unfolding typed
typed-IsUnframed content none (a, b) =
    let set_type = get-set_ne [] (bytes "Content-type") in
    ground (
      arith,
      set_type content_length (bytes "text/plain") type-ne-length,
      set_type transfer_encoding (bytes "text/plain") type-ne-encoding,
      get-nil content_length,
      get-nil transfer_encoding,
    )
typed-IsUnframed content (some m) (a, b) =
    let set_type = get-set_ne m (bytes "Content-type") in
    ground (
      arith,
      set_type content_length (bytes "text/plain") type-ne-length,
      set_type transfer_encoding (bytes "text/plain") type-ne-encoding,
    )

frame_choice :
    (content : Bytes) (m : Header)
    → IsUnframed (some m)
    → frame content m ≡ (
        if ltb (length content) 1024
        then set m content_length (decimal (length content))
        else set m transfer_encoding (bytes "chunked"))
unfolding frame get_header
frame_choice content m (a, b) = ground (arith, chunked-ne-nil)

typed-ne-none :
    (content : Bytes) (h : Option Header) → (h ≢ none) ⊎ (content ≢ []) → typed content h ≢ none
unfolding typed get_header
typed-ne-none content none (inl k) = absurd (k refl)
typed-ne-none [] none (inr k) = absurd (k refl)
typed-ne-none (c ∷ content) none given = ground arith
typed-ne-none content (some m) given = ground arith

made : (h : Option Header) → h ≢ none → (m : Header) × (h ≡ some m)
made none k = absurd (k refl)
made (some m) k = (m, refl)

module _ (content tail : Bytes) (f : ℕ) (enough : length content < f) (m : Header) where
  abbrev Reads : Header → Type 0
  Reads h = read_body f h (body_bytes (some h) content ++ tail) ≡ some (content, tail)

  plain-Reads : IsUnframed (some m) → Reads (set m content_length (decimal (length content)))
  unfolding get_header body_bytes
  plain-Reads (a, b) =
      let size = decimal (length content) in
      let unchunked : get (set m content_length size) transfer_encoding ≡ [] =
        get-set_ne m content_length transfer_encoding size length-ne-encoding ∙ b in
      let unframed : body_bytes (some (set m content_length size)) content ≡ content =
        rw (unchunked, chunked-ne-nil, body_bytes) refl in
      rw unframed (
        read_body_plain f (set m content_length size) content tail unchunked
          (get-set_self m content_length size))

  chunked-Reads : Reads (set m transfer_encoding (bytes "chunked"))
  unfolding read_body body_bytes get_header
  chunked-Reads =
      let chunks = chunk_lines max_chunk_size content 0 (rounds content) in
      rw
        (
          get-set_self m transfer_encoding (bytes "chunked"),
          bytes_eq_refl (bytes "chunked"),
          append_assoc chunks (bytes "0\r\n\r\n") tail,
        )
        (dechunk-chunk_lines max_chunk_size content tail f 0 (rounds content) (omega arith)
          (omega arith) (omega arith) (omega arith))

  frame-Reads : IsUnframed (some m) → Reads (frame content m)
  frame-Reads u = rw (frame_choice content m u) (elim (Bool-cases (ltb (length content) 1024)) [
    | inl e ↦ rw e (plain-Reads u)
    | inr e ↦ rw e chunked-Reads
  ])

-- Where the caller chose no framing, and set a header or wrote some content, a client that follows
-- the headers in which `Write` sends takes the content off the stream, and nothing behind it.
pub read_body-body_bytes :
    {W : Type 0} (s : ResponseWriter W) (content tail : Bytes) (f : ℕ)
    → IsUnframed s.header
    → (s.header ≢ none) ⊎ (content ≢ [])
    → length content < f
    → let h = (ready content s).header in
      read_body f (header_map h) (body_bytes h content ++ tail) ≡ some (content, tail)
unfolding default_status default_type frame_header header_map
read_body-body_bytes s content tail f u given enough =
    let (m, e) = made (typed content s.header) (typed-ne-none content s.header given) in
    rw e (frame-Reads content tail f enough m (rw e at (typed-IsUnframed content s.header u)))
