-- ===== src/Core/ResponseWriter.antt =====
-- core/responseWriter.go: a response is written as a status line, headers, and a body that is
-- plain or chunked. The order in which Go ranges over a map is the parameter `order`.
pub mod Sends
pub mod Message
pub mod Framing
use mitm_proxy.Base.{
  ℕ, zero, suc, ◌+◌, ◌-◌, ◌/◌, Bool, not, ◌&&◌, List, [], ◌∷◌, ◌++◌, Option, none, some, ltb, ◌==◌,
  if◌then◌else◌, take, drop, length, min,
}
use mitm_proxy.Text.{Bytes, bytes, bytes_eq, is_empty, crlf}
use mitm_proxy.Text.Numeral.{decimal, hex}
use mitm_proxy.Http.Error.{Result, ok, err}
use mitm_proxy.Http.Writer.{Wrote, Writer}
use mitm_proxy.Http.Header.{Header, get, set}
use mitm_proxy.Http.Status.{status_ok, status_text}

-- `header` is none while the map is nil.
pub record ResponseWriter (W : Type 0) : Type 0 where
  pub writer : W
  pub header : Option Header
  pub status : ℕ

unfoldable pub new_response_writer : {W : Type 0} → W → ResponseWriter W
new_response_writer w = record { writer = w; header = none; status = 0 }

unfoldable pub set_status : {W : Type 0} → ResponseWriter W → ℕ → ResponseWriter W
set_status w code = record w { status = code }

-- What `Header()` returns; a nil map is made first.
unfoldable pub header_map : Option Header → Header
header_map none = []
header_map (some h) = h

unfoldable pub set_header : {W : Type 0} → ResponseWriter W → Bytes → Bytes → ResponseWriter W
unfolding header_map
set_header w k v = record w { header = some (set (header_map w.header) k v) }

-- `w.header.Get(k)`, also of a nil map.
unfoldable pub get_header : Option Header → Bytes → Bytes
get_header none k = []
get_header (some h) k = get h k

unfoldable pub default_status : {W : Type 0} → ResponseWriter W → ResponseWriter W
default_status w = record w { status = if w.status == 0 then status_ok else w.status }

-- A content type, where there is content and the caller gave no type.
unfoldable pub typed : Bytes → Option Header → Option Header
unfolding header_map get_header
typed content h =
    if ltb 0 (length content) && is_empty (get_header h (bytes "Content-type"))
    then some (set (header_map h) (bytes "Content-type") (bytes "text/plain"))
    else h

unfoldable pub default_type : {W : Type 0} → Bytes → ResponseWriter W → ResponseWriter W
unfolding typed
default_type content w = record w { header = typed content w.header }

abbrev pub is_chunked : Header → Bool
is_chunked h = bytes_eq (get h (bytes "Transfer-Encoding")) (bytes "chunked")

-- A length or the chunked encoding, where the caller chose neither.
unfoldable pub frame : Bytes → Header → Header
frame content h =
    if is_empty (get h (bytes "Content-Length")) && not (is_chunked h)
    then if ltb (length content) 1024
      then set h (bytes "Content-Length") (decimal (length content))
      else set h (bytes "Transfer-Encoding") (bytes "chunked")
    else h

unfoldable pub frame_header : {W : Type 0} → Bytes → ResponseWriter W → ResponseWriter W
unfolding frame
frame_header content w = record w {
  header = elim w.header [ none ↦ none | some h ↦ some (frame content h) ];
}

unfoldable pub status_line : ℕ → Bytes
status_line code = bytes "HTTP/1.1 " ++ (decimal code ++ (32 ∷ (status_text code ++ crlf)))

unfoldable pub header_line : Bytes → Bytes → Bytes
header_line key value = key ++ (bytes ": " ++ (value ++ crlf))

abbrev pub max_chunk_size : ℕ
max_chunk_size = 3072

-- `if end > len(data) { end = len(data) }; data[i:end]`
unfoldable pub chunk_at : ℕ → Bytes → ℕ → Bytes
chunk_at limit content i =
    let last = min (i + limit) (length content) in take (last - i) (drop i content)

-- An action on the response writer that stops at the first error, `return 0, err`.
abbrev pub Act : Type 0 → Type 0 → Type 0
Act W A = ResponseWriter W → Result A × ResponseWriter W

abbrev pub pure : {W A : Type 0} → A → Act W A
pure a w = (ok a, w)

abbrev pub continue :
    {W A B : Type 0} → Result A × ResponseWriter W → (A → Act W B) → Result B × ResponseWriter W
continue (ok a, w) f = f a w
continue (err e, w) f = (err e, w)

infixl 5 ◌>>=◌ ◌>>◌
abbrev pub ◌>>=◌ : {W A B : Type 0} → Act W A → (A → Act W B) → Act W B
◌>>=◌ m f w = continue (m w) f

abbrev pub ◌>>◌ : {W B : Type 0} → Act W (Unit {0}) → Act W B → Act W B
◌>>◌ m k w = continue (m w) (λ _. k)

abbrev pub modify : {W : Type 0} → (ResponseWriter W → ResponseWriter W) → Act W (Unit {0})
modify f w = (ok tt, f w)

abbrev pub written :
    {W : Type 0} → ResponseWriter W → Wrote W → Result (Unit {0}) × ResponseWriter W
written w r = (elim r.fault [ none ↦ ok tt | some e ↦ err e ], record w { writer = r.after })

module _ {W : Type 0} (out : Writer W) where
  -- `w.writer.Write(p)`
  unfoldable pub emit : Bytes → Act W (Unit {0})
  emit p w = written w (out.write w.writer p)

  unfoldable pub emit_values : Bytes → List Bytes → Act W (Unit {0})
  emit_values key [] = pure tt
  emit_values key (v ∷ vs) = do emit (header_line key v); emit_values key vs

  unfoldable pub emit_headers : List (Bytes × List Bytes) → Act W (Unit {0})
  emit_headers [] = pure tt
  emit_headers ((key, vs) ∷ h) = do emit_values key vs; emit_headers h

  -- The rounds of the loop that are left, at the index `i`.
  unfoldable pub emit_chunks : ℕ → Bytes → ℕ → ℕ → Act W (Unit {0})
  emit_chunks limit content i zero = pure tt
  emit_chunks limit content i (suc rounds) = do
    let chunk = chunk_at limit content i
    emit (hex (length chunk) ++ crlf)
    emit chunk
    emit crlf
    emit_chunks limit content (i + limit) rounds

  unfoldable pub emit_body : Bytes → Act W (Unit {0})
  emit_body content w =
      if bytes_eq (get_header w.header (bytes "Transfer-Encoding")) (bytes "chunked")
      then (do
        emit_chunks max_chunk_size content 0
            ((length content + (max_chunk_size - 1)) / max_chunk_size)
        emit (bytes "0\r\n\r\n"))
          w
      else emit content w

  module _ (order : Header → List (Bytes × List Bytes)) where
    unfoldable pub emit_header : Act W (Unit {0})
    emit_header w = elim w.header [ none ↦ pure tt w | some h ↦ emit_headers (order h) w ]

    unfoldable pub write : Bytes → Act W ℕ
    unfolding emit emit_values emit_headers emit_chunks emit_body emit_header
    write content = do
      modify default_status
      λ w. emit (status_line w.status) w
      modify (default_type content)
      modify (frame_header content)
      emit_header
      emit crlf
      emit_body content
      pure (length content)
