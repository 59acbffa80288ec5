-- ===== src/Refactor/ResponseWriter.antt =====
-- core_refactor/response_writer.go: the headers are held back until the first `Write`.
pub mod Output
pub mod Framing
use mitm_proxy.Base.{
  ℕ, Bool, true, false, ◌&&◌, List, [], ◌∷◌, ◌++◌, Option, none, some, ltb, if◌then◌else◌, length,
}
use mitm_proxy.Text.{Bytes, bytes, is_empty, crlf}
use mitm_proxy.Text.Numeral.{decimal}
use mitm_proxy.Http.Error.{GoError}
use mitm_proxy.Http.Writer.{Wrote, Writer}
use mitm_proxy.Http.Header.{Header, get, set, header_pieces}
use mitm_proxy.Http.Status.{status_ok, status_text}

pub record ResponseWriter (W : Type 0) : Type 0 where
  pub writer : W
  pub header : Header
  pub status : ℕ
  pub header_written : Bool

unfoldable pub new_response_writer : {W : Type 0} → W → ResponseWriter W
new_response_writer w = record {
  writer = w;
  header = [];
  status = status_ok;
  header_written = false;
}

-- `w.Header().Set(k, v)`
unfoldable pub set_header : {W : Type 0} → ResponseWriter W → Bytes → Bytes → ResponseWriter W
set_header w k v = record w { header = set w.header k v }

unfoldable pub write_header : {W : Type 0} → ResponseWriter W → ℕ → ResponseWriter W
write_header w code = record w { status = if w.header_written then w.status else code }

unfoldable pub default_length : ℕ → Header → Header
default_length size h =
    if is_empty (get h (bytes "Content-Length")) && is_empty (get h (bytes "Transfer-Encoding"))
    then set h (bytes "Content-Length") (decimal size)
    else h

unfoldable pub default_type : ℕ → Header → Header
default_type size h =
    if ltb 0 size && is_empty (get h (bytes "Content-Type"))
    then set h (bytes "Content-Type") (bytes "text/plain; charset=utf-8")
    else h

unfoldable pub status_line : ℕ → Bytes
status_line code = bytes "HTTP/1.1 " ++ (decimal code ++ (32 ∷ (status_text code ++ crlf)))

module _ {W : Type 0} (out : Writer W) where
  -- Writes until the first error; the error itself is dropped by the caller.
  unfoldable pub write_pieces : List Bytes → W → W
  write_pieces [] w = w
  write_pieces (p ∷ ps) w =
      let rest = write_pieces ps (out.write w p).after in
      elim (out.write w p).fault [ none ↦ rest | some e ↦ (out.write w p).after ]

  -- The part of `Write` under `!w.headerWritten`; no error of these writes is looked at.
  unfoldable pub flush_header : ℕ → ResponseWriter W → ResponseWriter W
  unfolding write_pieces
  flush_header size w =
      let h = default_type size (default_length size w.header) in
      let u = (out.write w.writer (status_line w.status)).after in
      let v = write_pieces (header_pieces h) u in
      record w { writer = (out.write v crlf).after; header = h; header_written = true }

  -- What `Write` returns, and the state that it leaves.
  unfoldable pub write : Bytes → ResponseWriter W → (ℕ × Option GoError) × ResponseWriter W
  write p w =
      let s = if w.header_written then w else flush_header (length p) w in
      let r = out.write s.writer p in ((r.count, r.fault), record s { writer = r.after })
