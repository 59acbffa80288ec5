-- ===== src/Core/HtmlInject.antt =====
-- core/mitm.go, InsertHTMLToHTMLBody: the first version of the HTML injection.
pub mod Laws
use mitm_proxy.Base.{
  ℕ, Bool, List, ◌++◌, Option, none, some, if◌then◌else◌, take, drop, length, ◌≡◌, refl,
}
use mitm_proxy.Text.{Bytes, bytes, bytes_eq, to_lower, contains, last_index}
use mitm_proxy.Text.Numeral.{decimal}
use mitm_proxy.Http.Error.{GoError, Result, ok, err, other, error_text, ◌>>=◌}
use mitm_proxy.Http.Header.{get, set, del}
use mitm_proxy.Http.Message.{Stream, Response, Codec, string_reader, read_all, drained}

-- `fmt.Errorf("…: %v", err)` keeps the text alone.
abbrev pub described {ℓ} : {A : Type ℓ} → Bytes → Result A → Result A
described m (ok a) = ok a
described m (err e) = err (other (m ++ error_text e))

abbrev pub close_tag : Bytes
close_tag = bytes "</body>"

abbrev pub encoding : Response → Bytes
encoding resp = to_lower (get resp.header (bytes "Content-Encoding"))

unfoldable pub insert_at : (Response → Bytes × Response) → Bytes → Response → Option ℕ → Response
insert_at fn text resp none = record resp { body = string_reader text }
insert_at fn text resp (some i) =
    let (html, r) = fn resp in
    let inserted = take i text ++ (html ++ drop i text) in
    record r {
      body = string_reader inserted;
      content_length = some (length inserted);
      header = set r.header (bytes "Content-Length") (decimal (length inserted));
    }

unfoldable pub insert_text :
    (Response → Bytes × Response) → Result Bytes → Response → Option GoError × Response
unfolding insert_at
insert_text fn (err e) resp = (some e, resp)
insert_text fn (ok text) resp = (none, insert_at fn text resp (last_index text close_tag))

module _ (gzip zlib : Codec) where
  unfoldable pub decode : Response → Result Bytes × Stream
  decode resp =
      if bytes_eq (encoding resp) (bytes "gzip")
      then (
        (do
          reader ← described (bytes "failed to create gzip reader: ") (gzip.opened resp.body)
          described (bytes "failed to read response body: ") (read_all reader)),
        gzip.left resp.body,
      )
      else if bytes_eq (encoding resp) (bytes "deflate")
      then (
        (do
          reader ← described (bytes "failed to create zlib reader: ") (zlib.opened resp.body)
          described (bytes "failed to read response body: ") (read_all reader)),
        zlib.left resp.body,
      )
      else (
        described (bytes "failed to read response body: ") (read_all resp.body),
        drained resp.body,
      )

  -- Reads and decodes the body; the encoding's header goes only if that succeeds.
  unfoldable pub decompress_body : Response → Result Bytes × Response
  decompress_body resp =
      let r = record resp { body = (decode resp).1 } in
      (
        (decode resp).0,
        elim (decode resp).0 [
          | err e ↦ r
          | ok text ↦ record r { header = del r.header (bytes "Content-Encoding") }
        ],
      )

  -- The function that `InsertHTMLToHTMLBody(htmlFn)` installs.
  unfoldable pub insert_html : (Response → Bytes × Response) → Response → Option GoError × Response
  unfolding insert_text decompress_body
  insert_html fn resp =
      let bare = record resp { header = del resp.header (bytes "Content-Security-Policy") } in
      let (text, r) = decompress_body bare in
      if contains (get resp.header (bytes "Content-Type")) (bytes "text/html")
      then insert_text fn text r
      else (none, resp)
