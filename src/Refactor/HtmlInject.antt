-- ===== src/Refactor/HtmlInject.antt =====
-- core_refactor/html_inject.go: text is put in front of the last `</body>` of an HTML response.
pub mod Laws
use mitm_proxy.Base.{
  ℕ, Bool, List, ◌++◌, Option, none, some, if◌then◌else◌, take, drop, length, ◌≡◌, refl,
}
use mitm_proxy.Text.{Bytes, bytes, bytes_eq, to_lower, contains, last_index}
use mitm_proxy.Text.Numeral.{decimal}
use mitm_proxy.Http.Error.{GoError, Result, ok, err, wrapped, ◌>>=◌}
use mitm_proxy.Http.Header.{get, set, del}
use mitm_proxy.Http.Message.{Stream, Request, Response, Codec, string_reader, read_all, drained}

-- The callback gets the response and may change it.
pub record HtmlInjector : Type 0 where
  pub fn : Option (Response → Bytes × Response)

unfoldable pub new_html_injector : (Response → Bytes × Response) → HtmlInjector
new_html_injector fn = record { fn = some fn }

unfoldable pub should_inject : Response → Bool
should_inject resp = contains (get resp.header (bytes "Content-Type")) (bytes "text/html")

abbrev pub close_tag : Bytes
close_tag = bytes "</body>"

abbrev pub encoding : Response → Bytes
encoding resp = to_lower (get resp.header (bytes "Content-Encoding"))

-- The response with the text for its body, at the place of the last closing tag.
unfoldable pub inject_at : (Response → Bytes × Response) → Bytes → Response → Option ℕ → Response
inject_at fn text resp none = record resp {
  body = string_reader text;
  content_length = some (length text);
}
inject_at fn text resp (some i) =
    let (html, r) = fn resp in
    let injected = take i text ++ (html ++ drop i text) in
    record r {
      body = string_reader injected;
      content_length = some (length injected);
      header = set r.header (bytes "Content-Length") (decimal (length injected));
    }

unfoldable pub inject_text :
    (Response → Bytes × Response) → Result Bytes → Response → Option GoError × Response
unfolding inject_at
inject_text fn (err e) resp = (some e, resp)
inject_text fn (ok text) resp = (
  none,
  inject_at fn text
      (record resp {
        header = del (del resp.header (bytes "Content-Security-Policy")) (bytes "Content-Encoding");
      })
      (last_index text close_tag),
)

module _ (gzip zlib : Codec) where
  -- The decoded text, and what is left of the body.
  unfoldable pub decompress_body : Response → Result Bytes × Stream
  decompress_body resp =
      if bytes_eq (encoding resp) (bytes "gzip")
      then (
        (do
          reader ← wrapped (bytes "gzip reader: ") (gzip.opened resp.body)
          wrapped (bytes "read body: ") (read_all reader)),
        gzip.left resp.body,
      )
      else if bytes_eq (encoding resp) (bytes "deflate")
      then (
        (do
          reader ← wrapped (bytes "zlib reader: ") (zlib.opened resp.body)
          wrapped (bytes "read body: ") (read_all reader)),
        zlib.left resp.body,
      )
      else (wrapped (bytes "read body: ") (read_all resp.body), drained resp.body)

  -- The error that is returned, and the response as it is left.
  unfoldable pub inject : Option HtmlInjector → Response → Option GoError × Response
  unfolding inject_text
  inject none resp = (none, resp)
  inject (some h) resp = elim h.fn [
    | none ↦ (none, resp)
    | some fn ↦
        if should_inject resp
        then inject_text fn (decompress_body resp).0
            (record resp { body = (decompress_body resp).1 })
        else (none, resp)
  ]

unfoldable pub enable_compression_hint : Request → Request
enable_compression_hint req = record req {
  header = set req.header (bytes "Accept-Encoding") (bytes "gzip, deflate");
}
