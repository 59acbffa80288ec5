-- ===== src/Core/HtmlInject/Laws.antt =====
-- The first version of the injection against the second.
use mitm_proxy.Base.{ℕ, ◌≡◌, refl, sym, ap, ◌∙◌, true, false, none, some, arith}
use mitm_proxy.Text.{Bytes, bytes, bytes_eq, last_index, to_lower}
use mitm_proxy.Http.Error.{ok}
use mitm_proxy.Http.Header.{del, canonical}
use mitm_proxy.Http.Header.Laws.{get-del_ne}
use mitm_proxy.Http.Message.{Response, Codec, string_reader}
use mitm_proxy.Refactor.HtmlInject
use mitm_proxy.Refactor.HtmlInject.{new_html_injector, should_inject, inject}
use mitm_proxy.Refactor.HtmlInject.Laws.{bare, injected_html}
use mitm_proxy.Core.HtmlInject.{
  decode, decompress_body, insert_at, insert_html, close_tag, encoding,
}

policy-ne-encoding :
    bytes_eq (canonical (bytes "Content-Security-Policy")) (canonical (bytes "Content-Encoding"))
    ≡ false
unfolding canonical bytes bytes_eq
policy-ne-encoding = refl

-- The response without its security policy.
abbrev relaxed : Response → Response
relaxed resp = record resp { header = del resp.header (bytes "Content-Security-Policy") }

encoding-relaxed : (resp : Response) → encoding (relaxed resp) ≡ encoding resp
encoding-relaxed resp = ap to_lower (
    get-del_ne resp.header (bytes "Content-Security-Policy") (bytes "Content-Encoding")
      policy-ne-encoding)

module _ (gzip zlib : Codec) (resp : Response) where
  -- A text that the second version decodes is decoded by the first.
  decode-decompress_body :
      (text : Bytes)
      → (HtmlInject.decompress_body gzip zlib resp).0 ≡ ok text
      → decode gzip zlib (relaxed resp) ≡ (ok text, (HtmlInject.decompress_body gzip zlib resp).1)
  unfolding decode HtmlInject.decompress_body
  decode-decompress_body text e = rw (encoding-relaxed resp) (ground arith)

  module _ (fn : Response → Bytes × Response) (text : Bytes) where
    -- The first version on a decodable page.
    insert_html_lem :
        should_inject resp ≡ true
        → (HtmlInject.decompress_body gzip zlib resp).0 ≡ ok text
        → insert_html gzip zlib fn resp
          ≡ (none, insert_at fn text (bare gzip zlib fn resp) (last_index text close_tag))
    unfolding insert_html should_inject
    insert_html_lem h e =
        let decoded = decode-decompress_body text e in
        rw (h, ap (λ r. r.0) decoded, decompress_body, ap (λ r. r.1) decoded)

    -- On a page with a closing tag the two versions leave the same response.
    pub insert_html-inject :
        (i : ℕ)
        → should_inject resp ≡ true
        → (HtmlInject.decompress_body gzip zlib resp).0 ≡ ok text
        → last_index text close_tag ≡ some i
        → insert_html gzip zlib fn resp ≡ inject gzip zlib (some (new_html_injector fn)) resp
    unfolding insert_at HtmlInject.inject_at
    insert_html-inject i h e k =
        insert_html_lem h e ∙ rw k refl ∙ sym (injected_html gzip zlib fn resp text h e)

    -- On a page without one the first version puts the decoded text in place, and keeps the length
    -- that was announced for the body as it came.
    pub insert_html_untagged :
        should_inject resp ≡ true
        → (HtmlInject.decompress_body gzip zlib resp).0 ≡ ok text
        → last_index text close_tag ≡ none
        → ((insert_html gzip zlib fn resp).1.body ≡ string_reader text)
          × ((insert_html gzip zlib fn resp).1.content_length ≡ resp.content_length)
    unfolding insert_at
    insert_html_untagged h e k = rw (insert_html_lem h e, k) (refl, refl)
