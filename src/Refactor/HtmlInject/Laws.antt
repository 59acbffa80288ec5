-- ===== src/Refactor/HtmlInject/Laws.antt =====
-- What the injection makes of a response, on every path.
use mitm_proxy.Base.{
  ℕ, ◌≤◌, ◌≡◌, refl, sym, ap, subst, ◌∙◌, true, false, ◌++◌, Option, none, some, arith, take,
  length, length-take, length-append,
}
use mitm_proxy.Text.{Bytes, bytes, last_index}
use mitm_proxy.Text.Numeral.{decimal}
use mitm_proxy.Text.Search.{last_index-splits, last_index-last}
use mitm_proxy.Http.Error.{GoError, ok, err}
use mitm_proxy.Http.Header.{get, del}
use mitm_proxy.Http.Header.Laws.{get-set_self}
use mitm_proxy.Http.Message.{Response, Codec, string_reader}
use mitm_proxy.Refactor.HtmlInject.{
  new_html_injector, should_inject, close_tag, decompress_body, inject_at, inject,
}

module _ (gzip zlib : Codec) (fn : Response → Bytes × Response) (resp : Response) where
  abbrev pub injected : Option GoError × Response
  injected = inject gzip zlib (some (new_html_injector fn)) resp

  -- The response that the callback sees.
  abbrev pub bare : Response
  bare = record resp {
    body = (decompress_body gzip zlib resp).1;
    header = del (del resp.header (bytes "Content-Security-Policy")) (bytes "Content-Encoding");
  }

  pub injected_html :
      (text : Bytes)
      → should_inject resp ≡ true
      → (decompress_body gzip zlib resp).0 ≡ ok text
      → injected ≡ (none, inject_at fn text bare (last_index text close_tag))
  unfolding inject new_html_injector
  injected_html text h e = rw (h, e)

  -- A response that is not HTML is left alone.
  pub injected_other : should_inject resp ≡ false → injected ≡ (none, resp)
  unfolding inject new_html_injector
  injected_other h = rw h

  -- A response whose body cannot be decoded comes with that error, and keeps its headers and length.
  pub injected_undecoded :
      (e : GoError)
      → should_inject resp ≡ true
      → (decompress_body gzip zlib resp).0 ≡ err e
      → injected ≡ (some e, record resp { body = (decompress_body gzip zlib resp).1 })
  unfolding inject new_html_injector
  injected_undecoded e h k = rw (h, k)

  -- With no closing tag the decoded text is the body, and the length is that of the text.
  pub injected_untagged :
      (text : Bytes)
      → should_inject resp ≡ true
      → (decompress_body gzip zlib resp).0 ≡ ok text
      → last_index text close_tag ≡ none
      → injected
        ≡ (none, record bare { body = string_reader text; content_length = some (length text) })
  injected_untagged text h e k = injected_html text h e ∙ rw k (unfold inject_at in refl)

  module _ (text : Bytes) (i : ℕ) where
    abbrev pub Spliced : Response → Type 0
    Spliced r =
        (front : Bytes) × (back : Bytes) × (text ≡ front ++ (close_tag ++ back))
        × ((before behind : Bytes)
            → text ≡ before ++ (close_tag ++ behind)
            → length before ≤ length front)
        × (r.body ≡ string_reader (front ++ ((fn bare).0 ++ (close_tag ++ back))))
        × (r.content_length ≡ some (length r.body.content))
        × (get r.header (bytes "Content-Length") ≡ decimal (length r.body.content))

    inject_at-Spliced :
        last_index text close_tag ≡ some i → Spliced (inject_at fn text bare (some i))
    unfolding inject_at
    inject_at-Spliced k =
        let (back, e, g) = last_index-splits text close_tag i k in
        (
          take i text,
          back,
          e,
          λ before behind f. omega (
            arith,
            last_index-last text close_tag i k before behind f,
            length-take i text,
            ap length f,
            length-append before (close_tag ++ behind),
          ),
          rw g refl,
          refl,
          get-set_self (fn bare).1.header (bytes "Content-Length") _,
        )

    -- The callback's text goes in front of the last closing tag and the rest of the page stays; the
    -- content length and its header are those of the new page.
    pub injected_Spliced :
        should_inject resp ≡ true
        → (decompress_body gzip zlib resp).0 ≡ ok text
        → last_index text close_tag ≡ some i
        → (injected.0 ≡ none) × Spliced injected.1
    injected_Spliced h e k =
        let page : injected ≡ (none, inject_at fn text bare (some i)) =
          injected_html text h e ∙ ap (λ o. (none, inject_at fn text bare o)) k in
        (ap (λ r. r.0) page, subst Spliced (ap (λ r. r.1) (sym page)) (inject_at-Spliced k))
