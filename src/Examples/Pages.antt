-- ===== src/Examples/Pages.antt =====
-- An HTML page, injected by both versions.
use mitm_proxy.Base.{◌≡◌, refl, [], ◌∷◌, some, none, true, drop}
use mitm_proxy.Text.{Bytes, bytes, contains, last_index, to_lower, bytes_eq}
use mitm_proxy.Http.Error.{ok}
use mitm_proxy.Http.Header.{Header, get}
use mitm_proxy.Http.Message.{Response, Codec, string_reader}
use mitm_proxy.Core.HtmlInject.{insert_html}
use mitm_proxy.Core.HtmlInject.Laws.{insert_html-inject}
use mitm_proxy.Refactor.HtmlInject.{
  new_html_injector, should_inject, inject, decompress_body, close_tag,
}
use mitm_proxy.Refactor.HtmlInject.Laws.{injected, Spliced, injected_Spliced}

-- A decompressor that takes one byte off the front.
abbrev strip : Codec
strip = record {
  opened = λ s. ok (record s { content = drop 1 s.content });
  left = λ s. string_reader [];
}

abbrev html_header : Header
html_header =
    (bytes "Content-Type", bytes "text/html" ∷ [])
    ∷ (bytes "Content-Encoding", bytes "gzip" ∷ [])
    ∷ []

abbrev page : Bytes → Response
page text = record {
  status_code = 200;
  status = bytes "200 OK";
  header = html_header;
  content_length = some 99;
  body = string_reader (31 ∷ text);
}

abbrev script : Response → Bytes × Response
script r = (bytes "<s>", r)

abbrev tagged : Bytes
tagged = bytes "hi</body>"

tagged_place : last_index tagged close_tag ≡ some 2
unfolding last_index bytes
tagged_place = refl

page_is_html : (text : Bytes) → should_inject (page text) ≡ true
unfolding should_inject contains get bytes
page_is_html text = refl

page_decodes : (text : Bytes) → (decompress_body strip strip (page text)).0 ≡ ok text
unfolding decompress_body get bytes to_lower bytes_eq drop
page_decodes text = refl

injected_Spliced_example :
    ((injected strip strip script (page tagged)).0 ≡ none)
    × Spliced strip strip script
        (page tagged)
        tagged
        2
        (injected strip strip script (page tagged)).1
injected_Spliced_example =
    injected_Spliced strip strip script (page tagged) tagged 2 (page_is_html tagged)
      (page_decodes tagged) tagged_place

insert_html-inject_example :
    insert_html strip strip script (page tagged)
    ≡ inject strip strip (some (new_html_injector script)) (page tagged)
insert_html-inject_example =
    insert_html-inject strip strip (page tagged) script tagged 2 (page_is_html tagged)
      (page_decodes tagged) tagged_place

untagged_place : last_index (bytes "hi") close_tag ≡ none
unfolding last_index bytes
untagged_place = refl
