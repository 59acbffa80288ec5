-- ===== src/Http/Framing.antt =====
-- The headers that frame a body, kept apart by their names, and a body framed by its length.
use mitm_proxy.Base.{◌≡◌, refl, false, [], ◌++◌, some, ℕ, length}
use mitm_proxy.Text.{Bytes, bytes, bytes_eq}
use mitm_proxy.Text.Numeral.{decimal, read_decimal-decimal}
use mitm_proxy.Http.Header.{Header, get, canonical}
use mitm_proxy.Http.Chunked.{read_body}
use mitm_proxy.Http.Chunked.Laws.{split_at-append}

abbrev pub content_length : Bytes
content_length = bytes "Content-Length"

abbrev pub transfer_encoding : Bytes
transfer_encoding = bytes "Transfer-Encoding"

pub length-ne-encoding : bytes_eq (canonical content_length) (canonical transfer_encoding) ≡ false
unfolding canonical bytes bytes_eq
length-ne-encoding = refl

pub chunked-ne-nil : bytes_eq [] (bytes "chunked") ≡ false
unfolding bytes bytes_eq
chunked-ne-nil = refl

-- A body behind its announced length is taken whole.
pub read_body_plain :
    (f : ℕ) (h : Header) (content tail : Bytes)
    → get h transfer_encoding ≡ []
    → get h content_length ≡ decimal (length content)
    → read_body f h (content ++ tail) ≡ some (content, tail)
unfolding read_body
read_body_plain f h content tail e g =
    rw (e, chunked-ne-nil, g, read_decimal-decimal (length content)) (split_at-append content tail)
