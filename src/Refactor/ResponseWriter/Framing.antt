-- ===== src/Refactor/ResponseWriter/Framing.antt =====
-- What a client takes for the body of a response that was written in several pieces.
use mitm_proxy.Base.{◌≡◌, refl, ◌∙◌, false, List, [], ◌∷◌, some, ℕ, arith, length}
use mitm_proxy.Text.{Bytes, bytes, bytes_eq}
use mitm_proxy.Text.Numeral.{decimal}
use mitm_proxy.Http.Header.{Header, get, canonical}
use mitm_proxy.Http.Header.Laws.{get-set_self, get-set_ne}
use mitm_proxy.Http.Chunked.{read_body}
use mitm_proxy.Http.Framing.{content_length, transfer_encoding, length-ne-encoding, read_body_plain}
use mitm_proxy.Refactor.ResponseWriter.{ResponseWriter, default_length, default_type}
use mitm_proxy.Refactor.ResponseWriter.Output.{sent_header, flat}

content_type : Bytes
content_type = bytes "Content-Type"

type-ne-length : bytes_eq (canonical content_type) (canonical content_length) ≡ false
unfolding content_type canonical bytes bytes_eq
type-ne-length = refl

type-ne-encoding : bytes_eq (canonical content_type) (canonical transfer_encoding) ≡ false
unfolding content_type canonical bytes bytes_eq
type-ne-encoding = refl

module _ (size : ℕ) (h : Header) where
  get-default_type :
      (k : Bytes)
      → bytes_eq (canonical content_type) (canonical k) ≡ false
      → get (default_type size h) k ≡ get h k
  unfolding default_type content_type
  get-default_type k e =
      ground (arith, get-set_ne h content_type k (bytes "text/plain; charset=utf-8") e)

  length-default_length :
      get h content_length ≡ []
      → get h transfer_encoding ≡ []
      → (get (default_length size h) content_length ≡ decimal size)
        × (get (default_length size h) transfer_encoding ≡ [])
  unfolding default_length
  length-default_length e g = ground (
    arith,
    get-set_self h content_length (decimal size),
    get-set_ne h content_length transfer_encoding (decimal size) length-ne-encoding,
  )

-- Where the handler set neither length nor encoding, the client takes the first write for the
-- whole body; what later writes send is left over behind the response.
pub read_body-flat :
    {W : Type 0} (w : ResponseWriter W) (p : Bytes) (ps : List Bytes) (f : ℕ)
    → get w.header content_length ≡ []
    → get w.header transfer_encoding ≡ []
    → read_body f (sent_header (length p) w) (flat (p ∷ ps)) ≡ some (p, flat ps)
unfolding flat
read_body-flat w p ps f e g =
    let size = length p in
    let h = default_length size w.header in
    let (a, b) = length-default_length size w.header e g in
    read_body_plain f (default_type size h) p (flat ps)
      (get-default_type size h transfer_encoding type-ne-encoding ∙ b)
      (get-default_type size h content_length type-ne-length ∙ a)
