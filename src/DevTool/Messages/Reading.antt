-- ===== src/DevTool/Messages/Reading.antt =====
-- The text of a message read back, line by line.
use mitm_proxy.Base.{
  ℕ, zero, suc, ◌+◌, ◌<◌, ◌≡◌, ◌≢◌, refl, ap, sym, ◌∙◌, false, List, [], ◌∷◌, ◌++◌, append_assoc,
  append-nil, Option, none, some, arith, if◌then◌else◌, length, All, All-append,
}
use mitm_proxy.Text.{Bytes, bytes, is_empty, crlf}
use mitm_proxy.Http.Header.{Header}
use mitm_proxy.Http.Message.{Response}
use mitm_proxy.Http.Chunked.{read_line, ◌>>=◌}
use mitm_proxy.DevTool.Rules.{Url, Request}
use mitm_proxy.DevTool.Messages.{
  with_body, head, values_text, header_text, with_body, head, uri_of, request_line,
  http_text_from_request, build_request_text, response_line, http_text_from_response,
  build_response_text,
}

-- Lines up to an empty one, and what stands behind it; `f` is the number of lines to be read at most.
unfoldable pub read_head : ℕ → Bytes → Option (List Bytes × Bytes)
read_head zero s = none
read_head (suc f) s = do
  (line, rest) ← read_line s
  if is_empty line
      then some ([], rest)
      else (do (lines, body) ← read_head f rest; some (line ∷ lines, body))

-- A text without a carriage return.
abbrev pub Plain : Bytes → Type 0
Plain s = All (λ c. c ≢ 13) s

read_line-Plain :
    (line rest : Bytes) → Plain line → read_line (line ++ (crlf ++ rest)) ≡ some (line, rest)
unfolding read_line
read_line-Plain [] rest h = refl
read_line-Plain (c ∷ line) rest (g, h) = ground (arith, read_line-Plain line rest h)

-- Lines that are no end of the head.
abbrev pub IsLine : Bytes → Type 0
IsLine s = Plain s × (is_empty s ≡ false)

abbrev joined : List Bytes → Bytes
joined [] = []
joined (line ∷ lines) = line ++ (crlf ++ joined lines)

read_head-joined :
    (lines : List Bytes) (f : ℕ) (body : Bytes)
    → All IsLine lines
    → length lines < f
    → read_head f (joined lines ++ (crlf ++ body)) ≡ some (lines, body)
unfolding read_head
read_head-joined lines zero body h k = absurd (omega arith)
read_head-joined [] (suc f) body h k = rw (read_line-Plain [] body tt) refl
read_head-joined (line ∷ lines) (suc f) body ((g, e), h) k =
    rw (append_assoc line (crlf ++ joined lines) (crlf ++ body)) (
      rw (read_line-Plain line (joined lines ++ (crlf ++ body)) g)
        (rw e (rw (read_head-joined lines f body h (omega arith)) refl)))

unfoldable pub values_lines : Bytes → List Bytes → List Bytes
values_lines name [] = []
values_lines name (value ∷ values) = (name ++ (bytes ": " ++ value)) ∷ values_lines name values

-- A line for each value of each header.
unfoldable pub header_lines : Header → List Bytes
header_lines [] = []
header_lines ((name, values) ∷ h) = values_lines name values ++ header_lines h

joined-append : (l m : List Bytes) → joined (l ++ m) ≡ joined l ++ joined m
joined-append [] m = refl
joined-append (line ∷ l) m =
    rw (joined-append l m) (sym (append_assoc line (crlf ++ joined l) (joined m)))

values_text-joined :
    (name : Bytes) (values : List Bytes)
    → values_text name values ≡ joined (values_lines name values)
unfolding values_text values_lines
values_text-joined name [] = refl
values_text-joined name (value ∷ values) = rw (values_text-joined name values) (
    rw (append_assoc name (bytes ": " ++ value) (crlf ++ joined (values_lines name values))) (
      ap (λ s. name ++ s)
        (sym (append_assoc (bytes ": ") value (crlf ++ joined (values_lines name values))))))

header_text-joined : (h : Header) → header_text h ≡ joined (header_lines h)
unfolding header_text header_lines
header_text-joined [] = refl
header_text-joined ((name, values) ∷ h) =
    rw (values_text-joined name values, header_text-joined h)
      (sym (joined-append (values_lines name values) (header_lines h)))

-- No name and no value of the header has a carriage return.
abbrev pub IsPlain : Header → Type 0
IsPlain h = All (λ e. Plain e.0 × All Plain e.1) h

colon-Plain : Plain (bytes ": ")
unfolding bytes
colon-Plain = ground arith

space-Plain : Plain (bytes " ")
unfolding bytes
space-Plain = ground arith

version-Plain : Plain (bytes " HTTP/1.1")
unfolding bytes
version-Plain = ground arith

status-Plain : Plain (bytes "HTTP/1.1 ")
unfolding bytes
status-Plain = ground arith

no_end : (name value : Bytes) → is_empty (name ++ (bytes ": " ++ value)) ≡ false
unfolding bytes
no_end [] value = refl
no_end (c ∷ name) value = refl

no_end_space : (s t : Bytes) → is_empty (s ++ (bytes " " ++ t)) ≡ false
unfolding bytes
no_end_space [] t = refl
no_end_space (c ∷ s) t = refl

values_lines-IsLine :
    (name : Bytes) (values : List Bytes)
    → Plain name
    → All Plain values
    → All IsLine (values_lines name values)
unfolding values_lines
values_lines-IsLine name [] p q = tt
values_lines-IsLine name (value ∷ values) p (q, r) = (
  (
    All-append (λ c. c ≢ 13) name (bytes ": " ++ value) p
        (All-append (λ c. c ≢ 13) (bytes ": ") value colon-Plain q),
    no_end name value,
  ),
  values_lines-IsLine name values p r,
)

header_lines-IsLine : (h : Header) → IsPlain h → All IsLine (header_lines h)
unfolding header_lines
header_lines-IsLine [] p = tt
header_lines-IsLine ((name, values) ∷ h) ((p, q), r) =
    All-append IsLine (values_lines name values) (header_lines h)
      (values_lines-IsLine name values p q) (header_lines-IsLine h r)

with_body_lem : (text body : Bytes) → with_body text body ≡ text ++ body
unfolding with_body
with_body_lem text [] = sym (append-nil text)
with_body_lem text (c ∷ body) = refl

append-Plain : (s t : Bytes) → Plain s → Plain t → Plain (s ++ t)
append-Plain s t p q = All-append (λ c. c ≢ 13) s t p q

module _ (order : Header → Header) where
  read_head-head :
      (line : Bytes) (h : Header) (body : Bytes)
      → IsLine line
      → IsPlain (order h)
      → read_head (length (header_lines (order h)) + 2) (with_body (head order line h) body)
        ≡ some (line ∷ header_lines (order h), body)
  unfolding head
  read_head-head line h body p q =
      let rest = joined (header_lines (order h)) in
      ap (read_head (length (header_lines (order h)) + 2)) (
        with_body_lem (line ++ (crlf ++ (header_text (order h) ++ crlf))) body
        ∙ rw
            (
              header_text-joined (order h),
              append_assoc line (crlf ++ (rest ++ crlf)) body,
              append_assoc crlf (rest ++ crlf) body,
              append_assoc rest crlf body,
            )
            (sym (append_assoc line (crlf ++ rest) (crlf ++ body))))
      ∙ read_head-joined (line ∷ header_lines (order h)) (length (header_lines (order h)) + 2) body
          (p, header_lines-IsLine (order h) q) (omega arith)

request_line-IsLine :
    (request_uri : Url → Bytes) (req : Request)
    → Plain req.method
    → Plain (uri_of request_uri req)
    → IsLine (request_line request_uri req)
unfolding request_line
request_line-IsLine request_uri req p q =
    let uri = uri_of request_uri req in
    (
      append-Plain req.method (bytes " " ++ (uri ++ bytes " HTTP/1.1")) p (
          append-Plain (bytes " ") (uri ++ bytes " HTTP/1.1") space-Plain
            (append-Plain uri (bytes " HTTP/1.1") q version-Plain)),
      no_end_space req.method (uri ++ bytes " HTTP/1.1"),
    )

response_line-IsLine : (resp : Response) → Plain resp.status → IsLine (response_line resp)
unfolding response_line bytes
response_line-IsLine resp p = (append-Plain (bytes "HTTP/1.1 ") resp.status status-Plain p, refl)

module _ (order : Header → Header) (request_uri : Url → Bytes) where
  -- Where no carriage return stands in the request's method, its target and its header, nor in the
  -- response's status and its header, the texts that are kept of the two, read line by line, give
  -- the first line, a line for each value of the header, and then the body.
  pub read_head-build_text :
      (req : Request) (resp : Response) (body content : Bytes)
      → Plain req.method
      → Plain (uri_of request_uri req)
      → IsPlain (order req.header)
      → Plain resp.status
      → IsPlain (order resp.header)
      → (read_head
            (length (header_lines (order req.header)) + 2)
            (build_request_text order request_uri req body)
          ≡ some (request_line request_uri req ∷ header_lines (order req.header), body))
        × (read_head
              (length (header_lines (order resp.header)) + 2)
              (build_response_text order resp content)
            ≡ some (response_line resp ∷ header_lines (order resp.header), content))
  unfolding build_request_text build_response_text http_text_from_request http_text_from_response
  read_head-build_text req resp body content p q r s t = (
    read_head-head order (request_line request_uri req) req.header body
        (request_line-IsLine request_uri req p q) r,
    read_head-head order (response_line resp) resp.header content (response_line-IsLine resp s) t,
  )
