-- ===== src/DevTool/Messages.antt =====
-- examples/dev-tool/main.go: requests and responses as the text of the protocol.
pub mod Reading
use mitm_proxy.Base.{Bool, List, [], ◌∷◌, ◌++◌, if◌then◌else◌}
use mitm_proxy.Text.{Bytes, bytes, is_empty, crlf}
use mitm_proxy.Http.Header.{Header}
use mitm_proxy.Http.Message.{Response}
use mitm_proxy.DevTool.Rules.{Url, Request}

-- `fmt.Sprintf("%s: %s\r\n", name, value)` for each of the values.
unfoldable pub values_text : Bytes → List Bytes → Bytes
values_text name [] = []
values_text name (value ∷ values) =
    name ++ (bytes ": " ++ (value ++ (crlf ++ values_text name values)))

unfoldable pub header_text : Header → Bytes
header_text [] = []
header_text ((name, values) ∷ h) = values_text name values ++ header_text h

-- `cloneHeaders`
unfoldable pub clone_headers : Header → Header
clone_headers [] = []
clone_headers ((name, values) ∷ h) = (name, values) ∷ clone_headers h

unfoldable pub response_line : Response → Bytes
response_line resp = bytes "HTTP/1.1 " ++ resp.status

-- `request_uri` is the method of url.URL.
module _ (request_uri : Url → Bytes) where
  unfoldable pub uri_of : Request → Bytes
  uri_of req = let uri = request_uri req.url in if is_empty uri then bytes "/" else uri

  unfoldable pub request_line : Request → Bytes
  request_line req = req.method ++ (bytes " " ++ (uri_of req ++ bytes " HTTP/1.1"))

unfoldable pub with_body : Bytes → Bytes → Bytes
with_body text body = if is_empty body then text else text ++ body

-- `order` is the order in which the loop takes the entries of a map.
module _ (order : Header → Header) where
  -- A first line, the header and an empty line.
  unfoldable pub head : Bytes → Header → Bytes
  head line h = line ++ (crlf ++ (header_text (order h) ++ crlf))

  unfoldable pub http_text_from_request : (Url → Bytes) → Request → Bytes
  http_text_from_request request_uri req = head (request_line request_uri req) req.header

  unfoldable pub http_text_from_response : Response → Bytes
  http_text_from_response resp = head (response_line resp) resp.header

  unfoldable pub build_request_text : (Url → Bytes) → Request → Bytes → Bytes
  build_request_text request_uri req body = with_body (http_text_from_request request_uri req) body

  unfoldable pub build_response_text : Response → Bytes → Bytes
  build_response_text resp body = with_body (http_text_from_response resp) body
