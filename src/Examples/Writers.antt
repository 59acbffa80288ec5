-- ===== src/Examples/Writers.antt =====
-- Responses written to a pipe with little room, and to a buffer.
use mitm_proxy.Base.{◌≡◌, refl, inr, false, List, [], ◌∷◌, ◌++◌, some, none, arith, length}
use mitm_proxy.Text.{Bytes, bytes}
use mitm_proxy.Text.Numeral.{decimal}
use mitm_proxy.Http.Status.{status_text}
use mitm_proxy.Http.Writer.{Pipe, pipe, buffer}
use mitm_proxy.Http.Header.{Header, get, set}
use mitm_proxy.Http.Chunked.{read_body}
use mitm_proxy.Core.ResponseWriter
use mitm_proxy.Core.ResponseWriter.{header_map, write}
use mitm_proxy.Core.ResponseWriter.Sends.{Sends, header_lines}
use mitm_proxy.Core.ResponseWriter.Message.{ready, body_bytes, message, write-Sends}
use mitm_proxy.Core.ResponseWriter.Framing.{read_body-body_bytes}
use mitm_proxy.Http.Header.Laws.{get-nil}
use mitm_proxy.Refactor.ResponseWriter.{ResponseWriter as Buffered}
use mitm_proxy.Refactor.ResponseWriter.Output.{sent_header, head, flat, write_each, sent-write_each}
use mitm_proxy.Refactor.ResponseWriter.Framing.{read_body-flat}

abbrev narrow : ResponseWriter.ResponseWriter Pipe
narrow = record { writer = record { taken = []; room = 20 }; header = none; status = 404 }

abbrev in_order : Header → List (Bytes × List Bytes)
in_order h = h

write-Sends_example :
    Sends pipe narrow.writer
      (message in_order (bytes "404 not found") narrow)
      (length (bytes "404 not found"))
      (λ w. record (ready (bytes "404 not found") narrow) { writer = w })
      (write pipe in_order (bytes "404 not found") narrow)
write-Sends_example = write-Sends pipe in_order (bytes "404 not found") narrow

short_response :
    message in_order (bytes "no") narrow
    ≡ bytes "HTTP/1.1 404 Not Found\r\nContent-Type: text/plain\r\nContent-Length: 2\r\n\r\nno"
unfolding message bytes ResponseWriter.status_line decimal ResponseWriter.default_status status_text
    ResponseWriter.frame_header ResponseWriter.default_type header_lines get set
    ResponseWriter.header_line body_bytes
short_response = refl

read_body-body_bytes_example :
    let h = (ready (bytes "ab") narrow).header in
    read_body 9 (header_map h) (body_bytes h (bytes "ab") ++ bytes "HTTP")
    ≡ some (bytes "ab", bytes "HTTP")
unfolding ResponseWriter.get_header bytes
read_body-body_bytes_example =
    read_body-body_bytes narrow (bytes "ab") (bytes "HTTP") 9 (refl, refl) (inr (λ e. cc))
      (omega arith)

abbrev fresh : Buffered Bytes
fresh = record { writer = []; header = []; status = 200; header_written = false }

abbrev pieces : List Bytes
pieces = bytes "there" ∷ []

sent-write_each_example :
    (write_each buffer (bytes "hello " ∷ pieces) fresh).writer
    ≡ head (length (bytes "hello ")) fresh ++ flat (bytes "hello " ∷ pieces)
unfolding buffer
sent-write_each_example = sent-write_each buffer (λ w p. refl) (bytes "hello ") pieces fresh refl

read_body-flat_example :
    read_body 9 (sent_header (length (bytes "hello ")) fresh) (flat (bytes "hello " ∷ pieces))
    ≡ some (bytes "hello ", flat pieces)
read_body-flat_example =
    read_body-flat fresh (bytes "hello ") pieces 9 (get-nil (bytes "Content-Length"))
      (get-nil (bytes "Transfer-Encoding"))
