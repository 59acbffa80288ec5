-- ===== src/DevTool/Web.antt =====
-- examples/dev-tool/main.go: the web interface, which answers through the first response writer.
pub mod Silent
pub mod Posted
use mitm_proxy.Base.{ℕ, Bool, List, [], ◌∷◌, ◌++◌, Option, none, some, if◌then◌else◌}
use mitm_proxy.Text.{Bytes, bytes, bytes_eq}
use mitm_proxy.Http.Error.{GoError, error_text, Result, ok, err}
use mitm_proxy.Http.Header.{Header}
use mitm_proxy.Http.Message.{Request}
use mitm_proxy.Http.Status.{status_ok, status_bad_request, status_method_not_allowed}
use mitm_proxy.Http.Writer.{Writer}
use mitm_proxy.Core.ResponseWriter.{ResponseWriter, set_header, set_status, write}
use mitm_proxy.DevTool.Rules.{Config}
use mitm_proxy.DevTool.Records.{RequestRecord, search_requests, clear_requests}
use mitm_proxy.DevTool.Tracker.{DevToolProxy}

-- The proxy, and what stands in the file config.json.
pub record Web : Type 0 where
  pub proxy : DevToolProxy
  pub config_file : Option Bytes

-- The headers on cross-origin requests, for the methods named.
unfoldable pub allow : {W : Type 0} → Bytes → ResponseWriter W → ResponseWriter W
allow methods w =
    let a = set_header w (bytes "Access-Control-Allow-Origin") (bytes "*") in
    let b = set_header a (bytes "Access-Control-Allow-Methods") methods in
    set_header b (bytes "Access-Control-Allow-Headers") (bytes "*")

unfoldable pub all_methods : Bytes
all_methods = bytes "GET, POST, PUT, DELETE, OPTIONS"

module _ {W : Type 0} (out : Writer W) (order : Header → List (Bytes × List Bytes)) where
  -- `w.SetStatus(code); w.Write(content)`
  unfoldable pub answer : ℕ → Bytes → ResponseWriter W → ResponseWriter W
  answer code content w = (write out order content (set_status w code)).1

  unfoldable pub answer_json : Bytes → ResponseWriter W → ResponseWriter W
  answer_json text w =
      answer status_ok text (set_header w (bytes "Content-Type") (bytes "application/json"))

  -- `/api/requests`, where `q` is the parameter of the query.
  unfoldable pub handle_requests :
      (List RequestRecord → Bytes) → Bytes → Request → Web → ResponseWriter W → ResponseWriter W
  handle_requests to_json q req s w =
      let u = allow all_methods w in
      if bytes_eq req.method (bytes "OPTIONS")
      then answer status_ok [] u
      else answer_json (to_json (search_requests q s.proxy.request_records)) u

  -- `/api/clear-requests`
  unfoldable pub handle_clear : Request → Web → ResponseWriter W → Web × ResponseWriter W
  handle_clear req s w =
      let u = allow (bytes "POST, OPTIONS") w in
      if bytes_eq req.method (bytes "OPTIONS")
      then (s, answer status_ok [] u)
      else if bytes_eq req.method (bytes "POST")
      then (
        record s {
          proxy = record s.proxy { request_records = clear_requests s.proxy.request_records };
        },
        answer status_ok (bytes "Request records cleared successfully") u,
      )
      else (s, answer status_method_not_allowed (bytes "Method not allowed") u)

  -- Json of the two kinds for a configuration.
  unfoldable pub new_config :
      (Config → Bytes) → Result Config → Web → ResponseWriter W → Web × ResponseWriter W
  new_config indented (err e) s w =
      (s, answer status_bad_request (bytes "Error parsing config: " ++ error_text e) w)
  new_config indented (ok cfg) s w = (
    record s { proxy = record s.proxy { config = cfg }; config_file = some (indented cfg) },
    answer status_ok (bytes "Config updated successfully") w,
  )

  -- `/api/config`
  unfoldable pub handle_config :
      (Config → Bytes)
      → (Config → Bytes)
      → (Bytes → Result Config)
      → Request
      → Web
      → ResponseWriter W
      → Web × ResponseWriter W
  handle_config to_json indented parse req s w =
      let u = allow all_methods w in
      if bytes_eq req.method (bytes "OPTIONS")
      then (s, answer status_ok [] u)
      else if bytes_eq req.method (bytes "GET")
      then (s, answer_json (to_json s.proxy.config) u)
      else if bytes_eq req.method (bytes "POST")
      then new_config indented (parse req.body.content) s u
      else (s, u)

  -- `/`, where `page` is what index.html holds, if it can be read.
  unfoldable pub handle_index : Option Bytes → ResponseWriter W → ResponseWriter W
  handle_index page w =
      let u =
        set_status (set_header w (bytes "Content-Type") (bytes "text/html; charset=utf-8"))
          status_ok in
      elim page [
        | some html ↦ (write out order html u).1
        | none ↦
            (write out order
              (bytes
                "<html><body><h1>Unable to load UI</h1><p>Please ensure index.html is in the same directory.</p></body></html>")
              u).1
      ]
