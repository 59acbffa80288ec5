-- ===== src/Examples/Tools.antt =====
-- The development tool at concrete inputs.
use mitm_proxy.Base.{ℕ, ◌≤◌, ◌≡◌, refl, true, List, [], ◌∷◌, Option, none, some, arith, length}
use mitm_proxy.Text.{Bytes, bytes, bytes_eq}
use mitm_proxy.Text.Table.{find}
use mitm_proxy.Http.Error.{Result, ok}
use mitm_proxy.Http.Header.{set}
use mitm_proxy.Http.Message.{Response, string_reader}
use mitm_proxy.DevTool.Rules.{
  pos, RouteRule, RewriteRule, Config, Url, Request, Regexp, compile_rules, routed, route_applies,
  process,
}
use mitm_proxy.DevTool.Web.{Web}
use mitm_proxy.DevTool.Web.Posted.{posted, apply_rewrite-posted}
use mitm_proxy.Core.ResponseWriter.{new_response_writer}
use mitm_proxy.Http.Writer.{buffer}
use mitm_proxy.Http.Message as Message
use mitm_proxy.DevTool.Rules.First.{First, changed, rewrite_applies, rewritten?, process-First}
use mitm_proxy.DevTool.Body.{new_stream_tracking_body, copy_ends, asks, marks, call, Event, run}
use mitm_proxy.DevTool.Body.Callbacks.{count, asked, IsKept, run-IsKept_new}
use mitm_proxy.DevTool.Messages.{
  uri_of, request_line, response_line, build_request_text, build_response_text,
}
use mitm_proxy.DevTool.Messages.Reading.{
  read_head, values_lines, header_lines, read_head-build_text,
}
use mitm_proxy.DevTool.Records.{RequestRecord}
use mitm_proxy.DevTool.Records.History.{add_all, last, add_all-last}
use mitm_proxy.DevTool.Tracker.{TrackedRequest, DevToolProxy, move_request}
use mitm_proxy.DevTool.Tracker.Steps.{World, here}
use mitm_proxy.DevTool.Tracker.Forgotten.{IsForgotten, IsForgotten-later}

abbrev address : Url
address = record {
  scheme = bytes "http";
  opaque = [];
  user = none;
  host = bytes "a.com";
  path = bytes "/api/x";
  raw_path = [];
  raw_query = [];
  fragment = [];
}

abbrev sent : Request
sent = record {
  method = bytes "POST";
  host = bytes "a.com";
  url = address;
  header = (bytes "Host", bytes "a.com" ∷ []) ∷ [];
  body = some (string_reader (bytes "hello"));
}

abbrev to_b : RouteRule
to_b = record {
  id = bytes "1";
  name = bytes "b";
  match_host = bytes "a.com";
  match_path_prefix = bytes "/api";
  target_host = bytes "b.com";
  target_port = pos 81;
  enabled = true;
}

abbrev to_root : RewriteRule
to_root = record {
  id = bytes "2";
  name = bytes "root";
  match_path = bytes "/api/(.*)";
  rewrite_path = bytes "/$1";
  target_host = [];
  enabled = true;
}

abbrev config : Config
config = record {
  port = bytes "8080";
  routes = to_b ∷ [];
  rewrites = to_root ∷ [];
  origins = [];
  record_requests = true;
  max_request_history = pos 2;
}

-- A regexp for one text.
abbrev exactly : Bytes → Result Regexp
exactly pattern =
    ok (record { matches = bytes_eq pattern; replace_all = λ text template. template })

process-First_example :
    let asked' : Request = record sent {
      header = set sent.header (bytes "Accept-Encoding") (bytes "identity");
    } in
    let m = compile_rules exactly config.rewrites [] in
    (o : Option RouteRule) × (p : Option RewriteRule) × First
      (λ r. route_applies r asked')
      config.routes
      o
    × First (λ r. rewrite_applies m r (changed routed o asked')) config.rewrites p
    × (process m config sent
        ≡ changed (λ r. rewritten? (find r.id m) r) p (changed routed o asked'))
process-First_example = process-First (compile_rules exactly config.rewrites []) config sent

-- A wait runs out before the copy ends, and a callback comes behind that.
abbrev late_copy : List Event
late_copy = asks 1 ∷ marks ∷ asks 2 ∷ call ∷ copy_ends (bytes "hello") ∷ []

run-IsKept_new_example :
    IsKept (run late_copy new_stream_tracking_body) (λ k. count k (asked late_copy))
run-IsKept_new_example = run-IsKept_new late_copy

abbrev got : Response
got = record {
  status_code = 200;
  status = bytes "200 OK";
  header = (bytes "Age", bytes "1" ∷ []) ∷ [];
  content_length = some 2;
  body = string_reader (bytes "hi");
}

abbrev uri : Url → Bytes
uri u = u.path

read_head-build_text_example :
    (read_head 3 (build_request_text (λ h. h) uri sent (bytes "hello"))
      ≡ some (request_line uri sent ∷ header_lines sent.header, bytes "hello"))
    × (read_head 3 (build_response_text (λ h. h) got (bytes "hi"))
        ≡ some (response_line got ∷ header_lines got.header, bytes "hi"))
unfolding bytes uri_of header_lines values_lines
read_head-build_text_example =
    read_head-build_text (λ h. h) uri sent got (bytes "hello") (bytes "hi") (ground arith)
      (ground arith) (ground arith) (ground arith) (ground arith)

abbrev entry : ℕ → RequestRecord
entry n = record {
  id = bytes "1";
  timestamp = n;
  request_text = [];
  response_text = [];
  request_time = none;
  duration = [];
}

add_all-last_example :
    (add_all (pos 2) (entry 1 ∷ entry 2 ∷ entry 3 ∷ []) []
      ≡ some (last 2 (entry 1 ∷ entry 2 ∷ entry 3 ∷ [])))
    × (length (last 2 (entry 1 ∷ entry 2 ∷ entry 3 ∷ [])) ≤ 2)
add_all-last_example = add_all-last 2 (entry 1 ∷ entry 2 ∷ entry 3 ∷ [])

abbrev tracked : TrackedRequest
tracked = record { request = sent; body = 0 }

abbrev devtool : DevToolProxy
devtool = record {
  config = config;
  rewrite_regexps = [];
  request_records = [];
  tracked_requests = [];
  pending_requests = (bytes "7", record { request = tracked; request_time = 5 }) ∷ [];
  bodies = λ a. record new_stream_tracking_body { is_read_done = true };
  next_body = 1;
}

abbrev waiting : World
waiting = record { proxy = devtool; readers = (bytes "7", tracked) ∷ []; answers = [] }

abbrev moved : World
moved = record { proxy = move_request (bytes "7") tracked devtool; readers = []; answers = [] }

IsForgotten-later_example : IsForgotten (bytes "7") moved
unfolding bytes
IsForgotten-later_example =
    IsForgotten-later (λ h. h) uri uri (λ t now. []) waiting (bytes "7") tracked [] [] [] (λ e. cc)
      tt tt tt here

abbrev fresh_web : Web
fresh_web = record { proxy = devtool; config_file = none }

abbrev posting : Message.Request
posting = record {
  method = bytes "POST";
  host = bytes "localhost:8080";
  scheme = bytes "http";
  path = bytes "/api/config";
  header = [];
  content_length = some 2;
  body = string_reader (bytes "{}");
}

abbrev reader : Bytes → Result Config
reader text = ok config

abbrev page_of : Web → Web
page_of s =
    posted exactly buffer (λ h. h) (λ c. []) (λ c. bytes "{}") reader posting s
      (new_response_writer [])

apply_rewrite-posted_example :
    ((page_of fresh_web).proxy.config ≡ config)
    × (process (page_of fresh_web).proxy.rewrite_regexps (page_of fresh_web).proxy.config sent
        ≡ process [] (record config { rewrites = [] }) sent)
unfolding compile_rules
apply_rewrite-posted_example =
    apply_rewrite-posted exactly buffer (λ h. h) (λ c. []) (λ c. bytes "{}") reader [] config
      posting fresh_web (new_response_writer []) sent refl refl refl (tt, tt)
