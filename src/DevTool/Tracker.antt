-- ===== src/DevTool/Tracker.antt =====
-- examples/dev-tool/main.go: requests and responses that are tracked, and the records made of them,
-- with the goroutines that wait for the bodies.
pub mod Steps
pub mod Tables
pub mod Forgotten
use mitm_proxy.Base.{
  ℕ, ◌+◌, ◌≡◌, ◌≢◌, Bool, true, false, not, ◌&&◌, ◌||◌, List, [], ◌∷◌, ◌++◌, Option, none, some,
  ◌==◌, if◌then◌else◌,
}
use mitm_proxy.Text.{Bytes, bytes, bytes_eq, contains}
use mitm_proxy.Text.Table.{Table, find, store, delete}
use mitm_proxy.Http.Header.{Header, get}
use mitm_proxy.Http.Message.{Stream, Response}
use mitm_proxy.DevTool.Rules.{Config, Url, Request, Regexp, is_origin_tracked}
use mitm_proxy.DevTool.Body.{StreamTrackingBody, new_stream_tracking_body, Event, step}
use mitm_proxy.DevTool.Messages.{build_request_text, build_response_text}
use mitm_proxy.DevTool.Records.{RequestRecord, add_record}

-- A body is an address of the heap `bodies`.
pub record TrackedRequest : Type 0 where
  pub request : Request
  pub body : ℕ

pub record PendingRequest : Type 0 where
  pub request : TrackedRequest
  pub request_time : ℕ

pub record DevToolProxy : Type 0 where
  pub config : Config
  pub rewrite_regexps : Table Regexp
  pub request_records : List RequestRecord
  pub tracked_requests : Table TrackedRequest
  pub pending_requests : Table PendingRequest
  pub bodies : ℕ → StreamTrackingBody
  pub next_body : ℕ

unfoldable pub set_body : ℕ → StreamTrackingBody → (ℕ → StreamTrackingBody) → ℕ → StreamTrackingBody
set_body a b bodies c = if a == c then b else bodies c

unfoldable pub new_body : DevToolProxy → DevToolProxy
new_body s = record s {
  bodies = set_body s.next_body new_stream_tracking_body s.bodies;
  next_body = s.next_body + 1;
}

unfoldable pub is_tracked : Request → DevToolProxy → Bool
is_tracked req s = s.config.record_requests && is_origin_tracked s.config.origins req

unfoldable pub track_body :
    Bytes → ℕ → Request → Option Stream → DevToolProxy → Option TrackedRequest × DevToolProxy
track_body id now req none s = (none, s)
track_body id now req (some body) s =
    let tracked : TrackedRequest = record { request = req; body = s.next_body } in
    (
      some tracked,
      record (new_body s) {
        pending_requests =
            store id (record { request = tracked; request_time = now }) s.pending_requests;
      },
    )

-- `trackRequestOnly` up to its goroutine, which is given the request that is tracked, if any.
unfoldable pub track_request_only :
    Bytes → ℕ → Request → DevToolProxy → Option TrackedRequest × DevToolProxy
track_request_only id now req s =
    if is_tracked req s then track_body id now req req.body s else (none, s)

-- The goroutine behind its wait.
unfoldable pub move_request : Bytes → TrackedRequest → DevToolProxy → DevToolProxy
move_request id tracked s = record s {
  tracked_requests = store id tracked s.tracked_requests;
  pending_requests = delete id s.pending_requests;
}

-- `url_text` is the method String of url.URL.
module _ (url_text : Url → Bytes) where
  unfoldable pub same_request : Request → PendingRequest → Bool
  same_request req p =
      bytes_eq (url_text p.request.request.url) (url_text req.url)
      && bytes_eq p.request.request.method req.method

  -- The request that a response is taken for, in whatever order the loop goes through the map: any
  -- pending one of the same URL and method, or none.
  pub data Found (req : Request) (m : Table PendingRequest) : Bytes → Type 0 where
    pending :
        (id : Bytes) (p : PendingRequest)
        → find id m ≡ some p
        → same_request req p ≡ true
        → Found req m id
    unknown :
        ((id : Bytes) (p : PendingRequest) → find id m ≡ some p → same_request req p ≡ false)
        → Found req m []

-- What the goroutine of a response takes of the request: its time and its body.
pub record Taken : Type 0 where
  pub request_time : Option ℕ
  pub request_body : Bytes

unfoldable pub take_tracked :
    Bytes → ℕ → Option TrackedRequest → DevToolProxy → Taken × DevToolProxy
take_tracked id now none s = (record { request_time = some now; request_body = [] }, s)
take_tracked id now (some t) s = (
  record { request_time = none; request_body = (s.bodies t.body).content },
  record s { tracked_requests = delete id s.tracked_requests },
)

unfoldable pub take_pending :
    Bytes → ℕ → Option PendingRequest → DevToolProxy → Taken × DevToolProxy
take_pending id now none s = take_tracked id now (find id s.tracked_requests) s
take_pending id now (some p) s = (
  record { request_time = some p.request_time; request_body = (s.bodies p.request.body).content },
  record s { pending_requests = delete id s.pending_requests },
)

unfoldable pub take_request : Bytes → ℕ → DevToolProxy → Taken × DevToolProxy
take_request id now s = take_pending id now (find id s.pending_requests) s

-- Whether a response is a stream, and the seconds that its goroutine waits for its end.
unfoldable pub is_stream_response : Header → Bool
is_stream_response h =
    contains (get h (bytes "Content-Type")) (bytes "text/event-stream")
    || contains (get h (bytes "Content-Type")) (bytes "application/x-mpegURL")
    || contains (get h (bytes "Content-Encoding")) (bytes "chunked")
    || contains (get h (bytes "Transfer-Encoding")) (bytes "chunked")

unfoldable pub timeout_of : Header → ℕ
timeout_of h = if is_stream_response h then 5 else 30

-- A response whose goroutine waits: the request that it was found to answer, and its body.
pub record Answer : Type 0 where
  pub request_id : Bytes
  pub request : Request
  pub response : Response
  pub body : ℕ

unfoldable pub with_records : DevToolProxy → Option (List RequestRecord) → Option DevToolProxy
with_records s none = none
with_records s (some l) = some (record s { request_records = l })

-- `since` is the text of the time since a request's.
module _ (order : Header → Header) (request_uri : Url → Bytes) (since : Option ℕ → ℕ → Bytes) where
  unfoldable pub record_of : Bytes → ℕ → Answer → Taken → Bytes → RequestRecord
  record_of id now a t content = record {
    id = id;
    timestamp = now;
    request_text = build_request_text order request_uri a.request t.request_body;
    response_text = build_response_text order a.response content;
    request_time = t.request_time;
    duration = since t.request_time now;
  }

  -- The goroutine of trackResponseOnly behind its wait; `none` is a panic.
  unfoldable pub record_response : Bytes → ℕ → Answer → DevToolProxy → Option DevToolProxy
  record_response id now a s =
      let (t, s') = take_request a.request_id now s in
      with_records s' (
        add_record s'.config.max_request_history (record_of id now a t (s'.bodies a.body).content)
          s'.request_records)
