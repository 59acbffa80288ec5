-- ===== src/DevTool/Tracker/Steps.antt =====
-- The goroutines of examples/dev-tool/main.go around the tracker, interleaved in any order. A step is
-- what runs under the tracker's lock, or one call that other goroutines can see.
use mitm_proxy.Base.{◌≡◌, ◌≢◌, true, List, [], ◌∷◌, ◌++◌, Option, none, some, ℕ}
use mitm_proxy.Text.{Bytes}
use mitm_proxy.Http.Header.{Header}
use mitm_proxy.Http.Message.{Response}
use mitm_proxy.DevTool.Rules.{Config, Url, Request}
use mitm_proxy.DevTool.Body.{Event, step}
use mitm_proxy.DevTool.Records.{clear_requests}
use mitm_proxy.DevTool.Tracker.{
  TrackedRequest, DevToolProxy, set_body, new_body, is_tracked, track_request_only, move_request,
  Found, Answer, record_response,
}

-- `readers` are the goroutines that wait for a request's body, `answers` those that wait for a
-- response's.
pub record World : Type 0 where
  pub proxy : DevToolProxy
  pub readers : List (Bytes × TrackedRequest)
  pub answers : List Answer

module _ (order : Header → Header) (request_uri url_text : Url → Bytes)
    (since : Option ℕ → ℕ → Bytes) where
  -- The label is the ID that a step gives to a request.
  pub data Step (w v : World) : Option Bytes → Type 0 where
    post_config :
        (cfg : Config) → v ≡ record w { proxy = record w.proxy { config = cfg } } → Step w v none
    clear :
        v ≡ record w {
          proxy = record w.proxy { request_records = clear_requests w.proxy.request_records };
        }
        → Step w v none
    body_goes_on :
        (a : ℕ) (e : Event)
        → v ≡ record w {
          proxy = record w.proxy { bodies = set_body a (step e (w.proxy.bodies a)) w.proxy.bodies };
        }
        → Step w v none
    request :
        (id : Bytes) (now : ℕ) (req : Request) (t : TrackedRequest) (s : DevToolProxy)
        → id ≢ []
        → track_request_only id now req w.proxy ≡ (some t, s)
        → v ≡ record w { proxy = s; readers = (id, t) ∷ w.readers }
        → Step w v (some id)
    read :
        (id : Bytes) (t : TrackedRequest) (front back : List (Bytes × TrackedRequest))
        → w.readers ≡ front ++ ((id, t) ∷ back)
        → (w.proxy.bodies t.body).is_read_done ≡ true
        → v ≡ record w { proxy = move_request id t w.proxy; readers = front ++ back }
        → Step w v none
    respond :
        (id : Bytes) (req : Request) (resp : Response)
        → is_tracked req w.proxy ≡ true
        → Found url_text req w.proxy.pending_requests id
        → v ≡ record w {
          proxy = new_body w.proxy;
          answers =
              record { request_id = id; request = req; response = resp; body = w.proxy.next_body }
              ∷ w.answers;
        }
        → Step w v none
    write_record :
        (id : Bytes) (now : ℕ) (a : Answer) (front back : List Answer) (s : DevToolProxy)
        → w.answers ≡ front ++ (a ∷ back)
        → (w.proxy.bodies a.body).is_read_done ≡ true
        → record_response order request_uri since id now a w.proxy ≡ some s
        → v ≡ record w { proxy = s; answers = front ++ back }
        → Step w v none

  -- The IDs that are given out on the way.
  pub data Steps (w : World) : List Bytes → World → Type 0 where
    here : Steps w [] w
    next : {u v : World} {ids : List Bytes} → Steps w ids u → Step u v none → Steps w ids v
    next_request :
        {u v : World} {ids : List Bytes} (id : Bytes)
        → Steps w ids u
        → Step u v (some id)
        → Steps w (id ∷ ids) v
