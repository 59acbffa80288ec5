-- ===== src/DevTool/Body.antt =====
-- examples/dev-tool/main.go: StreamTrackingBody, the copy of a body that passes through, with the
-- callbacks on its end.
pub mod Callbacks
use mitm_proxy.Base.{ℕ, ◌+◌, Bool, true, false, not, List, [], ◌∷◌, ◌++◌, if◌then◌else◌}
use mitm_proxy.Text.{Bytes}

-- A callback is a number. `due` are those that were taken off the list and are still to be called,
-- `ran` those that were called; `closes` is how often the channel was closed, and `once` whether
-- closeOnce was used. `copying` holds while the goroutine of NewStreamTrackingBody copies.
pub record StreamTrackingBody : Type 0 where
  pub content : Bytes
  pub is_read_done : Bool
  pub read_done_callbacks : List ℕ
  pub due : List ℕ
  pub ran : List ℕ
  pub closes : ℕ
  pub once : Bool
  pub copying : Bool

unfoldable pub new_stream_tracking_body : StreamTrackingBody
new_stream_tracking_body = record {
  content = [];
  is_read_done = false;
  read_done_callbacks = [];
  due = [];
  ran = [];
  closes = 0;
  once = false;
  copying = true;
}

-- What `trackRequestBody` and `trackResponseBody` make of a body that is nil.
unfoldable pub empty_body : StreamTrackingBody
empty_body = record new_stream_tracking_body { is_read_done = true; copying = false }

-- `closeOnce.Do(func() { close(closeChan) })`
unfoldable pub close_once : StreamTrackingBody → StreamTrackingBody
close_once s = if s.once then s else record s { once = true; closes = s.closes + 1 }

-- The callbacks are taken off the list to be called behind the lock.
unfoldable pub mark_done : StreamTrackingBody → StreamTrackingBody
mark_done s = close_once (record s {
  is_read_done = true;
  due = s.due ++ s.read_done_callbacks;
  read_done_callbacks = [];
})

-- The goroutine's part under the lock, where `buf` holds what was copied.
unfoldable pub copied : Bytes → StreamTrackingBody → StreamTrackingBody
copied buf s = if s.copying then mark_done (record s { content = buf; copying = false }) else s

-- `OnReadDone`
unfoldable pub on_read_done : ℕ → StreamTrackingBody → StreamTrackingBody
on_read_done k s =
    if s.is_read_done
    then record s { ran = k ∷ s.ran }
    else record s { read_done_callbacks = s.read_done_callbacks ++ (k ∷ []) }

-- `MarkReadDone`, up to its calls.
unfoldable pub mark_read_done : StreamTrackingBody → StreamTrackingBody
mark_read_done s = if not s.is_read_done then mark_done s else s

unfoldable pub called : List ℕ → StreamTrackingBody → StreamTrackingBody
called [] s = s
called (k ∷ ks) s = record s { due = ks; ran = k ∷ s.ran }

-- The next call of the loop over the callbacks.
unfoldable pub call_next : StreamTrackingBody → StreamTrackingBody
unfolding called
call_next s = called s.due s

-- `WaitForReadOrTimeout`, where `timed_out` is whether the time comes before the channel is closed.
unfoldable pub wait_for_read_or_timeout : Bool → StreamTrackingBody → StreamTrackingBody
wait_for_read_or_timeout timed_out s =
    if s.is_read_done then s else if timed_out then mark_read_done s else s

-- What the goroutines do, in any order.
pub data Event : Type 0 where
  copy_ends : Bytes → Event
  asks : ℕ → Event
  marks call : Event

unfoldable pub step : Event → StreamTrackingBody → StreamTrackingBody
step (copy_ends buf) s = copied buf s
step (asks k) s = on_read_done k s
step marks s = mark_read_done s
step call s = call_next s

unfoldable pub run : List Event → StreamTrackingBody → StreamTrackingBody
run [] s = s
run (e ∷ es) s = run es (step e s)
