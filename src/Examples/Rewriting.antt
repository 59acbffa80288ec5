-- ===== src/Examples/Rewriting.antt =====
-- The pool of Lua states and its locks at concrete inputs.
use mitm_proxy.Base.{
  ℕ, ◌≡◌, refl, true, List, [], ◌∷◌, Option, none, some, arith, ◌==◌, if◌then◌else◌,
}
use mitm_proxy.Text.{Bytes, bytes}
use mitm_proxy.Http.Error.{Result, eof, err, GoError, ok}
use mitm_proxy.Rewrite.Pool.{new_pool, LuaState, Pool, get, put, recreate}
use mitm_proxy.Rewrite.Pool.Cells.{view}
use mitm_proxy.Rewrite.Pool.Refine.{
  Op, take_state, give_state, renew, run_pool, run_stack, pool-stack,
}
use mitm_proxy.Rewrite.Pool.Shared.{holds, interrupted, get_closed}
use mitm_proxy.Rewrite.Pool.Stale.{get_stale}
use mitm_proxy.Http.Message.{Request, string_reader}
use mitm_proxy.Refactor.Proxy.{Url}
use mitm_proxy.Rewrite.Tables.{text}
use mitm_proxy.Rewrite.Handlers.{Globals}
use mitm_proxy.Rewrite.Handlers.Upkeep.{
  Holds, Call, on_request, on_proxy, on_html, on_change, pool_after, pool_after-Holds,
}
use mitm_proxy.Rewrite.Locks.{System, start, Steps}
use mitm_proxy.Rewrite.Locks.Deadlock.{IsStuck, deadlock}

abbrev first : LuaState
first = record { address = 0; script = bytes "old" }

abbrev second : LuaState
second = record { address = 1; script = bytes "old" }

-- The state 0 is in the pool, and the state 1 was put in and taken out again.
abbrev borrowed : Pool
borrowed = record {
  max_size = 2;
  states = record { array = 1; len = 1 };
  arrays = λ a. if 1 == a then first ∷ second ∷ [] else [];
  next_array = 2;
  next_state = 2;
  closed = [];
}

abbrev spare : ℕ → List LuaState
spare n = []

abbrev run : Bytes → Option GoError
run script = none

abbrev calls : List Op
calls = take_state (bytes "old") ∷ give_state second ∷ renew ∷ take_state (bytes "new") ∷ []

pool-stack_example :
    ((run_pool spare run calls borrowed).0 ≡ (run_stack run calls (view borrowed)).0)
    × (view (run_pool spare run calls borrowed).1 ≡ (run_stack run calls (view borrowed)).1)
pool-stack_example = pool-stack spare run calls borrowed (omega arith)

get_closed_example :
    ((get run (bytes "new") (interrupted spare run borrowed second)).0 ≡ ok second)
    × (holds 1 (interrupted spare run borrowed second).closed ≡ true)
get_closed_example =
    get_closed spare run 0 borrowed second (bytes "new") (omega arith) refl (omega arith)

get_stale_example : (get run (bytes "new") (put spare second (recreate borrowed))).0 ≡ ok second
get_stale_example = get_stale spare run borrowed second (bytes "new") (omega arith) (omega arith)

deadlock_example : (s : System) × Steps start s × ((t : System) → Steps s t → IsStuck 0 1 t)
deadlock_example = deadlock 0 1 (omega arith)

abbrev visit : Request
visit = record {
  method = bytes "GET";
  host = bytes "a.com:80";
  scheme = bytes "http";
  path = bytes "/";
  header = [];
  content_length = none;
  body = string_reader [];
}

-- A script that rewrites every request, has no proxy and injects a file.
abbrev scripted : LuaState → Globals
scripted s = record {
  go_request = some (λ protocol host path headers. ok (record {
    protocol = bytes "https";
    host = bytes "b.com";
    path = [];
    body_file_path = [];
    headers = some headers;
  }));
  go_proxy = none;
  go_inject = some (λ host. ok (text (bytes "page.html")));
}

abbrev no_proxy_url : Bytes → Result Url
no_proxy_url s = err eof

abbrev visits : List Call
visits =
    on_request (bytes "old") visit
    ∷ on_proxy (bytes "old") visit
    ∷ on_change
    ∷ on_html (bytes "new") (some visit)
    ∷ []

pool_after-Holds_example :
    Holds [] (pool_after ok no_proxy_url (λ s. s) scripted spare run visits (new_pool 2))
pool_after-Holds_example = pool_after-Holds ok no_proxy_url (λ s. s) scripted spare run 2 visits
