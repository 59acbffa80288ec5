-- ===== src/Rewrite/Pool/Stale.antt =====
-- States that are borrowed while the pool is emptied.
use mitm_proxy.Base.{ℕ, ◌<◌, ◌≡◌, ap, ◌∙◌, List, Option, arith}
use mitm_proxy.Text.{Bytes}
use mitm_proxy.Http.Error.{GoError, ok}
use mitm_proxy.Rewrite.Pool.{LuaState, Pool, get, put, recreate}
use mitm_proxy.Rewrite.Pool.Stack.{Stack, push, pop_from, pop, clear}
use mitm_proxy.Rewrite.Pool.Cells.{IsWell, view}
use mitm_proxy.Rewrite.Pool.Refine.{put-Refines, get-Refines, recreate-Refines}

pop-push-clear :
    (run : Bytes → Option GoError) (script : Bytes) (s : LuaState) (t : Stack)
    → 0 < t.limit
    → (pop run script (push s (clear t))).0 ≡ ok s
unfolding pop pop_from push clear
pop-push-clear run script s t room = ground arith

-- A state that was borrowed before the pool is emptied and is put back behind that is the next one
-- that Get returns, with the script that was run in it, whatever the script of the configuration
-- is by then.
pub get_stale :
    (spare : ℕ → List LuaState) (run : Bytes → Option GoError) (p : Pool) (s : LuaState)
    (script : Bytes)
    → IsWell p
    → 0 < p.max_size
    → (get run script (put spare s (recreate p))).0 ≡ ok s
get_stale spare run p s script well room =
    let (well', e) = recreate-Refines p well in
    let (well'', e') = put-Refines spare s (recreate p) well' in
    let (same, _) = get-Refines run script (put spare s (recreate p)) well'' in
    same
    ∙ ap (λ t. (pop run script t).0) (e' ∙ ap (push s) e)
    ∙ pop-push-clear run script s (view p) room
