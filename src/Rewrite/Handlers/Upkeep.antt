-- ===== src/Rewrite/Handlers/Upkeep.antt =====
-- The callbacks and the states of the pool.
use mitm_proxy.Base.{
  ℕ, ◌+◌, ◌≤◌, ◌≡◌, refl, ap, List, [], ◌∷◌, ◌++◌, Option, none, some, arith, ltb, if◌then◌else◌,
  length, branch, Option-cases, inl, inr,
}
use mitm_proxy.Text.{Bytes}
use mitm_proxy.Http.Error.{GoError, Result, ok, err}
use mitm_proxy.Http.Message.{Request}
use mitm_proxy.Net.Upstream.{count}
use mitm_proxy.Refactor.Proxy.{no_proxy, Url}
use mitm_proxy.Rewrite.Pool.{LuaState, Pool, new_pool, put, get, recreate}
use mitm_proxy.Rewrite.Pool.Stack.{Stack, push, make, pop_from, pop, clear}
use mitm_proxy.Rewrite.Pool.Cells.{IsWell, view, top_down}
use mitm_proxy.Rewrite.Pool.Refine.{addresses, get-Refines, put-Refines, recreate-Refines}
use mitm_proxy.Rewrite.Handlers.{
  Globals, used, with_state, handle_request, proxy_for, html_for, run_request, select_proxy, inject,
}

count-append : (a : ℕ) (l m : List ℕ) → count a (l ++ m) ≡ count a l + count a m
unfolding count
count-append a [] m = omega arith
count-append a (b ∷ l) m = ground (arith, count-append a l m)

-- How often a state that is lent out, is in the pool or was closed is there, by its address.
unfoldable pub places : List ℕ → Stack → ℕ → ℕ
places lent t a = count a lent + count a (addresses t.states) + count a t.closed

-- Each state that was made, and no other, is lent out, in the pool or closed, and only once.
pub record Kept (lent : List ℕ) (t : Stack) : Type 0 where
  pub once : (a : ℕ) → places lent t a ≡ (if ltb a t.made then 1 else 0)
  pub within : length t.states ≤ t.limit

-- The same of a pool, whose slice lies within its array.
pub record Holds (lent : List ℕ) (p : Pool) : Type 0 where
  pub well : IsWell p
  pub kept : Kept lent (view p)

push-Kept : (s : LuaState) (t : Stack) → Kept (s.address ∷ []) t → Kept [] (push s t)
unfolding push places count
push-Kept s t h =
    branch (Kept []) (ltb (length t.states) t.limit)
      (λ e. record { once = λ a. ground (arith, h.once a); within = ground (arith, e) })
      (λ e. record { once = λ a. ground (arith, h.once a); within = h.within })

clear-Kept : (t : Stack) → Kept [] t → Kept [] (clear t)
unfolding clear places count
clear-Kept t h = record {
  once = λ a. omega (arith, h.once a, count-append a (addresses t.states) t.closed);
  within = omega arith;
}

-- Behind Get: a state is lent out, or there was an error.
After : Result LuaState → Stack → Type 0
After (ok s) t = Kept (s.address ∷ []) t
After (err e) t = Kept [] t

module _ (run : Bytes → Option GoError) where
  make-After :
      (script : Bytes) (t : Stack) → Kept [] t → After (make run script t).0 (make run script t).1
  unfolding make After places count
  make-After script t h = elim (Option-cases (run script)) [
    | inl e ↦ rw (e, make) (record { once = λ a. ground (arith, h.once a); within = h.within })
    | inr (f, e) ↦ rw (e, make) (record { once = λ a. ground (arith, h.once a); within = h.within })
  ]

  pop_from-After :
      (l : List LuaState) (script : Bytes) (t : Stack)
      → t.states ≡ l
      → Kept [] t
      → After (pop_from run l script t).0 (pop_from run l script t).1
  pop_from-After [] script t e h = unfold pop_from in make-After script t h
  pop_from-After (s ∷ l) script t e h =
      let counted : (a : ℕ) → count a (addresses t.states) ≡ count a (addresses (s ∷ l)) =
        λ a. ap (λ x. count a (addresses x)) e in
      let size : length t.states ≡ length (s ∷ l) = ap length e in
      unfold pop_from After places count in
      record {
        once = λ a. ground (arith, h.once a, counted a);
        within = omega (arith, h.within, size);
      }

  get-Holds :
      (script : Bytes) (p : Pool)
      → Holds [] p
      → After (get run script p).0 (view (get run script p).1) × IsWell (get run script p).1
  get-Holds script p h =
      let (r, (well, e)) = get-Refines run script p h.well in
      let after = pop_from-After (view p).states script (view p) refl h.kept in
      (rw (r, e) (unfold pop in after), well)

put-Holds :
    (spare : ℕ → List LuaState) (s : LuaState) (p : Pool)
    → IsWell p
    → Kept (s.address ∷ []) (view p)
    → Holds [] (put spare s p)
put-Holds spare s p well h =
    let (well', e) = put-Refines spare s p well in
    record { well = well'; kept = rw e (push-Kept s (view p) h) }

recreate-Holds : (p : Pool) → Holds [] p → Holds [] (recreate p)
recreate-Holds p h =
    let (well, e) = recreate-Refines p h.well in
    record { well = well; kept = rw e (clear-Kept (view p) h.kept) }

new_pool-Holds : (max_size : ℕ) → Holds [] (new_pool max_size)
unfolding new_pool places count top_down
new_pool-Holds max_size = record {
  well = omega arith;
  kept = record { once = λ a. ground arith; within = omega arith };
}

pub data Call : Type 0 where
  on_request on_proxy : Bytes → Request → Call
  on_html : Bytes → Option Request → Call
  on_change : Call

module _ (read_file : Bytes → Result Bytes) (url_parse : Bytes → Result Url) (quote : Bytes → Bytes)
    (globals : LuaState → Globals) (spare : ℕ → List LuaState) (run : Bytes → Option GoError) where
  used-Holds :
      {A : Type 0} (failed : A) (f : LuaState → A) (r : Result LuaState × Pool)
      → After r.0 (view r.1) × IsWell r.1
      → Holds [] (used read_file url_parse quote globals spare run failed f r).1
  unfolding used After
  used-Holds failed f (ok s, p) (h, well) = put-Holds spare s p well h
  used-Holds failed f (err e, p) (h, well) = record { well = well; kept = h }

  -- The pool behind the calls, each with the script of its time.
  unfoldable pub pool_after : List Call → Pool → Pool
  pool_after [] p = p
  pool_after (on_request script req ∷ calls) p =
      pool_after calls (handle_request read_file url_parse quote globals spare run script req p).1
  pool_after (on_proxy script req ∷ calls) p =
      pool_after calls (proxy_for read_file url_parse quote globals spare run script req p).1
  pool_after (on_html script req ∷ calls) p =
      pool_after calls (html_for read_file url_parse quote globals spare run script req p).1
  pool_after (on_change ∷ calls) p = pool_after calls (recreate p)

  html_for-Holds :
      (script : Bytes) (req : Option Request) (p : Pool)
      → Holds [] p
      → Holds [] (html_for read_file url_parse quote globals spare run script req p).1
  unfolding html_for with_state
  html_for-Holds script none p h =
      used-Holds [] (inject read_file url_parse quote globals []) (get run script p)
        (get-Holds run script p h)
  html_for-Holds script (some req) p h =
      used-Holds [] (inject read_file url_parse quote globals req.host) (get run script p)
        (get-Holds run script p h)

  pool_after-Holds_from :
      (calls : List Call) (p : Pool) → Holds [] p → Holds [] (pool_after calls p)
  unfolding pool_after handle_request proxy_for with_state
  pool_after-Holds_from [] p h = h
  pool_after-Holds_from (on_request script req ∷ calls) p h =
      pool_after-Holds_from calls
        (handle_request read_file url_parse quote globals spare run script req p).1
        (used-Holds (none, req)
          (λ s. run_request read_file url_parse quote globals (globals s).go_request req)
          (get run script p) (get-Holds run script p h))
  pool_after-Holds_from (on_proxy script req ∷ calls) p h =
      pool_after-Holds_from calls
        (proxy_for read_file url_parse quote globals spare run script req p).1
        (used-Holds no_proxy (select_proxy read_file url_parse quote globals req.host)
          (get run script p) (get-Holds run script p h))
  pool_after-Holds_from (on_html script req ∷ calls) p h =
      pool_after-Holds_from calls
        (html_for read_file url_parse quote globals spare run script req p).1
        (html_for-Holds script req p h)
  pool_after-Holds_from (on_change ∷ calls) p h =
      pool_after-Holds_from calls (recreate p) (recreate-Holds p h)

  -- Behind any series of requests, choices of a proxy, injections and changes of the configuration,
  -- none of which begins before the one before has ended, and whatever the scripts and their
  -- functions do, errors included: each Lua state that was ever made is either in the pool or was
  -- closed, and is there only once; none is lost, closed twice, or closed while it is in the pool;
  -- and the pool has no more than its size.
  pub pool_after-Holds :
      (max_size : ℕ) (calls : List Call) → Holds [] (pool_after calls (new_pool max_size))
  pool_after-Holds max_size calls =
      pool_after-Holds_from calls (new_pool max_size) (new_pool-Holds max_size)
