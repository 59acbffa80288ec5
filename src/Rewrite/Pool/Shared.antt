-- ===== src/Rewrite/Pool/Shared.antt =====
-- What the shared array of Recreate does to a Put between its two parts, and what Recreate does not
-- reach.
use mitm_proxy.Base.{
  ℕ, zero, suc, ◌+◌, ◌≤◌, ◌<◌, ◌≡◌, ap, sym, subst, ◌∙◌, Bool, true, false, ◌||◌, List, [], ◌∷◌,
  ◌++◌, Option, some, arith, ◌==◌, length,
}
use mitm_proxy.Text.{Bytes}
use mitm_proxy.Http.Error.{GoError, ok}
use mitm_proxy.Rewrite.Pool.{
  LuaState, Pool, get_elem?, set, update, array_of, append, get, put, cut, close_all,
}
use mitm_proxy.Rewrite.Pool.Cells.{top_down, get_elem?-lt, length-set, get_elem?-set_self, IsWell}
use mitm_proxy.Rewrite.Pool.Refine.{update_self, addresses, close_from_lem, popped_found}

unfoldable pub holds : ℕ → List ℕ → Bool
holds k [] = false
holds k (j ∷ l) = (j == k) || holds k l

holds-first :
    (n : ℕ) (a : List LuaState) (s : LuaState) (l : List ℕ)
    → get_elem? a 0 ≡ some s
    → suc n ≤ length a
    → holds s.address (addresses (top_down a (suc n)) ++ l) ≡ true
unfolding holds top_down
holds-first zero a s l e h = rw e (ground arith)
holds-first (suc n) a s l e h =
    let (x, found) = get_elem?-lt a (suc n) (omega arith) in
    rw found (ground (arith, holds-first n a s l e (omega arith)))

module _ (spare : ℕ → List LuaState) where
  -- A Put on the emptied slice writes the first cell of the old array.
  put-cut :
      (p : Pool) (s : LuaState)
      → 0 < p.max_size
      → 0 < length (array_of p)
      → put spare s (cut p).1 ≡ record p {
        arrays = update p.arrays p.states.array (set (array_of p) 0 s);
        states = record { array = p.states.array; len = 0 + 1 };
      }
  unfolding put append cut
  put-cut p s room cells = ground arith

module _ (spare : ℕ → List LuaState) (run : Bytes → Option GoError) where
  abbrev pub interrupted : Pool → LuaState → Pool
  interrupted p s = let (old, q) = cut p in close_all old (put spare s q)

  interrupted_lem :
      (p : Pool) (s : LuaState)
      → IsWell p
      → 0 < p.states.len
      → 0 < p.max_size
      → interrupted p s ≡ record p {
        arrays = update p.arrays p.states.array (set (array_of p) 0 s);
        states = record { array = p.states.array; len = 0 + 1 };
        closed = addresses (top_down (set (array_of p) 0 s) p.states.len) ++ p.closed;
      }
  unfolding cut close_all
  interrupted_lem p s well some_state room =
      let cells = set (array_of p) 0 s in
      let q : Pool = record p {
        arrays = update p.arrays p.states.array cells;
        states = record { array = p.states.array; len = 0 + 1 };
      } in
      let filled = update_self p.arrays p.states.array cells in
      let fits : p.states.len ≤ length (q.arrays p.states.array) =
        subst (λ l. p.states.len ≤ length l) (sym filled)
          (omega (arith, well, length-set (array_of p) 0 s)) in
      ap (close_all p.states) (put-cut spare p s room (omega (arith, well, some_state)))
      ∙ close_from_lem p.states.len p.states.array q fits
      ∙ ap (λ l. record q { closed = addresses (top_down l p.states.len) ++ p.closed }) filled

  first_cell :
      (p : Pool) (s : LuaState)
      → IsWell p
      → 0 < p.states.len
      → get_elem? (set (array_of p) 0 s) 0 ≡ some s
  first_cell p s well some_state =
      get_elem?-set_self (array_of p) 0 s (omega (arith, well, some_state))

  some_first :
      (n : ℕ) (p : Pool) (s : LuaState)
      → p.states.len ≡ suc n
      → IsWell p
      → holds s.address (addresses (top_down (set (array_of p) 0 s) p.states.len) ++ p.closed)
        ≡ true
  some_first n p s e well = rw e (
      holds-first n (set (array_of p) 0 s) s p.closed (first_cell p s well (omega (arith, e)))
        (omega (arith, e, well, length-set (array_of p) 0 s)))

  -- Where a Put comes between the two parts of a Recreate, which found some state in the pool, the
  -- state that was put is in the pool, and the loop of Recreate closes it: the next Get returns a
  -- closed state.
  pub get_closed :
      (n : ℕ) (p : Pool) (s : LuaState) (script : Bytes)
      → IsWell p
      → p.states.len ≡ suc n
      → 0 < p.max_size
      → ((get run script (interrupted p s)).0 ≡ ok s)
        × (holds s.address (interrupted p s).closed ≡ true)
  unfolding get
  get_closed n p s script well e room =
      let cells = set (array_of p) 0 s in
      let q : Pool = record p {
        arrays = update p.arrays p.states.array cells;
        states = record { array = p.states.array; len = 0 + 1 };
        closed = addresses (top_down cells p.states.len) ++ p.closed;
      } in
      let same = interrupted_lem p s well (omega (arith, e)) room in
      let cell : get_elem? (array_of q) 0 ≡ some s =
        ap (λ l. get_elem? l 0) (update_self p.arrays p.states.array cells)
        ∙ first_cell p s well (omega (arith, e)) in
      (
        ap (λ r. (get run script r).0) same ∙ ap (λ r. r.0) (popped_found run 0 script q s cell),
        ap (λ r. holds s.address r.closed) same ∙ some_first n p s e well,
      )
