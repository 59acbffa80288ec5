-- ===== src/Rewrite/Pool.antt =====
-- examples/rewrite_by_lua_v2/internal/lua.go: the pool of Lua states. A slice is an array of the
-- heap and a length, so that `old` of Recreate shares its array with the pool.
pub mod Stack
pub mod Cells
pub mod Refine
pub mod Shared
pub mod Stale
use mitm_proxy.Base.{
  ℕ, zero, suc, ◌+◌, ◌-◌, Bool, true, false, List, [], ◌∷◌, ◌++◌, Option, none, some, ltb, ◌==◌,
  if◌then◌else◌, length, take,
}
use mitm_proxy.Text.{Bytes, bytes}
use mitm_proxy.Http.Error.{GoError, Result, ok, err, wrap}

-- A Lua state, by its address, with the script that was run in it.
pub record LuaState : Type 0 where
  pub address : ℕ
  pub script : Bytes

pub record Slice : Type 0 where
  pub array : ℕ
  pub len : ℕ

-- `arrays` is the heap of the backing arrays, whose lengths are the capacities; `closed` are the
-- states that were closed.
pub record Pool : Type 0 where
  pub max_size : ℕ
  pub states : Slice
  pub arrays : ℕ → List LuaState
  pub next_array : ℕ
  pub next_state : ℕ
  pub closed : List ℕ

module _ {ℓ} {A : Type ℓ} where
  abbrev pub get_elem? : List A → ℕ → Option A
  get_elem? [] i = none
  get_elem? (x ∷ xs) zero = some x
  get_elem? (x ∷ xs) (suc i) = get_elem? xs i

  abbrev pub set : List A → ℕ → A → List A
  set [] i v = []
  set (x ∷ xs) zero v = v ∷ xs
  set (x ∷ xs) (suc i) v = x ∷ set xs i v

  abbrev pub update : (ℕ → List A) → ℕ → List A → ℕ → List A
  update f a l b = if a == b then l else f b

abbrev pub array_of : Pool → List LuaState
array_of p = p.arrays p.states.array

abbrev pub close_state : LuaState → Pool → Pool
close_state s p = record p { closed = s.address ∷ p.closed }

-- `NewPool(cfg, maxSize)`
unfoldable pub new_pool : ℕ → Pool
new_pool max_size = record {
  max_size = if ltb 0 max_size then max_size else 8;
  states = record { array = 0; len = 0 };
  arrays = λ a. [];
  next_array = 1;
  next_state = 0;
  closed = [];
}

-- `spare n` are the cells that the runtime adds to an array of `n` states when it grows.
module _ (spare : ℕ → List LuaState) where
  -- `p.states = append(p.states, s)`: in place where the array has room, else in a new array.
  unfoldable pub append : LuaState → Pool → Pool
  append s p =
      let n = p.states.len in
      if ltb n (length (array_of p))
      then record p {
        arrays = update p.arrays p.states.array (set (array_of p) n s);
        states = record { array = p.states.array; len = n + 1 };
      }
      else record p {
        arrays = update p.arrays p.next_array (take n (array_of p) ++ (s ∷ spare n));
        states = record { array = p.next_array; len = n + 1 };
        next_array = p.next_array + 1;
      }

  -- `Put`
  unfoldable pub put : LuaState → Pool → Pool
  put s p = if ltb p.states.len p.max_size then append s p else close_state s p

-- `run` is what DoString returns for a script.
module _ (run : Bytes → Option GoError) where
  -- `lua.NewState()` with the script; an error closes the state.
  unfoldable pub fresh : Bytes → Pool → Result LuaState × Pool
  fresh script p =
      let s : LuaState = record { address = p.next_state; script = script } in
      let p' : Pool = record p { next_state = p.next_state + 1 } in
      elim (run script) [
        | none ↦ (ok s, p')
        | some e ↦ (err (wrap (bytes "load lua script: ") e), close_state s p')
      ]

  -- The last state of the slice, where there is one.
  unfoldable pub popped : ℕ → Bytes → Pool → Result LuaState × Pool
  popped zero script p = fresh script p
  popped (suc n) script p = elim (get_elem? (array_of p) n) [
    | some s ↦ (ok s, record p { states = record { array = p.states.array; len = n } })
    | none ↦ fresh script p
  ]

  -- `Get`, where `script` is what `p.config.Script()` returns.
  unfoldable pub get : Bytes → Pool → Result LuaState × Pool
  get script p = popped p.states.len script p

-- The part of `Recreate` under the lock: `p.states[:0]` keeps the array.
unfoldable pub cut : Pool → Slice × Pool
cut p = (p.states, record p { states = record { array = p.states.array; len = 0 } })

abbrev pub close_elem : Option LuaState → Pool → Pool
close_elem none p = p
close_elem (some s) p = close_state s p

-- The loop behind the lock: rounds left, index, and the slice `old`.
unfoldable pub close_from : ℕ → ℕ → ℕ → Pool → Pool
close_from zero i array p = p
close_from (suc rounds) i array p =
    close_from rounds (i + 1) array (close_elem (get_elem? (p.arrays array) i) p)

unfoldable pub close_all : Slice → Pool → Pool
close_all old p = close_from old.len 0 old.array p

unfoldable pub recreate : Pool → Pool
recreate p = let (old, q) = cut p in close_all old q
