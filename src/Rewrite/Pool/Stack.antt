-- ===== src/Rewrite/Pool/Stack.antt =====
-- What a pool promises: a stack of bounded height.
use mitm_proxy.Base.{
  ℕ, ◌+◌, List, [], ◌∷◌, ◌++◌, Option, none, some, ltb, if◌then◌else◌, length, map,
}
use mitm_proxy.Text.{Bytes, bytes}
use mitm_proxy.Http.Error.{GoError, Result, ok, err, wrap}
use mitm_proxy.Rewrite.Pool.{LuaState}

-- `states` from the last to the first.
pub record Stack : Type 0 where
  pub limit : ℕ
  pub states : List LuaState
  pub made : ℕ
  pub closed : List ℕ

unfoldable pub push : LuaState → Stack → Stack
push s t =
    if ltb (length t.states) t.limit
    then record t { states = s ∷ t.states }
    else record t { closed = s.address ∷ t.closed }

module _ (run : Bytes → Option GoError) where
  unfoldable pub make : Bytes → Stack → Result LuaState × Stack
  make script t =
      let s : LuaState = record { address = t.made; script = script } in
      let t' : Stack = record t { made = t.made + 1 } in
      elim (run script) [
        | none ↦ (ok s, t')
        | some e ↦
            (err (wrap (bytes "load lua script: ") e), record t' { closed = s.address ∷ t.closed })
      ]

  unfoldable pub pop_from : List LuaState → Bytes → Stack → Result LuaState × Stack
  pop_from [] script t = make script t
  pop_from (s ∷ states) script t = (ok s, record t { states = states })

  unfoldable pub pop : Bytes → Stack → Result LuaState × Stack
  pop script t = pop_from t.states script t

-- The first state of the pool is closed first.
unfoldable pub clear : Stack → Stack
clear t = record t { states = []; closed = map (λ s. s.address) t.states ++ t.closed }
