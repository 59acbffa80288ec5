-- ===== src/Rewrite/Pool/Refine.antt =====
-- The pool on its slice is a stack of bounded height, while its operations do not interleave.
use mitm_proxy.Base.{
  ℕ, zero, suc, ◌+◌, ◌≤◌, ◌≡◌, refl, ap, ◌∙◌, List, [], ◌∷◌, ◌++◌, Option, none, some, arith, ltb,
  length, length-append, take, map, Bool-cases, Option-cases, inl, inr,
}
use native.Mathlib.Nat.{add-zero}
use native.Mathlib.Numerals.{add-one}
use mitm_proxy.Text.{Bytes}
use mitm_proxy.Http.Error.{GoError, Result, ok}
use mitm_proxy.Rewrite.Pool.{
  LuaState, Pool, get_elem?, set, update, array_of, append, fresh, popped, get, put, cut,
  close_elem, close_from, close_all, recreate,
}
use mitm_proxy.Rewrite.Pool.Stack.{Stack, push, make, pop_from, pop, clear}
use mitm_proxy.Rewrite.Pool.Cells.{
  top_down, get_elem?-lt, length-set, length-take_all, length-top_down, top_down-set, top_down-take,
  IsWell, view,
}

pub update_self {ℓ} : {A : Type ℓ} (f : ℕ → List A) (a : ℕ) (l : List A) → update f a l a ≡ l
update_self f a l = ground arith

-- What holds of an operation's effect: the slice stays within its array, and the view is the
-- stack's.
abbrev pub Refines : Pool → Stack → Type 0
Refines p t = IsWell p × (view p ≡ t)

module _ (spare : ℕ → List LuaState) where
  append-Refines :
      (s : LuaState) (p : Pool)
      → IsWell p
      → Refines (append spare s p) (record (view p) { states = s ∷ (view p).states })
  unfolding append
  append-Refines s p well =
      let n = p.states.len in
      let cells = array_of p in
      elim (Bool-cases (ltb n (length cells))) [
        | inl room ↦ rw room (
            rw (update_self p.arrays p.states.array (set cells n s)) (
              ground (arith, length-set cells n s),
              ap (λ l. record (view p) { states = l })
                  (ap (top_down (set cells n s)) (add-one n)
                    ∙ top_down-set cells n s (ground arith)),
            ))
        | inr full ↦ rw full (
            rw (update_self p.arrays p.next_array (take n cells ++ (s ∷ spare n))) (
              ground (arith, length-append (take n cells) (s ∷ spare n), length-take_all cells n),
              ap (λ l. record (view p) { states = l })
                  (ap (top_down (take n cells ++ (s ∷ spare n))) (add-one n)
                    ∙ top_down-take cells (spare n) n s well),
            ))
      ]

  pub put-Refines : (s : LuaState) (p : Pool) → IsWell p → Refines (put spare s p) (push s (view p))
  unfolding put push
  put-Refines s p well =
      rw (length-top_down (array_of p) p.states.len well)
        (elim (Bool-cases (ltb p.states.len p.max_size)) [
          | inl room ↦ rw room (append-Refines s p well)
          | inr full ↦ rw full (well, refl)
        ])

module _ (run : Bytes → Option GoError) where
  fresh-Refines :
      (script : Bytes) (p : Pool)
      → IsWell p
      → ((fresh run script p).0 ≡ (make run script (view p)).0)
        × Refines (fresh run script p).1 (make run script (view p)).1
  unfolding fresh make
  fresh-Refines script p well = elim (Option-cases (run script)) [
    | inl e ↦ rw (e, fresh, make) (refl, (well, refl))
    | inr (f, e) ↦ rw (e, fresh, make) (refl, (well, refl))
  ]

  pub popped_found :
      (n : ℕ) (script : Bytes) (p : Pool) (s : LuaState)
      → get_elem? (array_of p) n ≡ some s
      → popped run (suc n) script p
        ≡ (ok s, record p { states = record { array = p.states.array; len = n } })
  unfolding popped
  popped_found n script p s found = rw (found, popped)

  popped-Refines :
      (n : ℕ) (script : Bytes) (p : Pool)
      → p.states.len ≡ n
      → IsWell p
      → ((popped run n script p).0 ≡ (pop_from run (top_down (array_of p) n) script (view p)).0)
        × Refines
            (popped run n script p).1
            (pop_from run (top_down (array_of p) n) script (view p)).1
  unfolding pop_from top_down
  popped-Refines zero script p e well = unfold popped in fresh-Refines script p well
  popped-Refines (suc n) script p e well =
      let (s, found) = get_elem?-lt (array_of p) n (omega (arith, e, well)) in
      rw (popped_found n script p s found)
        (rw (found, pop_from, top_down) (refl, (omega (arith, e, well), refl)))

  pub get-Refines :
      (script : Bytes) (p : Pool)
      → IsWell p
      → ((get run script p).0 ≡ (pop run script (view p)).0)
        × Refines (get run script p).1 (pop run script (view p)).1
  unfolding get pop
  get-Refines script p well = popped-Refines p.states.len script p refl well

close_elem_arrays : (o : Option LuaState) (p : Pool) → (close_elem o p).arrays ≡ p.arrays
close_elem_arrays none p = refl
close_elem_arrays (some s) p = refl

close_from-snoc :
    (n i a : ℕ) (p : Pool)
    → close_from (suc n) i a p ≡ close_elem (get_elem? (p.arrays a) (i + n)) (close_from n i a p)
unfolding close_from
close_from-snoc zero i a p = rw (add-zero i)
close_from-snoc (suc n) i a p =
    let q = close_elem (get_elem? (p.arrays a) i) p in
    close_from-snoc n (i + 1) a q
    ∙ ap (λ f. close_elem (get_elem? (f a) (i + 1 + n)) (close_from n (i + 1) a q))
        (close_elem_arrays (get_elem? (p.arrays a) i) p)
    ∙ ap (λ k. close_elem (get_elem? (p.arrays a) k) (close_from n (i + 1) a q)) (omega arith)

abbrev pub addresses : List LuaState → List ℕ
addresses l = map (λ s. s.address) l

pub close_from_lem :
    (n a : ℕ) (p : Pool)
    → n ≤ length (p.arrays a)
    → close_from n 0 a p ≡ record p { closed = addresses (top_down (p.arrays a) n) ++ p.closed }
unfolding top_down
close_from_lem zero a p h = unfold close_from in refl
close_from_lem (suc n) a p h =
    let (s, found) = get_elem?-lt (p.arrays a) n (omega arith) in
    let start : 0 + n ≡ n = omega arith in
    close_from-snoc n 0 a p
    ∙ ap (λ k. close_elem (get_elem? (p.arrays a) k) (close_from n 0 a p)) start
    ∙ rw found (ap (close_elem (some s)) (close_from_lem n a p (omega arith)))

pub recreate-Refines : (p : Pool) → IsWell p → Refines (recreate p) (clear (view p))
unfolding recreate cut close_all clear
recreate-Refines p well =
    rw
      (close_from_lem p.states.len p.states.array
        (record p { states = record { array = p.states.array; len = 0 } }) well)
      (omega arith, unfold top_down in refl)

pub data Op : Type 0 where
  take_state : Bytes → Op
  give_state : LuaState → Op
  renew : Op

module _ (spare : ℕ → List LuaState) (run : Bytes → Option GoError) where
  -- What the calls of Get return, with the pool behind all operations.
  unfoldable pub run_pool : List Op → Pool → List (Result LuaState) × Pool
  run_pool [] p = ([], p)
  run_pool (take_state script ∷ ops) p =
      let (s, q) = get run script p in let (rs, r) = run_pool ops q in (s ∷ rs, r)
  run_pool (give_state s ∷ ops) p = run_pool ops (put spare s p)
  run_pool (renew ∷ ops) p = run_pool ops (recreate p)

module _ (run : Bytes → Option GoError) where
  unfoldable pub run_stack : List Op → Stack → List (Result LuaState) × Stack
  run_stack [] t = ([], t)
  run_stack (take_state script ∷ ops) t =
      let (s, u) = pop run script t in let (rs, v) = run_stack ops u in (s ∷ rs, v)
  run_stack (give_state s ∷ ops) t = run_stack ops (push s t)
  run_stack (renew ∷ ops) t = run_stack ops (clear t)

module _ (spare : ℕ → List LuaState) (run : Bytes → Option GoError) where
  -- The states that the pool hands out over any series of Get, Put and Recreate, none of which
  -- begins before the one before has ended, are those of a stack of at most `maxSize` states that
  -- makes a new state when it is empty, closes what it has no room for, and is emptied by Recreate,
  -- which closes all its states; and so are the states that are left and those that were closed.
  pub pool-stack :
      (ops : List Op) (p : Pool)
      → IsWell p
      → ((run_pool spare run ops p).0 ≡ (run_stack run ops (view p)).0)
        × (view (run_pool spare run ops p).1 ≡ (run_stack run ops (view p)).1)
  unfolding run_pool run_stack
  pool-stack [] p well = (refl, refl)
  pool-stack (take_state script ∷ ops) p well =
      let (same, (well', e)) = get-Refines run script p well in
      let (rs, v) = pool-stack ops (get run script p).1 well' in (cc (same, e, rs), cc (e, v))
  pool-stack (give_state s ∷ ops) p well =
      let (well', e) = put-Refines spare s p well in
      let (rs, v) = pool-stack ops (put spare s p) well' in
      (rs ∙ ap (λ t. (run_stack run ops t).0) e, v ∙ ap (λ t. (run_stack run ops t).1) e)
  pool-stack (renew ∷ ops) p well =
      let (well', e) = recreate-Refines p well in
      let (rs, v) = pool-stack ops (recreate p) well' in
      (rs ∙ ap (λ t. (run_stack run ops t).0) e, v ∙ ap (λ t. (run_stack run ops t).1) e)
