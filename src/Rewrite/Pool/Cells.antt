-- ===== src/Rewrite/Pool/Cells.antt =====
-- The cells of a pool's slice, read as a stack.
use mitm_proxy.Base.{
  ℕ, zero, suc, ◌≤◌, ◌<◌, ◌≡◌, refl, ap, List, [], ◌∷◌, ◌++◌, Option, none, some, arith, length,
  take,
}
use mitm_proxy.Rewrite.Pool.{Pool, get_elem?, set, array_of}
use mitm_proxy.Rewrite.Pool.Stack.{Stack}

module _ {ℓ} {A : Type ℓ} where
  abbrev cons? : Option A → List A → List A
  cons? none l = l
  cons? (some x) l = x ∷ l

  -- The first `n` cells, from the last to the first.
  unfoldable pub top_down : List A → ℕ → List A
  top_down a zero = []
  top_down a (suc n) = cons? (get_elem? a n) (top_down a n)

  pub get_elem?-lt : (a : List A) (n : ℕ) → n < length a → (x : A) × (get_elem? a n ≡ some x)
  get_elem?-lt [] n h = absurd (omega arith)
  get_elem?-lt (x ∷ a) zero h = (x, refl)
  get_elem?-lt (x ∷ a) (suc n) h = get_elem?-lt a n (omega arith)

  pub length-set : (a : List A) (n : ℕ) (x : A) → length (set a n x) ≡ length a
  length-set [] n x = refl
  length-set (y ∷ a) zero x = refl
  length-set (y ∷ a) (suc n) x = ap suc (length-set a n x)

  pub get_elem?-set_self :
      (a : List A) (n : ℕ) (x : A) → n < length a → get_elem? (set a n x) n ≡ some x
  get_elem?-set_self [] n x h = absurd (omega arith)
  get_elem?-set_self (y ∷ a) zero x h = refl
  get_elem?-set_self (y ∷ a) (suc n) x h = get_elem?-set_self a n x (omega arith)

  get_elem?-set_lt :
      (a : List A) (i n : ℕ) (x : A) → i < n → get_elem? (set a n x) i ≡ get_elem? a i
  get_elem?-set_lt [] i n x h = refl
  get_elem?-set_lt (y ∷ a) i zero x h = absurd (omega arith)
  get_elem?-set_lt (y ∷ a) zero (suc n) x h = refl
  get_elem?-set_lt (y ∷ a) (suc i) (suc n) x h = get_elem?-set_lt a i n x (omega arith)

  get_elem?-take_lt :
      (a r : List A) (i n : ℕ) → i < n → n ≤ length a → get_elem? (take n a ++ r) i ≡ get_elem? a i
  unfolding take
  get_elem?-take_lt a r i zero h k = absurd (omega arith)
  get_elem?-take_lt [] r i (suc n) h k = absurd (omega arith)
  get_elem?-take_lt (x ∷ a) r zero (suc n) h k = refl
  get_elem?-take_lt (x ∷ a) r (suc i) (suc n) h k =
      get_elem?-take_lt a r i n (omega arith) (omega arith)

  get_elem?-take_self :
      (a r : List A) (n : ℕ) (x : A) → n ≤ length a → get_elem? (take n a ++ (x ∷ r)) n ≡ some x
  unfolding take
  get_elem?-take_self a r zero x h = refl
  get_elem?-take_self [] r (suc n) x h = absurd (omega arith)
  get_elem?-take_self (y ∷ a) r (suc n) x h = get_elem?-take_self a r n x (omega arith)

  pub length-take_all : (a : List A) (n : ℕ) → n ≤ length a → length (take n a) ≡ n
  unfolding take
  length-take_all a zero h = refl
  length-take_all [] (suc n) h = absurd (omega arith)
  length-take_all (x ∷ a) (suc n) h = ap suc (length-take_all a n (omega arith))

  -- Arrays that agree on the first `n` cells.
  top_down_agree :
      (a b : List A) (n : ℕ)
      → ((i : ℕ) → i < n → get_elem? a i ≡ get_elem? b i)
      → top_down a n ≡ top_down b n
  unfolding top_down
  top_down_agree a b zero h = refl
  top_down_agree a b (suc n) h =
      rw (h n (omega arith))
        (ap (cons? (get_elem? b n)) (top_down_agree a b n (λ i k. h i (omega arith))))

  pub length-top_down : (a : List A) (n : ℕ) → n ≤ length a → length (top_down a n) ≡ n
  unfolding top_down
  length-top_down a zero h = refl
  length-top_down a (suc n) h =
      let (x, e) = get_elem?-lt a n (omega arith) in
      rw e (ap suc (length-top_down a n (omega arith)))

  pub top_down-set :
      (a : List A) (n : ℕ) (x : A) → n < length a → top_down (set a n x) (suc n) ≡ x ∷ top_down a n
  unfolding top_down
  top_down-set a n x h =
      rw (get_elem?-set_self a n x h)
        (ap (λ l. x ∷ l) (top_down_agree (set a n x) a n (λ i k. get_elem?-set_lt a i n x k)))

  pub top_down-take :
      (a r : List A) (n : ℕ) (x : A)
      → n ≤ length a
      → top_down (take n a ++ (x ∷ r)) (suc n) ≡ x ∷ top_down a n
  unfolding top_down
  top_down-take a r n x h = rw (get_elem?-take_self a r n x h) (
      ap (λ l. x ∷ l)
        (top_down_agree (take n a ++ (x ∷ r)) a n (λ i k. get_elem?-take_lt a (x ∷ r) i n k h)))

-- The slice lies within its array.
abbrev pub IsWell : Pool → Type 0
IsWell p = p.states.len ≤ length (array_of p)

abbrev pub view : Pool → Stack
view p = record {
  limit = p.max_size;
  states = top_down (array_of p) p.states.len;
  made = p.next_state;
  closed = p.closed;
}
