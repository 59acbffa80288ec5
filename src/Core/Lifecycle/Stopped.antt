-- ===== src/Core/Lifecycle/Stopped.antt =====
-- What holds when Stop of the first version has run.
use mitm_proxy.Base.{
  ℕ, ◌+◌, ◌-◌, ◌≡◌, ◌≢◌, refl, sym, subst, ap, ◌∙◌, Bool, true, false, List, [], ◌∷◌, ◌++◌, map,
  All, arith, if◌then◌else◌,
}
use mitm_proxy.Core.Lifecycle.{
  unstarted, Listener, unset, listening, closed_down, checking, serving, leaving, gone, Worker,
  World, in_table, stop_worker, close_listener, Step, listen, refuse, publish, accept,
  accept_closed, register, check, unregister, leave, stop, new, Steps, here, next,
}

abbrev one_if : Bool → ℕ
one_if true = 1
one_if false = 0

-- How many clients have an entry.
unfoldable pub entries : List Worker → ℕ
entries [] = 0
entries (a ∷ l) = one_if (in_table a.stage) + entries l

entries-append : (l m : List Worker) → entries (l ++ m) ≡ entries l + entries m
unfolding entries
entries-append [] m = omega arith
entries-append (a ∷ l) m = omega (arith, entries-append l m)

entries-middle :
    (front back : List Worker) (a : Worker)
    → entries (front ++ (a ∷ back)) ≡ one_if (in_table a.stage) + entries (front ++ back)
unfolding entries
entries-middle [] back a = refl
entries-middle (b ∷ front) back a = omega (arith, entries-middle front back a)

entries-stop : (l : List Worker) → entries (map stop_worker l) ≡ entries l
unfolding entries stop_worker
entries-stop [] = refl
entries-stop (a ∷ l) = omega (arith, entries-stop l)

-- A client that is served, or that found Stop not called yet, has its connection closed.
pub record IsShut (a : Worker) : Type 0 where
  pub served : a.stage ≡ serving → a.is_open ≡ false
  pub checked : a.stage ≡ checking false → a.is_open ≡ false

All-replace {ℓ κ} :
    {A : Type ℓ} (P : A → Type κ) (front back : List A) (x y : A)
    → (P x → P y)
    → All P (front ++ (x ∷ back))
    → All P (front ++ (y ∷ back))
All-replace P [] back x y f (p, h) = (f p, h)
All-replace P (z ∷ front) back x y f (p, h) = (p, All-replace P front back x y f h)

stop_worker-IsShut : (a : Worker) → IsShut (stop_worker a)
unfolding stop_worker
stop_worker-IsShut a = record { served = λ e. rw e refl; checked = λ e. rw e refl }

stop-IsShut : (l : List Worker) → All IsShut (map stop_worker l)
stop-IsShut [] = tt
stop-IsShut (a ∷ l) = (stop_worker-IsShut a, stop-IsShut l)

closed_listener : (l : Listener) → close_listener l ≢ listening
closed_listener unset = λ e. cc
closed_listener listening = λ e. cc
closed_listener closed_down = λ e. cc

-- What the test of the flag leaves of a connection.
still :
    (closed : Bool) (a : Worker)
    → a.stage ≡ checking closed
    → IsShut a
    → (if closed then false else a.is_open) ≡ false
still true a s i = refl
still false a s i = i.checked s

record Inv (w : World) : Type 0 where
  pub counted : w.count ≡ entries w.workers
  pub sealed : w.closed ≡ true → w.listener ≢ listening
  pub early : w.start ≡ unstarted → w.listener ≢ listening
  pub shut : w.closed ≡ true → All IsShut w.workers

new-Inv : Inv new
unfolding new entries
new-Inv = record { counted = refl; sealed = λ e. cc; early = λ e. λ f. cc; shut = λ e. tt }

-- One client's entry is changed.
module _ (w : World) (inv : Inv w) (a b : Worker) (front back : List Worker)
    (found : w.workers ≡ front ++ (a ∷ back)) where
  before : w.count ≡ one_if (in_table a.stage) + entries (front ++ back)
  before = inv.counted ∙ ap entries found ∙ entries-middle front back a

  change-IsShut : (IsShut a → IsShut b) → w.closed ≡ true → All IsShut (front ++ (b ∷ back))
  change-IsShut f h = All-replace IsShut front back a b f (subst (All IsShut) found (inv.shut h))

  -- The count goes with the entry.
  change-Inv :
      (n : ℕ)
      → (w.count ≡ one_if (in_table a.stage) + entries (front ++ back)
          → n ≡ one_if (in_table b.stage) + entries (front ++ back))
      → (w.closed ≡ true → IsShut a → IsShut b)
      → Inv (record w { workers = front ++ (b ∷ back); count = n })
  change-Inv n f g = record {
    counted = f before ∙ sym (entries-middle front back b);
    sealed = inv.sealed;
    early = inv.early;
    shut = λ h. change-IsShut (g h) h;
  }

Step-Inv : (w v : World) → Step w v → Inv w → Inv v
unfolding entries
Step-Inv w v (listen h e) inv = ground arith
Step-Inv w v (refuse h k e) inv = ground arith
Step-Inv w v (publish h k e) inv = ground arith
Step-Inv w v (accept n h k e) inv = subst Inv (sym e) (record {
  counted = omega (arith, inv.counted);
  sealed = inv.sealed;
  early = inv.early;
  shut = λ c. (record { served = λ f. cc; checked = λ f. cc }, inv.shut c);
})
Step-Inv w v (accept_closed h k e) inv = ground arith
Step-Inv w v (register a front back h s e) inv = subst Inv (sym e) (
    change-Inv w inv a (record a { stage = checking w.closed }) front back h (w.count + 1)
      (λ n. omega (arith, n, ap (λ t. one_if (in_table t)) s))
      (λ c i. record { served = λ f. cc; checked = λ f. cc }))
Step-Inv w v (check a closed front back h s e) inv = subst Inv (sym e) (
    change-Inv w inv a (record a { stage = serving; is_open = if closed then false else a.is_open })
      front back h w.count (λ n. omega (arith, n, ap (λ t. one_if (in_table t)) s))
      (λ c i. record { served = λ f. still closed a s i; checked = λ f. cc }))
Step-Inv w v (unregister a front back h s e) inv = subst Inv (sym e) (
    change-Inv w inv a (record a { stage = leaving }) front back h (w.count - 1)
      (λ n. omega (arith, n, ap (λ t. one_if (in_table t)) s))
      (λ c i. record { served = λ f. cc; checked = λ f. cc }))
Step-Inv w v (leave a front back h s e) inv = subst Inv (sym e) (
    change-Inv w inv a (record a { stage = gone; is_open = false }) front back h w.count
      (λ n. omega (arith, n, ap (λ t. one_if (in_table t)) s))
      (λ c i. record { served = λ f. cc; checked = λ f. cc }))
Step-Inv w v (stop h e) inv = subst Inv (sym e) (record {
  counted = inv.counted ∙ sym (entries-stop w.workers);
  sealed = λ f. closed_listener w.listener;
  early = λ f. closed_listener w.listener;
  shut = λ f. stop-IsShut w.workers;
})

Steps-Inv : {w : World} → Steps new w → Inv w
Steps-Inv here = new-Inv
Steps-Inv (next {u} {v} r s) = Step-Inv u v s (Steps-Inv r)

-- However Start, Stop and the clients of the first version interleave: the counter is the number of
-- clients that have an entry; and once Stop was called, the listener is closed or was never set, and
-- every client that is served, or goes on to be without having seen the call, has its connection
-- closed.
pub stopped-IsShut :
    {w : World}
    → Steps new w
    → (w.count ≡ entries w.workers)
      × (w.closed ≡ true → (w.listener ≢ listening) × All IsShut w.workers)
stopped-IsShut r = let inv = Steps-Inv r in (inv.counted, λ h. (inv.sealed h, inv.shut h))
