-- ===== src/Refactor/Lifecycle/Drain.antt =====
-- Stop can come to its end although no client leaves.
use mitm_proxy.Base.{
  ℕ, ◌+◌, ◌-◌, ◌≤◌, ◌≡◌, refl, ◌∙◌, List, [], ◌∷◌, arith, length, ◌==◌, Bool-cases, inl, inr,
}
use mitm_proxy.Net.Upstream.{count}
use mitm_proxy.Refactor.Lifecycle.{
  shut, swept, finished, Stage, serving, ended, unregistered, Worker, World, remove, remove_all,
  Step, leave, cut, unregister, done, sweep, finish, new, Steps, here, next,
}
use mitm_proxy.Refactor.Lifecycle.Stopped.{pending, Steps-Inv}
use mitm_proxy.Refactor.Lifecycle.Table.{is_one, tabled, count-remove, Steps-Known}

-- How many of the steps are a client that ends its own connection.
abbrev pub is_leave : {w v : World} → Step w v → ℕ
is_leave (leave n front back h e) = 1
is_leave _ = 0

abbrev pub leaves : {w v : World} → Steps w v → ℕ
leaves here = 0
leaves (next r s) = leaves r + is_leave s

-- A run in which no client leaves.
pub data Quiet (w : World) : World → Type 0 where
  still : Quiet w w
  then_by : {u v : World} → Quiet w u → (s : Step u v) → is_leave s ≡ 0 → Quiet w v

Quiet-trans : {u v w : World} → Quiet u v → Quiet v w → Quiet u w
Quiet-trans r still = r
Quiet-trans r (then_by s t e) = then_by (Quiet-trans r s) t e

Quiet-Steps : {w v : World} → Quiet w v → (r : Steps w v) × (leaves r ≡ 0)
Quiet-Steps still = (here, refl)
Quiet-Steps (then_by r s e) = let (q, z) = Quiet-Steps r in (next q s, omega (arith, z, e))

abbrev serves : Stage → ℕ → ℕ → ℕ
serves serving m n = is_one m n
serves _ m n = 0

unfoldable served : ℕ → List Worker → ℕ
served n [] = 0
served n (a ∷ l) = serves a.stage a.conn n + served n l

served-tabled : (n : ℕ) (l : List Worker) → served n l ≤ tabled n l
unfolding served tabled
served-tabled n [] = omega arith
served-tabled n (a ∷ l) = ground (arith, served-tabled n l)

-- The connections of the goroutines that serve are closed.
abbrev IsCut : List Worker → List ℕ → Type 0
IsCut l alive = (n : ℕ) → 1 ≤ served n l → count n alive ≡ 0

-- A state that is reached from `w`, with the workers `l` and no change of Stop.
record Reaches (w : World) (l : List Worker) : Type 0 where
  pub state : World
  pub run : Quiet w state
  pub rest : state.workers ≡ l
  pub counter : state.wait ≡ w.wait - 1
  pub same : state.stop ≡ w.stop
  pub fewer : (n : ℕ) → count n state.alive ≤ count n w.alive

from_unregistered :
    (w : World) (n : ℕ) (l : List Worker)
    → w.workers ≡ record { conn = n; stage = unregistered } ∷ l
    → Reaches w l
from_unregistered w n l h = record {
  state = record w { workers = l; wait = w.wait - 1 };
  run = then_by still (done n [] l h refl) refl;
  rest = refl;
  counter = refl;
  same = refl;
  fewer = λ m. omega arith;
}

from_ended :
    (w : World) (n : ℕ) (l : List Worker)
    → w.workers ≡ record { conn = n; stage = ended } ∷ l
    → Reaches w l
from_ended w n l h =
    let u : World = record w {
      workers = record { conn = n; stage = unregistered } ∷ l;
      clients = remove n w.clients;
    } in
    let r = from_unregistered u n l refl in
    record {
      state = r.state;
      run = Quiet-trans (then_by still (unregister n [] l h refl) refl) r.run;
      rest = r.rest;
      counter = r.counter;
      same = r.same;
      fewer = r.fewer;
    }

from_serving :
    (w : World) (n : ℕ) (l : List Worker)
    → count n w.alive ≡ 0
    → w.workers ≡ record { conn = n; stage = serving } ∷ l
    → Reaches w l
from_serving w n l z h =
    let u : World = record w {
      workers = record { conn = n; stage = ended } ∷ l;
      alive = remove n w.alive;
    } in
    let r = from_ended u n l refl in
    record {
      state = r.state;
      run = Quiet-trans (then_by still (cut n [] l z h refl) refl) r.run;
      rest = r.rest;
      counter = r.counter;
      same = r.same;
      fewer = λ m. ground (arith, r.fewer m, count-remove m n w.alive);
    }

first_cut : (n : ℕ) (l : List Worker) → 1 ≤ served n (record { conn = n; stage = serving } ∷ l)
unfolding served
first_cut n l = ground arith

clear_first :
    (w : World) (n : ℕ) (stage : Stage) (l : List Worker)
    → w.workers ≡ record { conn = n; stage = stage } ∷ l
    → IsCut (record { conn = n; stage = stage } ∷ l) w.alive
    → Reaches w l
clear_first w n serving l h c = from_serving w n l (c n (first_cut n l)) h
clear_first w n ended l h c = from_ended w n l h
clear_first w n unregistered l h c = from_unregistered w n l h

rest-IsCut :
    (a : Worker) (l : List Worker) (alive later : List ℕ)
    → ((n : ℕ) → count n later ≤ count n alive)
    → IsCut (a ∷ l) alive
    → IsCut l later
unfolding served
rest-IsCut a l alive later fewer c n h = omega (arith, fewer n, c n (omega (arith, h)))

drain :
    (l : List Worker) (w : World)
    → w.workers ≡ l
    → w.wait ≡ length l
    → w.stop ≡ swept
    → IsCut l w.alive
    → (v : World) × Quiet w v × (v.stop ≡ finished)
drain [] w h k s c = (record w { stop = finished }, then_by still (finish s k refl) refl, refl)
drain (a ∷ l) w h k s c =
    let r = clear_first w a.conn a.stage l h c in
    let (v, q, f) =
      drain l r.state r.rest (omega (arith, r.counter, k)) (r.same ∙ s)
        (rest-IsCut a l w.alive r.state.alive r.fewer c) in
    (v, Quiet-trans r.run q, f)

count-remove_all_le : (n : ℕ) (ks l : List ℕ) → count n (remove_all ks l) ≤ count n l
unfolding remove_all
count-remove_all_le n [] l = omega arith
count-remove_all_le n (k ∷ ks) l =
    ground (arith, count-remove_all_le n ks (remove k l), count-remove n k l)

count-remove_all : (n : ℕ) (ks l : List ℕ) → 1 ≤ count n ks → count n (remove_all ks l) ≡ 0
unfolding remove_all count
count-remove_all n [] l h = absurd (omega arith)
count-remove_all n (k ∷ ks) l h = elim (Bool-cases (k == n)) [
  | inl e ↦ ground (arith, e, count-remove_all_le n ks (remove k l), count-remove n k l)
  | inr e ↦ count-remove_all n ks (remove k l) (ground (arith, e, h))
]

-- From every state that can be reached in which the listener is closed and Stop is before the loop
-- over the table, while Start has no client counted that is not in the table yet, Stop can come to
-- its end although no client ends its connection: the goroutines of the table end since the loop
-- closes their connections, and the counter then is 0.
pub stop_finishes :
    {w : World}
    → Steps new w
    → w.stop ≡ shut
    → pending w.start ≡ 0
    → (v : World) × (run : Steps w v) × (leaves run ≡ 0) × (v.stop ≡ finished)
stop_finishes {w} r s h =
    let u : World = record w { stop = swept; alive = remove_all w.clients w.alive } in
    let known = Steps-Known r in
    let closed : IsCut w.workers u.alive = λ n k.
      count-remove_all n w.clients w.alive
        (omega (arith, k, served-tabled n w.workers, known.listed n)) in
    let (v, q, f) = drain w.workers u refl (omega (arith, (Steps-Inv r).waits, h)) refl closed in
    let (run, none_leaves) = Quiet-Steps (Quiet-trans (then_by still (sweep s refl) refl) q) in
    (v, run, none_leaves, f)
