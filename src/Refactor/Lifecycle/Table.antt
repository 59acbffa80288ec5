-- ===== src/Refactor/Lifecycle/Table.antt =====
-- The clients that are served are in the table.
use mitm_proxy.Base.{
  ℕ, ◌+◌, ◌≤◌, ◌≡◌, ◌-◌, refl, sym, ap, Bool-cases, inl, inr, List, [], ◌∷◌, ◌++◌, arith, ◌==◌,
  if◌then◌else◌, subst,
}
use mitm_proxy.Net.Upstream.{count}
use mitm_proxy.Refactor.Lifecycle.{
  Start, accepted, counted, Stage, serving, ended, unregistered, Worker, World, conns, remove, Step,
  listen, refuse, publish, accept, accept_error, accept_closed, count_client, register, leave, cut,
  unregister, done, mark, stop_again, close_down, close_error, sweep, finish, new, Steps, here,
  next,
}

abbrev pub is_one : ℕ → ℕ → ℕ
is_one m n = if m == n then 1 else 0

-- The connection that Start has in hand.
abbrev pub hand : Start → ℕ → ℕ
hand (accepted m) n = is_one m n
hand (counted m) n = is_one m n
hand _ n = 0

abbrev pub in_table : Stage → ℕ → ℕ → ℕ
in_table unregistered m n = 0
in_table _ m n = is_one m n

-- How many goroutines with the connection have not taken it out of the table.
unfoldable pub tabled : ℕ → List Worker → ℕ
tabled n [] = 0
tabled n (a ∷ l) = in_table a.stage a.conn n + tabled n l

count-middle :
    (n : ℕ) (front back : List Worker) (a : Worker)
    → count n (conns (front ++ (a ∷ back))) ≡ is_one a.conn n + count n (conns (front ++ back))
unfolding count
count-middle n [] back a = refl
count-middle n (b ∷ front) back a = omega (arith, count-middle n front back a)

tabled-middle :
    (n : ℕ) (front back : List Worker) (a : Worker)
    → tabled n (front ++ (a ∷ back)) ≡ in_table a.stage a.conn n + tabled n (front ++ back)
unfolding tabled
tabled-middle n [] back a = refl
tabled-middle n (b ∷ front) back a = omega (arith, tabled-middle n front back a)

tabled-conns : (n : ℕ) (l : List Worker) → tabled n l ≤ count n (conns l)
unfolding tabled count
tabled-conns n [] = omega arith
tabled-conns n (a ∷ l) = ground (arith, tabled-conns n l)

pub count-remove : (n k : ℕ) (l : List ℕ) → count n (remove k l) ≡ (if k == n then 0 else count n l)
unfolding count remove
count-remove n k [] = ground arith
count-remove n k (j ∷ l) = ground (arith, count-remove n k l)

-- No two goroutines have the same connection, and those of the table are there.
pub record Known (w : World) : Type 0 where
  pub single : (n : ℕ) → count n (conns w.workers) + hand w.start n ≤ 1
  pub listed : (n : ℕ) → tabled n w.workers ≤ count n w.clients

Known-new : Known new
unfolding new count tabled
Known-new = record { single = λ n. omega arith; listed = λ n. omega arith }

ended-Known :
    (w v : World) (n : ℕ) (front back : List Worker)
    → w.workers ≡ front ++ (record { conn = n; stage = serving } ∷ back)
    → v ≡ record w {
      workers = front ++ (record { conn = n; stage = ended } ∷ back);
      alive = remove n w.alive;
    }
    → Known w
    → Known v
ended-Known w v n front back h e k =
    let a : Worker = record { conn = n; stage = serving } in
    let b : Worker = record { conn = n; stage = ended } in
    subst Known (sym e) (record {
      single = λ m. omega (
        arith,
        k.single m,
        ap (λ l. count m (conns l)) h,
        count-middle m front back a,
        count-middle m front back b,
      );
      listed = λ m. omega (
        arith,
        k.listed m,
        ap (λ l. tabled m l) h,
        tabled-middle m front back a,
        tabled-middle m front back b,
      );
    })

unregister-Known :
    (w v : World) (n : ℕ) (front back : List Worker)
    → w.workers ≡ front ++ (record { conn = n; stage = ended } ∷ back)
    → v ≡ record w {
      workers = front ++ (record { conn = n; stage = unregistered } ∷ back);
      clients = remove n w.clients;
    }
    → Known w
    → Known v
unregister-Known w v n front back h e k =
    let a : Worker = record { conn = n; stage = ended } in
    let b : Worker = record { conn = n; stage = unregistered } in
    subst Known (sym e) (record {
      single = λ m. omega (
        arith,
        k.single m,
        ap (λ l. count m (conns l)) h,
        count-middle m front back a,
        count-middle m front back b,
      );
      listed = λ m. ground (
        arith,
        k.listed m,
        k.single m,
        ap (λ l. tabled m l) h,
        ap (λ l. count m (conns l)) h,
        tabled-middle m front back a,
        tabled-middle m front back b,
        count-middle m front back a,
        tabled-conns m (front ++ back),
        count-remove m n w.clients,
      );
    })

done-Known :
    (w v : World) (n : ℕ) (front back : List Worker)
    → w.workers ≡ front ++ (record { conn = n; stage = unregistered } ∷ back)
    → v ≡ record w { workers = front ++ back; wait = w.wait - 1 }
    → Known w
    → Known v
done-Known w v n front back h e k =
    let a : Worker = record { conn = n; stage = unregistered } in
    subst Known (sym e) (record {
      single = λ m.
          omega (arith, k.single m, ap (λ l. count m (conns l)) h, count-middle m front back a);
      listed = λ m. omega (arith, k.listed m, ap (λ l. tabled m l) h, tabled-middle m front back a);
    })

accept-Known :
    (w v : World) (n : ℕ)
    → count n (conns w.workers) ≡ 0
    → v ≡ record w { start = accepted n; alive = n ∷ w.alive }
    → Known w
    → Known v
accept-Known w v n f e k = subst Known (sym e) (record {
  single = λ m. elim (Bool-cases (n == m)) [
    | inl b ↦
        let same : n ≡ m = ground (arith, b) in
        let none_has : count m (conns w.workers) ≡ 0 =
          subst (λ j. count j (conns w.workers) ≡ 0) same f in
        rw b (omega (arith, none_has))
    | inr b ↦ rw b (omega (arith, k.single m))
  ];
  listed = k.listed;
})

Step-Known : (w v : World) → Step w v → Known w → Known v
unfolding count tabled
Step-Known w v (listen h e) k =
    subst Known (sym e) (record { single = λ m. ground (arith, k.single m); listed = k.listed })
Step-Known w v (refuse h j e) k =
    subst Known (sym e) (record { single = λ m. ground (arith, k.single m); listed = k.listed })
Step-Known w v (publish h j e) k =
    subst Known (sym e) (record { single = λ m. ground (arith, k.single m); listed = k.listed })
Step-Known w v (accept n f h j e) k = accept-Known w v n f e k
Step-Known w v (accept_error h j e) k = subst Known (sym e) k
Step-Known w v (accept_closed h j e) k =
    subst Known (sym e) (record { single = λ m. ground (arith, k.single m); listed = k.listed })
Step-Known w v (count_client n h e) k =
    subst Known (sym e)
      (record { single = λ m. omega (arith, k.single m, ap (λ s. hand s m) h); listed = k.listed })
Step-Known w v (register n h e) k = subst Known (sym e) (record {
  single = λ m. omega (arith, k.single m, ap (λ s. hand s m) h);
  listed = λ m. omega (arith, k.listed m);
})
Step-Known w v (leave n front back h e) k = ended-Known w v n front back h e k
Step-Known w v (cut n front back z h e) k = ended-Known w v n front back h e k
Step-Known w v (unregister n front back h e) k = unregister-Known w v n front back h e k
Step-Known w v (done n front back h e) k = done-Known w v n front back h e k
Step-Known w v (mark h e) k = subst Known (sym e) (record { single = k.single; listed = k.listed })
Step-Known w v (stop_again h e) k =
    subst Known (sym e) (record { single = k.single; listed = k.listed })
Step-Known w v (close_down h e) k =
    subst Known (sym e) (record { single = k.single; listed = k.listed })
Step-Known w v (close_error h e) k =
    subst Known (sym e) (record { single = k.single; listed = k.listed })
Step-Known w v (sweep h e) k = subst Known (sym e) (record { single = k.single; listed = k.listed })
Step-Known w v (finish h j e) k =
    subst Known (sym e) (record { single = k.single; listed = k.listed })

pub Steps-Known : {w : World} → Steps new w → Known w
Steps-Known here = Known-new
Steps-Known (next {u} {v} r s) = Step-Known u v s (Steps-Known r)
