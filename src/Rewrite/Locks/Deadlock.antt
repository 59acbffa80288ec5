-- ===== src/Rewrite/Locks/Deadlock.antt =====
-- The two locks are taken in both orders.
use mitm_proxy.Base.{ℕ, ◌≡◌, ◌≢◌, refl, Bool, true, false, some, arith}
use mitm_proxy.Rewrite.Locks.{
  Point, get_wants_pool, get_wants_script, get_reads, get_has_script, put_has_pool,
  reload_wants_config, reload_reads, reload_wants_pool, reload_has_both, reload_has_config, System,
  at, Step, get, get_lock, get_read, get_read_done, get_unlock, put, put_lock, put_unlock, reload,
  reload_lock, reload_return, reload_callback, recreate_lock, recreate_unlock, reload_unlock, Steps,
  here, next, start,
}

-- The points at which a thread holds the pool's lock, and the configuration's for writing.
abbrev holds_pool : Point → Bool
holds_pool get_wants_script = true
holds_pool get_reads = true
holds_pool get_has_script = true
holds_pool put_has_pool = true
holds_pool reload_has_both = true
holds_pool _ = false

abbrev holds_config : Point → Bool
holds_config reload_reads = true
holds_config reload_wants_pool = true
holds_config reload_has_both = true
holds_config reload_has_config = true
holds_config _ = false

record Owned (s : System) : Type 0 where
  pool_owner : (k : ℕ) → holds_pool (s.point k) ≡ true → s.pool ≡ some k
  config_owner : (k : ℕ) → holds_config (s.point k) ≡ true → s.config ≡ some k

-- The thread `i` is in Get and waits for the script, `j` is in Reload and waits for the pool.
pub record IsStuck (i j : ℕ) (s : System) : Type 0 where
  pub getting : s.point i ≡ get_wants_script
  pub reloading : s.point j ≡ reload_wants_pool
  pub pool_taken : s.pool ≡ some i
  pub config_taken : s.config ≡ some j

start-Owned : Owned start
start-Owned = record { pool_owner = λ k h. cc; config_owner = λ k h. cc }

module _ (s t : System) (own : Owned s) where
  -- What a step of the thread `i` keeps of the owners, for the thread `k`.
  abbrev Keeps : ℕ → Type 0
  Keeps k =
      (holds_pool (t.point k) ≡ true → t.pool ≡ some k)
      × (holds_config (t.point k) ≡ true → t.config ≡ some k)

  Step-Keeps : (k : ℕ) → Step s t → Keeps k
  Step-Keeps k (get i h e) =
      (λ p. ground (arith, own.pool_owner k), λ p. ground (arith, own.config_owner k))
  Step-Keeps k (get_lock i h f e) =
      (λ p. ground (arith, own.pool_owner k), λ p. ground (arith, own.config_owner k))
  Step-Keeps k (get_read i h f e) = (
    λ p. ground (arith, own.pool_owner k, own.pool_owner i),
    λ p. ground (arith, own.config_owner k),
  )
  Step-Keeps k (get_read_done i h e) = (
    λ p. ground (arith, own.pool_owner k, own.pool_owner i),
    λ p. ground (arith, own.config_owner k),
  )
  Step-Keeps k (get_unlock i h e) = (
    λ p. ground (arith, own.pool_owner k, own.pool_owner i),
    λ p. ground (arith, own.config_owner k),
  )
  Step-Keeps k (put i h e) =
      (λ p. ground (arith, own.pool_owner k), λ p. ground (arith, own.config_owner k))
  Step-Keeps k (put_lock i h f e) =
      (λ p. ground (arith, own.pool_owner k), λ p. ground (arith, own.config_owner k))
  Step-Keeps k (put_unlock i h e) = (
    λ p. ground (arith, own.pool_owner k, own.pool_owner i),
    λ p. ground (arith, own.config_owner k),
  )
  Step-Keeps k (reload i h e) =
      (λ p. ground (arith, own.pool_owner k), λ p. ground (arith, own.config_owner k))
  Step-Keeps k (reload_lock i h f g e) =
      (λ p. ground (arith, own.pool_owner k), λ p. ground (arith, own.config_owner k))
  Step-Keeps k (reload_return i h e) = (
    λ p. ground (arith, own.pool_owner k),
    λ p. ground (arith, own.config_owner k, own.config_owner i),
  )
  Step-Keeps k (reload_callback i h e) = (
    λ p. ground (arith, own.pool_owner k),
    λ p. ground (arith, own.config_owner k, own.config_owner i),
  )
  Step-Keeps k (recreate_lock i h f e) = (
    λ p. ground (arith, own.pool_owner k),
    λ p. ground (arith, own.config_owner k, own.config_owner i),
  )
  Step-Keeps k (recreate_unlock i h e) = (
    λ p. ground (arith, own.pool_owner k, own.pool_owner i),
    λ p. ground (arith, own.config_owner k, own.config_owner i),
  )
  Step-Keeps k (reload_unlock i h e) = (
    λ p. ground (arith, own.pool_owner k),
    λ p. ground (arith, own.config_owner k, own.config_owner i),
  )

  Step-Owned : Step s t → Owned t
  Step-Owned step = record {
    pool_owner = λ k. (Step-Keeps k step).0;
    config_owner = λ k. (Step-Keeps k step).1;
  }

  Step-IsStuck : (i j : ℕ) → IsStuck i j s → Step s t → IsStuck i j t
  Step-IsStuck i j stuck (get k h e) = ground (arith, own.pool_owner k, own.config_owner k)
  Step-IsStuck i j stuck (get_lock k h f e) = ground (arith, own.pool_owner k, own.config_owner k)
  Step-IsStuck i j stuck (get_read k h f e) = ground (arith, own.pool_owner k, own.config_owner k)
  Step-IsStuck i j stuck (get_read_done k h e) =
      ground (arith, own.pool_owner k, own.config_owner k)
  Step-IsStuck i j stuck (get_unlock k h e) = ground (arith, own.pool_owner k, own.config_owner k)
  Step-IsStuck i j stuck (put k h e) = ground (arith, own.pool_owner k, own.config_owner k)
  Step-IsStuck i j stuck (put_lock k h f e) = ground (arith, own.pool_owner k, own.config_owner k)
  Step-IsStuck i j stuck (put_unlock k h e) = ground (arith, own.pool_owner k, own.config_owner k)
  Step-IsStuck i j stuck (reload k h e) = ground (arith, own.pool_owner k, own.config_owner k)
  Step-IsStuck i j stuck (reload_lock k h f g e) =
      ground (arith, own.pool_owner k, own.config_owner k)
  Step-IsStuck i j stuck (reload_return k h e) =
      ground (arith, own.pool_owner k, own.config_owner k)
  Step-IsStuck i j stuck (reload_callback k h e) =
      ground (arith, own.pool_owner k, own.config_owner k)
  Step-IsStuck i j stuck (recreate_lock k h f e) =
      ground (arith, own.pool_owner k, own.config_owner k)
  Step-IsStuck i j stuck (recreate_unlock k h e) =
      ground (arith, own.pool_owner k, own.config_owner k)
  Step-IsStuck i j stuck (reload_unlock k h e) =
      ground (arith, own.pool_owner k, own.config_owner k)

Steps-Owned : {s : System} → Steps start s → Owned s
Steps-Owned here = start-Owned
Steps-Owned (next {t} {u} r step) = Step-Owned t u (Steps-Owned r) step

Steps-trans : {s t u : System} → Steps s t → Steps t u → Steps s u
Steps-trans r here = r
Steps-trans r (next q step) = next (Steps-trans r q) step

-- Two threads that wait for each other do so in every later state.
Steps-IsStuck : (i j : ℕ) {s t : System} → Steps start s → IsStuck i j s → Steps s t → IsStuck i j t
Steps-IsStuck i j r stuck here = stuck
Steps-IsStuck i j r stuck (next {t} {u} q step) =
    Step-IsStuck t u (Steps-Owned (Steps-trans r q)) i j (Steps-IsStuck i j r stuck q) step

module _ (i j : ℕ) (apart : i ≢ j) where
  abbrev p1 : System
  p1 = record start { point = at start i get_wants_pool }

  abbrev p2 : System
  p2 = record p1 { point = at p1 i get_wants_script; pool = some i }

  abbrev p3 : System
  p3 = record p2 { point = at p2 j reload_wants_config }

  abbrev p4 : System
  p4 = record p3 { point = at p3 j reload_reads; config = some j }

  abbrev p5 : System
  p5 = record p4 { point = at p4 j reload_wants_pool }

  reaches : Steps start p5
  reaches =
      let a : Steps start p1 = next here (get i refl refl) in
      let b : Steps start p2 = next a (get_lock i (ground arith) refl refl) in
      let c : Steps start p3 = next b (reload j (ground (arith, apart)) refl) in
      let d : Steps start p4 = next c (reload_lock j (ground arith) refl refl refl) in
      next d (reload_callback j (ground arith) refl)

  -- Any two threads can deadlock, one in Get and one in a Reload with the callback of main: there
  -- is a run to a state in which Get holds the pool's lock and waits for the configuration's, Reload
  -- holds that and waits for the pool's, and so do they in every state behind it, whatever the other
  -- threads do: neither returns, and no other thread gets either lock.
  pub deadlock : (s : System) × Steps start s × ((t : System) → Steps s t → IsStuck i j t)
  deadlock = (
    p5,
    reaches,
    λ t q.
        Steps-IsStuck i j reaches
          (record {
            getting = ground (arith, apart);
            reloading = ground arith;
            pool_taken = refl;
            config_taken = refl;
          })
          q,
  )
