-- ===== src/Rewrite/Locks.antt =====
-- The locks of examples/rewrite_by_lua_v2/internal: `mu` of the pool (lua.go) and `mu` of the
-- configuration (config.go), whose callback is Recreate (main.go).
pub mod Deadlock
use mitm_proxy.Base.{ℕ, ◌+◌, ◌-◌, ◌≡◌, Option, none, some, ◌==◌, if◌then◌else◌}

-- A thread in Get, which reads the script under the pool's lock; in Put; or in Reload, which calls
-- Recreate under the configuration's lock.
pub data Point : Type 0 where
  idle : Point
  get_wants_pool get_wants_script get_reads get_has_script : Point
  put_wants_pool put_has_pool : Point
  reload_wants_config reload_reads reload_wants_pool reload_has_both reload_has_config : Point

-- `pool` and `config` are the threads that hold the locks; `readers` hold the second for reading.
pub record System : Type 0 where
  pub point : ℕ → Point
  pub pool : Option ℕ
  pub config : Option ℕ
  pub readers : ℕ

abbrev pub at : System → ℕ → Point → ℕ → Point
at s i p k = if i == k then p else s.point k

pub data Step (s t : System) : Type 0 where
  get : (i : ℕ) → s.point i ≡ idle → t ≡ record s { point = at s i get_wants_pool } → Step s t
  get_lock :
      (i : ℕ)
      → s.point i ≡ get_wants_pool
      → s.pool ≡ none
      → t ≡ record s { point = at s i get_wants_script; pool = some i }
      → Step s t
  get_read :
      (i : ℕ)
      → s.point i ≡ get_wants_script
      → s.config ≡ none
      → t ≡ record s { point = at s i get_reads; readers = s.readers + 1 }
      → Step s t
  get_read_done :
      (i : ℕ)
      → s.point i ≡ get_reads
      → t ≡ record s { point = at s i get_has_script; readers = s.readers - 1 }
      → Step s t
  get_unlock :
      (i : ℕ)
      → s.point i ≡ get_has_script
      → t ≡ record s { point = at s i idle; pool = none }
      → Step s t
  put : (i : ℕ) → s.point i ≡ idle → t ≡ record s { point = at s i put_wants_pool } → Step s t
  put_lock :
      (i : ℕ)
      → s.point i ≡ put_wants_pool
      → s.pool ≡ none
      → t ≡ record s { point = at s i put_has_pool; pool = some i }
      → Step s t
  put_unlock :
      (i : ℕ)
      → s.point i ≡ put_has_pool
      → t ≡ record s { point = at s i idle; pool = none }
      → Step s t
  reload :
      (i : ℕ) → s.point i ≡ idle → t ≡ record s { point = at s i reload_wants_config } → Step s t
  reload_lock :
      (i : ℕ)
      → s.point i ≡ reload_wants_config
      → s.config ≡ none
      → s.readers ≡ 0
      → t ≡ record s { point = at s i reload_reads; config = some i }
      → Step s t
  -- An error of the file system, or no callback: Reload returns.
  reload_return :
      (i : ℕ)
      → s.point i ≡ reload_reads
      → t ≡ record s { point = at s i idle; config = none }
      → Step s t
  reload_callback :
      (i : ℕ)
      → s.point i ≡ reload_reads
      → t ≡ record s { point = at s i reload_wants_pool }
      → Step s t
  recreate_lock :
      (i : ℕ)
      → s.point i ≡ reload_wants_pool
      → s.pool ≡ none
      → t ≡ record s { point = at s i reload_has_both; pool = some i }
      → Step s t
  recreate_unlock :
      (i : ℕ)
      → s.point i ≡ reload_has_both
      → t ≡ record s { point = at s i reload_has_config; pool = none }
      → Step s t
  reload_unlock :
      (i : ℕ)
      → s.point i ≡ reload_has_config
      → t ≡ record s { point = at s i idle; config = none }
      → Step s t

pub data Steps (s : System) : System → Type 0 where
  here : Steps s s
  next : {t u : System} → Steps s t → Step t u → Steps s u

abbrev pub start : System
start = record { point = λ i. idle; pool = none; config = none; readers = 0 }
