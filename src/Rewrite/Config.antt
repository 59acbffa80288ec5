-- ===== src/Rewrite/Config.antt =====
-- examples/rewrite_by_lua_v2/internal/config.go: the script, read when it is loaded, and again when
-- the file is newer or on demand.
pub mod Watching
use mitm_proxy.Base.{
  ℕ, Bool, true, false, not, ◌||◌, List, [], ◌∷◌, ◌++◌, Option, none, some, ltb, if◌then◌else◌,
  length, take, ◌-◌,
}
use mathlib.Core.List.{reverse}
use mitm_proxy.Text.{Bytes, bytes, bytes_eq, is_empty, has_prefix, contains}
use mitm_proxy.Http.Error.{GoError, wrap, Result, ok, err}

-- What the file system says of the file at a time: its modification time and its text.
pub record File : Type 0 where
  pub stat : Result ℕ
  pub content : Result Bytes

-- `P` is what the callback changes.
pub record Config (P : Type 0) : Type 0 where
  pub path : Bytes
  pub script : Bytes
  pub mod_time : ℕ
  pub on_change : Option (Bytes → P → P)

-- strings.HasSuffix, strings.TrimSuffix
unfoldable pub has_suffix : Bytes → Bytes → Bool
has_suffix s p = has_prefix (reverse s) (reverse p)

unfoldable pub trim_suffix : Bytes → Bytes → Bytes
trim_suffix s p = if has_suffix s p then take (length s - length p) s else s

-- `ResolveConfigPath`, where `is_abs` and `join` are those of filepath.
unfoldable pub resolve_config_path : (Bytes → Bool) → (Bytes → Bytes → Bytes) → Bytes → Bytes
resolve_config_path is_abs join name =
    if is_empty name
    then bytes "configs/default.lua"
    else if is_abs name || contains name (bytes "/") || contains name (bytes "\\")
    then (if not (has_suffix name (bytes ".lua")) then name ++ bytes ".lua" else name)
    else join (bytes "configs") (trim_suffix name (bytes ".lua") ++ bytes ".lua")

-- `quote` is the verb `%q`.
module _ {P : Type 0} (quote : Bytes → Bytes) where
  unfoldable pub set_on_change : (Bytes → P → P) → Config P → Config P
  set_on_change fn c = record c { on_change = some fn }

  unfoldable pub called : Option (Bytes → P → P) → Bytes → P → P
  called none script p = p
  called (some fn) script p = fn script p

  unfoldable pub loaded : ℕ → Result Bytes → Config P → P → Option GoError × Config P × P
  loaded time (err e) c p =
      (some (wrap (bytes "read config " ++ (quote c.path ++ bytes ": ")) e), c, p)
  loaded time (ok script) c p =
      (none, record c { script = script; mod_time = time }, called c.on_change script p)

  unfoldable pub stated : Result ℕ → Result Bytes → Config P → P → Option GoError × Config P × P
  stated (err e) content c p =
      (some (wrap (bytes "stat config " ++ (quote c.path ++ bytes ": ")) e), c, p)
  stated (ok time) content c p = loaded time content c p

  -- `Reload`
  unfoldable pub reload : File → Config P → P → Option GoError × Config P × P
  reload f c p = stated f.stat f.content c p

  unfoldable pub checked : Option GoError × Config P × P → Result (Config P)
  checked (some e, c, p) = err e
  checked (none, c, p) = ok c

  -- `LoadConfig`, where `abs` is filepath.Abs.
  unfoldable pub load_config : (Bytes → Result Bytes) → File → Bytes → P → Result (Config P)
  load_config abs f path p = elim (abs path) [
    | err e ↦ err (wrap (bytes "resolve config path: ") e)
    | ok full ↦
        checked (reload f (record { path = full; script = []; mod_time = 0; on_change = none }) p)
  ]

  unfoldable pub is_newer : Result ℕ → Config P → Bool
  is_newer (err e) c = false
  is_newer (ok time) c = ltb c.mod_time time

  -- A tick of `Watch`; `before` is the file at the test, `f` that which Reload finds.
  unfoldable pub watch_tick : File → File → Config P → P → Config P × P
  watch_tick before f c p =
      if is_newer before.stat c then (let (e, d, q) = reload f c p in (d, q)) else (c, p)

  unfoldable pub watch : List (File × File) → Config P → P → Config P × P
  watch [] c p = (c, p)
  watch ((before, f) ∷ ticks) c p = let (c', p') = watch_tick before f c p in watch ticks c' p'
