-- ===== src/LuaProxy.antt =====
-- examples/lua_proxy/main.go: the cache of scripts.
pub mod Cache
use mitm_proxy.Base.{ℕ, Bool, ◌&&◌, List, [], ◌∷◌, ◌++◌, Option, none, some, ◌==◌, if◌then◌else◌}
use mitm_proxy.Text.{Bytes, bytes, is_empty}
use mitm_proxy.Text.Table.{Table, find, store}
use mitm_proxy.Http.Error.{GoError, wrap, Result, ok, err}

pub record ScriptCacheItem : Type 0 where
  pub content : Bytes
  pub mod_time : ℕ
  pub compile_err : Option GoError

abbrev pub ScriptCache : Type 0
ScriptCache = Table ScriptCacheItem

-- What os.Stat says of a file: that it is missing, another error, or its modification time.
pub data Stat : Type 0 where
  missing : Stat
  fault : GoError → Stat
  modified : ℕ → Stat

-- `fmt.Errorf("… %s: %w", filename, err)`
unfoldable pub failed : Bytes → Bytes → GoError → GoError
failed text filename e = wrap (text ++ (filename ++ bytes ": ")) e

unfoldable pub failed? : Bytes → Bytes → Option GoError → Option GoError
failed? text filename none = none
failed? text filename (some e) = some (failed text filename e)

-- What loadScript returns, with the cache and the state of the VM behind it.
abbrev pub Loaded : Type 0 → Type 0
Loaded Vm = Option GoError × ScriptCache × Vm

-- `run` is DoString of a text in a VM, which leaves the VM changed; `read` is os.ReadFile.
module _ {Vm : Type 0} (run : Bytes → Vm → Option GoError × Vm) (read : Bytes → Result Bytes) where
  unfoldable pub store_run : Bytes → ℕ → Bytes → ScriptCache → Option GoError × Vm → Loaded Vm
  store_run filename time content cache (e, vm) =
      let outcome = failed? (bytes "failed to execute script ") filename e in
      (
        outcome,
        store filename (record { content = content; mod_time = time; compile_err = outcome }) cache,
        vm,
      )

  unfoldable pub read_run : Bytes → ℕ → Result Bytes → ScriptCache → Vm → Loaded Vm
  read_run filename time (err e) cache vm =
      (some (failed (bytes "failed to read script ") filename e), cache, vm)
  read_run filename time (ok content) cache vm =
      store_run filename time content cache (run content vm)

  unfoldable pub run_cached : Bytes → Bytes → Option GoError → ScriptCache → Vm → Loaded Vm
  run_cached filename content (some e) cache vm = (some e, cache, vm)
  run_cached filename content none cache vm =
      let (e, vm') = run content vm in
      (failed? (bytes "failed to execute cached script ") filename e, cache, vm')

  unfoldable pub load_found : Bytes → ℕ → Option ScriptCacheItem → ScriptCache → Vm → Loaded Vm
  load_found filename time none cache vm = read_run filename time (read filename) cache vm
  load_found filename time (some item) cache vm =
      if time == item.mod_time
      then run_cached filename item.content item.compile_err cache vm
      else read_run filename time (read filename) cache vm

  unfoldable pub load_stated : Bytes → Stat → ScriptCache → Vm → Loaded Vm
  load_stated filename missing cache vm = (none, cache, vm)
  load_stated filename (fault e) cache vm =
      (some (failed (bytes "failed to stat script ") filename e), cache, vm)
  load_stated filename (modified time) cache vm =
      load_found filename time (find filename cache) cache vm

  -- `loadScript`
  unfoldable pub load_script : Bytes → Stat → ScriptCache → Vm → Loaded Vm
  load_script filename stat cache vm =
      if is_empty filename then (none, cache, vm) else load_stated filename stat cache vm
