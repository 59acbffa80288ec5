-- ===== src/Examples/Scripts.antt =====
-- A script that is in the cache.
use mitm_proxy.Base.{◌≡◌, refl, ap, sym, List, [], ◌∷◌, Option, none, some, arith}
use mitm_proxy.Text.{Bytes, bytes}
use mitm_proxy.Text.Table.{find}
use mitm_proxy.Http.Error.{GoError, Result, ok}
use mitm_proxy.LuaProxy.{ScriptCacheItem, ScriptCache, modified, load_script}
use mitm_proxy.LuaProxy.Cache.{IsRun, kept_error, load_script_lem}

-- A VM that keeps the texts that it ran.
abbrev run : Bytes → List Bytes → Option GoError × List Bytes
run text vm = (none, text ∷ vm)

abbrev script : ScriptCacheItem
script = record { content = bytes "x = 1"; mod_time = 5; compile_err = none }

abbrev cache : ScriptCache
cache = (bytes "request.lua", script) ∷ []

cached : (name : Bytes) (item : ScriptCacheItem) → find name cache ≡ some item → script ≡ item
unfolding find
cached name item e = ground (arith, e)

abbrev from_disk : Bytes → Result Bytes
from_disk name = ok (bytes "x = 1")

load_script_lem_example :
    IsRun run from_disk
      (bytes "request.lua")
      (bytes "x = 1")
      5
      []
      (load_script run from_disk (bytes "request.lua") (modified 5) cache [])
unfolding bytes kept_error find
load_script_lem_example =
    load_script_lem run from_disk (bytes "request.lua") (bytes "x = 1") 5 cache [] refl refl
      (λ item e t. ap (λ s. s.content) (sym (cached (bytes "request.lua") item e)))
