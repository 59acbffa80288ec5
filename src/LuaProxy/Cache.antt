-- ===== src/LuaProxy/Cache.antt =====
-- What the cache of scripts changes of a load.
use mitm_proxy.Base.{
  ℕ, ◌≡◌, refl, sym, false, Option, none, some, arith, ◌==◌, if◌then◌else◌, is_some, Bool-cases,
  inl, inr,
}
use mitm_proxy.Text.{Bytes, bytes, is_empty}
use mitm_proxy.Text.Table.{find, find-store_self}
use mitm_proxy.Http.Error.{GoError, Result, ok}
use mitm_proxy.LuaProxy.{
  ScriptCacheItem, ScriptCache, modified, failed?, Loaded, store_run, read_run, run_cached,
  load_found, load_stated, load_script,
}

is_some-failed :
    (text filename : Bytes) (o : Option GoError) → is_some (failed? text filename o) ≡ is_some o
unfolding failed?
is_some-failed text filename none = refl
is_some-failed text filename (some e) = refl

-- The error that is kept of a text with this modification time.
unfoldable pub kept_error : ℕ → Option ScriptCacheItem → Option GoError
kept_error time none = none
kept_error time (some item) = if time == item.mod_time then item.compile_err else none

module _ {Vm : Type 0} (run : Bytes → Vm → Option GoError × Vm) (read : Bytes → Result Bytes) where
  -- The text was run once in the VM: the load fails just where the run does, the VM is as the run
  -- leaves it, and the cache holds the text with its time.
  abbrev pub IsRun : Bytes → Bytes → ℕ → Vm → Loaded Vm → Type 0
  IsRun filename content time vm (e, cache, vm') =
      (is_some e ≡ is_some (run content vm).0)
      × (vm' ≡ (run content vm).1)
      × ((item : ScriptCacheItem) × (find filename cache ≡ some item)
          × (item.content ≡ content)
          × (item.mod_time ≡ time))

  -- Where an error is kept it is the outcome, and nothing is run.
  abbrev pub IsLoad : Bytes → Bytes → ℕ → ScriptCache → Vm → Option GoError → Loaded Vm → Type 0
  IsLoad filename content time cache vm none l = IsRun filename content time vm l
  IsLoad filename content time cache vm (some e) l = l ≡ (some e, cache, vm)

  read_run-IsRun :
      (filename content : Bytes) (time : ℕ) (cache : ScriptCache) (vm : Vm)
      → IsRun filename content time vm (read_run run read filename time (ok content) cache vm)
  unfolding read_run store_run
  read_run-IsRun filename content time cache vm =
      let outcome = failed? (bytes "failed to execute script ") filename (run content vm).0 in
      let item : ScriptCacheItem = record {
        content = content;
        mod_time = time;
        compile_err = outcome;
      } in
      (
        is_some-failed (bytes "failed to execute script ") filename (run content vm).0,
        refl,
        (item, find-store_self filename item cache, refl, refl),
      )

  run_cached-IsLoad :
      (filename content : Bytes) (time : ℕ) (o : Option GoError) (item : ScriptCacheItem)
      (cache : ScriptCache) (vm : Vm)
      → find filename cache ≡ some item
      → item.content ≡ content
      → item.mod_time ≡ time
      → IsLoad filename content time cache vm o (run_cached run read filename content o cache vm)
  unfolding run_cached
  run_cached-IsLoad filename content time (some e) item cache vm found same at = refl
  run_cached-IsLoad filename content time none item cache vm found same at = (
    is_some-failed (bytes "failed to execute cached script ") filename (run content vm).0,
    refl,
    (item, found, same, at),
  )

  load_found-IsLoad :
      (filename content : Bytes) (time : ℕ) (o : Option ScriptCacheItem) (cache : ScriptCache)
      (vm : Vm)
      → find filename cache ≡ o
      → read filename ≡ ok content
      → ((item : ScriptCacheItem) → o ≡ some item → time ≡ item.mod_time → item.content ≡ content)
      → IsLoad filename content time cache vm
          (kept_error time o)
          (load_found run read filename time o cache vm)
  unfolding load_found kept_error
  load_found-IsLoad filename content time none cache vm found r same =
      rw r (read_run-IsRun filename content time cache vm)
  load_found-IsLoad filename content time (some item) cache vm found r same =
      elim (Bool-cases (time == item.mod_time)) [
        | inl e ↦
            let at : time ≡ item.mod_time = ground (arith, e) in
            let text : item.content ≡ content = same item refl at in
            rw (e, text)
              (run_cached-IsLoad filename content time item.compile_err item cache vm found text
                (sym at))
        | inr e ↦ rw (e, r) (read_run-IsRun filename content time cache vm)
      ]

  -- Where the file can be read, and a text that the cache holds with the file's modification time is
  -- the file's: unless an error is kept for that time, the text of the file is run once in the VM,
  -- whether it comes from the cache or from the disk, the load fails just where that run does, the
  -- VM is as it leaves it, and the cache then holds the text with its time. Where an error is kept,
  -- it is returned, the VM and the cache are as they were, and nothing is run.
  pub load_script_lem :
      (filename content : Bytes) (time : ℕ) (cache : ScriptCache) (vm : Vm)
      → is_empty filename ≡ false
      → read filename ≡ ok content
      → ((item : ScriptCacheItem)
          → find filename cache ≡ some item
          → time ≡ item.mod_time
          → item.content ≡ content)
      → IsLoad filename content time cache vm
          (kept_error time (find filename cache))
          (load_script run read filename (modified time) cache vm)
  unfolding load_script load_stated
  load_script_lem filename content time cache vm named r same =
      rw named (load_found-IsLoad filename content time (find filename cache) cache vm refl r same)
