-- ===== src/Rewrite/Config/Watching.antt =====
-- What the watch leaves.
use mitm_proxy.Base.{ℕ, ◌≡◌, refl, sym, subst, ap, ◌∙◌, List, [], ◌∷◌, some, branch}
use mitm_proxy.Text.{Bytes}
use mitm_proxy.Http.Error.{Result, ok, err}
use mitm_proxy.Rewrite.Config.{
  File, Config, called, loaded, stated, reload, is_newer, watch_tick, watch,
}

module _ {P : Type 0} (quote : Bytes → Bytes) (fn : Bytes → P → P) where
  -- Nothing was loaded, or the last thing that happened to `p` is the callback with the script in use.
  pub data Told (c : Config P) (p : P) : Config P → P → Type 0 where
    unchanged : Told c p c p
    told : (d : Config P) (q : P) → d.on_change ≡ some fn → Told c p d (fn d.script q)

  loaded-Told :
      (time : ℕ) (content : Result Bytes) (c d : Config P) (p q : P)
      → d.on_change ≡ some fn
      → Told c p d q
      → let r = loaded quote time content d q in Told c p r.1 r.2
  unfolding loaded called
  loaded-Told time (err e) c d p q h t = t
  loaded-Told time (ok script) c d p q h t =
      let e : Config P = record d { script = script; mod_time = time } in
      subst (Told c p e) (ap (λ o. called quote o script q) (sym h)) (told e q h)

  stated-Told :
      (stat : Result ℕ) (content : Result Bytes) (c d : Config P) (p q : P)
      → d.on_change ≡ some fn
      → Told c p d q
      → let r = stated quote stat content d q in Told c p r.1 r.2
  unfolding stated
  stated-Told (err e) content c d p q h t = t
  stated-Told (ok time) content c d p q h t = loaded-Told time content c d p q h t

  stated_callback :
      (stat : Result ℕ) (content : Result Bytes) (d : Config P) (q : P)
      → (stated quote stat content d q).1.on_change ≡ d.on_change
  unfolding stated loaded
  stated_callback (err e) content d q = refl
  stated_callback (ok time) (err e) d q = refl
  stated_callback (ok time) (ok script) d q = refl

  -- What a tick keeps.
  abbrev Keeps : Config P → P → Config P × P → Type 0
  Keeps c p r = (r.0.on_change ≡ some fn) × Told c p r.0 r.1

  watch_tick-Keeps :
      (before f : File) (c d : Config P) (p q : P)
      → d.on_change ≡ some fn
      → Told c p d q
      → Keeps c p (watch_tick quote before f d q)
  unfolding watch_tick reload
  watch_tick-Keeps before f c d p q h t =
      branch (Keeps c p) (is_newer quote before.stat d)
        (λ e. (stated_callback f.stat f.content d q ∙ h, stated-Told f.stat f.content c d p q h t))
        (λ e. (h, t))

  watch-Keeps :
      (ticks : List (File × File)) (c d : Config P) (p q : P)
      → d.on_change ≡ some fn
      → Told c p d q
      → Keeps c p (watch quote ticks d q)
  unfolding watch
  watch-Keeps [] c d p q h t = (h, t)
  watch-Keeps ((before, f) ∷ ticks) c d p q h t =
      let (k, u) = watch_tick-Keeps before f c d p q h t in
      let r = watch_tick quote before f d q in watch-Keeps ticks c r.0 p r.1 k u

  -- However the file changes and whichever accesses to it fail while it is watched: either nothing
  -- was loaded, or the last change was the callback with the script that is in use.
  pub watch-Told :
      (ticks : List (File × File)) (c : Config P) (p : P)
      → c.on_change ≡ some fn
      → Told c p (watch quote ticks c p).0 (watch quote ticks c p).1
  watch-Told ticks c p h = (watch-Keeps ticks c c p p h unchanged).1
