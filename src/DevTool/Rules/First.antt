-- ===== src/DevTool/Rules/First.antt =====
-- Which rule changes a request.
use mitm_proxy.Base.{
  ◌≡◌, refl, ap, ◌∙◌, inl, inr, Bool, true, false, ◌&&◌, List, [], ◌∷◌, Option, none, some, arith,
  Bool-cases, Option-cases,
}
use mitm_proxy.Text.{bytes, bytes_eq, has_prefix}
use mitm_proxy.Text.Table.{Table, find}
use mitm_proxy.Http.Header.{set}
use mitm_proxy.DevTool.Rules.{
  RouteRule, RewriteRule, Config, Request, Regexp, route_applies, routed, apply_routing, rewritten,
  apply_rewrite, process,
}

-- Rules of which the first that passes the test is used.
pub data First {ℓ} {A : Type ℓ} (test : A → Bool) : List A → Option A → Type ℓ where
  nothing : First test [] none
  this : {x : A} {l : List A} → test x ≡ true → First test (x ∷ l) (some x)
  later :
      {x : A} {l : List A} {o : Option A} → test x ≡ false → First test l o → First test (x ∷ l) o

-- What a rule that is found does.
abbrev pub changed : {A B : Type 0} → (A → B → B) → Option A → B → B
changed f none b = b
changed f (some a) b = f a b

route :
    (rules : List RouteRule) (req : Request)
    → (o : Option RouteRule) × First (λ r. route_applies r req) rules o
      × (apply_routing rules req ≡ changed routed o req)
unfolding apply_routing route_applies
route [] req = (none, nothing, refl)
route (r ∷ rules) req =
    let (o, f, e) = route rules req in
    elim (Bool-cases (
      r.enabled && bytes_eq req.host r.match_host && has_prefix req.url.path r.match_path_prefix)) [
        | inl h ↦ (some r, this h, ground arith)
        | inr h ↦ (o, later h f, ground arith)
      ]

-- Whether a rewrite rule applies, with the regexps that are at hand.
abbrev pub matching : Option Regexp → Request → Bool
matching none req = false
matching (some x) req = x.matches req.url.path

abbrev pub rewrite_applies : Table Regexp → RewriteRule → Request → Bool
rewrite_applies m r req = r.enabled && matching (find r.id m) req

abbrev pub rewritten? : Option Regexp → RewriteRule → Request → Request
rewritten? none r req = req
rewritten? (some x) r req = rewritten x r req

rewrite :
    (m : Table Regexp) (rules : List RewriteRule) (req : Request)
    → (o : Option RewriteRule) × First (λ r. rewrite_applies m r req) rules o
      × (apply_rewrite m rules req ≡ changed (λ r. rewritten? (find r.id m) r) o req)
unfolding apply_rewrite
rewrite m [] req = (none, nothing, refl)
rewrite m (r ∷ rules) req =
    let (o, f, e) = rewrite m rules req in
    elim (Bool-cases (rewrite_applies m r req)) [
      | inl h ↦ (
        some r,
        this h,
        elim (Option-cases (find r.id m)) [
          | inl k ↦ absurd (ground (arith, k))
          | inr (x, k) ↦ ground (arith, k)
        ],
      )
      | inr h ↦ (
        o,
        later h f,
        elim (Option-cases (find r.id m)) [
          | inl k ↦ ground (arith, k)
          | inr (x, k) ↦ ground (arith, k)
        ],
      )
    ]

-- A request is changed by at most one route, the first that is enabled and has its host and a prefix
-- of its path, and then by at most one rewrite rule, the first that is enabled and whose regexp is
-- at hand and matches the path; what comes out is what the two rules do, one after the other, with
-- the Accept-Encoding header set.
pub process-First :
    (m : Table Regexp) (cfg : Config) (req : Request)
    → let asked : Request = record req {
      header = set req.header (bytes "Accept-Encoding") (bytes "identity");
    } in
      (o : Option RouteRule) × (p : Option RewriteRule) × First
        (λ r. route_applies r asked)
        cfg.routes
        o
      × First (λ r. rewrite_applies m r (changed routed o asked)) cfg.rewrites p
      × (process m cfg req ≡ changed (λ r. rewritten? (find r.id m) r) p (changed routed o asked))
unfolding process
process-First m cfg req =
    let asked : Request = record req {
      header = set req.header (bytes "Accept-Encoding") (bytes "identity");
    } in
    let (o, f, e) = route cfg.routes asked in
    let (p, g, k) = rewrite m cfg.rewrites (changed routed o asked) in
    (o, p, f, g, ap (apply_rewrite m cfg.rewrites) e ∙ k)
