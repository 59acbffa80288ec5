-- ===== src/DevTool/Web/Posted.antt =====
-- Rewrite rules that are posted while the program runs.
use mitm_proxy.Base.{
  sym, ap, subst, ◌≡◌, ◌≢◌, refl, ◌∙◌, List, [], ◌∷◌, none, some, arith, if◌then◌else◌, All,
  Bool-cases, inl, inr,
}
use mitm_proxy.Text.{Bytes, bytes, bytes_eq, bytes_eq_iff}
use mitm_proxy.Text.Table.{Table, find, find-store}
use mitm_proxy.Http.Error.{Result, ok, err}
use mitm_proxy.Http.Header.{Header}
use mitm_proxy.Http.Message as Message
use mitm_proxy.Http.Writer.{Writer}
use mitm_proxy.Core.ResponseWriter.{ResponseWriter}
use mitm_proxy.DevTool.Rules.{
  RewriteRule, Config, Request, Regexp, compiled, compile_rules, apply_rewrite, process,
}
use mitm_proxy.DevTool.Web.{Web, allow, all_methods, new_config, handle_config}

-- No rule of the list has the ID.
abbrev pub Foreign : List RewriteRule → Bytes → Type 0
Foreign rules id = All (λ r. r.id ≢ id) rules

no_rewrites : (req : Request) → apply_rewrite [] [] req ≡ req
unfolding apply_rewrite
no_rewrites req = refl

module _ (compile : Bytes → Result Regexp) where
  find-compiled :
      (c : Result Regexp) (k id : Bytes) (m : Table Regexp)
      → k ≢ id
      → find id (compiled compile c k m) ≡ find id m
  unfolding compiled
  find-compiled (ok x) k id m h = ground (arith, find-store k id x m, bytes_eq_iff k id)
  find-compiled (err e) k id m h = refl

  find-compile_rules :
      (rules : List RewriteRule) (id : Bytes) (m : Table Regexp)
      → Foreign rules id
      → find id (compile_rules compile rules m) ≡ find id m
  unfolding compile_rules
  find-compile_rules [] id m h = refl
  find-compile_rules (r ∷ rules) id m (h, k) = elim (Bool-cases r.enabled) [
    | inl e ↦
        find-compile_rules rules id
          (if r.enabled then compiled compile (compile r.match_path) r.id m else m) k
        ∙ rw e (find-compiled (compile r.match_path) r.id id m h)
    | inr e ↦
        find-compile_rules rules id
          (if r.enabled then compiled compile (compile r.match_path) r.id m else m) k
        ∙ rw e refl
  ]

  unknown_id :
      (start : List RewriteRule) (id : Bytes)
      → Foreign start id
      → find id (compile_rules compile start []) ≡ none
  unknown_id start id h = find-compile_rules start id [] h ∙ unfold find in refl

  apply_rewrite-Foreign :
      (start posted : List RewriteRule) (req : Request)
      → All (λ r. Foreign start r.id) posted
      → apply_rewrite (compile_rules compile start []) posted req ≡ req
  unfolding apply_rewrite
  apply_rewrite-Foreign start [] req h = refl
  apply_rewrite-Foreign start (r ∷ posted) req (h, k) =
      rw (unknown_id start r.id h) (ground (arith, apply_rewrite-Foreign start posted req k))

  module _ {W : Type 0} (out : Writer W) (order : Header → List (Bytes × List Bytes))
      (to_json indented : Config → Bytes) (parse : Bytes → Result Config) where
    -- The program behind a request to `/api/config`.
    abbrev pub posted : Message.Request → Web → ResponseWriter W → Web
    posted request s w = (handle_config out order to_json indented parse request s w).0

    handle_config_at :
        (request : Message.Request) (s : Web) (w : ResponseWriter W)
        → handle_config out order to_json indented parse
            (record request { method = bytes "POST" })
            s
            w
          ≡ new_config out order indented (parse request.body.content) s (allow all_methods w)
    unfolding handle_config bytes bytes_eq
    handle_config_at request s w = refl

    handle_config_method :
        (request : Message.Request) (s : Web) (w : ResponseWriter W)
        → request.method ≡ bytes "POST"
        → handle_config out order to_json indented parse request s w
          ≡ new_config out order indented (parse request.body.content) s (allow all_methods w)
    handle_config_method request s w method =
        subst
          (λ m.
            handle_config out order to_json indented parse (record request { method = m }) s w
            ≡ new_config out order indented (parse request.body.content) s (allow all_methods w))
          (sym method) (handle_config_at request s w)

    handle_config_posted :
        (cfg : Config) (request : Message.Request) (s : Web) (w : ResponseWriter W)
        → request.method ≡ bytes "POST"
        → parse request.body.content ≡ ok cfg
        → posted request s w
          ≡ record s { proxy = record s.proxy { config = cfg }; config_file = some (indented cfg) }
    unfolding new_config
    handle_config_posted cfg request s w method parsed =
        ap (λ x. x.0) (handle_config_method request s w method)
        ∙ ap (λ r. (new_config out order indented r s (allow all_methods w)).0) parsed

    -- Where the regexps are those that were compiled at the start, and a configuration is posted to
    -- /api/config whose rewrite rules have IDs that no rule had at the start: the handler puts the
    -- configuration in force, and from then on a request is changed by its routes alone, as if it
    -- had no rewrite rules.
    pub apply_rewrite-posted :
        (start : List RewriteRule) (cfg : Config) (request : Message.Request) (s : Web)
        (w : ResponseWriter W) (req : Request)
        → s.proxy.rewrite_regexps ≡ compile_rules compile start []
        → request.method ≡ bytes "POST"
        → parse request.body.content ≡ ok cfg
        → All (λ r. Foreign start r.id) cfg.rewrites
        → ((posted request s w).proxy.config ≡ cfg)
          × (process
                (posted request s w).proxy.rewrite_regexps
                (posted request s w).proxy.config
                req
              ≡ process [] (record cfg { rewrites = [] }) req)
    unfolding process
    apply_rewrite-posted start cfg request s w req regexps method parsed foreign =
        rw (handle_config_posted cfg request s w method parsed) (
          refl,
          rw regexps (apply_rewrite-Foreign start cfg.rewrites _ foreign) ∙ sym (no_rewrites _),
        )
