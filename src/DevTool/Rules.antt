-- ===== src/DevTool/Rules.antt =====
-- examples/dev-tool/main.go: the configuration, and the rules that change a request.
pub mod First
use mitm_proxy.Base.{
  ℕ, ◌+◌, Bool, true, false, not, ◌&&◌, List, [], ◌∷◌, ◌++◌, Option, none, some, if◌then◌else◌,
}
use mitm_proxy.Text.{Bytes, bytes, bytes_eq, is_empty, has_prefix, contains}
use mitm_proxy.Text.Numeral.{decimal}
use mitm_proxy.Text.Table.{Table, find, store}
use mitm_proxy.Http.Error.{Result, ok, err}
use mitm_proxy.Http.Header.{Header, get, set}
use mitm_proxy.Http.Message.{Stream}

-- Go's `int`.
pub data ℤ : Type 0 where
  pos negsuc : ℕ → ℤ

-- `%d`
unfoldable pub int_text : ℤ → Bytes
int_text (pos n) = decimal n
int_text (negsuc n) = bytes "-" ++ decimal (n + 1)

pub record RouteRule : Type 0 where
  pub id : Bytes
  pub name : Bytes
  pub match_host : Bytes
  pub match_path_prefix : Bytes
  pub target_host : Bytes
  pub target_port : ℤ
  pub enabled : Bool

pub record RewriteRule : Type 0 where
  pub id : Bytes
  pub name : Bytes
  pub match_path : Bytes
  pub rewrite_path : Bytes
  pub target_host : Bytes
  pub enabled : Bool

pub record OriginRule : Type 0 where
  pub id : Bytes
  pub name : Bytes
  pub origin : Bytes
  pub enabled : Bool
  pub record_body : Bool

pub record Config : Type 0 where
  pub port : Bytes
  pub routes : List RouteRule
  pub rewrites : List RewriteRule
  pub origins : List OriginRule
  pub record_requests : Bool
  pub max_request_history : ℤ

unfoldable pub default_config : Config
default_config = record {
  port = bytes "8080";
  routes = [];
  rewrites = [];
  origins = [];
  record_requests = true;
  max_request_history = pos 1000;
}

-- url.URL, without the flags that only printing looks at.
pub record Url : Type 0 where
  pub scheme : Bytes
  pub opaque : Bytes
  pub user : Option Bytes
  pub host : Bytes
  pub path : Bytes
  pub raw_path : Bytes
  pub raw_query : Bytes
  pub fragment : Bytes

-- A body of `none` is nil.
pub record Request : Type 0 where
  pub method : Bytes
  pub host : Bytes
  pub url : Url
  pub header : Header
  pub body : Option Stream

-- A compiled regexp: `MatchString`, and `ReplaceAllString` of a text by a template.
pub record Regexp : Type 0 where
  pub matches : Bytes → Bool
  pub replace_all : Bytes → Bytes → Bytes

-- The part of `NewDevToolProxy` that compiles the rules; an error leaves a rule out.
module _ (compile : Bytes → Result Regexp) where
  unfoldable pub compiled : Result Regexp → Bytes → Table Regexp → Table Regexp
  compiled (ok r) id m = store id r m
  compiled (err e) id m = m

  unfoldable pub compile_rules : List RewriteRule → Table Regexp → Table Regexp
  compile_rules [] m = m
  compile_rules (r ∷ rules) m =
      compile_rules rules (if r.enabled then compiled (compile r.match_path) r.id m else m)

unfoldable pub route_applies : RouteRule → Request → Bool
route_applies r req =
    r.enabled && bytes_eq req.host r.match_host && has_prefix req.url.path r.match_path_prefix

-- `fmt.Sprintf("%s:%d", rule.TargetHost, rule.TargetPort)`
unfoldable pub new_host : RouteRule → Bytes
new_host r = r.target_host ++ bytes ":" ++ int_text r.target_port

unfoldable pub routed : RouteRule → Request → Request
routed r req = record req {
  host = new_host r;
  url = record {
    scheme = req.url.scheme;
    opaque = [];
    user = none;
    host = new_host r;
    path = req.url.path;
    raw_path = [];
    raw_query = req.url.raw_query;
    fragment = [];
  };
}

-- `applyRouting`
unfoldable pub apply_routing : List RouteRule → Request → Request
apply_routing [] req = req
apply_routing (r ∷ rules) req =
    if not r.enabled
    then apply_routing rules req
    else if bytes_eq req.host r.match_host
    then if has_prefix req.url.path r.match_path_prefix
      then routed r req
      else apply_routing rules req
    else apply_routing rules req

unfoldable pub retargeted : Bytes → Request → Request
retargeted host req =
    if is_empty host then req else record req { host = host; url = record req.url { host = host } }

unfoldable pub rewritten : Regexp → RewriteRule → Request → Request
rewritten x r req =
    let new_path = x.replace_all req.url.path r.rewrite_path in
    retargeted r.target_host
      (record req { url = record req.url { path = new_path; raw_path = new_path } })

-- `applyRewrite`, where `regexps` is `rewriteRegexps`.
unfoldable pub apply_rewrite : Table Regexp → List RewriteRule → Request → Request
apply_rewrite regexps [] req = req
apply_rewrite regexps (r ∷ rules) req =
    let rest = apply_rewrite regexps rules req in
    if not r.enabled then rest else elim (find r.id regexps) [
      | none ↦ rest
      | some x ↦ if x.matches req.url.path then rewritten x r req else rest
    ]

unfoldable pub some_origin : Bytes → List OriginRule → Bool
some_origin origin [] = false
some_origin origin (r ∷ rules) =
    if r.enabled && contains origin r.origin then true else some_origin origin rules

unfoldable pub origin_of : Request → Bytes
origin_of req =
    let origin = get req.header (bytes "Origin") in
    if is_empty origin then get req.header (bytes "Referer") else origin

-- `isOriginTracked`
unfoldable pub is_origin_tracked : List OriginRule → Request → Bool
is_origin_tracked [] req = true
is_origin_tracked (r ∷ rules) req = some_origin (origin_of req) (r ∷ rules)

-- The callback of `setupRequestProcessing` up to the tracking.
unfoldable pub process : Table Regexp → Config → Request → Request
process regexps cfg req = apply_rewrite regexps cfg.rewrites (
    apply_routing cfg.routes
      (record req { header = set req.header (bytes "Accept-Encoding") (bytes "identity") }))
