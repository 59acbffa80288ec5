-- ===== src/Rewrite/Handlers.antt =====
-- examples/rewrite_by_lua_v2/internal/handlers.go: the callbacks that run a function of the script in
-- a state of the pool.
pub mod Upkeep
use mitm_proxy.Base.{ℕ, Bool, List, [], ◌∷◌, ◌++◌, Option, none, some, if◌then◌else◌, length}
use mitm_proxy.Text.{Bytes, bytes, is_empty, before}
use mitm_proxy.Http.Error.{GoError, Result, ok, err}
use mitm_proxy.Http.Header.{Header, get, set}
use mitm_proxy.Http.Message.{Request, Response, string_reader}
use mitm_proxy.Http.Status.{status_ok, status_not_found}
use mitm_proxy.Refactor.Proxy.{Proxy, no_proxy, Url, parse_proxy_url}
use mitm_proxy.Rewrite.Pool.{LuaState, Pool, put}
use mitm_proxy.Rewrite.Pool as Pool
use mitm_proxy.Rewrite.Tables.{
  LuaTable, LuaValue, go_headers_to_lua, lua_table_to_go_headers, call_lua_string,
}

-- What GoRequest returns; its last result may be no table.
pub record Rewriting : Type 0 where
  pub protocol : Bytes
  pub host : Bytes
  pub path : Bytes
  pub body_file_path : Bytes
  pub headers : Option LuaTable

-- The globals of a state with its script; one that is missing is `none`.
pub record Globals : Type 0 where
  pub go_request : Option (Bytes → Bytes → Bytes → LuaTable → Result Rewriting)
  pub go_proxy : Option (Bytes → Result LuaValue)
  pub go_inject : Option (Bytes → Result LuaValue)

-- `errorResponse`
unfoldable pub error_response : ℕ → Bytes → Response
error_response code msg = record {
  status_code = code;
  status = [];
  header = (bytes "Content-Type", bytes "text/plain; charset=utf-8" ∷ []) ∷ [];
  content_length = some (length msg);
  body = string_reader msg;
}

unfoldable pub with_type : Header → Header
with_type h =
    if is_empty (get h (bytes "Content-Type"))
    then set h (bytes "Content-Type") (bytes "application/json; charset=utf-8")
    else h

unfoldable pub headers_of : Option LuaTable → Header
headers_of none = []
headers_of (some t) = lua_table_to_go_headers t

unfoldable pub with_headers : Header → Request → Request
with_headers [] req = req
with_headers (e ∷ h) req = record req { header = e ∷ h }

-- The target that the script gives, where it gives one; the host of the URL is that of the request.
unfoldable pub with_target : Rewriting → Request → Request
with_target r req = record req {
  scheme = if is_empty r.protocol then req.scheme else r.protocol;
  host = if is_empty r.host then req.host else r.host;
  path = if is_empty r.path then req.path else r.path;
}

-- `read_file` is os.ReadFile, `url_parse` url.Parse, `quote` the verb `%q`, `globals` what the
-- functions of a state do.
module _ (read_file : Bytes → Result Bytes) (url_parse : Bytes → Result Url) (quote : Bytes → Bytes)
    (globals : LuaState → Globals) where
  -- `buildFileResponse`
  unfoldable pub build_file_response : Bytes → Header → Response
  build_file_response path h = elim (read_file path) [
    | err e ↦ error_response status_not_found (bytes "mock file not found: " ++ path)
    | ok content ↦ record {
      status_code = status_ok;
      status = [];
      header = with_type h;
      content_length = some (length content);
      body = string_reader content;
    }
  ]

  unfoldable pub apply_rewriting : Rewriting → Request → Option Response × Request
  apply_rewriting r req =
      let h = headers_of r.headers in
      if is_empty r.body_file_path
      then (none, with_target r (with_headers h req))
      else (some (build_file_response r.body_file_path h), req)

  unfoldable pub rewritten : Result Rewriting → Request → Option Response × Request
  rewritten (err e) req = (none, req)
  rewritten (ok r) req = apply_rewriting r req

  unfoldable pub run_request :
      Option (Bytes → Bytes → Bytes → LuaTable → Result Rewriting)
      → Request
      → Option Response × Request
  run_request none req = (none, req)
  run_request (some fn) req =
      rewritten (fn req.scheme req.host req.path (go_headers_to_lua req.header)) req

  unfoldable pub parsed_proxy : Result Bytes → Proxy
  parsed_proxy (err e) = no_proxy
  parsed_proxy (ok s) = elim (parse_proxy_url url_parse s) [ err e ↦ no_proxy | ok p ↦ p ]

  unfoldable pub select_proxy : Bytes → LuaState → Proxy
  select_proxy host s =
      parsed_proxy (call_lua_string quote (bytes "GoProxy") (globals s).go_proxy (before b':' host))

  unfoldable pub file_text : Bytes → Bytes
  file_text path = elim (read_file path) [ err e ↦ [] | ok content ↦ content ]

  unfoldable pub injected : Result Bytes → Bytes
  injected (err e) = []
  injected (ok path) = if is_empty path then [] else file_text path

  unfoldable pub inject : Bytes → LuaState → Bytes
  inject host s =
      injected (call_lua_string quote (bytes "GoInject") (globals s).go_inject (before b':' host))

  -- A state is taken from the pool, used, and put back, whatever its function does.
  module _ (spare : ℕ → List LuaState) (run : Bytes → Option GoError) where
    unfoldable pub used : {A : Type 0} → A → (LuaState → A) → Result LuaState × Pool → A × Pool
    used failed f (err e, p) = (failed, p)
    used failed f (ok s, p) = (f s, put spare s p)

    unfoldable pub with_state : {A : Type 0} → A → (LuaState → A) → Bytes → Pool → A × Pool
    with_state failed f script p = used failed f (Pool.get run script p)

    -- The function that `NewRequestHandler` returns.
    unfoldable pub handle_request : Bytes → Request → Pool → (Option Response × Request) × Pool
    handle_request script req p =
        with_state (none, req) (λ s. run_request (globals s).go_request req) script p

    -- The function that `NewProxySelector` returns.
    unfoldable pub proxy_for : Bytes → Request → Pool → Proxy × Pool
    proxy_for script req p = with_state no_proxy (select_proxy req.host) script p

    -- The function that `NewHTMLInjector` returns, where the response has a request or not.
    unfoldable pub html_for : Bytes → Option Request → Pool → Bytes × Pool
    html_for script none p = with_state [] (inject []) script p
    html_for script (some req) p = with_state [] (inject req.host) script p
