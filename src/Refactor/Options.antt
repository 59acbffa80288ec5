-- ===== src/Refactor/Options.antt =====
-- core_refactor/options.go, and New and HandleFunc of core_refactor/mitm.go.
pub mod Ready
use mitm_proxy.Base.{ℕ, ◌*◌, ◌^◌, List, [], ◌∷◌, Option, none, some}
use mitm_proxy.Text.{Bytes, bytes}
use mitm_proxy.Text.Table.{Table, store}
use mitm_proxy.Http.Error.{GoError, Result, ok, err, wrapped, ◌>>=◌}
use mitm_proxy.Http.Message.{Request, Response}
use mitm_proxy.Net.Interfaces.{Interface}
use mitm_proxy.Refactor.Hosts.{local_ips}
use mitm_proxy.Refactor.HtmlInject.{HtmlInjector, new_html_injector}
use mitm_proxy.Refactor.Proxy.{Proxy, direct_proxy}
use mitm_proxy.Refactor.Requests.{Handler}

-- The fields of MITM that are set before it is started. `C` is the type of root certificates and
-- `L` that of loggers; timeouts are in nanoseconds.
pub record Settings (C L W : Type 0) : Type 0 where
  pub ca : Option C
  pub proxy_func : Request → Proxy
  pub request_handler : Option (Request → Option Response × Request)
  pub response_handler : Option (Response → Option Response × Response)
  pub html_injector : Option HtmlInjector
  pub manage_router : Table (Handler W)
  pub logger : Option L
  pub dial_timeout : ℕ
  pub idle_timeout : ℕ
  pub cert_path : Bytes
  pub key_path : Bytes
  pub local_ips : List Bytes

-- The defaults of New.
abbrev pub default_dial_timeout : ℕ
default_dial_timeout = 10 * 10 ^ 9

abbrev pub default_idle_timeout : ℕ
default_idle_timeout = 60 * 10 ^ 9

-- `Option`, a function on the settings.
abbrev pub Setter : Type 0 → Type 0 → Type 0 → Type 0
Setter C L W = Settings C L W → Settings C L W

module _ {C L W : Type 0} where
  unfoldable pub defaults : Settings C L W
  defaults = record {
    ca = none;
    proxy_func = direct_proxy;
    request_handler = none;
    response_handler = none;
    html_injector = none;
    manage_router = [];
    logger = none;
    dial_timeout = default_dial_timeout;
    idle_timeout = default_idle_timeout;
    cert_path = bytes "./cert/cert.pem";
    key_path = bytes "./cert/key.pem";
    local_ips = [];
  }

  unfoldable pub with_logger : Option L → Setter C L W
  with_logger l m = record m { logger = l }

  unfoldable pub with_ca : Option C → Setter C L W
  with_ca ca m = record m { ca = ca }

  unfoldable pub with_request_handler : Option (Request → Option Response × Request) → Setter C L W
  with_request_handler fn m = record m { request_handler = fn }

  unfoldable pub with_response_handler :
      Option (Response → Option Response × Response) → Setter C L W
  with_response_handler fn m = record m { response_handler = fn }

  unfoldable pub with_html_injector : (Response → Bytes × Response) → Setter C L W
  with_html_injector fn m = record m { html_injector = some (new_html_injector fn) }

  unfoldable pub with_proxy : (Request → Proxy) → Setter C L W
  with_proxy fn m = record m { proxy_func = fn }

  unfoldable pub with_dial_timeout : ℕ → Setter C L W
  with_dial_timeout d m = record m { dial_timeout = d }

  unfoldable pub with_idle_timeout : ℕ → Setter C L W
  with_idle_timeout d m = record m { idle_timeout = d }

  unfoldable pub with_ca_path : Bytes → Bytes → Setter C L W
  with_ca_path cert key m = record m { cert_path = cert; key_path = key }

  -- The loop over the options.
  unfoldable pub apply : List (Setter C L W) → Settings C L W → Settings C L W
  apply [] m = m
  apply (opt ∷ opts) m = apply opts (opt m)

  unfoldable pub default_logger : L → Setter C L W
  default_logger discard m = record m {
    logger = elim m.logger [ none ↦ some discard | some l ↦ some l ];
  }

  unfoldable pub ensure_ca : (Bytes → Bytes → Result C) → Settings C L W → Result (Settings C L W)
  ensure_ca load m = elim m.ca [
    | some ca ↦ ok m
    | none ↦ (do
      ca ← wrapped (bytes "load CA: ") (load m.cert_path m.key_path)
      ok (record m { ca = some ca }))
  ]

  -- `load` is LoadCA with its files, `discard` the logger that writes nothing.
  unfoldable pub new :
      (Bytes → Bytes → Result C)
      → L
      → Result (List Interface)
      → List (Setter C L W)
      → Result (Settings C L W)
  new load discard interfaces opts = do
    m ← ensure_ca load (default_logger discard (apply opts defaults))
    ips ← wrapped (bytes "get local ips: ") (local_ips interfaces)
    ok (record m { local_ips = ips })

  unfoldable pub handle_func : Bytes → Handler W → Settings C L W → Settings C L W
  handle_func path h m = record m { manage_router = store path h m.manage_router }
