-- ===== src/Examples/Requests.antt =====
-- Requests of a client of the second version, over the network in memory.
use mitm_proxy.Base.{refl, Bool, true, false, List, [], ◌∷◌, ◌++◌, Option, none, some}
use mitm_proxy.Text.{Bytes, bytes}
use mitm_proxy.Http.Error.{GoError, eof, wrap, ok, err}
use mitm_proxy.Http.Message.{Request, Response, Codec, string_reader}
use mitm_proxy.Http.Writer.{buffer, IsReliable}
use mitm_proxy.Net.Upstream.{Upstream}
use mitm_proxy.Refactor.Proxy.{direct_proxy}
use mitm_proxy.Refactor.Requests.{Mitm, Job, Client}
use mitm_proxy.Examples.FakeNet.{FakeNet, fake}

abbrev pub get_from : Bytes → Request
get_from host = record {
  method = bytes "GET";
  host = host;
  scheme = [];
  path = bytes "/";
  header = [];
  content_length = some 0;
  body = string_reader [];
}

abbrev pub plain_codec : Codec
plain_codec = record { opened = λ s. ok s; left = λ s. s }

abbrev pub proxy : Mitm Bytes
proxy = record {
  proxy_func = direct_proxy;
  request_handler = none;
  response_handler = none;
  html_injector = none;
  manage_router = [];
  listen_port = bytes "8080";
  local_ips = bytes "localhost" ∷ [];
}

abbrev pub from_here : Bytes → Option Bool
from_here s = some true

-- A response without its headers, which is all that is looked at here.
abbrev pub copied : Response → Job Bytes
copied resp u = (none, u ++ resp.body.content)

abbrev pub client : Client FakeNet Bytes
client = record {
  session = record {
    client_tls = false;
    servers = [];
    net = record { live = []; next = 0; good = 0 };
    body = string_reader [];
  };
  writer = [];
  queue = [];
  cancelled = false;
  remote = bytes "127.0.0.1:5000";
  tunnel = none;
}

abbrev pub two : List Request
two = get_from (bytes "a.com") ∷ get_from (bytes "localhost:8080") ∷ []

-- A network on which nothing can be dialled.
abbrev down : Upstream FakeNet
down = record fake { dial = λ n addr. (err eof, n) }

buffer-IsReliable : IsReliable buffer
unfolding buffer
buffer-IsReliable w p = refl

abbrev refused : GoError
refused = wrap (bytes "dial a.com:80: ") eof
