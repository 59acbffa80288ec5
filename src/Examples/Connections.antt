-- ===== src/Examples/Connections.antt =====
-- Requests of the first connector over the network in memory.
use mitm_proxy.Base.{◌+◌, ◌≡◌, refl, true, false, [], ◌∷◌, some}
use mitm_proxy.Text.{bytes, bytes_eq}
use mitm_proxy.Text.Table.{find}
use mitm_proxy.Http.Error.{eof}
use mitm_proxy.Http.Message.{string_reader}
use mitm_proxy.Net.Upstream.{Upstream, count}
use mitm_proxy.Core.Connector.{Server, Connector, MyRequest, connect_server}
use mitm_proxy.Core.Connector.Leak.{raws, one_if, connect_server_leaks}
use mitm_proxy.Examples.FakeNet.{FakeNet, dial, fake, fake-Lifetimes}

abbrev page : MyRequest
page = record {
  raw = record {
    method = bytes "GET";
    host = bytes "a.com";
    scheme = bytes "https";
    path = bytes "/";
    header = [];
    content_length = some 0;
    body = string_reader [];
  };
  proxy = record { protocol = []; addr = []; account = []; password = [] };
}

abbrev first : Server
first = record { raw = 0; is_tls = false }

-- The connection 0 is held for a.com.
abbrev client : Connector FakeNet
client = record {
  client_tls = true;
  server = (bytes "a.com", first) ∷ [];
  net = record { live = 0 ∷ []; next = 1; good = 1 };
  body = string_reader [];
}

connect_server_leaks_example :
    let after = (connect_server fake page true client).1 in
    count 0 after.net.live + count 0 (raws client.server)
    ≡ count 0 client.net.live + count 0 (raws after.server) + one_if 0 0
unfolding find bytes bytes_eq fake dial fake-Lifetimes
connect_server_leaks_example =
    connect_server_leaks fake fake-Lifetimes 0 page client
      (record { live = 1 ∷ 0 ∷ []; next = 2; good = 1 }) first 1 refl refl

-- A network on which no TLS handshake succeeds.
abbrev no_tls : Upstream FakeNet
no_tls = record fake { handshake = λ n l host. (some eof, n) }
