-- ===== src/Examples/Serving.antt =====
-- A proxy that is configured, and the requests of a client that it serves.
use mitm_proxy.Base.{ℕ, ◌≡◌, refl, true, false, [], ◌∷◌, ◌++◌, some, map}
use mitm_proxy.Text.{Bytes, bytes, bytes_eq, contains, to_lower, equal_fold}
use mitm_proxy.Http.Error.{eof, ok, err}
use mitm_proxy.Http.Header.{get}
use mitm_proxy.Http.Writer.{buffer}
use mitm_proxy.Net.Interfaces.{ipv4, Interface}
use mitm_proxy.Refactor.Hosts.{is_web_socket_request}
use mitm_proxy.Refactor.Client.{new_client_conn}
use mitm_proxy.Refactor.Options.{Settings, defaults}
use mitm_proxy.Refactor.Requests.Answers.{handle_each}
use mitm_proxy.Refactor.Serve.{Serving, serve}
use mitm_proxy.Refactor.Serve.Order.{serve_plain}
use mitm_proxy.Examples.FakeNet.{FakeNet, fake}
use mitm_proxy.Examples.Requests.{plain_codec, proxy, from_here, copied, client, two}
use mitm_proxy.Examples.Signing.{paper, root, willing}

abbrev ethernet : Interface
ethernet = record { is_up = true; is_loopback = false; addrs = ok (ipv4 (bytes "10.0.0.2") ∷ []) }

abbrev configured : Settings ℕ ℕ Bytes
configured = record (defaults {C = ℕ} {L = ℕ} {W = Bytes}) {
  ca = some 7;
  logger = some 0;
  idle_timeout = 5;
  local_ips = bytes "127.0.0.1" ∷ bytes "localhost" ∷ bytes "10.0.0.2" ∷ [];
}

abbrev serving : Serving FakeNet Bytes Bytes Bytes ℕ ℕ
serving = record { client = client; conn = new_client_conn; ca = root; random = 3 }

serve_plain_example :
    serve fake buffer plain_codec plain_codec from_here copied paper willing proxy
      (map (λ req. ok req) two ++ (err eof ∷ []))
      serving
    ≡ record serving {
      client = handle_each fake buffer plain_codec plain_codec from_here copied proxy two client;
    }
unfolding is_web_socket_request bytes bytes_eq contains to_lower equal_fold get
serve_plain_example =
    serve_plain fake buffer plain_codec plain_codec from_here copied paper willing proxy two [] eof
      serving ((refl, refl), ((refl, refl), tt)) refl
