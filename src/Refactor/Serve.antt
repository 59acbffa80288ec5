-- ===== src/Refactor/Serve.antt =====
-- core_refactor/mitm.go: the loop over the requests of one client.
pub mod Order
use mitm_proxy.Base.{Bool, true, false, List, [], ◌∷◌, Option, none, some, if◌then◌else◌}
use mitm_proxy.Text.{Bytes, bytes, bytes_eq}
use mitm_proxy.Http.Error.{GoError, Result, ok, err}
use mitm_proxy.Http.Message.{Request, Response, Codec}
use mitm_proxy.Http.Writer.{Writer}
use mitm_proxy.Net.Certificates.{CertLib}
use mitm_proxy.Net.Upstream.{Upstream}
use mitm_proxy.Refactor.Ca.{Ca}
use mitm_proxy.Refactor.Client.{ClientConn, RawConn, Upgraded, upgrade_tls}
use mitm_proxy.Refactor.Hosts.{is_web_socket_request}
use mitm_proxy.Refactor.Requests.{Mitm, Job, Client, handle_request}

-- The client with its session, its connection, and the root that certificates are signed with.
pub record Serving (N W Cert Key Priv R : Type 0) : Type 0 where
  pub client : Client N W
  pub conn : ClientConn Priv
  pub ca : Ca Cert Key Priv
  pub random : R

module _ {N W Cert Key Priv R : Type 0} (up : Upstream N) (out : Writer W) (gzip zlib : Codec)
    (loopback : Bytes → Option Bool) (write_response : Response → Job W)
    (lib : CertLib Cert Key Priv R) (raw : RawConn Priv W) (m : Mitm W) where
  -- What an upgrade returns, put into the state; the flag is whether the loop goes on.
  unfoldable pub connected :
      Serving N W Cert Key Priv R → Upgraded lib raw → Bool × Serving N W Cert Key Priv R
  connected s (fault, conn, ca, r, w) = (
    elim fault [ none ↦ true | some e ↦ false ],
    record {
      client = record s.client {
        writer = w;
        session = record s.client.session { client_tls = conn.is_tls };
      };
      conn = conn;
      ca = ca;
      random = r;
    },
  )

  -- One round of the loop for a request that was read.
  unfoldable pub round : Request → Serving N W Cert Key Priv R → Bool × Serving N W Cert Key Priv R
  round req s =
      if bytes_eq req.method (bytes "CONNECT")
      then connected s (upgrade_tls lib raw s.conn s.ca s.random s.client.writer req.host)
      else (
        if is_web_socket_request req then false else true,
        record s {
          client =
              handle_request up out gzip zlib loopback write_response m req
                (is_web_socket_request req) s.client;
        },
      )

  -- What the reads from the client return, in order. The loop ends at a cancellation, at an error,
  -- at an upgrade that fails and behind a WebSocket request.
  unfoldable pub serve :
      List (Result Request) → Serving N W Cert Key Priv R → Serving N W Cert Key Priv R
  serve [] s = s
  serve (err e ∷ reads) s = s
  serve (ok req ∷ reads) s =
      let (more, s') = round req s in
      let rest = serve reads s' in if s.client.cancelled then s else if more then rest else s'
