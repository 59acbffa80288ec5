-- ===== src/Core/Connector/Targets.antt =====
-- What a failed TLS handshake leaves for the next request to the same target.
use mitm_proxy.Base.{◌≡◌, ◌≢◌, refl, true, false, Option, none, some, Bool-cases, inl, inr}
use mitm_proxy.Text.{before}
use mitm_proxy.Text.Table.{find, find-store_self}
use mitm_proxy.Http.Error.{GoError, ok}
use mitm_proxy.Net.Upstream.{Upstream}
use mitm_proxy.Core.Connector.{
  Server, Connector, MyRequest, tls_addr, is_server_tls, through_proxy, handshaken, after_proxy,
  upgrade_server_2_tls, ensure_tls, connect_server,
}

module _ {N : Type 0} (up : Upstream N) (request : MyRequest) where
  abbrev pub marked : Server → Server
  marked srv = record srv { is_tls = true }

  find-after_proxy :
      (srv : Server) (c : Connector N) (n : N)
      → find request.raw.host (after_proxy up request srv c (none, n)).1.server ≡ some (marked srv)
  unfolding after_proxy
  find-after_proxy srv c n = find-store_self request.raw.host (marked srv) c.server

  handshaken-fails :
      (srv : Server) (e : GoError) (r : Option GoError × N)
      → r.0 ≡ some e
      → (handshaken up srv r).0 ≢ none
  unfolding handshaken
  handshaken-fails srv e (none, n) h = cc
  handshaken-fails srv e (some f, n) h = λ k. cc

  after_proxy-fails :
      (srv : Server) (c : Connector N) (n : N) (e : GoError)
      → (up.handshake n
          (record { raw = srv.raw; is_tls = false })
          (before b':' (tls_addr request.raw.host))).0
        ≡ some e
      → (after_proxy up request srv c (none, n)).0 ≢ none
  unfolding after_proxy
  after_proxy-fails srv c n e h = handshaken-fails srv e _ h

  ensure_tls-marked :
      (srv : Server) (c : Connector N) → ensure_tls up request (marked srv) c ≡ (ok (marked srv), c)
  unfolding ensure_tls
  ensure_tls-marked srv c = elim (Bool-cases (is_server_tls request.raw c.client_tls)) [
    | inl e ↦ rw e refl
    | inr e ↦ rw e refl
  ]

  connect_server-found :
      (srv : Server) (c : Connector N)
      → find request.raw.host c.server ≡ some (marked srv)
      → connect_server up request false c ≡ (ok (marked srv), c)
  unfolding connect_server
  connect_server-found srv c h = rw (h, connect_server) (ensure_tls-marked srv c)

  -- Where the TLS handshake with a target fails, the upgrade returns an error, but the next request
  -- to the target is given the same connection as a TLS connection, with no other handshake and
  -- nothing else done on the network.
  pub connect_server_unshaken :
      (srv : Server) (c : Connector N) (n : N) (e : GoError)
      → through_proxy up request srv c.net ≡ (none, n)
      → (up.handshake n
          (record { raw = srv.raw; is_tls = false })
          (before b':' (tls_addr request.raw.host))).0
        ≡ some e
      → let (fault, after) = upgrade_server_2_tls up request srv c in
        (fault ≢ none) × (connect_server up request false after ≡ (ok (marked srv), after))
  unfolding upgrade_server_2_tls
  connect_server_unshaken srv c n e proxied failed =
      rw (proxied, upgrade_server_2_tls)
        (after_proxy-fails srv c n e failed, connect_server-found srv _ (find-after_proxy srv c n))
