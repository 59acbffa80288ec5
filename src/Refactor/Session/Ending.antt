-- ===== src/Refactor/Session/Ending.antt =====
-- A session from its first request to its close.
use mitm_proxy.Base.{ℕ, ◌+◌, ◌-◌, ◌≡◌, List, [], ◌∷◌, arith}
use mitm_proxy.Http.Message.{Request}
use mitm_proxy.Net.Upstream.{Upstream, Lifetimes, count}
use mitm_proxy.Refactor.Proxy.{Proxy}
use mitm_proxy.Refactor.Server.{close}
use mitm_proxy.Refactor.Session.{Servers, Session, forward, close_each, close_session, forward_each}
use mitm_proxy.Refactor.Session.Servers.{Distinct, raws}
use mitm_proxy.Refactor.Session.Upkeep.{alive, alive-close, Balanced}
use mitm_proxy.Refactor.Session.Forward.{forward-Balanced}

module _ {N : Type 0} (up : Upstream N) (proxy_func : Request → Proxy) (laws : Lifetimes up)
    (k : ℕ) where
  alive-close_each :
      (m : Servers) (n : N)
      → alive up laws k (close_each up m n) ≡ alive up laws k n - count k (raws m)
  unfolding close_each raws count
  alive-close_each [] n = omega arith
  alive-close_each ((host, srv) ∷ m) n =
      omega (arith, alive-close_each m (close up srv n), alive-close up laws k srv n)

  forward_each-Balanced :
      (base : ℕ) (reqs : List Request) (s : Session N)
      → Balanced up laws k base s
      → Balanced up laws k base (forward_each up proxy_func reqs s)
  unfolding forward_each
  forward_each-Balanced base [] s b = b
  forward_each-Balanced base (req ∷ reqs) s b =
      forward_each-Balanced base reqs (forward up proxy_func req (record s { body = req.body })).1
        (forward-Balanced up req proxy_func laws k base (record s { body = req.body }) b)

  none_held : (n : ℕ) (m : Servers) → m ≡ [] → Distinct m × (n ≡ n + count k (raws m))
  unfolding raws count
  none_held n m e = rw e (tt, omega arith)

  -- A session leaks no connection and closes none that is not its own: behind any requests that are
  -- forwarded one after the other, with retries, failed handshakes and all, and the close of the
  -- session, each connection is open as often as it was before.
  pub alive-close_session :
      (reqs : List Request) (s : Session N)
      → s.servers ≡ []
      → alive up laws k (close_session up (forward_each up proxy_func reqs s)).net
        ≡ alive up laws k s.net
  unfolding close_session
  alive-close_session reqs s fresh =
      let t = forward_each up proxy_func reqs s in
      let (d, b) =
        forward_each-Balanced (alive up laws k s.net) reqs s
          (none_held (alive up laws k s.net) s.servers fresh) in
      omega (arith, alive-close_each t.servers t.net, b)
