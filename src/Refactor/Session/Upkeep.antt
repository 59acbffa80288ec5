-- ===== src/Refactor/Session/Upkeep.antt =====
-- Every connection that a session opens stands in its table or is closed again.
use mitm_proxy.Base.{
  ℕ, ◌+◌, ◌-◌, ◌≡◌, refl, ◌∙◌, ap, false, Option, none, some, arith, Bool-cases, Option-cases, inl,
  inr,
}
use mitm_proxy.Text.{Bytes, bytes}
use mitm_proxy.Http.Error.{GoError, Result, ok, err}
use mitm_proxy.Http.Message.{Request, Response}
use mitm_proxy.Net.Upstream.{Upstream, Lifetimes, count}
use mitm_proxy.Refactor.Proxy.{Proxy, is_direct}
use mitm_proxy.Refactor.Server.{
  ServerConn, link, close, with_port, connect_request, connect_result, connect_sent,
  connect_via_proxy, connected, dialled, dial_server, handshaken, upgrade_tls,
}
use mitm_proxy.Refactor.Session.{
  Session, lookup, keep, upgraded, opened, get_server, remove_server, write_request, read_response,
  wants_tls,
}
use mitm_proxy.Refactor.Session.Servers.{
  Distinct, raws, one_if, put-Distinct, delete-Distinct, count-put, count-delete, delete_absent,
}

module _ {N : Type 0} (up : Upstream N) (laws : Lifetimes up) (k : ℕ) where
  -- How often a connection is open.
  abbrev pub alive : N → ℕ
  alive n = count k (laws.live n)

  -- A dial opens the connection that it returns, and none if it fails.
  abbrev Opens : ℕ → Result ServerConn × N → Type 0
  Opens before (ok s, n) = alive n ≡ before + one_if s.raw k
  Opens before (err e, n) = alive n ≡ before

  pub alive-close : (s : ServerConn) (n : N) → alive (close up s n) ≡ alive n - one_if s.raw k
  unfolding close
  alive-close s n = laws.live-close n (link s) k

  alive-connect_result : (r : Result Response × N) → (connect_result up r).1 ≡ r.1
  unfolding connect_result
  alive-connect_result (ok resp, n) = refl
  alive-connect_result (err e, n) = refl

  alive-connect_sent :
      (s : ServerConn) (r : Option GoError × N) → alive (connect_sent up s r).1 ≡ alive r.1
  unfolding connect_sent
  alive-connect_sent s (some e, n) = refl
  alive-connect_sent s (none, n) =
      ap alive (alive-connect_result (up.receive n (link s)))
      ∙ ap (count k) (laws.live-receive n (link s))

  alive-connect_via_proxy :
      (s : ServerConn) (target : Bytes) (proxy : Proxy) (n : N)
      → alive (connect_via_proxy up s target proxy n).1 ≡ alive n
  unfolding connect_via_proxy
  alive-connect_via_proxy s target proxy n =
      alive-connect_sent s
        (up.send n (link s) (connect_request (with_port target (bytes ":443")) proxy))
      ∙ ap (count k) (laws.live-send n (link s) _)

  connected-Opens :
      (s : ServerConn) (before : ℕ) (r : Option GoError × N)
      → alive r.1 ≡ before + one_if s.raw k
      → Opens before (connected up s r)
  unfolding connected
  connected-Opens s before (none, n) h = h
  connected-Opens s before (some e, n) h = omega (arith, alive-close s n)

  dialled-Opens :
      (target addr dial_addr : Bytes) (proxy : Proxy) (n : N) (r : Result ℕ × N)
      → up.dial n dial_addr ≡ r
      → Opens (alive n) (dialled up target addr dial_addr proxy r)
  unfolding dialled
  dialled-Opens target addr dial_addr proxy n (err e, n') h =
      ap (count k) (laws.live-dial_err n n' dial_addr e h)
  dialled-Opens target addr dial_addr proxy n (ok c, n') h =
      let s : ServerConn = record { raw = c; is_tls = false; host = target } in
      let grown = laws.live-dial_ok n n' dial_addr c k h in
      elim (Bool-cases (is_direct proxy)) [
        | inl e ↦ rw e grown
        | inr e ↦ rw e (
            connected-Opens s (alive n) (connect_via_proxy up s addr proxy n')
              (alive-connect_via_proxy s addr proxy n' ∙ grown))
      ]

  dial_server-Opens :
      (target : Bytes) (proxy : Proxy) (n : N) → Opens (alive n) (dial_server up target proxy n)
  unfolding dial_server
  dial_server-Opens target proxy n = dialled-Opens target _ _ proxy n _ refl

  -- The handshake opens and closes nothing.
  abbrev Upgrades : ServerConn → ℕ → Result ServerConn × N → Type 0
  Upgrades srv before (ok srv', n) = (alive n ≡ before) × (srv'.raw ≡ srv.raw)
  Upgrades srv before (err e, n) = alive n ≡ before

  handshaken-Upgrades :
      (srv : ServerConn) (before : ℕ) (r : Option GoError × N)
      → alive r.1 ≡ before
      → Upgrades srv before (handshaken up srv r)
  unfolding handshaken
  handshaken-Upgrades srv before (none, n) h = (h, refl)
  handshaken-Upgrades srv before (some e, n) h = h

  upgrade_tls-Upgrades :
      (srv : ServerConn) (target : Bytes) (n : N)
      → Upgrades srv (alive n) (upgrade_tls up srv target n)
  unfolding upgrade_tls
  upgrade_tls-Upgrades srv target n =
      handshaken-Upgrades srv (alive n) _ (ap (count k) (laws.live-handshake n _ _))

  module _ (base : ℕ) where
    -- The connection is open as often as the table holds it, besides its other uses.
    abbrev pub Balanced : Session N → Type 0
    Balanced s = Distinct s.servers × (alive s.net ≡ base + count k (raws s.servers))

    upgraded-Balanced :
        (key : Bytes) (srv : ServerConn) (s : Session N) (before : ℕ) (r : Result ServerConn × N)
        → lookup key s.servers ≡ none
        → Distinct s.servers
        → before ≡ base + count k (raws s.servers) + one_if srv.raw k
        → Upgrades srv before r
        → Balanced (upgraded up key srv s r).1
    unfolding upgraded keep
    upgraded-Balanced key srv s before (ok srv', n) free d h (g, same) = (
      put-Distinct key srv' s.servers d,
      omega (arith, count-put k key srv' s.servers free, ap (λ c. one_if c k) same),
    )
    upgraded-Balanced key srv s before (err e, n) free d h g = (d, omega (arith, alive-close srv n))

    opened-Balanced :
        (req : Request) (target : Bytes) (s : Session N) (r : Result ServerConn × N)
        → lookup req.host s.servers ≡ none
        → Balanced s
        → Opens (alive s.net) r
        → Balanced (opened up req target s r).1
    unfolding opened keep
    opened-Balanced req target s (err e, n) free (d, b) h = (d, omega arith)
    opened-Balanced req target s (ok srv, n) free (d, b) h =
        elim (Bool-cases (wants_tls req s.client_tls)) [
          | inl e ↦ rw e (
              upgraded-Balanced req.host srv s (alive n) (upgrade_tls up srv target n) free d
                (omega arith) (upgrade_tls-Upgrades srv target n))
          | inr e ↦ rw e (
            put-Distinct req.host srv s.servers d,
            omega (arith, count-put k req.host srv s.servers free),
          )
        ]

    pub get_server-Balanced :
        (req : Request) (proxy : Proxy) (s : Session N)
        → Balanced s
        → Balanced (get_server up req proxy s).1
    unfolding get_server
    get_server-Balanced req proxy s b = elim (Option-cases (lookup req.host s.servers)) [
      | inl e ↦ rw (e, get_server) (opened-Balanced req _ s _ e b (dial_server-Opens _ proxy s.net))
      | inr (srv, e) ↦ rw (e, get_server) b
    ]

    pub remove_server-Balanced :
        (host : Bytes) (s : Session N) → Balanced s → Balanced (remove_server up host s)
    unfolding remove_server
    remove_server-Balanced host s (d, b) = elim (Option-cases (lookup host s.servers)) [
      | inl e ↦ rw (e, remove_server) (rw (delete_absent host s.servers e) (d, b))
      | inr (srv, e) ↦
          rw (e, remove_server)
            (
              delete-Distinct host s.servers d,
              omega (arith, alive-close srv s.net, count-delete k host srv s.servers d e),
            )
    ]

    pub write_request-Balanced :
        (req : Request) (srv : ServerConn) (s : Session N)
        → Balanced s
        → Balanced (write_request up req srv s).1
    unfolding write_request
    write_request-Balanced req srv s (d, b) = (
      d,
      ap (count k) (laws.live-send_request s.net (link srv) (record req { body = s.body })) ∙ b,
    )

    pub read_response-Balanced :
        (srv : ServerConn) (s : Session N) → Balanced s → Balanced (read_response up srv s).1
    unfolding read_response
    read_response-Balanced srv s (d, b) = (d, ap (count k) (laws.live-receive s.net (link srv)) ∙ b)
