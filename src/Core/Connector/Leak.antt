-- ===== src/Core/Connector/Leak.antt =====
-- What a retry does to the connection that it replaces.
use mitm_proxy.Base.{
  ℕ, ◌+◌, ◌≡◌, refl, ap, ◌∙◌, true, false, not, ◌&&◌, List, [], ◌∷◌, Option, none, some, arith,
  ◌==◌, if◌then◌else◌, Bool-cases, inl, inr,
}
use mitm_proxy.Text.{Bytes, is_empty, bytes_eq_iff}
use mitm_proxy.Text.Table.{Table, find, store, find-store_self}
use mitm_proxy.Http.Error.{GoError, Result, ok, err}
use mitm_proxy.Http.Message.{Response}
use mitm_proxy.Net.Upstream.{Upstream, Lifetimes, count}
use mitm_proxy.Core.Connector.{
  Server, Connector, MyRequest, target_of, link, is_server_tls, connect_answer, connect_sent,
  through_proxy, handshaken, after_proxy, upgrade_server_2_tls, upgraded, ensure_tls, created,
  create_conn, connect_server,
}

unfoldable pub raws : Table Server → List ℕ
raws [] = []
raws ((k, s) ∷ m) = s.raw ∷ raws m

abbrev pub one_if : ℕ → ℕ → ℕ
one_if c k = if c == k then 1 else 0

count-store :
    (c : ℕ) (k : Bytes) (old new : Server) (m : Table Server)
    → find k m ≡ some old
    → count c (raws (store k new m)) + one_if old.raw c ≡ count c (raws m) + one_if new.raw c
unfolding count raws find store
count-store c k old new [] h = cc
count-store c k old new ((i, t) ∷ m) h = ground (arith, bytes_eq_iff i k, count-store c k old new m)

module _ {N : Type 0} (up : Upstream N) (laws : Lifetimes up) (k : ℕ) (request : MyRequest) where
  abbrev alive : N → ℕ
  alive n = count k (laws.live n)

  abbrev pub held : Connector N → ℕ
  held c = count k (raws c.server)

  alive-connect_answer : (r : Result Response × N) → alive (connect_answer up r).1 ≡ alive r.1
  unfolding connect_answer
  alive-connect_answer (ok resp, n) = refl
  alive-connect_answer (err e, n) = refl

  alive-connect_sent :
      (srv : Server) (r : Option GoError × N) → alive (connect_sent up srv r).1 ≡ alive r.1
  unfolding connect_sent
  alive-connect_sent srv (some e, n) = refl
  alive-connect_sent srv (none, n) =
      alive-connect_answer (up.receive n (link srv)) ∙ ap (count k) (laws.live-receive n (link srv))

  alive-through_proxy : (srv : Server) (n : N) → alive (through_proxy up request srv n).1 ≡ alive n
  unfolding through_proxy
  alive-through_proxy srv n = elim (Bool-cases (is_empty request.proxy.addr)) [
    | inl e ↦ rw e refl
    | inr e ↦ rw e (alive-connect_sent srv _ ∙ ap (count k) (laws.live-send n _ _))
  ]

  alive-handshaken : (srv : Server) (r : Option GoError × N) → (handshaken up srv r).1 ≡ r.1
  unfolding handshaken
  alive-handshaken srv (none, n) = refl
  alive-handshaken srv (some e, n) = refl

  -- The upgrade opens and closes nothing, and keeps the table's connections.
  abbrev Same : Connector N → Connector N → Type 0
  Same c c' = (alive c'.net ≡ alive c.net) × (held c' ≡ held c)

  after_proxy-Same :
      (srv : Server) (c : Connector N) (r : Option GoError × N)
      → find request.raw.host c.server ≡ some srv
      → alive r.1 ≡ alive c.net
      → Same c (after_proxy up request srv c r).1
  unfolding after_proxy
  after_proxy-Same srv c (some e, n) found h = (h, refl)
  after_proxy-Same srv c (none, n) found h = (
    ap alive (alive-handshaken srv _) ∙ ap (count k) (laws.live-handshake n _ _) ∙ h,
    omega (arith, count-store k request.raw.host srv (record srv { is_tls = true }) c.server found),
  )

  upgraded-Same :
      (srv : Server) (c : Connector N) (r : Option GoError × Connector N)
      → Same c r.1
      → Same c (upgraded up srv r).1
  unfolding upgraded
  upgraded-Same srv c (some e, c') h = h
  upgraded-Same srv c (none, c') h = h

  ensure_tls-Same :
      (srv : Server) (c : Connector N)
      → find request.raw.host c.server ≡ some srv
      → Same c (ensure_tls up request srv c).1
  unfolding ensure_tls upgrade_server_2_tls
  ensure_tls-Same srv c found =
      elim (Bool-cases (is_server_tls request.raw c.client_tls && not srv.is_tls)) [
        | inl e ↦
            rw e (
              upgraded-Same srv c _
                (after_proxy-Same srv c _ found (alive-through_proxy srv c.net)))
        | inr e ↦ rw e (refl, refl)
      ]

  -- The connector behind the dial of a retry.
  abbrev redialled : Connector N → N → ℕ → Connector N
  redialled c n raw = record c {
    server = store request.raw.host (record { raw = raw; is_tls = false }) c.server;
    net = n;
  }

  connect_server_retried :
      (c : Connector N) (n : N) (old : Server) (raw : ℕ)
      → find request.raw.host c.server ≡ some old
      → up.dial c.net (target_of request c.client_tls) ≡ (ok raw, n)
      → connect_server up request true c
        ≡ ensure_tls up request (record { raw = raw; is_tls = false }) (redialled c n raw)
  unfolding connect_server create_conn created
  connect_server_retried c n old raw found dialled =
      rw (found, connect_server) (rw (dialled, create_conn, created) refl)

  -- A retry that can dial takes the old connection out of the table and leaves it open: behind it
  -- one more connection is open than the table has gained, and that is the replaced one.
  pub connect_server_leaks :
      (c : Connector N) (n : N) (old : Server) (raw : ℕ)
      → find request.raw.host c.server ≡ some old
      → up.dial c.net (target_of request c.client_tls) ≡ (ok raw, n)
      → let after = (connect_server up request true c).1 in
        alive after.net + held c ≡ alive c.net + held after + one_if old.raw k
  connect_server_leaks c n old raw found dialled =
      let new : Server = record { raw = raw; is_tls = false } in
      let (a, b) =
        ensure_tls-Same new (redialled c n raw) (find-store_self request.raw.host new c.server) in
      rw (connect_server_retried c n old raw found dialled) (
        omega (
          arith,
          a,
          b,
          count-store k request.raw.host old new c.server found,
          laws.live-dial_ok c.net n (target_of request c.client_tls) raw k dialled,
        ))
