-- ===== src/Refactor/Session/Forward.antt =====
-- `forward` as a whole: what it keeps, and how it leaves the table of connections.
use mitm_proxy.Base.{ℕ, ◌≡◌, refl, Option, none, some, Bool-cases, Option-cases, inl, inr}
use mitm_proxy.Text.{Bytes, bytes_eq_refl}
use mitm_proxy.Http.Error.{GoError, Result, ok, err}
use mitm_proxy.Http.Message.{Request, Response}
use mitm_proxy.Net.Upstream.{Upstream, Lifetimes}
use mitm_proxy.Refactor.Proxy.{Proxy}
use mitm_proxy.Refactor.Server.{ServerConn, upgrade_tls}
use mitm_proxy.Refactor.Session.{
  Session, lookup, wants_tls, keep, upgraded, opened, get_server, remove_server, write_request,
  read_response, or_drop, exchange, retry_on, read_again, rewritten, write_again, first_written,
  first_server, forward,
}
use mitm_proxy.Refactor.Session.Servers.{lookup-put, lookup-delete_self}
use mitm_proxy.Refactor.Session.Upkeep.{
  Balanced, get_server-Balanced, remove_server-Balanced, write_request-Balanced,
  read_response-Balanced,
}

module _ {N : Type 0} (up : Upstream N) (req : Request) (proxy_func : Request → Proxy) where
  -- Whatever the four operations keep, `forward` keeps on every path.
  module _ {ℓ} (P : Session N → Type ℓ)
      (got : (s : Session N) → P s → P (get_server up req (proxy_func req) s).1)
      (removed : (s : Session N) → P s → P (remove_server up req.host s))
      (wrote : (srv : ServerConn) (s : Session N) → P s → P (write_request up req srv s).1)
      (read : (srv : ServerConn) (s : Session N) → P s → P (read_response up srv s).1) where
    or_drop-keeps : (r : Result Response × Session N) → P r.1 → P (or_drop up req r).1
    unfolding or_drop
    or_drop-keeps (ok resp, s) h = h
    or_drop-keeps (err e, s) h = removed s h

    exchange-keeps :
        (srv : ServerConn) (r : Option GoError × Session N) → P r.1 → P (exchange up req srv r).1
    unfolding exchange
    exchange-keeps srv (some e, s) h = h
    exchange-keeps srv (none, s) h = read srv s h

    retry_on-keeps : (r : Result ServerConn × Session N) → P r.1 → P (retry_on up req r).1
    unfolding retry_on
    retry_on-keeps (err e, s) h = h
    retry_on-keeps (ok srv, s) h = or_drop-keeps _ (exchange-keeps srv _ (wrote srv s h))

    read_again-keeps :
        (r : Result Response × Session N) → P r.1 → P (read_again up req (proxy_func req) r).1
    unfolding read_again
    read_again-keeps (ok resp, s) h = h
    read_again-keeps (err e, s) h = retry_on-keeps _ (got _ (removed s h))

    rewritten-keeps :
        (srv : ServerConn) (r : Option GoError × Session N)
        → P r.1
        → P (rewritten up req (proxy_func req) srv r).1
    unfolding rewritten
    rewritten-keeps srv (some e, s) h = removed s h
    rewritten-keeps srv (none, s) h = read_again-keeps _ (read srv s h)

    write_again-keeps :
        (r : Result ServerConn × Session N) → P r.1 → P (write_again up req (proxy_func req) r).1
    unfolding write_again
    write_again-keeps (err e, s) h = h
    write_again-keeps (ok srv, s) h = rewritten-keeps srv _ (wrote srv s h)

    first_written-keeps :
        (srv : ServerConn) (r : Option GoError × Session N)
        → P r.1
        → P (first_written up req (proxy_func req) srv r).1
    unfolding first_written
    first_written-keeps srv (some e, s) h = write_again-keeps _ (got _ (removed s h))
    first_written-keeps srv (none, s) h = read_again-keeps _ (read srv s h)

    first_server-keeps :
        (r : Result ServerConn × Session N) → P r.1 → P (first_server up req (proxy_func req) r).1
    unfolding first_server
    first_server-keeps (err e, s) h = h
    first_server-keeps (ok srv, s) h = first_written-keeps srv _ (wrote srv s h)

    pub forward-keeps : (s : Session N) → P s → P (forward up proxy_func req s).1
    unfolding forward
    forward-keeps s h = first_server-keeps _ (got s h)

  -- No path of `forward` leaks a connection or closes one twice: if, besides `base` other uses, each
  -- connection was open as often as the table held it, then so it is behind `forward`, and the
  -- table still has one entry for a host.
  pub forward-Balanced :
      (laws : Lifetimes up) (k base : ℕ) (s : Session N)
      → Balanced up laws k base s
      → Balanced up laws k base (forward up proxy_func req s).1
  forward-Balanced laws k base =
      forward-keeps (Balanced up laws k base)
        (get_server-Balanced up laws k base req (proxy_func req))
        (remove_server-Balanced up laws k base req.host) (write_request-Balanced up laws k base req)
        (read_response-Balanced up laws k base)

-- The entry of a host behind an operation: there with a result, gone with an error.
abbrev pub Settled : {N A : Type 0} → Bytes → Result A × Session N → Type 0
Settled host (ok a, s) = (srv : ServerConn) × (lookup host s.servers ≡ some srv)
Settled host (err e, s) = lookup host s.servers ≡ none

module _ {N : Type 0} (up : Upstream N) (req : Request) where
  abbrev Found : Result ServerConn × Session N → Type 0
  Found (ok srv, s) = lookup req.host s.servers ≡ some srv
  Found (err e, s) = lookup req.host s.servers ≡ none

  keep-Found : (srv : ServerConn) (s : Session N) → Found (keep up req.host srv s)
  unfolding keep
  keep-Found srv s = rw (lookup-put req.host req.host srv s.servers, bytes_eq_refl req.host)

  upgraded-Found :
      (srv : ServerConn) (s : Session N) (r : Result ServerConn × N)
      → lookup req.host s.servers ≡ none
      → Found (upgraded up req.host srv s r)
  unfolding upgraded
  upgraded-Found srv s (ok srv', n) h = keep-Found srv' (record s { net = n })
  upgraded-Found srv s (err e, n) h = h

  opened-Found :
      (target : Bytes) (s : Session N) (r : Result ServerConn × N)
      → lookup req.host s.servers ≡ none
      → Found (opened up req target s r)
  unfolding opened
  opened-Found target s (err e, n) h = h
  opened-Found target s (ok srv, n) h = elim (Bool-cases (wants_tls req s.client_tls)) [
    | inl e ↦ rw e (upgraded-Found srv s (upgrade_tls up srv target n) h)
    | inr e ↦ rw e (keep-Found srv (record s { net = n }))
  ]

  get_server-Found : (proxy : Proxy) (s : Session N) → Found (get_server up req proxy s)
  unfolding get_server
  get_server-Found proxy s = elim (Option-cases (lookup req.host s.servers)) [
    | inl e ↦ rw (e, get_server) (opened-Found _ s _ e)
    | inr (srv, e) ↦ rw (e, get_server) e
  ]

  remove_server-Gone :
      (s : Session N) → lookup req.host (remove_server up req.host s).servers ≡ none
  unfolding remove_server
  remove_server-Gone s = elim (Option-cases (lookup req.host s.servers)) [
    | inl e ↦ rw (e, remove_server) (lookup-delete_self req.host s.servers)
    | inr (srv, e) ↦ rw (e, remove_server) (lookup-delete_self req.host s.servers)
  ]

  or_drop-Settled :
      (srv : ServerConn) (r : Result Response × Session N)
      → lookup req.host r.1.servers ≡ some srv
      → Settled req.host (or_drop up req r)
  unfolding or_drop
  or_drop-Settled srv (ok resp, s) h = (srv, h)
  or_drop-Settled srv (err e, s) h = remove_server-Gone s

  exchange-servers :
      (srv : ServerConn) (r : Option GoError × Session N)
      → (exchange up req srv r).1.servers ≡ r.1.servers
  unfolding exchange read_response
  exchange-servers srv (some e, s) = refl
  exchange-servers srv (none, s) = refl

  retry_on-Settled :
      (r : Result ServerConn × Session N) → Found r → Settled req.host (retry_on up req r)
  unfolding retry_on write_request
  retry_on-Settled (err e, s) h = h
  retry_on-Settled (ok srv, s) h =
      or_drop-Settled srv (exchange up req srv _) (rw (exchange-servers srv _) h)

  module _ (proxy : Proxy) where
    read_again-Settled :
        (srv : ServerConn) (r : Result Response × Session N)
        → lookup req.host r.1.servers ≡ some srv
        → Settled req.host (read_again up req proxy r)
    unfolding read_again
    read_again-Settled srv (ok resp, s) h = (srv, h)
    read_again-Settled srv (err e, s) h = retry_on-Settled _ (get_server-Found proxy _)

    rewritten-Settled :
        (srv : ServerConn) (r : Option GoError × Session N)
        → lookup req.host r.1.servers ≡ some srv
        → Settled req.host (rewritten up req proxy srv r)
    unfolding rewritten read_response
    rewritten-Settled srv (some e, s) h = remove_server-Gone s
    rewritten-Settled srv (none, s) h = read_again-Settled srv _ h

    write_again-Settled :
        (r : Result ServerConn × Session N)
        → Found r
        → Settled req.host (write_again up req proxy r)
    unfolding write_again write_request
    write_again-Settled (err e, s) h = h
    write_again-Settled (ok srv, s) h = rewritten-Settled srv _ h

    first_written-Settled :
        (srv : ServerConn) (r : Option GoError × Session N)
        → lookup req.host r.1.servers ≡ some srv
        → Settled req.host (first_written up req proxy srv r)
    unfolding first_written read_response
    first_written-Settled srv (some e, s) h = write_again-Settled _ (get_server-Found proxy _)
    first_written-Settled srv (none, s) h = read_again-Settled srv _ h

    first_server-Settled :
        (r : Result ServerConn × Session N)
        → Found r
        → Settled req.host (first_server up req proxy r)
    unfolding first_server write_request
    first_server-Settled (err e, s) h = h
    first_server-Settled (ok srv, s) h = first_written-Settled srv _ h

  -- `forward` leaves a connection for the host in the table exactly when it returns a response: no
  -- broken connection is reused for the next request.
  pub forward-Settled :
      (proxy_func : Request → Proxy) (s : Session N)
      → Settled req.host (forward up proxy_func req s)
  unfolding forward
  forward-Settled proxy_func s =
      first_server-Settled (proxy_func req) _ (get_server-Found (proxy_func req) s)
