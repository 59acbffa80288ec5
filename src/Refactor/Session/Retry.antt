-- ===== src/Refactor/Session/Retry.antt =====
-- The retry of a request with a body, and the connections of other hosts.
use mitm_proxy.Base.{
  ℕ, ◌<◌, ◌≡◌, refl, ◌∙◌, ap, false, [], Option, none, some, arith, Bool-cases, Option-cases, inl,
  inr, length,
}
use mitm_proxy.Text.{Bytes, bytes_eq}
use mitm_proxy.Http.Error.{GoError, Result, ok, err}
use mitm_proxy.Http.Message.{Request, Response}
use mitm_proxy.Net.Upstream.{Upstream, BodyRules}
use mitm_proxy.Refactor.Proxy.{Proxy}
use mitm_proxy.Refactor.Server.{ServerConn, upgrade_tls, link}
use mitm_proxy.Refactor.Session.{
  Session, lookup, put, wants_tls, keep, upgraded, opened, get_server, remove_server, write_request,
  read_response, or_drop, exchange, retry_on, read_again, first_written, first_server, forward,
}
use mitm_proxy.Refactor.Session.Servers.{lookup-put, lookup-delete}
use mitm_proxy.Refactor.Session.Forward.{forward-keeps}

-- What a change of the network, and of the request's own entry, leaves alone.
module _ {N : Type 0} {V : Type 0} (up : Upstream N) (req : Request) (view : Session N → V)
    (net_free : (s : Session N) (n : N) → view (record s { net = n }) ≡ view s)
    (put_free : (s : Session N) (srv : ServerConn)
      → view (record s { servers = put req.host srv s.servers }) ≡ view s) where
  view-upgraded :
      (srv : ServerConn) (s : Session N) (r : Result ServerConn × N)
      → view (upgraded up req.host srv s r).1 ≡ view s
  unfolding upgraded keep
  view-upgraded srv s (ok srv', n) = put_free (record s { net = n }) srv' ∙ net_free s n
  view-upgraded srv s (err e, n) = net_free s _

  view-opened :
      (target : Bytes) (s : Session N) (r : Result ServerConn × N)
      → view (opened up req target s r).1 ≡ view s
  unfolding opened keep
  view-opened target s (err e, n) = net_free s n
  view-opened target s (ok srv, n) = elim (Bool-cases (wants_tls req s.client_tls)) [
    | inl e ↦ rw e (view-upgraded srv s (upgrade_tls up srv target n))
    | inr e ↦ rw e (put_free (record s { net = n }) srv ∙ net_free s n)
  ]

  view-get_server : (proxy : Proxy) (s : Session N) → view (get_server up req proxy s).1 ≡ view s
  unfolding get_server
  view-get_server proxy s = elim (Option-cases (lookup req.host s.servers)) [
    | inl e ↦ rw (e, get_server) (view-opened _ s _)
    | inr (srv, e) ↦ rw (e, get_server) refl
  ]

module _ {N : Type 0} (up : Upstream N) (req : Request) where
  lookup-remove_server :
      (s : Session N) (j : Bytes)
      → bytes_eq req.host j ≡ false
      → lookup j (remove_server up req.host s).servers ≡ lookup j s.servers
  unfolding remove_server
  lookup-remove_server s j apart =
      let kept = lookup-delete req.host j s.servers ∙ rw apart refl in
      elim (Option-cases (lookup req.host s.servers)) [
        | inl e ↦ rw (e, remove_server) kept
        | inr (srv, e) ↦ rw (e, remove_server) kept
      ]

  -- Serving one host never touches the connection of another.
  pub lookup-forward :
      (proxy_func : Request → Proxy) (s : Session N) (j : Bytes)
      → bytes_eq req.host j ≡ false
      → lookup j (forward up proxy_func req s).1.servers ≡ lookup j s.servers
  lookup-forward proxy_func s j apart =
      forward-keeps up req proxy_func (λ t. lookup j t.servers ≡ lookup j s.servers)
        (λ t h.
          view-get_server up req (λ u. lookup j u.servers) (λ u n. refl)
            (λ u srv. lookup-put req.host j srv u.servers ∙ rw apart refl) (proxy_func req) t
          ∙ h)
        (λ t h. lookup-remove_server t j apart ∙ h) (λ srv t h. unfold write_request in h)
        (λ srv t h. unfold read_response in h) s refl

  body-get_server : (proxy : Proxy) (s : Session N) → (get_server up req proxy s).1.body ≡ s.body
  body-get_server = view-get_server up req (λ s. s.body) (λ s n. refl) (λ s srv. refl)

  body-remove_server : (s : Session N) → (remove_server up req.host s).body ≡ s.body
  unfolding remove_server
  body-remove_server s = elim (Option-cases (lookup req.host s.servers)) [
    | inl e ↦ rw (e, remove_server) refl
    | inr (srv, e) ↦ rw (e, remove_server) refl
  ]

  body-read_response : (srv : ServerConn) (s : Session N) → (read_response up srv s).1.body ≡ s.body
  unfolding read_response
  body-read_response srv s = refl

  exchange_fault :
      (srv : ServerConn) (r : Option GoError × Session N) (e : GoError)
      → r.0 ≡ some e
      → (or_drop up req (exchange up req srv r)).0 ≡ err e
  unfolding or_drop exchange
  exchange_fault srv (none, s) e h = cc
  exchange_fault srv (some f, s) e h = cc

  first_written_sent :
      (proxy : Proxy) (srv : ServerConn) (r : Option GoError × Session N)
      → r.0 ≡ none
      → first_written up req proxy srv r ≡ read_again up req proxy (read_response up srv r.1)
  unfolding first_written
  first_written_sent proxy srv (none, s) h = refl
  first_written_sent proxy srv (some f, s) h = cc

  read_again_broken :
      (proxy : Proxy) (r : Result Response × Session N) (e : GoError)
      → r.0 ≡ err e
      → read_again up req proxy r
        ≡ retry_on up req (get_server up req proxy (remove_server up req.host r.1))
  unfolding read_again
  read_again_broken proxy (ok resp, s) e h = cc
  read_again_broken proxy (err f, s) e h = refl

  forward_reused :
      (proxy_func : Request → Proxy) (s : Session N) (srv : ServerConn)
      → lookup req.host s.servers ≡ some srv
      → forward up proxy_func req s
        ≡ first_written up req (proxy_func req) srv (write_request up req srv s)
  unfolding forward get_server first_server
  forward_reused proxy_func s srv h = rw (h, get_server) refl

  -- A request that needs more body than is left is not answered by a retry.
  module _ (rules : BodyRules up) (size : ℕ) (sized : req.content_length ≡ some size) where
    retry_on_fails :
        (r : Result ServerConn × Session N)
        → length r.1.body.content < size
        → (e : GoError) × ((retry_on up req r).0 ≡ err e)
    unfolding retry_on write_request
    retry_on_fails (err e, s) h = (e, refl)
    retry_on_fails (ok srv, s) h =
        let sending = record req { body = s.body } in
        elim (Option-cases (up.send_request s.net (link srv) sending).fault) [
          | inl e ↦ absurd (rules.short_body_fails s.net (link srv) sending size sized h e)
          | inr (e, f) ↦ (e, exchange_fault srv _ e f)
        ]

    -- Where a reused connection takes the request and then gives no response, the body has been
    -- read: the retry sends none, and `forward` fails however good the new connection is.
    pub forward_body_fails :
        (proxy_func : Request → Proxy) (s : Session N) (srv : ServerConn) (e : GoError)
        → 0 < size
        → lookup req.host s.servers ≡ some srv
        → (write_request up req srv s).0 ≡ none
        → (read_response up srv (write_request up req srv s).1).0 ≡ err e
        → (e' : GoError) × ((forward up proxy_func req s).0 ≡ err e')
    unfolding write_request
    forward_body_fails proxy_func s srv e pos found sent broken =
        let proxy = proxy_func req in
        let sending = record req { body = s.body } in
        let w = (write_request up req srv s).1 in
        let t = (read_response up srv w).1 in
        let retried = get_server up req proxy (remove_server up req.host t) in
        let drained : retried.1.body.content ≡ [] =
          ap (λ b. b.content)
            (body-get_server proxy (remove_server up req.host t)
              ∙ body-remove_server t
              ∙ body-read_response srv w)
          ∙ rules.body_read s.net (link srv) sending sent in
        let path =
          forward_reused proxy_func s srv found
          ∙ first_written_sent proxy srv (write_request up req srv s) sent
          ∙ read_again_broken proxy (read_response up srv w) e broken in
        rw path (retry_on_fails retried (omega (arith, ap length drained)))
