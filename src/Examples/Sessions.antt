-- ===== src/Examples/Sessions.antt =====
-- Requests forwarded over the network in memory.
use mitm_proxy.Base.{◌≡◌, refl, false, [], ◌∷◌, some, arith}
use mitm_proxy.Text.{bytes, bytes_eq}
use mitm_proxy.Http.Error.{GoError, eof, err}
use mitm_proxy.Http.Message.{Request, string_reader}
use mitm_proxy.Net.Upstream.{count}
use mitm_proxy.Refactor.Proxy.{direct_proxy}
use mitm_proxy.Refactor.Server.{ServerConn}
use mitm_proxy.Refactor.Session.Ending.{alive-close_session}
use mitm_proxy.Refactor.Session.{
  close_session, forward_each, Session, lookup, forward, write_request, read_response,
}
use mitm_proxy.Refactor.Session.Servers.{raws}
use mitm_proxy.Refactor.Session.Upkeep.{alive, Balanced}
use mitm_proxy.Refactor.Session.Forward.{Settled, forward-Balanced, forward-Settled}
use mitm_proxy.Refactor.Session.Retry.{lookup-forward, forward_body_fails}
use mitm_proxy.Examples.FakeNet.{FakeNet, fake, fake-Lifetimes, fake-BodyRules}

abbrev upload : Request
upload = record {
  method = bytes "POST";
  host = bytes "a.com";
  scheme = bytes "http";
  path = bytes "/";
  header = [];
  content_length = some 2;
  body = string_reader (bytes "xy");
}

abbrev kept : ServerConn
kept = record { raw = 0; is_tls = false; host = bytes "a.com:80" }

-- The connection 0 is held for a.com, and the server has closed it.
abbrev stale : Session FakeNet
stale = record {
  client_tls = false;
  servers = (bytes "a.com", kept) ∷ [];
  net = record { live = 0 ∷ []; next = 1; good = 1 };
  body = string_reader (bytes "xy");
}

forward-Balanced_example :
    Balanced fake fake-Lifetimes 0 0 (forward fake direct_proxy upload stale).1
unfolding count raws lookup fake-Lifetimes
forward-Balanced_example =
    forward-Balanced fake upload direct_proxy fake-Lifetimes 0 0 stale ((refl, tt), refl)

forward-Settled_example : Settled (bytes "a.com") (forward fake direct_proxy upload stale)
forward-Settled_example = forward-Settled fake upload direct_proxy stale

lookup-forward_example :
    lookup (bytes "b.com") (forward fake direct_proxy upload stale).1.servers
    ≡ lookup (bytes "b.com") stale.servers
unfolding bytes bytes_eq
lookup-forward_example = lookup-forward fake upload direct_proxy stale (bytes "b.com") refl

forward_body_fails_example : (e : GoError) × ((forward fake direct_proxy upload stale).0 ≡ err e)
unfolding lookup bytes bytes_eq write_request read_response fake
forward_body_fails_example =
    forward_body_fails fake upload fake-BodyRules 2 refl direct_proxy stale kept eof (omega arith)
      refl refl refl

-- A session before its first request.
abbrev fresh : Session FakeNet
fresh = record stale { servers = [] }

alive-close_session_example :
    alive fake fake-Lifetimes 0
      (close_session fake (forward_each fake direct_proxy (upload ∷ upload ∷ []) fresh)).net
    ≡ alive fake fake-Lifetimes 0 (fresh.net)
alive-close_session_example =
    alive-close_session fake direct_proxy fake-Lifetimes 0 (upload ∷ upload ∷ []) fresh refl
