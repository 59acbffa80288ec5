-- ===== src/Refactor/Serve/Order.antt =====
-- The loop on a client's requests, one after the other.
use mitm_proxy.Base.{
  ◌≡◌, refl, ap, ◌∙◌, Bool, true, false, List, [], ◌∷◌, ◌++◌, Option, if◌then◌else◌, All, map,
}
use mitm_proxy.Text.{Bytes, bytes, bytes_eq}
use mitm_proxy.Http.Error.{GoError, Result, ok, err}
use mitm_proxy.Http.Message.{Request, Response, Codec}
use mitm_proxy.Http.Writer.{Writer}
use mitm_proxy.Net.Certificates.{CertLib}
use mitm_proxy.Net.Upstream.{Upstream}
use mitm_proxy.Refactor.Client.{RawConn}
use mitm_proxy.Refactor.Hosts.{is_web_socket_request}
use mitm_proxy.Refactor.Requests.{Mitm, Job, handle_request}
use mitm_proxy.Refactor.Requests.Answers.{handle_each, handle_request-Answered}
use mitm_proxy.Refactor.Serve.{Serving, round, serve}

-- A request that is handled and behind which the next one is read.
abbrev pub IsPlain : Request → Type 0
IsPlain req = (bytes_eq req.method (bytes "CONNECT") ≡ false) × (is_web_socket_request req ≡ false)

module _ {N W Cert Key Priv R : Type 0} (up : Upstream N) (out : Writer W) (gzip zlib : Codec)
    (loopback : Bytes → Option Bool) (write_response : Response → Job W)
    (lib : CertLib Cert Key Priv R) (raw : RawConn Priv W) (m : Mitm W) where
  abbrev next : Request → Serving N W Cert Key Priv R → Serving N W Cert Key Priv R
  next req s = record s {
    client = handle_request up out gzip zlib loopback write_response m req false s.client;
  }

  round_plain :
      (req : Request) (s : Serving N W Cert Key Priv R)
      → IsPlain req
      → round up out gzip zlib loopback write_response lib raw m req s ≡ (true, next req s)
  unfolding round
  round_plain req s (no_connect, no_ws) = rw (no_connect, round) (rw no_ws refl)

  -- Requests that are neither CONNECT nor WebSocket requests are all read and handled, in order and
  -- up to the end or an error of the reads, while the session is not cancelled: a request that
  -- fails does not end the loop, and the connection and the root stay as they are.
  pub serve_plain :
      (reqs : List Request) (reads : List (Result Request)) (e : GoError)
      (s : Serving N W Cert Key Priv R)
      → All IsPlain reqs
      → s.client.cancelled ≡ false
      → serve up out gzip zlib loopback write_response lib raw m
          (map (λ req. ok req) reqs ++ (err e ∷ reads))
          s
        ≡ record s { client = handle_each up out gzip zlib loopback write_response m reqs s.client }
  unfolding serve handle_each
  serve_plain [] reads e s h running = refl
  serve_plain (req ∷ reqs) reads e s (plain, h) running =
      let (job, (queued, written, on), answer) =
        handle_request-Answered up out gzip zlib loopback write_response m req s.client running in
      rw (round_plain req s plain, serve)
        (ap
            (λ b.
              if b
              then s
              else serve up out gzip zlib loopback write_response lib raw m
                  (map (λ r. ok r) reqs ++ (err e ∷ reads)) (next req s))
            running
          ∙ serve_plain reqs reads e (next req s) h on)
