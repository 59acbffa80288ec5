-- ===== src/Core/Container/Twice.antt =====
-- Which jobs a request queues in the first version.
use mitm_proxy.Base.{
  ◌≡◌, refl, ◌∙◌, Bool, false, List, [], ◌∷◌, ◌++◌, append_assoc, Option, none, some,
}
use mitm_proxy.Text.{Bytes}
use mitm_proxy.Http.Error.{GoError, error_text, Result, ok, err}
use mitm_proxy.Http.Header.{Header}
use mitm_proxy.Http.Message.{Request, Response}
use mitm_proxy.Http.Writer.{Writer}
use mitm_proxy.Net.Upstream.{Upstream}
use mitm_proxy.Core.Connector.{Connector, do_request}
use mitm_proxy.Core.Container.{
  page, proxy_of, error_writer, inserted, processed_response, WriteFunc, Job, Container, Client,
  send, is_local, with_scheme, hinted, processed, run, finished, responded, forwarded, forward,
  answered, handle_request,
}

module _ {N W : Type 0} (up : Upstream N) (out : Writer W)
    (order : Header → List (Bytes × List Bytes)) (write_response : Response → Job W)
    (m : Container W) where
  -- What do_request returns for a request that is forwarded.
  abbrev pub outcome : Request → Client N W → Result Response × Connector N
  outcome req c =
      do_request up (record { raw = req; proxy = proxy_of m.process_proxy req }) false
        (record c.connector { body = req.body })

  -- The job that the forwarding of a request queues: the error page; what the callback on responses
  -- writes, where it does; or the response, behind the injection and the callback.
  pub data IsRelay (req : Request) (c : Client N W) (job : Job W) : Type 0 where
    unreached :
        (e : GoError) (k : Connector N)
        → outcome req c ≡ (err e, k)
        → job ≡ page up out order write_response error_writer (error_text e)
        → IsRelay req c job
    rewritten :
        (resp left : Response) (fn : WriteFunc W) (k : Connector N)
        → outcome req c ≡ (ok resp, k)
        → processed_response m.process_response (inserted m.insert_html resp) ≡ (some fn, left)
        → job ≡ run up out order write_response fn
        → IsRelay req c job
    relayed :
        (resp left : Response) (k : Connector N)
        → outcome req c ≡ (ok resp, k)
        → processed_response m.process_response (inserted m.insert_html resp) ≡ (none, left)
        → job ≡ write_response left
        → IsRelay req c job

  -- One job more than before, behind the others, which is that of the forwarding.
  abbrev Relays : Request → Client N W → Client N W → Type 0
  Relays req c c' = (job : Job W) × (c'.queue ≡ c.queue ++ (job ∷ [])) × IsRelay req c job

  responded-Relays :
      (req : Request) (c : Client N W) (resp : Response) (k : Connector N)
      (r : Option (WriteFunc W) × Response)
      → outcome req c ≡ (ok resp, k)
      → processed_response m.process_response (inserted m.insert_html resp) ≡ r
      → Relays req c (responded up out order write_response r false (record c { connector = k }))
  unfolding responded finished send
  responded-Relays req c resp k (some fn, left) o e =
      (run up out order write_response fn, refl, rewritten resp left fn k o e refl)
  responded-Relays req c resp k (none, left) o e =
      (write_response left, refl, relayed resp left k o e refl)

  forwarded-Relays :
      (req : Request) (c : Client N W) (r : Result Response × Connector N)
      → outcome req c ≡ r
      → Relays req c (forwarded up out order write_response m false c r)
  unfolding forwarded send
  forwarded-Relays req c (err e, k) o =
      (page up out order write_response error_writer (error_text e), refl, unreached e k o refl)
  forwarded-Relays req c (ok resp, k) o = responded-Relays req c resp k _ o refl

  forward-Relays :
      (req : Request) (c : Client N W)
      → Relays req c (forward up out order write_response m req false c)
  unfolding forward
  forward-Relays req c = forwarded-Relays req c (outcome req c) refl

  -- The request as the callback gets it.
  abbrev pub incoming : Request → Client N W → Request
  incoming req c = with_scheme c.connector.client_tls (hinted m.insert_html req)

  -- Where the callback on requests answers a request that is no WebSocket request and not for the
  -- proxy itself, the request is forwarded all the same, and two jobs are queued: the run of what the
  -- callback writes, and behind it the page of the error, where do_request fails, or the run of what
  -- ProcessResponse writes, where it writes, or else the response of the target.
  pub handle_request_twice :
      (req left : Request) (fn : WriteFunc W) (loopback : Bool) (c : Client N W)
      → is_local m req c.connector.client_tls ≡ false
      → processed m.process_request (incoming req c) ≡ (some fn, left)
      → (job : Job W) × ((handle_request up out order write_response m req false loopback c).queue
          ≡ c.queue ++ (run up out order write_response fn ∷ job ∷ []))
        × IsRelay left (send (run up out order write_response fn) c) job
  unfolding handle_request answered send
  handle_request_twice req left fn loopback c remote written =
      let first = run up out order write_response fn in
      let (job, queued, relay) =
        forward-Relays left (record c { queue = c.queue ++ (first ∷ []) }) in
      rw (remote, handle_request)
        (rw (written, answered) (job, queued ∙ append_assoc c.queue (first ∷ []) (job ∷ []), relay))
