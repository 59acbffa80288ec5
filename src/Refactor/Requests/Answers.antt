-- ===== src/Refactor/Requests/Answers.antt =====
-- Which jobs answer the requests of a client, and in which order.
use mitm_proxy.Base.{
  ◌≡◌, refl, ap, ◌∙◌, Bool, true, false, List, [], ◌∷◌, ◌++◌, append-nil, Option, none, some,
  if◌then◌else◌, length, Bool-cases, Option-cases, inl, inr,
}
use mitm_proxy.Text.{Bytes}
use mitm_proxy.Http.Error.{GoError, error_text, Result, ok, err}
use mitm_proxy.Http.Message.{Request, Response, Codec}
use mitm_proxy.Http.Writer.{Writer, IsReliable}
use mitm_proxy.Net.Upstream.{Upstream}
use mitm_proxy.Refactor.ResponseWriter.{
  ResponseWriter, new_response_writer, set_header, write_header,
}
use mitm_proxy.Refactor.ResponseWriter.Output.{head, write_each, flat, sent-write_each}
use mitm_proxy.Refactor.Session.{Session, forward}
use mitm_proxy.Refactor.Requests.{
  replaced, injected, manage_job, Mitm, Job, Client, must_manage_request, submit, buffered, hinted,
  with_scheme, answered, error_writer, page, handle_manage, forwarded, handled, prepared, body_read,
  handle_request, write_loop,
}

-- One job more than before, behind the others, and nothing written past the queue.
abbrev pub Queued : {N W : Type 0} → Client N W → Client N W → Job W → Type 0
Queued c c' job =
    (c'.queue ≡ c.queue ++ (job ∷ [])) × (c'.writer ≡ c.writer) × (c'.cancelled ≡ false)

submit-Queued :
    {N W : Type 0} (job : Job W) (c : Client N W)
    → c.cancelled ≡ false
    → Queued c (submit job c) job
unfolding submit
submit-Queued job c h = rw h (refl, refl, refl)

-- The jobs up to the first that fails are run in order, and none behind it.
pub write_loop-append :
    {W : Type 0} (first rest : List (Job W)) (u : W)
    → write_loop (first ++ rest) u
      ≡ (let (failed, v) = write_loop first u in if failed then (true, v) else write_loop rest v)
unfolding write_loop
write_loop-append [] rest u = refl
write_loop-append (job ∷ first) rest u = elim (Option-cases (job u).0) [
  | inl e ↦ rw (e, write_loop) (write_loop-append first rest (job u).1)
  | inr (f, e) ↦ rw (e, write_loop) refl
]

module _ {N W : Type 0} (up : Upstream N) (out : Writer W) (gzip zlib : Codec)
    (loopback : Bytes → Option Bool) (write_response : Response → Job W) (m : Mitm W) where
  abbrev handle : Request → Client N W → Client N W
  handle req c = handle_request up out gzip zlib loopback write_response m req false c

  -- The request in the form in which it is forwarded.
  abbrev pub outgoing : Request → Client N W → Request
  outgoing req c = with_scheme c.session.client_tls (hinted m.html_injector req)

  abbrev pub error_page : GoError → Job W
  error_page e = page up out gzip zlib loopback write_response error_writer (error_text e)

  -- The response of the target as the client gets it.
  abbrev pub final : Response → Response
  final resp = injected gzip zlib m.html_injector (replaced m.response_handler resp)

  -- A request that is whole and for another host, behind the request handler.
  abbrev pub Passed : Request → Client N W → Request → Option Response → Request → Type 0
  Passed req c whole resp left =
      (buffered req false ≡ ok whole)
      × (must_manage_request m whole ≡ false)
      × (answered m.request_handler (outgoing whole c) ≡ (resp, left))

  -- The job that answers a request: the page of an error; the page or the handler for the proxy
  -- itself; the response of the request handler; or that of the target, with the injection.
  pub data IsAnswer (req : Request) (c : Client N W) (job : Job W) : Type 0 where
    unread : (e : GoError) → buffered req false ≡ err e → job ≡ error_page e → IsAnswer req c job
    managed :
        (whole : Request)
        → buffered req false ≡ ok whole
        → must_manage_request m whole ≡ true
        → job ≡ manage_job up out gzip zlib loopback write_response m whole c.remote
        → IsAnswer req c job
    replied :
        (whole left : Request) (resp : Response)
        → Passed req c whole (some resp) left
        → job ≡ write_response resp
        → IsAnswer req c job
    unreached :
        (whole left : Request) (e : GoError) (s : Session N)
        → Passed req c whole none left
        → forward up m.proxy_func left (record c.session { body = left.body }) ≡ (err e, s)
        → job ≡ error_page e
        → IsAnswer req c job
    relayed :
        (whole left : Request) (resp : Response) (s : Session N)
        → Passed req c whole none left
        → forward up m.proxy_func left (record c.session { body = left.body }) ≡ (ok resp, s)
        → job ≡ write_response (final resp)
        → IsAnswer req c job

  abbrev Answered : Request → Client N W → Client N W → Type 0
  Answered req c c' = (job : Job W) × Queued c c' job × IsAnswer req c job

  forwarded-Answered :
      (req whole left : Request) (c : Client N W) (r : Result Response × Session N)
      → c.cancelled ≡ false
      → Passed req c whole none left
      → forward up m.proxy_func left (record c.session { body = left.body }) ≡ r
      → Answered req c (forwarded up out gzip zlib loopback write_response m left false c r)
  unfolding forwarded
  forwarded-Answered req whole left c (err e, s) h passed f = (
    error_page e,
    submit-Queued _ (record c { session = s }) h,
    unreached whole left e s passed f refl,
  )
  forwarded-Answered req whole left c (ok resp, s) h passed f = (
    write_response (final resp),
    submit-Queued _ (record c { session = s }) h,
    relayed whole left resp s passed f refl,
  )

  handled-Answered :
      (req whole : Request) (r : Option Response × Request) (c : Client N W)
      → c.cancelled ≡ false
      → Passed req c whole r.0 r.1
      → Answered req c (handled up out gzip zlib loopback write_response m false r c)
  unfolding handled
  handled-Answered req whole (some resp, left) c h passed =
      (write_response resp, submit-Queued _ c h, replied whole left resp passed refl)
  handled-Answered req whole (none, left) c h passed =
      forwarded-Answered req whole left c _ h passed refl

  body_read-Answered :
      (req : Request) (r : Result Request) (c : Client N W)
      → c.cancelled ≡ false
      → buffered req false ≡ r
      → Answered req c (body_read up out gzip zlib loopback write_response m false r c)
  unfolding body_read prepared handle_manage
  body_read-Answered req (err e) c h read = (error_page e, submit-Queued _ c h, unread e read refl)
  body_read-Answered req (ok whole) c h read = elim (Bool-cases (must_manage_request m whole)) [
    | inl e ↦ rw e (
      manage_job up out gzip zlib loopback write_response m whole c.remote,
      submit-Queued _ c h,
      managed whole read e refl,
    )
    | inr e ↦ rw e (
        handled-Answered req whole (answered m.request_handler (outgoing whole c)) c h
          (read, e, refl))
  ]

  pub handle_request-Answered :
      (req : Request) (c : Client N W) → c.cancelled ≡ false → Answered req c (handle req c)
  unfolding handle_request
  handle_request-Answered req c h = body_read-Answered req (buffered req false) c h refl

  -- The requests of one client, one after the other.
  unfoldable pub handle_each : List Request → Client N W → Client N W
  handle_each [] c = c
  handle_each (req ∷ reqs) c = handle_each reqs (handle req c)

  -- One job for each request, which answers it in the state that the requests before it leave.
  abbrev pub AreAnswers : List Request → Client N W → List (Job W) → Type 0
  AreAnswers [] c jobs = jobs ≡ []
  AreAnswers (req ∷ reqs) c jobs =
      (job : Job W) × (rest : List (Job W)) × (jobs ≡ job ∷ rest)
      × IsAnswer req c job
      × AreAnswers reqs (handle req c) rest

  sent-page :
      (safe : IsReliable out) (draft : W → ResponseWriter W) (text : Bytes) (u : W)
      → (draft u).header_written ≡ false
      → out.sent (page up out gzip zlib loopback write_response draft text u).1
        ≡ out.sent (draft u).writer ++ (head (length text) (draft u) ++ text)
  unfolding page write_each flat
  sent-page safe draft text u h =
      sent-write_each out safe text [] (draft u) h
      ∙ ap (λ t. out.sent (draft u).writer ++ (head (length text) (draft u) ++ t)) (append-nil text)

  handle_request_failed :
      (req : Request) (c : Client N W) (e : GoError) (s : Session N)
      → buffered req false ≡ ok req
      → must_manage_request m req ≡ false
      → m.request_handler ≡ none
      → forward up m.proxy_func (outgoing req c) (record c.session { body = (outgoing req c).body })
        ≡ (err e, s)
      → handle req c
        ≡ submit
            (page up out gzip zlib loopback write_response error_writer (error_text e))
            (record c { session = s })
  unfolding handle_request body_read prepared handled forwarded answered
  handle_request_failed req c e s whole remote plain failed =
      rw (whole, handle_request, body_read) (rw (remote, body_read) (rw plain (rw failed refl)))

  -- Where a request cannot be forwarded, and no request handler is set, the client gets one answer
  -- for it: behind what it was sent before, on a connection that does not fail, status 502 with its
  -- headers, and the text of the error.
  pub handle_request_bad_gateway :
      (safe : IsReliable out) (req : Request) (c : Client N W) (e : GoError) (s : Session N) (u : W)
      → c.cancelled ≡ false
      → buffered req false ≡ ok req
      → must_manage_request m req ≡ false
      → m.request_handler ≡ none
      → forward up m.proxy_func (outgoing req c) (record c.session { body = (outgoing req c).body })
        ≡ (err e, s)
      → (job : Job W) × ((handle req c).queue ≡ c.queue ++ (job ∷ []))
        × (out.sent (job u).1
            ≡ out.sent u ++ (head (length (error_text e)) (error_writer u) ++ error_text e))
        × ((error_writer u).status ≡ 502)
  unfolding error_writer submit set_header write_header new_response_writer
  handle_request_bad_gateway safe req c e s u running whole remote plain failed = (
    page up out gzip zlib loopback write_response error_writer (error_text e),
    ap (λ c'. c'.queue) (handle_request_failed req c e s whole remote plain failed)
        ∙ rw running refl,
    sent-page safe error_writer (error_text e) u refl,
    refl,
  )
