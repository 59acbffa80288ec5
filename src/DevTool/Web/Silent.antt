-- ===== src/DevTool/Web/Silent.antt =====
-- A request to the web interface that gets no answer.
use mitm_proxy.Base.{◌≡◌, ◌≢◌, refl, ap, ◌∙◌, true, false, List, some, arith}
use mitm_proxy.Text.{Bytes, bytes, bytes_eq, bytes_eq_iff}
use mitm_proxy.Http.Error.{Result}
use mitm_proxy.Http.Header.{Header}
use mitm_proxy.Http.Message.{Request, Response}
use mitm_proxy.Http.Writer.{Writer}
use mitm_proxy.Core.ResponseWriter.{ResponseWriter, new_response_writer, set_header}
use mitm_proxy.Text.Table.{find}
use mitm_proxy.Core.Container.{Container, Job, manage_writer, manage_job}
use mitm_proxy.Net.Upstream.{Upstream}
use mitm_proxy.DevTool.Rules.{Config}
use mitm_proxy.DevTool.Web.{Web, allow, all_methods, handle_config}

allow_writer :
    {W : Type 0} (methods : Bytes) (w : ResponseWriter W) → (allow methods w).writer ≡ w.writer
unfolding allow set_header
allow_writer methods w = refl

manage_writer_lem : {W : Type 0} (u : W) → (manage_writer u).writer ≡ u
unfolding manage_writer set_header new_response_writer
manage_writer_lem u = refl

no_method : (s t : Bytes) → s ≢ t → bytes_eq s t ≡ false
no_method s t h = ground (arith, bytes_eq_iff s t)

module _ {W : Type 0} (out : Writer W) (order : Header → List (Bytes × List Bytes))
    (to_json indented : Config → Bytes) (parse : Bytes → Result Config) where
  handle_config_silent :
      (req : Request) (s : Web) (w : ResponseWriter W)
      → req.method ≢ bytes "OPTIONS"
      → req.method ≢ bytes "GET"
      → req.method ≢ bytes "POST"
      → handle_config out order to_json indented parse req s w ≡ (s, allow all_methods w)
  unfolding handle_config
  handle_config_silent req s w a b c =
      rw
        (
          no_method req.method (bytes "OPTIONS") a,
          no_method req.method (bytes "GET") b,
          no_method req.method (bytes "POST") c,
        )
        refl

module _ {N W : Type 0} (up : Upstream N) (out : Writer W)
    (order : Header → List (Bytes × List Bytes)) (write_response : Response → Job W)
    (to_json indented : Config → Bytes) (parse : Bytes → Result Config) where
  -- Where the handler of the configuration is in the container's router, a request for its path from
  -- a loopback address with a method other than OPTIONS, GET and POST, as the announced PUT and
  -- DELETE, has nothing written to its client: it is never answered.
  pub manage_job-config :
      (m : Container W) (req : Request) (s : Web) (u : W)
      → find req.path m.manage_router
        ≡ some (λ r w. (handle_config out order to_json indented parse r s w).1)
      → req.method ≢ bytes "OPTIONS"
      → req.method ≢ bytes "GET"
      → req.method ≢ bytes "POST"
      → manage_job up out order write_response m req true u ≡ u
  unfolding manage_job
  manage_job-config m req s u found a b c =
      rw (no_method req.method (bytes "OPTIONS") a, found)
        (ap (λ r. r.1.writer)
            (handle_config_silent out order to_json indented parse req s (manage_writer u) a b c)
          ∙ allow_writer all_methods (manage_writer u)
          ∙ manage_writer_lem u)
