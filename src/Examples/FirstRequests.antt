-- ===== src/Examples/FirstRequests.antt =====
-- A request that the callback of the first version answers.
use mitm_proxy.Base.{◌≡◌, refl, true, false, [], ◌∷◌, ◌++◌, none, some}
use mitm_proxy.Text.{Bytes, bytes, bytes_eq, before}
use mitm_proxy.Http.Message.{Request, Response, string_reader}
use mitm_proxy.Http.Writer.{buffer}
use mitm_proxy.Refactor.Hosts.{member}
use mitm_proxy.Core.ResponseWriter.{write}
use mitm_proxy.Core.Container.{
  WriteFunc, Job, Container, Client, is_local, processed, with_scheme, hinted, run, send,
  handle_request,
}
use mitm_proxy.Core.Container.Twice.{IsRelay, handle_request_twice}
use mitm_proxy.Examples.FakeNet.{FakeNet, fake}

abbrev pub asked : Request
asked = record {
  method = bytes "GET";
  host = bytes "a.com";
  scheme = bytes "http";
  path = bytes "/";
  header = [];
  content_length = some 0;
  body = string_reader [];
}

abbrev refusal : WriteFunc Bytes
refusal w = (write buffer (λ h. h) (bytes "blocked") w).1

abbrev container : Container Bytes
container = record {
  port = bytes "8080";
  local_ips = bytes "localhost" ∷ [];
  manage_router = [];
  process_proxy = none;
  process_request = some (λ req. (some refusal, req));
  process_response = none;
  insert_html = none;
}

abbrev visitor : Client FakeNet Bytes
visitor = record {
  connector = record {
    client_tls = false;
    server = [];
    net = record { live = []; next = 0; good = 0 };
    body = string_reader [];
  };
  writer = [];
  queue = [];
  tunnel = false;
}

abbrev copied : Response → Job Bytes
copied resp u = u ++ resp.body.content

handle_request_twice_example :
    (job : Job Bytes) × ((handle_request fake buffer
        (λ h. h)
        copied
        container
        asked
        false
        true
        visitor).queue
      ≡ visitor.queue ++ (run fake buffer (λ h. h) copied refusal ∷ job ∷ []))
    × IsRelay fake buffer
        (λ h. h)
        copied
        container
        asked
        (send (run fake buffer (λ h. h) copied refusal) visitor)
        job
unfolding is_local processed with_scheme hinted before member bytes bytes_eq
handle_request_twice_example =
    handle_request_twice fake buffer (λ h. h) copied container asked asked refusal true visitor refl
      refl
