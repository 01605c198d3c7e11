-- ===== src/Gateway/Proxy.antt =====
-- internal/gateway/handler/proxy.go: routing, and the recorder around the response. The reverse
-- proxy is a parameter: what it writes, for the request that it is given.
pub mod Capture
pub mod Routing
use entropy_gen.Common.{
  ℕ, ◌+◌, ◌-◌, Bool, true, false, Option, none, some, List, [], ◌∷◌, ◌++◌, if◌then◌else◌, ltb, leb,
  length, take,
}
use entropy_gen.Common.Text.{Text, text, has_prefix, trim_prefix, is_empty}
use entropy_gen.Events.{Codec}
use entropy_gen.Gateway.Audit.{RequestRecord, Queue, enqueue_request}
use entropy_gen.Gateway.Auth.{Request, Identity}

abbrev pub proxy_max_body_size : ℕ
proxy_max_body_size = 65536

pub data Upstream : Type 0 where
  litellm gitea : Upstream

pub record Route : Type 0 where
  pub upstream : Upstream
  pub event_type : Text
  pub is_llm : Bool
  pub request : Request

-- The prefix /git is stripped; an empty path becomes the root.
unfoldable pub strip_git : Request → Request
strip_git r =
    let path = trim_prefix r.path (text "/git") in
    record r {
      path = if is_empty path then text "/" else path;
      raw_path = trim_prefix r.raw_path (text "/git");
    }

-- The switch on the path; `none` is answered by 404.
unfoldable pub route : Request → Option Route
unfolding strip_git
route r =
    if has_prefix r.path (text "/v1/")
    then some (record {
      upstream = litellm;
      event_type = text "gateway.llm_inference";
      is_llm = true;
      request = r;
    })
    else if has_prefix r.path (text "/api/v1/")
    then some (record {
      upstream = gitea;
      event_type = text "gateway.gitea_api";
      is_llm = false;
      request = r;
    })
    else if has_prefix r.path (text "/git/")
    then some (record {
      upstream = gitea;
      event_type = text "gateway.git_http";
      is_llm = false;
      request = strip_git r;
    })
    else none

-- What the proxy does with the response writer.
pub data Act : Type 0 where
  write_header : ℕ → Act
  write : Text → Act

-- The recorder's state, and what reached the client.
pub record Recorder : Type 0 where
  pub status_code : ℕ
  pub capture_body : Bool
  pub buf : Text
  pub client : List Act

unfoldable pub new_recorder : Bool → Recorder
new_recorder capture = record { status_code = 200; capture_body = capture; buf = []; client = [] }

-- What Write adds to the buffer: as much as there is room for.
unfoldable pub captured : Bool → Text → Text → Text
captured false buf b = buf
captured true buf b =
    if ltb (length buf) proxy_max_body_size
    then if leb (length b) (proxy_max_body_size - length buf)
      then buf ++ b
      else buf ++ take (proxy_max_body_size - length buf) b
    else buf

unfoldable pub act_on : Recorder → Act → Recorder
unfolding captured
act_on rec (write_header code) = record rec {
  status_code = code;
  client = rec.client ++ (write_header code ∷ []);
}
act_on rec (write b) = record rec {
  buf = captured rec.capture_body rec.buf b;
  client = rec.client ++ (write b ∷ []);
}

unfoldable pub run_acts : Recorder → List Act → Recorder
unfolding act_on
run_acts rec [] = rec
run_acts rec (a ∷ rest) = run_acts (act_on rec a) rest

-- The request's body as the handler reads it for an LLM call, and as it is then sent upstream: the
-- first proxyMaxBodySize + 1 bytes.
unfoldable pub read_body : Bool → Option Text → Option Text
read_body false body = none
read_body true none = none
read_body true (some b) = some (take (proxy_max_body_size + 1) b)

unfoldable pub sent_body : Bool → Option Text → Option Text
unfolding read_body
sent_body false body = body
sent_body true body = read_body true body

unfoldable pub body_or_empty : Option Text → Text
body_or_empty none = []
body_or_empty (some b) = b

-- The two upstreams: the acts of the reverse proxy for a request, and whether its ServeHTTP returned;
-- it aborts the handler by a panic where the response's body cannot be copied to the end.
pub record Proxies : Type 0 where
  pub serve : Upstream → Request → List Act × Bool

-- The handler's own inputs: the ids and the clock.
pub record Call : Type 0 where
  pub trace_id : Text
  pub event_id : Text
  pub latency_ms : ℕ
  pub now : ℕ

unfoldable pub serve_route :
    Proxies → Codec → Call → Identity → Request → Queue → Option Route → List Act × Queue
unfolding body_or_empty sent_body
serve_route proxies codec call i r q none = (write_header 404 ∷ write (text "Not Found\n") ∷ [], q)
serve_route proxies codec call i r q (some to) =
    let sent = record to.request { body = sent_body to.is_llm to.request.body } in
    let (acts, returned) = proxies.serve to.upstream sent in
    let rec = run_acts (new_recorder to.is_llm) acts in
    (
      rec.client,
      if returned
          then enqueue_request codec call.event_id call.now
              (record {
                trace_id = call.trace_id;
                event_type = to.event_type;
                agent_id = i.agent_id;
                agent_role = i.agent_role;
                method = r.method;
                path = r.path;
                status = rec.status_code;
                latency_ms = call.latency_ms;
                req_body = body_or_empty (read_body to.is_llm to.request.body);
                resp_body = rec.buf;
                is_llm = to.is_llm;
              })
              q
          else q,
    )

-- ServeHTTP: what the client gets, and the queue afterwards.
unfoldable pub serve_http : Proxies → Codec → Call → Identity → Request → Queue → List Act × Queue
unfolding serve_route route
serve_http proxies codec call i r q = serve_route proxies codec call i r q (route r)
