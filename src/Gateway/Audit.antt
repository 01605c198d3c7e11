-- ===== src/Gateway/Audit.antt =====
-- internal/gateway/audit/event_writer.go: the bounded queue of audit events.
pub mod Delivery
use entropy_gen.Common.{
  ℕ, ◌*◌, Bool, true, false, ◌||◌, Option, none, some, List, [], ◌∷◌, ◌++◌, if◌then◌else◌, ltb,
  length, take,
}
use entropy_gen.Common.Text.{Text, text}
use entropy_gen.Common.Dict.{Dict}
use entropy_gen.Events.{Value, str, num, flag, Codec, Event}

abbrev pub channel_size : ℕ
channel_size = 1000

abbrev pub max_body_bytes : ℕ
max_body_bytes = 65536

pub record RequestRecord : Type 0 where
  pub trace_id : Text
  pub event_type : Text
  pub agent_id : Text
  pub agent_role : Text
  pub method : Text
  pub path : Text
  pub status : ℕ
  pub latency_ms : ℕ
  pub req_body : Text
  pub resp_body : Text
  pub is_llm : Bool

-- The channel, oldest first.
pub record Queue : Type 0 where
  pub events : List Event

-- An event for which there is no room is lost; the code only logs that.
unfoldable pub enqueue : Event → Queue → Queue
enqueue e q =
    if ltb (length q.events) channel_size then record { events = q.events ++ (e ∷ []) } else q

-- The body, and whether it was cut.
unfoldable pub truncate_body : Text → Text × Bool
truncate_body body =
    if ltb max_body_bytes (length body)
    then (take max_body_bytes body ++ text "...[TRUNCATED]", true)
    else (body, false)

body_fields : RequestRecord → Bool → Dict Value
unfolding truncate_body
body_fields rec true =
    let (req, req_cut) = truncate_body rec.req_body in
    let (resp, resp_cut) = truncate_body rec.resp_body in
    (text "request_body", str req)
    ∷ (text "response_body", str resp)
    ∷ (text "_body_truncated", flag (req_cut || resp_cut))
    ∷ []
body_fields rec false =
    (text "request_body", str [])
    ∷ (text "response_body", str [])
    ∷ (text "_body_truncated", flag false)
    ∷ []

unfoldable pub build_payload : RequestRecord → Dict Value
unfolding body_fields
build_payload rec =
    (text "trace_id", str rec.trace_id)
    ∷ (text "method", str rec.method)
    ∷ (text "path", str rec.path)
    ∷ (text "status_code", num rec.status)
    ∷ (text "latency_ms", num rec.latency_ms)
    ∷ body_fields rec rec.is_llm

-- The event of a request, with a new id and the time.
unfoldable pub request_event : Codec → Text → ℕ → RequestRecord → Event
unfolding build_payload
request_event codec id now rec = record {
  event_id = id;
  event_type = rec.event_type;
  timestamp = now;
  agent_id = rec.agent_id;
  agent_role = rec.agent_role;
  payload = some (codec.marshal (build_payload rec));
}

unfoldable pub enqueue_request : Codec → Text → ℕ → RequestRecord → Queue → Queue
unfolding enqueue request_event
enqueue_request codec id now rec q = enqueue (request_event codec id now rec) q

-- One turn of Run: the oldest event leaves the channel; the writer, which may be absent, gets it, and
-- its error is only logged. The second part is what the writer is given.
unfoldable pub run_turn : Bool → Queue → Queue × Option Event
run_turn has_writer q = elim q.events [
  | [] ↦ (q, none)
  | e ∷ rest ↦ (record { events = rest }, if has_writer then some e else none)
]
