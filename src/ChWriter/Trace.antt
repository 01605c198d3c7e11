-- ===== src/ChWriter/Trace.antt =====
-- EventToTrace: the row of an event. The two random ids are inputs.
use entropy_gen.Common.{
  ℕ, ◌%◌, ◌^◌, ◌<◌, Option, none, some, if◌then◌else◌, ltb, drop, length, ◌&&◌,
}
use entropy_gen.Common.Text.{Text, text, has_prefix}
use entropy_gen.Common.Dict.{Dict, lookup}
use entropy_gen.Events.{Value, str, num, Codec, Event}

pub record AuditTrace : Type 0 where
  pub trace_id : Text
  pub span_id : Text
  pub agent_id : Text
  pub agent_role : Text
  pub request_type : Text
  pub method : Text
  pub path : Text
  pub status_code : ℕ  -- uint16
  pub request_body : Text
  pub response_body : Text
  pub tool_calls : Text
  pub model : Text
  pub tokens_in : ℕ  -- uint32
  pub tokens_out : ℕ  -- uint32
  pub latency_ms : ℕ  -- uint32
  pub created_at : ℕ

-- `len(s) > n && s[:n] == prefix`, with the prefix's own length for n
unfoldable pub longer_prefix : Text → Text → entropy_gen.Common.Bool
longer_prefix s prefix = ltb (length prefix) (length s) && has_prefix s prefix

unfoldable pub request_type_of : Text → Text
unfolding longer_prefix
request_type_of t =
    if longer_prefix t (text "gateway.")
    then drop 8 t
    else if longer_prefix t (text "gitea.")
    then drop 6 t
    else if longer_prefix t (text "k8s.")
    then drop 4 t
    else t

unfoldable pub string_value : Option Value → Text
string_value (some (str s)) = s
string_value _ = entropy_gen.Common.[]

-- A number that does not fit is an error of json.Unmarshal, and reads as 0.
unfoldable pub uint32_value : Option Value → ℕ
uint32_value (some (num n)) = if ltb n 4294967296 then n else 0
uint32_value _ = 0

unfoldable pub get_string : Dict Value → Text → Text
unfolding string_value
get_string payload key = string_value (lookup key payload)

unfoldable pub get_uint32 : Dict Value → Text → ℕ
unfolding uint32_value
get_uint32 payload key = uint32_value (lookup key payload)

unfoldable pub empty_trace : Text → Text → Event → AuditTrace
empty_trace trace_id span_id e = record {
  trace_id = trace_id;
  span_id = span_id;
  agent_id = e.agent_id;
  agent_role = e.agent_role;
  request_type = request_type_of e.event_type;
  method = entropy_gen.Common.[];
  path = entropy_gen.Common.[];
  status_code = 0;
  request_body = entropy_gen.Common.[];
  response_body = entropy_gen.Common.[];
  tool_calls = entropy_gen.Common.[];
  model = entropy_gen.Common.[];
  tokens_in = 0;
  tokens_out = 0;
  latency_ms = 0;
  created_at = e.timestamp;
}

unfoldable pub fill_trace : AuditTrace → Option (Dict Value) → AuditTrace
fill_trace t none = t
fill_trace t (some p) = record t {
  method = get_string p (text "method");
  path = get_string p (text "path");
  model = get_string p (text "model");
  request_body = get_string p (text "request_body");
  response_body = get_string p (text "response_body");
  tokens_in = get_uint32 p (text "tokens_in");
  tokens_out = get_uint32 p (text "tokens_out");
  latency_ms = get_uint32 p (text "latency_ms");
  status_code = get_uint32 p (text "status_code") % 65536;
}

unfoldable pub decoded : Codec → Option Text → Option (Dict Value)
decoded codec none = none
decoded codec (some t) = codec.unmarshal t

unfoldable pub event_to_trace : Codec → Text → Text → Event → AuditTrace
unfolding empty_trace fill_trace decoded
event_to_trace codec trace_id span_id e =
    fill_trace (empty_trace trace_id span_id e) (decoded codec e.payload)
