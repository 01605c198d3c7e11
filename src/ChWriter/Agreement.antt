-- ===== src/ChWriter/Agreement.antt =====
-- The row that the writer makes of an event of the gateway.
use entropy_gen.Common.{
  ℕ, ◌%◌, ◌<◌, ◌≡◌, inl, inr, Bool-cases, refl, ◌∙◌, some, true, [], ◌∷◌, ◌++◌, arith, ltb, length,
  length-append, if◌then◌else◌,
}
use mathlib.Core.Path.{ap₂}
use entropy_gen.Common.Text.{Text, text, text_eq, has_prefix-append}
use entropy_gen.Common.Dict.{Dict, lookup}
use entropy_gen.Events.{Value, Codec, RoundTrips, Event, valid_fields, are_plain}
use entropy_gen.Gateway.Audit.{RequestRecord, request_event, build_payload, truncate_body}
use entropy_gen.ChWriter.Trace.{
  AuditTrace, event_to_trace, fill_trace, empty_trace, decoded, string_value, uint32_value,
  longer_prefix, get_string, get_uint32, request_type_of,
}

longer_prefix-append : (p : Text) (c : ℕ) (s : Text) → longer_prefix (p ++ (c ∷ s)) p ≡ true
unfolding longer_prefix
longer_prefix-append p c s =
    let longer : ltb (length p) (length (p ++ (c ∷ s))) ≡ true =
      ground (arith, length-append p (c ∷ s)) in
    rw (longer, has_prefix-append p (c ∷ s))

-- Every event type "gateway.<kind>" of a kind that is not empty is stored as that kind.
request_type_of-gateway :
    (c : ℕ) (kind : Text) → request_type_of (text "gateway." ++ (c ∷ kind)) ≡ c ∷ kind
unfolding request_type_of
request_type_of-gateway c kind =
    rw (longer_prefix-append (text "gateway.") c kind) (unfold text in refl)

-- The row that a payload with known fields gives.
filled :
    (codec : Codec) (trace_id span_id : Text) (e : Event) (d d' : Dict Value)
    → e.payload ≡ some (codec.marshal d)
    → codec.unmarshal (codec.marshal d) ≡ some d'
    → ((key : Text) → lookup key d' ≡ lookup key (valid_fields codec d))
    → event_to_trace codec trace_id span_id e
      ≡ fill_trace (empty_trace trace_id span_id e) (some (valid_fields codec d))
unfolding event_to_trace fill_trace get_string get_uint32 decoded
filled codec trace_id span_id e d d' p u same = rw (
  p,
  u,
  same (text "method"),
  same (text "path"),
  same (text "model"),
  same (text "request_body"),
  same (text "response_body"),
  same (text "tokens_in"),
  same (text "tokens_out"),
  same (text "latency_ms"),
  same (text "status_code"),
)

-- The part of a body that the audit keeps.
abbrev pub kept_body : Codec → RequestRecord → Text → Text
kept_body codec rec body =
    if rec.is_llm then codec.to_valid (truncate_body body).0 else codec.to_valid []

-- The row that the audit of a request is meant to have.
abbrev pub row_of : Codec → Text → Text → ℕ → RequestRecord → AuditTrace
row_of codec trace_id span_id now rec = record {
  trace_id = trace_id;
  span_id = span_id;
  agent_id = rec.agent_id;
  agent_role = rec.agent_role;
  request_type = request_type_of rec.event_type;
  method = codec.to_valid rec.method;
  path = codec.to_valid rec.path;
  status_code = rec.status;
  request_body = kept_body codec rec rec.req_body;
  response_body = kept_body codec rec rec.resp_body;
  tool_calls = [];
  model = [];
  tokens_in = 0;
  tokens_out = 0;
  latency_ms = rec.latency_ms;
  created_at = now;
}

row_filled :
    (codec : Codec) (trace_id span_id id : Text) (now : ℕ) (rec : RequestRecord)
    → rec.status < 65536
    → rec.latency_ms < 4294967296
    → fill_trace
        (empty_trace trace_id span_id (request_event codec id now rec))
        (some (valid_fields codec (build_payload rec)))
      ≡ row_of codec trace_id span_id now rec
unfolding fill_trace empty_trace request_event build_payload get_string get_uint32 string_value
    uint32_value lookup text text_eq valid_fields
row_filled codec trace_id span_id id now rec small short =
    let fits : (if ltb rec.status 4294967296 then rec.status else 0) % 65536 ≡ rec.status =
      ground arith in
    let fits' : (if ltb rec.latency_ms 4294967296 then rec.latency_ms else 0) ≡ rec.latency_ms =
      ground arith in
    let row =
      ap₂
        (λ s l. record (row_of codec trace_id span_id now rec) { status_code = s; latency_ms = l })
        fits fits' in
    elim (Bool-cases rec.is_llm) [ inl e ↦ rw e (rw e at row) | inr e ↦ rw e (rw e at row) ]

build_payload_plain : (rec : RequestRecord) → are_plain (build_payload rec) ≡ true
unfolding are_plain build_payload text
build_payload_plain rec = elim (Bool-cases rec.is_llm) [ inl e ↦ rw e refl | inr e ↦ rw e refl ]

-- Where the status fits into 16 bits and the latency into 32, the row that is made of an event of
-- the gateway has the request's agent, role, kind, status, latency and time, and its method and path
-- and for an LLM call both bodies, as the gateway cut them, as JSON reads such texts back; the
-- model and the token counts stay empty.
pub row_of_request :
    (codec : Codec) (trace_id span_id id : Text) (now : ℕ) (rec : RequestRecord)
    → RoundTrips codec
    → rec.status < 65536
    → rec.latency_ms < 4294967296
    → event_to_trace codec trace_id span_id (request_event codec id now rec)
      ≡ row_of codec trace_id span_id now rec
unfolding request_event
row_of_request codec trace_id span_id id now rec trips small short =
    let (d, read, same) = trips (build_payload rec) (build_payload_plain rec) in
    filled codec trace_id span_id (request_event codec id now rec) (build_payload rec) d refl read
      same
    ∙ row_filled codec trace_id span_id id now rec small short
