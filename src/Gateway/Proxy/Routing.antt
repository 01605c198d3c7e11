-- ===== src/Gateway/Proxy/Routing.antt =====
-- What a request leaves in the audit queue, and what its client gets.
use entropy_gen.Common.{
  ℕ, ltb, ◌≡◌, ◌⊎◌, inl, inr, refl, ap, sym, ◌∙◌, Bool, true, false, none, some, List, [], ◌∷◌,
  arith, if◌then◌else◌, length, length-take, take, Bool-cases, Option-cases,
}
use mathlib.Core.Path.{subst}
use entropy_gen.Common.Text.{Text, text, text_eq}
use entropy_gen.Common.Dict.{Dict, lookup}
use entropy_gen.Events.{Value, str, num, Codec, Event}
use entropy_gen.Gateway.Audit.{
  RequestRecord, Queue, enqueue, enqueue_request, request_event, build_payload, truncate_body,
}
use entropy_gen.Gateway.Auth.{Request, Identity}
use entropy_gen.Gateway.Proxy.Capture.{written, last_status, run_acts-end}
use entropy_gen.Gateway.Proxy.{
  Route, route, Act, write_header, write, Proxies, Call, serve_route, serve_http,
  proxy_max_body_size, sent_body, read_body, body_or_empty,
}

-- What the audit is told of a proxied request.
abbrev pub record_of : Call → Identity → Request → Route → List Act → RequestRecord
record_of call i r to acts = record {
  trace_id = call.trace_id;
  event_type = to.event_type;
  agent_id = i.agent_id;
  agent_role = i.agent_role;
  method = r.method;
  path = r.path;
  status = last_status 200 acts;
  latency_ms = call.latency_ms;
  req_body = body_or_empty (read_body to.is_llm to.request.body);
  resp_body = if to.is_llm then take proxy_max_body_size (written acts) else [];
  is_llm = to.is_llm;
}

-- The request as it is sent on.
abbrev pub sent_on : Route → Request
sent_on to = record to.request { body = sent_body to.is_llm to.request.body }

-- The event of a proxied request: the agent of the context, the route's type, the time, and the
-- fields of its payload.
abbrev pub Audits : Codec → Call → Identity → Request → Route → List Act → Event → Type 0
Audits codec call i r to acts e =
    (e.agent_id ≡ i.agent_id)
    × (e.agent_role ≡ i.agent_role)
    × (e.event_type ≡ to.event_type)
    × (e.timestamp ≡ call.now)
    × ((fields : Dict Value) × (e.payload ≡ some (codec.marshal fields))
        × (lookup (text "method") fields ≡ some (str r.method))
        × (lookup (text "path") fields ≡ some (str r.path))
        × (lookup (text "status_code") fields ≡ some (num (last_status 200 acts)))
        × (lookup (text "latency_ms") fields ≡ some (num call.latency_ms))
        × (lookup (text "response_body") fields
            ≡ some (str (if to.is_llm then take proxy_max_body_size (written acts) else []))))

truncate_body_short :
    (s : Text) → ltb proxy_max_body_size (length s) ≡ false → (truncate_body s).0 ≡ s
unfolding truncate_body
truncate_body_short s h = rw h refl

take-fits : (n : ℕ) (s : Text) → ltb n (length (take n s)) ≡ false
take-fits n s = grind (arith, length-take n s)

truncate_body-take :
    (s : Text) → (truncate_body (take proxy_max_body_size s)).0 ≡ take proxy_max_body_size s
truncate_body-take s =
    truncate_body_short (take proxy_max_body_size s) (take-fits proxy_max_body_size s)

response_body_lem :
    (rec : RequestRecord) (s : Text)
    → rec.resp_body ≡ (if rec.is_llm then take proxy_max_body_size s else [])
    → lookup (text "response_body") (build_payload rec)
      ≡ some (str (if rec.is_llm then take proxy_max_body_size s else []))
unfolding build_payload lookup text text_eq
response_body_lem rec s e = elim (Bool-cases rec.is_llm) [
  | inl on ↦ let e' = rw on at e in rw (on, e') (ap (λ b. some (str b)) (truncate_body-take s))
  | inr off ↦ rw off refl
]

request_event-Audits :
    (codec : Codec) (call : Call) (i : Identity) (r : Request) (to : Route) (acts : List Act)
    → Audits codec call i r to acts
        (request_event codec call.event_id call.now (record_of call i r to acts))
unfolding request_event
request_event-Audits codec call i r to acts = (
  refl,
  refl,
  refl,
  refl,
  (
    build_payload (record_of call i r to acts),
    refl,
    unfold build_payload lookup text text_eq in refl,
    unfold build_payload lookup text text_eq in refl,
    unfold build_payload lookup text text_eq in refl,
    unfold build_payload lookup text text_eq in refl,
    response_body_lem (record_of call i r to acts) (written acts) refl,
  ),
)

-- What a routed request comes to, for the acts of the proxy.
abbrev pub Served :
    Codec → Call → Identity → Request → Queue → Route → List Act × Bool → List Act × Queue → Type 0
Served codec call i r q to upstream result =
    (result.0 ≡ upstream.0)
    × (((upstream.1 ≡ false) × (result.1 ≡ q))
        ⊎ ((upstream.1 ≡ true)
            × ((e : Event) × (result.1 ≡ enqueue e q) × Audits codec call i r to upstream.0 e)))

serve_route-Served :
    (proxies : Proxies) (codec : Codec) (call : Call) (i : Identity) (r : Request) (q : Queue)
    (to : Route)
    → Served codec call i r q to
        (proxies.serve to.upstream (sent_on to))
        (serve_route proxies codec call i r q (some to))
unfolding serve_route enqueue_request
serve_route-Served proxies codec call i r q to =
    let (acts, returned) = proxies.serve to.upstream (sent_on to) in
    let (client, status, buf) = run_acts-end to.is_llm acts in
    (
      client,
      elim (Bool-cases returned) [
        | inl on ↦ inr (
          on,
          (
            request_event codec call.event_id call.now (record_of call i r to acts),
            rw (on, status, buf) refl,
            request_event-Audits codec call i r to acts,
          ),
        )
        | inr off ↦ inl (off, rw off refl)
      ],
    )

-- A request that no route takes is answered by 404 and leaves no event. For any other the client
-- gets exactly what the reverse proxy wrote; where that proxy aborted the queue is as it was, and
-- where it returned one event is offered to the queue, with the agent of the context, the route's
-- type, the time, and in its payload the method and the path that were asked for, the upstream's
-- last status or else 200, the latency and for an LLM call the first 65536 bytes of the response.
pub serve_http-audited :
    (proxies : Proxies) (codec : Codec) (call : Call) (i : Identity) (r : Request) (q : Queue)
    → ((route r ≡ none)
        × (serve_http proxies codec call i r q
            ≡ (write_header 404 ∷ write (text "Not Found\n") ∷ [], q)))
      ⊎ ((to : Route) × (route r ≡ some to)
          × Served codec call i r q to
              (proxies.serve to.upstream (sent_on to))
              (serve_http proxies codec call i r q))
unfolding serve_http
serve_http-audited proxies codec call i r q = elim (Option-cases (route r)) [
  | inl e ↦ inl (e, ap (serve_route proxies codec call i r q) e ∙ unfold serve_route in refl)
  | inr (to, e) ↦ inr (
    to,
    e,
    subst (Served codec call i r q to (proxies.serve to.upstream (sent_on to)))
        (sym (ap (serve_route proxies codec call i r q) e))
        (serve_route-Served proxies codec call i r q to),
  )
]
