-- ===== src/Examples/GatewayRuns.antt =====
-- Concrete requests to internal/gateway.
use entropy_gen.Common.{
  ℕ, ◌+◌, ◌-◌, ◌*◌, ◌/◌, ltb, Option, ◌≤◌, ◌<◌, ◌≡◌, ◌≢◌, ◌⊎◌, refl, true, false, Bool, none, some,
  List, [], ◌∷◌, ◌++◌, if◌then◌else◌, length, take, ap, sym, ◌∙◌,
}
use entropy_gen.Common.Text.{Text, text, text_eq, text_eq-ne}
use entropy_gen.Common.Dict.{Dict, lookup}
use entropy_gen.Common.Fallible.{Error, other, Result, ok, err}
use entropy_gen.Events.{Value, str, Event}
use entropy_gen.Examples.JsonCodec.{codec, read_back}
use entropy_gen.Examples.Cluster.{Store, platform}
use entropy_gen.Operator.Reconciler.{Platform}
use entropy_gen.Operator.Reconciler.Jwt.{agent_claims}
use entropy_gen.Gateway.Bucket.{Float64}
use entropy_gen.Gateway.Limiter.{Limiter, allow_agent}
use entropy_gen.Gateway.Limiter.Isolation.{allow_agent-others}
use entropy_gen.Gateway.Audit.{Queue, truncate_body}
use entropy_gen.Gateway.Audit.Delivery.{Turn, arrives, writes, turns, accepted, turns-order}
use entropy_gen.Gateway.Auth.{JwtParser, Token, Request, Identity}
use entropy_gen.Gateway.Auth.Access.{Hs256}
use entropy_gen.Gateway.Proxy.{
  Route, route, Act, write_header, write, Proxies, Call, serve_http, sent_body, new_recorder,
  run_acts, proxy_max_body_size,
}
use entropy_gen.Gateway.Proxy.Capture.{
  written, last_status, recorder_faithful, response_never_marked, sent_body_whole,
}
use entropy_gen.Gateway.Proxy.Routing.{Served, serve_http-audited}

abbrev agent_one : Text
agent_one = text "agent-one"

abbrev agent_two : Text
agent_two = text "agent-two"

abbrev identity : Identity
identity = record { agent_id = agent_one; agent_role = text "developer" }

abbrev event : Event
event = record {
  event_id = text "e1";
  event_type = text "gateway.heartbeat";
  timestamp = 7;
  agent_id = agent_one;
  agent_role = text "developer";
  payload = none;
}

abbrev queue : Queue
queue = record { events = event ∷ [] }

-- Whole numbers in place of float64.
abbrev whole : Float64 ℕ
whole = record {
  of_int = λ n. n;
  seconds = λ n. n / 1000000000;
  add = λ x y. x + y;
  sub = λ x y. x - y;
  mul = λ x y. x * y;
  div = λ x y. x / y;
  less = ltb;
}

abbrev limiter : Limiter ℕ
limiter = record {
  buckets =
      (agent_one, record { tokens = 0; max_tokens = 2; refill_per_sec = 1; last_refill = 5 }) ∷ [];
  rpm = 60;
  burst = 2;
}

allow_agent-others_example :
    lookup agent_two (allow_agent whole agent_one 9 10 limiter).1.buckets
    ≡ lookup agent_two limiter.buckets
unfolding text text_eq
allow_agent-others_example =
    allow_agent-others whole agent_one agent_two 9 10 limiter (text_eq-ne refl)

abbrev some_turns : List Turn
some_turns = arrives event ∷ writes ∷ arrives event ∷ []

turns-order_example :
    queue.events ++ accepted some_turns queue
    ≡ (turns some_turns queue).1 ++ (turns some_turns queue).0.events
turns-order_example = turns-order some_turns queue

abbrev no_method : Error
no_method = other (text "no such method")

-- A stand-in for a JWT: the payload of the claims, as the codec writes it.
abbrev sign : Text → Dict Value → Text → Result Text
sign alg claims key =
    if text_eq alg (text "HS256") then ok (codec.marshal claims) else err no_method

abbrev text_claim : Option Value → Text
text_claim (some (str s)) = s
text_claim _ = []

abbrev token_of : Option (Dict Value) → Token
token_of none = record { valid = false; claims = λ k. [] }
token_of (some d) = record { valid = true; claims = λ k. text_claim (lookup k d) }

abbrev with_key : Result Text → Text → Result Token
with_key (err e) t = err e
with_key (ok key) t = ok (token_of (codec.unmarshal t))

abbrev parser : JwtParser
parser = record { parse = λ t choose. with_key (choose true (text "HS256")) t }

parser_accepts :
    (claims : Dict Value) (key token : Text) (choose : Bool → Text → Result Text)
    → sign (text "HS256") claims key ≡ ok token
    → choose true (text "HS256") ≡ ok key
    → (t : Token) × (parser.parse token choose ≡ ok t)
      × (t.valid ≡ true)
      × ((name value : Text)
          → lookup name claims ≡ some (str value)
          → true ≡ true
          → t.claims name ≡ value)
unfolding text text_eq
parser_accepts claims key token choose signed chosen =
    let made : codec.marshal claims ≡ token =
      ap (λ (r : Result Text). elim r [ ok t ↦ t | err e ↦ [] ]) signed in
    (
      token_of (some claims),
      ap (λ r. with_key r token) chosen
          ∙ ap (λ t. ok (token_of (codec.unmarshal t))) (sym made)
          ∙ ap (λ d. ok (token_of d)) (read_back claims),
      refl,
      λ name value found good. ap text_claim found,
    )

abbrev operator : Platform Store
operator = record platform { sign = sign }

abbrev laws : Hs256 operator.sign parser
laws = record { is_utf8 = λ s. true; accepts = parser_accepts }

abbrev signed_agent : Text
signed_agent = codec.marshal (agent_claims agent_one (text "developer") 7)

abbrev request : Request
request = record {
  method = text "POST";
  path = text "/git/" ++ text "agents/repo";
  raw_path = [];
  headers = [];
  authorization = text "Bearer " ++ signed_agent;
  body = some (text "{}");
}

abbrev acts : List Act
acts = write_header 201 ∷ write (text "one") ∷ write (text " two") ∷ []

abbrev proxies : Proxies
proxies = record { serve = λ to r. (acts, true) }

abbrev a_call : Call
a_call = record { trace_id = text "t1"; event_id = text "e3"; latency_ms = 12; now = 9 }

recorder_faithful_example :
    ((run_acts (new_recorder true) acts).client ≡ acts)
    × ((run_acts (new_recorder true) acts).status_code ≡ last_status 200 acts)
    × ((run_acts (new_recorder true) acts).buf ≡ take proxy_max_body_size (written acts))
recorder_faithful_example = recorder_faithful acts

response_never_marked_example : (truncate_body (run_acts (new_recorder true) acts).buf).1 ≡ false
response_never_marked_example = response_never_marked acts

sent_body_whole_example :
    ((length (text "{}") ≤ proxy_max_body_size + 1)
      × (sent_body true (some (text "{}")) ≡ some (text "{}")))
    ⊎ ((proxy_max_body_size + 1 < length (text "{}"))
        × (sent_body true (some (text "{}")) ≢ some (text "{}"))
        × ((sent : Text)
            → sent_body true (some (text "{}")) ≡ some sent
            → length sent ≡ proxy_max_body_size + 1))
sent_body_whole_example = sent_body_whole (text "{}")

serve_http-audited_example :
    ((route request ≡ none)
      × (serve_http proxies codec a_call identity request queue
          ≡ (write_header 404 ∷ write (text "Not Found\n") ∷ [], queue)))
    ⊎ ((to : Route) × (route request ≡ some to)
        × Served codec a_call identity request queue to
            (acts, true)
            (serve_http proxies codec a_call identity request queue))
serve_http-audited_example = serve_http-audited proxies codec a_call identity request queue
