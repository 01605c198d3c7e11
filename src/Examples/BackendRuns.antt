-- ===== src/Examples/BackendRuns.antt =====
-- Concrete runs of internal/backend, internal/event-collector and the pusher.
use entropy_gen.Common.{
  ℕ, zero, suc, ◌<◌, ◌≡◌, ◌⊎◌, refl, true, false, none, some, List, [], ◌∷◌, ◌++◌, arith,
}
use entropy_gen.Common.Text.{text}
use entropy_gen.Common.Fallible.{other, ok, err}
use entropy_gen.Gateway.Audit.{RequestRecord, request_event}
use entropy_gen.ChWriter.{Message, Store, max_retries, present, ids_of, flush}
use entropy_gen.ChWriter.Trace.{AuditTrace, event_to_trace}
use entropy_gen.ChWriter.Agreement.{row_of, row_of_request}
use entropy_gen.ChWriter.Flushing.{Failed, Traced, Inserted, Dumped, flush_outcome}
use entropy_gen.Collector.Pods.{agent_id_from_pod_name}
use entropy_gen.Collector.Pods.Names.{agent_id_from_pod_name-found}
use entropy_gen.Collector.Webhook.{Tools, Delivery, serve_http}
use entropy_gen.Collector.Webhook.Answers.{Answered, serve_http-Answered}
use entropy_gen.WsPush.{Pusher, is_registered}
use entropy_gen.WsPush.Hub.{Op, registers, unregisters, broadcasts, pumps, IsSafe, run, run-IsSafe}
use entropy_gen.Examples.JsonCodec.{codec, codec-RoundTrips}

abbrev a_request : RequestRecord
a_request = record {
  trace_id = text "t1";
  event_type = text "gateway.llm_inference";
  agent_id = text "agent-one";
  agent_role = text "developer";
  method = text "POST";
  path = text "/v1/chat/completions";
  status = 200;
  latency_ms = 120;
  req_body = text "{}";
  resp_body = text "{\"ok\":true}";
  is_llm = true;
}

row_of_request_example :
    event_to_trace codec (text "a") (text "b") (request_event codec (text "e") 7 a_request)
    ≡ row_of codec (text "a") (text "b") 7 a_request
row_of_request_example =
    row_of_request codec (text "a") (text "b") (text "e") 7 a_request codec-RoundTrips (omega arith)
      (omega arith)

-- A store whose world counts the calls; the first insert fails.
abbrev store : Store ℕ
store = record {
  prepare_batch =
      λ n. elim n [ zero ↦ (err (other (text "refused")), 1) | suc m ↦ (ok tt, suc (suc m)) ];
  append_struct = λ t n. (ok tt, suc n);
  send_batch = λ n. (ok tt, suc n);
  ack = λ stream ids n. suc n;
  make_dlq_dir = λ n. (ok tt, n);
  create_dlq_file = λ stream n. (ok tt, n);
  encode_line = λ e n. n;
  sleep = λ seconds n. n;
  new_ids = λ n. ((text "a", text "b"), n);
  codec = codec;
}

abbrev message : Message
message = record { id = text "1-0"; event = some (request_event codec (text "e") 7 a_request) }

flush_outcome_example :
    (traces : List AuditTrace) × (start : ℕ) × Traced store (present (message ∷ [])) 0 traces start
    × (((k : ℕ) × (v : ℕ) × (w' : ℕ) × (k < max_retries)
          × Failed store traces k 0 start v
          × Inserted store traces v w'
          × (flush store (text "events:gateway") (message ∷ []) 0
              ≡ store.ack (text "events:gateway") (ids_of (message ∷ [])) w'))
        ⊎ ((w' : ℕ) × (w'' : ℕ) × Failed store traces max_retries 0 start w'
            × Dumped store (text "events:gateway") (present (message ∷ [])) w' w''
            × (flush store (text "events:gateway") (message ∷ []) 0
                ≡ store.ack (text "events:gateway") (ids_of (message ∷ [])) w'')))
flush_outcome_example = flush_outcome store (text "events:gateway") message [] 0

agent_id_from_pod_name-found_example :
    agent_id_from_pod_name
      (((text "agent-" ++ text "my-bot") ++ (b'-' ∷ text "7d4b9")) ++ (b'-' ∷ text "x2x"))
    ≡ text "agent-" ++ text "my-bot"
unfolding text
agent_id_from_pod_name-found_example =
    agent_id_from_pod_name-found (text "my-bot") (text "7d4b9") (text "x2x")
      (refl, (refl, (refl, (refl, (refl, tt))))) (refl, (refl, (refl, tt)))

abbrev tools : Tools
tools = record {
  mac_hex = λ secret body. secret ++ body;
  action = λ body. ok (text "opened");
  pull = λ body. ok (text "opened", false);
  strip_diffs = λ body. none;
  decimal = λ n. n ∷ [];
}

abbrev delivery : Delivery
delivery = record {
  body = ok (text "{}");
  signature = text "sha256=k{}";
  event_name = text "issues";
}

serve_http-Answered_example :
    Answered tools
      (text "k")
      (text "e")
      7
      delivery
      (serve_http tools (text "k") (text "e") 7 delivery)
serve_http-Answered_example = serve_http-Answered tools (text "k") (text "e") 7 delivery

abbrev ops : List Op
ops =
    registers 1 (text "agent-one")
    ∷ broadcasts (text "agent-one") (text "m")
    ∷ pumps 1
    ∷ unregisters 1
    ∷ unregisters 1
    ∷ []

abbrev hub : Pusher
hub = record { clients = []; closed = [] }

run-IsSafe_example : IsSafe (run ops hub)
unfolding is_registered
run-IsSafe_example =
    run-IsSafe ops hub ((refl, refl), (tt, (tt, (tt, (tt, tt))))) (tt, (λ n h. refl), tt)
