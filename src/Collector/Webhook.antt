-- ===== src/Collector/Webhook.antt =====
-- internal/event-collector/webhook/gitea_handler.go. HMAC, hex and the JSON decoder are parameters.
pub mod Answers
use entropy_gen.Common.{
  ℕ, ◌*◌, Bool, true, false, ◌&&◌, Option, none, some, List, [], ◌∷◌, ◌++◌, if◌then◌else◌, leb,
  length,
}
use entropy_gen.Common.Text.{Text, text, text_eq, is_empty, trim_prefix}
use entropy_gen.Common.Fallible.{Error, Result, ok, err}
use entropy_gen.Events.{Event}

abbrev pub push_max_bytes : ℕ
push_max_bytes = 4096

abbrev pub default_max_bytes : ℕ
default_max_bytes = 16384

-- hex(HMAC-SHA256(secret, body)); json.Unmarshal of the body into a struct of the action, and into
-- one of the action and the pull request's flag merged; the body without the commits' diffs, or
-- `none` if it is no JSON object; and the digits of %d.
pub record Tools : Type 0 where
  pub mac_hex : Text → Text → Text
  pub action : Text → Result Text
  pub pull : Text → Result (Text × Bool)
  pub strip_diffs : Text → Option Text
  pub decimal : ℕ → Text

unfoldable pub truncate_payload : Tools → Text → ℕ → Text
truncate_payload tools body max_bytes =
    if leb (length body) max_bytes
    then body
    else text "{\"_truncated\":true,\"_original_size\":"
      ++ (tools.decimal (length body) ++ text "}")

stripped_or_truncated : Tools → Text → Option Text → Text
unfolding truncate_payload
stripped_or_truncated tools body none = truncate_payload tools body push_max_bytes
stripped_or_truncated tools body (some stripped) = stripped

unfoldable pub truncate_push_payload : Tools → Text → Text
unfolding stripped_or_truncated
truncate_push_payload tools body =
    if leb (length body) push_max_bytes
    then body
    else stripped_or_truncated tools body (tools.strip_diffs body)

unfoldable pub verify_signature : Tools → Text → Text → Text → Bool
verify_signature tools secret body header =
    if is_empty secret
    then true
    else text_eq (tools.mac_hex secret body) (trim_prefix header (text "sha256="))

-- The type and the payload of the event; `none` for what is passed over.
abbrev pub Parsed : Type 0
Parsed = Result (Option (Text × Text))

unfoldable pub issue_type : Text → Option Text
issue_type action =
    if text_eq action (text "opened")
    then some (text "gitea.issue_open")
    else if text_eq action (text "closed")
    then some (text "gitea.issue_close")
    else none

unfoldable pub pull_type : Text → Bool → Option Text
pull_type action merged =
    if text_eq action (text "closed") && merged
    then some (text "gitea.pr_merge")
    else if text_eq action (text "opened")
    then some (text "gitea.pr_open")
    else none

abbrev pub with_type : Text → Option Text → Option (Text × Text)
with_type payload none = none
with_type payload (some t) = some (t, payload)

abbrev pub by_action : {A : Type 0} → Text → (A → Option Text) → Result A → Parsed
by_action payload type_of (err e) = err e
by_action payload type_of (ok a) = ok (with_type payload (type_of a))

unfoldable pub parse_event : Tools → Text → Text → Parsed
unfolding truncate_push_payload issue_type pull_type
parse_event tools name body =
    let payload = truncate_payload tools body default_max_bytes in
    if text_eq name (text "push")
    then ok (some (text "gitea.push", truncate_push_payload tools body))
    else if text_eq name (text "issues")
    then by_action payload issue_type (tools.action body)
    else if text_eq name (text "issue_comment")
    then ok (some (text "gitea.issue_comment", payload))
    else if text_eq name (text "pull_request")
    then by_action payload (λ a. pull_type a.0 a.1) (tools.pull body)
    else if text_eq name (text "pull_request_review_comment")
    then ok (some (text "gitea.pr_review", payload))
    else if text_eq name (text "workflow_run")
    then ok (some (text "gitea.ci_status", payload))
    else ok none

-- The handler's inputs: the body as read, at most 1 MiB of it, or an error, and the two headers.
pub record Delivery : Type 0 where
  pub body : Result Text
  pub signature : Text
  pub event_name : Text

-- The status, and the event that is written to the stream behind the answer.
abbrev pub Answer : Type 0
Answer = ℕ × Option Event

unfoldable pub answer_parsed : Text → ℕ → Parsed → Answer
answer_parsed id now (err e) = (200, none)
answer_parsed id now (ok none) = (200, none)
answer_parsed id now (ok (some (t, payload))) = (
  200,
  some (record {
    event_id = id;
    event_type = t;
    timestamp = now;
    agent_id = [];
    agent_role = [];
    payload = some payload;
  }),
)

unfoldable pub answer_body : Tools → Text → Text → ℕ → Delivery → Result Text → Answer
unfolding verify_signature parse_event answer_parsed
answer_body tools secret id now d (err e) = (400, none)
answer_body tools secret id now d (ok body) =
    if verify_signature tools secret body d.signature
    then answer_parsed id now (parse_event tools d.event_name body)
    else (403, none)

unfoldable pub serve_http : Tools → Text → Text → ℕ → Delivery → Answer
unfolding answer_body
serve_http tools secret id now d = answer_body tools secret id now d d.body
