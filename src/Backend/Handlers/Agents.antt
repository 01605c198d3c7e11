-- ===== src/Backend/Handlers/Agents.antt =====
-- internal/backend/handler/agents.go: the answers on agents, the assignment of issues, and what is
-- added to agents that are shown.
use entropy_gen.Common.{
  ℕ, Bool, true, false, Option, none, some, List, [], ◌∷◌, ◌++◌, if◌then◌else◌,
}
use entropy_gen.Common.Text.{Text, text, is_empty, split, join}
use entropy_gen.Common.Dict.{Dict, lookup}
use entropy_gen.Common.Fallible.{message, Result, ok, err, Action}
use entropy_gen.Events.{Event}
use entropy_gen.GiteaClient.Issues.{IssueSdk, IssueResult}
use entropy_gen.Operator.Types.{Agent, AgentSpec, CurrentTask, AgentLastAction}
use entropy_gen.Observer.DiffStat.{trim_space}
use entropy_gen.Backend.Agents.{
  AgentClient, list_agents, get_agent, create_agent, update_agent, delete_agent_named, set_paused,
  get_logs, reset_memory,
}
use entropy_gen.Backend.Handlers.{Answer, success, failure, respond, with_body}
use entropy_gen.Backend.Handlers.Roles.{bad_request, failure_500}
use entropy_gen.Backend.Handlers.Specs.{Flat, unmarshal_agent_spec}

pub record AgentSummary : Type 0 where
  pub today_tokens : ℕ
  pub total_tokens : ℕ
  pub last_description : Text
  pub last_timestamp : ℕ

pub record AssignIssueRequest : Type 0 where
  pub repo : Text
  pub title : Text
  pub body : Text
  pub labels : List Text
  pub priority : Text

-- A nil client is `none`; token counts are below 2^63, where uint64 and int64 agree. `summaries` is GetAgentSummaries; `fetch_task` is the GET of an observer's
-- /state: no task where it fails in any way; `assigned_payload` is json.Marshal of the payload;
-- `fuel` bounds the pages of labels.
pub record AgentHandler (W : Type 0) : Type 0 where
  pub client : AgentClient W
  pub gitea : Option (IssueSdk W)
  pub write : Option (Text → Event → ℕ → Action W (Unit {0}))
  pub summaries : Option (Action W (Dict AgentSummary))
  pub fetch_task : Text → W → Option CurrentTask × W
  pub decode_spec : Text → Result AgentSpec
  pub decode_flat : Text → Flat
  pub assigned_payload : AssignIssueRequest → IssueResult → Text → Text
  pub new_id : W → Text × W
  pub now : W → ℕ × W
  pub namespace : Text
  pub fuel : ℕ

abbrev pub sidecar_port : Text
sidecar_port = text "8081"

abbrev pub action_shown : AgentSummary → Option AgentLastAction → Option AgentLastAction
action_shown s old =
    if is_empty s.last_description
    then old
    else some (record { description = s.last_description; timestamp = s.last_timestamp })

unfoldable pub summarized : Option AgentSummary → Agent → Agent
summarized none a = a
summarized (some s) a = record a {
  status = record a.status {
    token_usage = some (record { today = s.today_tokens; total = s.total_tokens });
    last_action = action_shown s a.status.last_action;
  };
}

unfoldable pub summarize_all : Dict AgentSummary → List Agent → List Agent
unfolding summarized lookup
summarize_all found [] = []
summarize_all found (a ∷ rest) =
    summarized (lookup (text "agent-" ++ a.name) found) a ∷ summarize_all found rest

abbrev pub summaries_or_none : Result (Dict AgentSummary) → Dict AgentSummary
summaries_or_none (ok found) = found
summaries_or_none (err e) = []

abbrev pub with_task : Option CurrentTask → Agent → Agent
with_task none a = a
with_task (some t) a = record a { status = record a.status { current_task = some t } }

-- strings.SplitN with 2, of which the separator may be missing
abbrev pub in_two : Text → List Text → Option (Text × Text)
in_two sep [] = none
in_two sep (a ∷ []) = none
in_two sep (a ∷ b ∷ more) = some (a, join sep (b ∷ more))

pub record RuntimeEntry : Type 0 where
  pub type : Text
  pub image : Text
  pub default : Bool

unfoldable pub runtime_of : Option (Text × Text) → List RuntimeEntry → List RuntimeEntry
runtime_of none rest = rest
runtime_of (some parts) rest = record { type = parts.0; image = parts.1; default = false } ∷ rest

unfoldable pub extra_runtimes : List Text → List RuntimeEntry
unfolding runtime_of split trim_space join
extra_runtimes [] = []
extra_runtimes (e ∷ es) =
    runtime_of (in_two (text "=") (split b'=' (trim_space e))) (extra_runtimes es)

-- RuntimeTypes, given AGENT_RUNTIME_IMAGE and AGENT_RUNTIME_TYPES.
unfoldable pub runtime_types : Text → Text → List RuntimeEntry
unfolding extra_runtimes split
runtime_types image extra =
    record {
      type = text "openclaw";
      image = if is_empty image then text "registry.local/agent-runtime:latest" else image;
      default = true;
    }
    ∷ (if is_empty extra then [] else extra_runtimes (split b',' extra))

module _ {W : Type 0} (h : AgentHandler W) where
  abbrev pub state_url : Agent → Text
  state_url a =
      text "http://agent-"
      ++ (a.name
          ++ (text "." ++ (h.namespace ++ (text ".svc:" ++ (sidecar_port ++ text "/state")))))

  -- enrichCurrentTasks: the requests run side by side, each for its own agent.
  unfoldable pub enrich_tasks : List Agent → W → List Agent × W
  enrich_tasks [] w = ([], w)
  enrich_tasks (a ∷ rest) w =
      let fetched = h.fetch_task (state_url a) w in
      let more = enrich_tasks rest fetched.1 in (with_task fetched.0 a ∷ more.0, more.1)

  unfoldable pub enrich_summaries :
      Option (Action W (Dict AgentSummary)) → List Agent → W → List Agent × W
  unfolding summarize_all
  enrich_summaries none agents w = (agents, w)
  enrich_summaries (some query) agents w =
      let found = query w in (summarize_all (summaries_or_none found.0) agents, found.1)

  unfoldable pub enrich_agents : List Agent → W → List Agent × W
  unfolding enrich_tasks enrich_summaries
  enrich_agents [] w = ([], w)
  enrich_agents (a ∷ rest) w =
      let s = enrich_summaries h.summaries (a ∷ rest) w in enrich_tasks s.0 s.1

  unfoldable pub shown : Result (List Agent) × W → Answer (List Agent) × W
  unfolding enrich_agents
  shown (ok agents, w) = let e = enrich_agents agents w in (success 200 e.0, e.1)
  shown (err e, w) = (failure_500 (text "LIST_FAILED") e, w)

  unfoldable pub handle_list : W → Answer (List Agent) × W
  unfolding shown
  handle_list w = shown (list_agents h.client w)

  unfoldable pub shown_one : Text → Result Agent × W → Answer (List Agent) × W
  unfolding enrich_agents
  shown_one name (ok a, w) = let e = enrich_agents (a ∷ []) w in (success 200 e.0, e.1)
  shown_one name (err e, w) = (
    failure 404 (text "AGENT_NOT_FOUND") (text "agent not found")
        (text "agent '" ++ (name ++ text "' not found")),
    w,
  )

  unfoldable pub handle_get : Text → W → Answer (List Agent) × W
  unfolding shown_one
  handle_get name w = shown_one name (get_agent h.client name w)

  unfoldable pub spec_of : Text → Result AgentSpec
  unfolding unmarshal_agent_spec
  spec_of raw = unmarshal_agent_spec h.decode_spec h.decode_flat raw

  -- The bound body is the name and the raw spec.
  unfoldable pub handle_create : Result (Text × Text) → W → Answer Agent × W
  unfolding with_body spec_of
  handle_create body w =
      with_body bad_request body
        (λ b.
          with_body (λ e. failure 400 (text "INVALID_SPEC") (message e) []) (spec_of b.1)
            (λ spec v.
              respond (success 201) (failure_500 (text "CREATE_FAILED"))
                (create_agent h.client b.0 spec v)))
        w

  unfoldable pub handle_update : Text → Text → W → Answer Agent × W
  unfolding with_body spec_of
  handle_update name raw w =
      with_body bad_request (spec_of raw)
        (λ spec v.
          respond (success 200) (failure_500 (text "UPDATE_FAILED"))
            (update_agent h.client name spec v))
        w

  unfoldable pub handle_delete : Text → W → Answer (Unit {0}) × W
  handle_delete name w =
      respond (success 200) (failure_500 (text "DELETE_FAILED"))
        (delete_agent_named h.client name w)

  unfoldable pub handle_pause : Text → W → Answer Agent × W
  handle_pause name w =
      respond (success 200) (failure_500 (text "PAUSE_FAILED")) (set_paused h.client name true w)

  unfoldable pub handle_resume : Text → W → Answer Agent × W
  handle_resume name w =
      respond (success 200) (failure_500 (text "RESUME_FAILED")) (set_paused h.client name false w)

  unfoldable pub handle_logs : Text → W → Answer Text × W
  handle_logs name w =
      respond (success 200) (failure_500 (text "LOGS_FAILED")) (get_logs h.client name 200 w)

  unfoldable pub handle_reset_memory : Text → W → Answer (Unit {0}) × W
  handle_reset_memory name w =
      respond (success 200)
        (λ e.
          failure 500 (text "RESET_MEMORY_FAILED") (text "failed to reset agent memory")
            (message e))
        (reset_memory h.client name w)
