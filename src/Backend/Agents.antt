-- ===== src/Backend/Agents.antt =====
-- internal/backend/k8sclient/agent_cr.go: the backend's access to Agent resources and their pods.
pub mod Updates
use entropy_gen.Common.{ℕ, ◌≡◌, Bool, false, Option, none, some, List, [], ◌∷◌, ◌++◌, if◌then◌else◌}
use entropy_gen.Common.Text.{Text, text}
use entropy_gen.Common.Fallible.{Error, other, wrap, Result, ok, err, Action}
use entropy_gen.Common.Actions.{◌>>=◌, ◌>>◌, return, lift, fail, attempt, wrapping}
use entropy_gen.GiteaClient.{quoted}
use entropy_gen.Operator.Types.{Agent, AgentSpec, AgentStatus}
use entropy_gen.Operator.Objects.{KubeClient, Key, agent_kind}

-- The controller-runtime client, with the two calls that the operator does not use.
pub record AgentApi (W : Type 0) : Type 0 where
  pub kube : KubeClient W
  pub list_in : Text → Action W (List Agent)
  pub delete_agent : Agent → Action W (Unit {0})

-- The clientset on pods: names by label, a log stream and its text, the deletion, and the exec API
-- with what the command writes on stderr. Streams and executors are numbers.
pub record PodApi (W : Type 0) : Type 0 where
  pub pods_labelled : Text → Action W (List Text)
  pub open_logs : Text → Text → ℕ → Action W ℕ
  pub read_logs : ℕ → Action W Text
  pub delete_pod : Text → Action W (Unit {0})
  pub new_executor : Text → Text → List Text → Action W ℕ
  pub stream : ℕ → W → (Result (Unit {0}) × Text) × W

-- A nil client is `none`.
pub record AgentClient (W : Type 0) : Type 0 where
  pub api : Option (AgentApi W)
  pub pods : Option (PodApi W)
  pub has_rest_config : Bool
  pub namespace : Text

abbrev pub no_status : AgentStatus
no_status = record {
  phase = [];
  conditions = [];
  gitea_user = none;
  last_action = none;
  token_usage = none;
  current_task = none;
  pod_name = [];
  started_at = none;
}

abbrev pub runtime_container : Text
runtime_container = text "agent-runtime"

abbrev pub clear_command : List Text
clear_command = text "sh" ∷ text "-c" ∷ text "rm -rf /home/node/.openclaw/workspace/*" ∷ []

-- What there is of a client, or the error that there is none.
unfoldable pub required : {W A : Type 0} → Text → Option A → Action W A
required t none = fail (other t)
required t (some a) = return a

abbrev pub first_pod : Text → List Text → Result Text
first_pod name [] = err (other (text "no pods found for agent " ++ quoted name))
first_pod name (p ∷ ps) = ok p

module _ {W : Type 0} (a : AgentClient W) where
  unfoldable pub ensure_client : Action W (AgentApi W)
  unfolding required
  ensure_client = required (text "k8s client not available") a.api

  unfoldable pub list_agents : Action W (List Agent)
  unfolding ensure_client
  list_agents = do api ← ensure_client; wrapping (text "list agents") (api.list_in a.namespace)

  unfoldable pub get_agent : Text → Action W Agent
  unfolding ensure_client
  get_agent name = do
    api ← ensure_client
    wrapping (text "get agent " ++ name)
        (api.kube.get agent_kind (record { namespace = a.namespace; name = name }))

  unfoldable pub create_agent : Text → AgentSpec → Action W Agent
  unfolding ensure_client
  create_agent name spec = do
    api ← ensure_client
    wrapping (text "create agent " ++ name) (
        api.kube.create agent_kind (record {
          name = name;
          namespace = a.namespace;
          deletion_timestamp = none;
          finalizers = [];
          spec = spec;
          status = no_status;
        }))

  unfoldable pub update_agent : Text → AgentSpec → Action W Agent
  unfolding ensure_client get_agent
  update_agent name spec = do
    api ← ensure_client
    agent ← get_agent name
    wrapping (text "update agent " ++ name)
        (api.kube.update agent_kind (record agent { spec = spec }))

  unfoldable pub delete_agent_named : Text → Action W (Unit {0})
  unfolding ensure_client get_agent
  delete_agent_named name = do api ← ensure_client; agent ← get_agent name; api.delete_agent agent

  unfoldable pub set_paused : Text → Bool → Action W Agent
  unfolding ensure_client get_agent
  set_paused name paused = do
    api ← ensure_client
    agent ← get_agent name
    wrapping (text "set paused on agent " ++ name)
        (api.kube.update agent_kind (record agent { spec = record agent.spec { paused = paused } }))

  unfoldable pub set_status_phase : Text → Text → Action W (Unit {0})
  unfolding ensure_client get_agent
  set_status_phase name phase = do
    api ← ensure_client
    agent ← get_agent name
    stored ←
        api.kube.update_status (record agent { status = record agent.status { phase = phase } })
    return tt

  unfoldable pub find_agent_pod : PodApi W → Text → Action W Text
  find_agent_pod pods name = do
    found ←
        wrapping (text "list pods for agent " ++ name)
          (pods.pods_labelled (text "app=agent-" ++ name))
    lift (first_pod name found)

  unfoldable pub exec_in_pod : PodApi W → Text → Text → List Text → Action W (Unit {0})
  exec_in_pod pods pod container command = do
    exec ← wrapping (text "create exec for pod " ++ pod) (pods.new_executor pod container command)
    λ w.
        let s = pods.stream exec w in
        wrapping (text "exec in pod " ++ (pod ++ (text " failed (stderr: " ++ (s.0.1 ++ text ")"))))
          (lift s.0.0) s.1

  unfoldable pub get_logs : Text → ℕ → Action W Text
  unfolding ensure_client find_agent_pod required
  get_logs name tail_lines = do
    api ← ensure_client
    pods ← required (text "k8s clientset not configured for log access") a.pods
    pod ← find_agent_pod pods name
    opened ←
        wrapping (text "log stream for agent " ++ name)
          (pods.open_logs pod runtime_container tail_lines)
    wrapping (text "read logs for agent " ++ name) (pods.read_logs opened)

  unfoldable pub reset_memory : Text → Action W (Unit {0})
  unfolding ensure_client get_agent find_agent_pod exec_in_pod required
  reset_memory name = do
    api ← ensure_client
    pods ← required (text "k8s clientset not configured for pod operations") a.pods
    lift (
        if a.has_rest_config
        then ok tt
        else err (other (text "rest config not configured for exec operations")))
    agent ← get_agent name
    pod ← find_agent_pod pods name
    wrapping (text "clear workspace for agent " ++ name)
        (exec_in_pod pods pod runtime_container clear_command)
    wrapping (text "delete pod for agent " ++ name) (pods.delete_pod pod)
