-- ===== src/Collector/Pods.antt =====
-- internal/event-collector/k8swatch/pod_watcher.go: Kubernetes events of pods.
pub mod Names
use entropy_gen.Common.{
  ℕ, ◌-◌, Bool, true, false, ◌&&◌, ◌||◌, Option, none, some, List, [], ◌∷◌, if◌then◌else◌, leb,
  length, take, any,
}
use entropy_gen.Common.Text.{Text, text, text_eq, is_empty, split, join}
use entropy_gen.Events.{Value, str, Codec, Event}

pub record KubeEvent : Type 0 where
  pub kind : Text
  pub name : Text
  pub namespace : Text
  pub reason : Text
  pub message : Text

one_of : Text → List Text → Bool
one_of t ts = any (text_eq t) ts

unfoldable pub pod_status_from_reason : Text → Text
unfolding one_of
pod_status_from_reason reason =
    if one_of reason (text "Scheduled" ∷ text "Started" ∷ text "Pulled" ∷ text "Created" ∷ [])
    then text "Running"
    else if one_of reason (text "Failed" ∷ text "BackOff" ∷ text "FailedMount" ∷ [])
    then text "Failed"
    else if text_eq reason (text "OOMKilling")
    then text "OOMKilled"
    else if text_eq reason (text "Killing")
    then text "Terminating"
    else []

abbrev pub first_is : Text → List Text → Bool
first_is t [] = false
first_is t (p ∷ ps) = text_eq p t

unfoldable pub agent_id_from_pod_name : Text → Text
agent_id_from_pod_name pod =
    let parts = split b'-' pod in
    if leb 4 (length parts) && first_is (text "agent") parts
    then join (text "-") (take (length parts - 2) parts)
    else pod

unfoldable pub pod_event : Codec → Text → ℕ → KubeEvent → Text → Event
unfolding agent_id_from_pod_name
pod_event codec id now ke status = record {
  event_id = id;
  event_type = text "k8s.pod_status";
  timestamp = now;
  agent_id = agent_id_from_pod_name ke.name;
  agent_role = [];
  payload = some (
      codec.marshal (
        (text "pod_name", str ke.name)
        ∷ (text "namespace", str ke.namespace)
        ∷ (text "status", str status)
        ∷ (text "reason", str ke.reason)
        ∷ (text "message", str ke.message)
        ∷ []));
}

-- The event that is written to the stream, if any.
unfoldable pub handle_event : Codec → Text → ℕ → KubeEvent → Option Event
unfolding pod_status_from_reason pod_event
handle_event codec id now ke =
    let status = pod_status_from_reason ke.reason in
    if text_eq ke.kind (text "Pod")
    then if is_empty status then none else some (pod_event codec id now ke status)
    else none
