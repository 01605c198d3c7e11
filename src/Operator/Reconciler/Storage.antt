-- ===== src/Operator/Reconciler/Storage.antt =====
-- The objects that a step creates once and then leaves alone (k8s_resources.go): the workspace's
-- PVC, the Service and the ServiceAccount.
use entropy_gen.Common.{Option, none, some, List, [], ◌∷◌, ◌++◌, if◌then◌else◌}
use entropy_gen.Common.Text.{Text, text, is_empty}
use entropy_gen.Common.Fallible.{err}
use entropy_gen.Operator.Types.{Agent, AgentMemory}
use entropy_gen.Operator.Objects.{
  Kind, volume_claim, service, service_account, Key, Object, Meta, VolumeClaim, Service,
  ServiceAccount, KubeClient,
}
use entropy_gen.Operator.Reconciler.{
  Platform, Config, Step, ◌>>=◌, return, call, Fetched, found, missing, failed, fetch,
}

-- fmt.Sprintf "agent-%s" with a suffix behind it
abbrev pub agent_name : Agent → Text → Text
agent_name a suffix = text "agent-" ++ (a.name ++ suffix)

-- The metadata of an object of the agent, with the owner reference that
-- SetControllerReference adds.
abbrev pub owned_meta : Agent → Text → Option (List (Text × Text)) → Meta
owned_meta a name annotations = record {
  name = name;
  namespace = a.namespace;
  owner = some a.name;
  annotations = annotations;
}

abbrev pub agent_key : Agent → Text → Key
agent_key a name = record { namespace = a.namespace; name = name }

-- Runs a call for its effect.
abbrev pub void : {W A : Type 0} → Step W A → Step W (Unit {0})
void m = m >>= λ _. return tt

-- `if err == nil { return nil }; if !errors.IsNotFound(err) { return … }`, and then the creation.
-- `blame` puts the step's own text around the error of the Get.
unfoldable pub unless_found :
    {W A : Type 0}
    → (Step W (Unit {0}) → Step W (Unit {0}))
    → Step W (Unit {0})
    → Fetched A
    → Step W (Unit {0})
unless_found blame make (found o) = return tt
unless_found blame make missing = make
unless_found blame make (failed e) = blame (λ s. (err e, s))

unfoldable pub create_once :
    {W : Type 0}
    → KubeClient W
    → (k : Kind) → (Step W (Unit {0}) → Step W (Unit {0}))
    → Key
    → Step W (Object k)
    → Step W (Unit {0})
unfolding unless_found
create_once kube k blame key make = do
  got ← fetch kube k key
  unless_found blame (do o ← make; void (call (kube.create k o))) got

abbrev size_of : Option AgentMemory → Text
size_of none = text "1Gi"
size_of (some m) = if is_empty m.storage_size then text "1Gi" else m.storage_size

-- The class of the agent, or else the platform's, or else none.
unfoldable pub default_class : Text → Option Text
default_class d = if is_empty d then none else some d

unfoldable pub class_of : Option AgentMemory → Text → Option Text
unfolding default_class
class_of none d = default_class d
class_of (some m) d = if is_empty m.storage_class then default_class d else some m.storage_class

unfoldable pub workspace_claim : Agent → Text → VolumeClaim
unfolding class_of
workspace_claim a d = record {
  meta = owned_meta a (agent_name a (text "-workspace")) none;
  storage_request = size_of a.spec.memory;
  storage_class = class_of a.spec.memory d;
}

unfoldable pub observe_service : Agent → Service
observe_service a =
    let name = agent_name a [] in
    record {
      meta = owned_meta a name none;
      selector = (text "app", name) ∷ [];
      ports = record { name = text "observe"; port = 8081 } ∷ [];
    }

unfoldable pub agent_account : Agent → ServiceAccount
agent_account a = record { meta = owned_meta a (agent_name a []) none }

module _ {W : Type 0} (p : Platform W) (c : Config) where
  unfoldable pub ensure_pvc : Step W (Unit {0})
  unfolding create_once
  ensure_pvc s =
      create_once p.kube volume_claim (λ m. m)
        (agent_key s.agent (agent_name s.agent (text "-workspace")))
        (return (workspace_claim s.agent c.default_storage_class)) s

module _ {W : Type 0} (p : Platform W) where
  unfoldable pub ensure_service : Step W (Unit {0})
  unfolding create_once
  ensure_service s =
      create_once p.kube service (λ m. m) (agent_key s.agent (agent_name s.agent []))
        (return (observe_service s.agent)) s

  unfoldable pub ensure_service_account : Step W (Unit {0})
  unfolding create_once
  ensure_service_account s =
      create_once p.kube service_account (λ m. m) (agent_key s.agent (agent_name s.agent []))
        (return (agent_account s.agent)) s
