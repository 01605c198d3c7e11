-- ===== src/Operator/Types.antt =====
-- internal/operator/api/types.go: the Agent resource. A pointer field is an Option; of the float
-- Temperature, which nothing here reads, there is no field. Times are numbers.
use entropy_gen.Common.{ℕ, Bool, List, Option}
use entropy_gen.Common.Text.{Text}

pub record AgentEnvVar : Type 0 where
  pub name : Text
  pub value : Text

pub record AgentRuntime : Type 0 where
  pub type : Text
  pub image : Text
  pub env : List AgentEnvVar

pub record AgentLlm : Type 0 where
  pub model : Text
  pub max_tokens : ℕ

pub record AgentGitea : Type 0 where
  pub username : Text
  pub email : Text
  pub permissions : List Text
  pub repos : List Text

pub record AgentKubernetes : Type 0 where
  pub namespace_access : List Text
  pub rbac_role : Text

pub record ResourceRequirements : Type 0 where
  pub cpu : Text
  pub memory : Text

pub record AgentResources : Type 0 where
  pub requests : Option ResourceRequirements
  pub limits : Option ResourceRequirements

pub record AgentMemory : Type 0 where
  pub storage_size : Text
  pub storage_class : Text

pub record AgentSpec : Type 0 where
  pub role : Text
  pub display_name : Text
  pub runtime : Option AgentRuntime
  pub llm : Option AgentLlm
  pub gitea : Option AgentGitea
  pub kubernetes : Option AgentKubernetes
  pub resources : Option AgentResources
  pub memory : Option AgentMemory
  pub paused : Bool

pub record AgentCondition : Type 0 where
  pub type : Text
  pub status : Text
  pub reason : Text
  pub message : Text
  pub last_transition_time : ℕ

pub record GiteaUserStatus : Type 0 where
  pub created : Bool
  pub username : Text
  pub token_secret_ref : Text

pub record AgentLastAction : Type 0 where
  pub description : Text
  pub timestamp : ℕ

pub record AgentTokenUsage : Type 0 where
  pub today : ℕ
  pub total : ℕ

pub record CurrentTask : Type 0 where
  pub type : Text
  pub number : ℕ
  pub title : Text
  pub repo : Text

pub record AgentStatus : Type 0 where
  pub phase : Text
  pub conditions : List AgentCondition
  pub gitea_user : Option GiteaUserStatus
  pub last_action : Option AgentLastAction
  pub token_usage : Option AgentTokenUsage
  pub current_task : Option CurrentTask
  pub pod_name : Text
  pub started_at : Option ℕ

-- The metadata that the operator reads stands beside spec and status.
pub record Agent : Type 0 where
  pub name : Text
  pub namespace : Text
  pub deletion_timestamp : Option ℕ
  pub finalizers : List Text
  pub spec : AgentSpec
  pub status : AgentStatus
