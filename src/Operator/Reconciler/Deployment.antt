-- ===== src/Operator/Reconciler/Deployment.antt =====
-- The agent's Deployment: buildDeployment and EnsureDeployment of k8s_resources.go.
use entropy_gen.Common.{
  Bool, true, false, Option, none, some, List, [], ◌∷◌, ◌++◌, map, if◌then◌else◌,
}
use entropy_gen.Common.Text.{Text, text, is_empty, join}
use entropy_gen.Common.Dict.{Dict, lookup}
use entropy_gen.Common.Fallible.{err}
use entropy_gen.Operator.Types.{
  Agent, AgentRuntime, AgentLlm, AgentGitea, AgentResources, ResourceRequirements,
}
use entropy_gen.Operator.Objects.{
  config_map, deployment, ConfigMap, Deployment, Requirements, EnvVar, VolumeMount, Volume,
  VolumeSource, config_map_volume, secret_volume, claim_volume,
}
use entropy_gen.Operator.Reconciler.RoleDir.{RoleData}
use entropy_gen.Operator.Reconciler.{
  Platform, Config, Step, ◌>>=◌, call, Fetched, found, missing, failed, fetch,
}
use entropy_gen.Operator.Reconciler.Storage.{agent_name, owned_meta, agent_key, void}
use entropy_gen.Operator.Reconciler.ConfigMaps.{
  build_skill_items, extra_files_of, hash_annotation, set_hash,
}

-- The image of the agent's runtime; the table runtimeImages holds only empty images, so what is not
-- set falls back to the environment's image and then to the built-in one.
abbrev fallback_image : Text → Text
fallback_image env_image =
    if is_empty env_image then text "registry.local/agent-runtime:latest" else env_image

unfoldable pub agent_runtime_image : Option AgentRuntime → Text → Text
agent_runtime_image none env_image = fallback_image env_image
agent_runtime_image (some r) env_image =
    if is_empty r.image then fallback_image env_image else r.image

abbrev quantity_entry : Text → Text → Dict Text
quantity_entry name quantity = if is_empty quantity then [] else (name, quantity) ∷ []

unfoldable pub quantities : Option ResourceRequirements → Option (Dict Text)
quantities none = none
quantities (some r) =
    some (quantity_entry (text "cpu") r.cpu ++ quantity_entry (text "memory") r.memory)

unfoldable pub build_resource_requirements : Option AgentResources → Requirements
unfolding quantities
build_resource_requirements none = record { requests = none; limits = none }
build_resource_requirements (some r) = record {
  requests = quantities r.requests;
  limits = quantities r.limits;
}

abbrev model_of : Option AgentLlm → Text
model_of none = []
model_of (some l) = l.model

abbrev joined_repos : Option AgentGitea → Text
joined_repos none = []
joined_repos (some g) = join (text ",") g.repos

abbrev runtime_env : Option AgentRuntime → List EnvVar
runtime_env none = []
runtime_env (some r) = map (λ e. record { name = e.name; value = e.value }) r.env

abbrev env_var : Text → Text → EnvVar
env_var name value = record { name = name; value = value }

unfoldable pub env_vars : Agent → Config → List EnvVar
env_vars a c =
    (env_var (text "AGENT_ID") (text "agent-" ++ a.name)
      ∷ env_var (text "AGENT_ROLE") a.spec.role
      ∷ env_var (text "LLM_BASE_URL") c.llm_base_url
      ∷ env_var (text "LLM_API_KEY") c.llm_api_key
      ∷ env_var (text "LLM_MODEL") (model_of a.spec.llm)
      ∷ env_var (text "GITEA_BASE_URL") c.gitea_url
      ∷ env_var (text "GITEA_TOKEN_FILE") (text "/agent/secrets/gitea-token")
      ∷ env_var (text "GITEA_REPOS") (joined_repos a.spec.gitea)
      ∷ env_var (text "WORKSPACE_DIR") (text "/workspace")
      ∷ env_var (text "REDIS_ADDR") c.redis_addr
      ∷ env_var (text "GATEWAY_URL") c.gateway_url
      ∷ [])
    ++ runtime_env a.spec.runtime

abbrev mount : Text → Text → Text → Bool → VolumeMount
mount name path sub read_only = record {
  name = name;
  mount_path = path;
  sub_path = sub;
  read_only = read_only;
}

abbrev volume : Text → VolumeSource → Volume
volume name source = record { name = name; source = source }

-- The mount of the role's extra files, if there are any, and below it their volume.
abbrev role_files_mount : Dict Text → List VolumeMount
role_files_mount [] = []
role_files_mount (f ∷ fs) = mount (text "role-files") (text "/agent/role") [] true ∷ []

abbrev role_files_volume : Agent → Dict Text → List Volume
role_files_volume a [] = []
role_files_volume a (f ∷ fs) =
    volume (text "role-files") (config_map_volume (agent_name a (text "-role-files")) []) ∷ []

unfoldable pub volume_mounts : Option RoleData → List VolumeMount
volume_mounts rd =
    (mount (text "prompt") (text "/agent/config") [] true
      ∷ mount (text "skills") (text "/agent/skills") [] true
      ∷ mount (text "jwt-token") (text "/agent/secrets/jwt-token") (text "token") true
      ∷ mount (text "gitea-token") (text "/agent/secrets/gitea-token") (text "token") true
      ∷ mount (text "workspace") (text "/workspace") [] false
      ∷ [])
    ++ role_files_mount (extra_files_of rd)

unfoldable pub volumes : Agent → Option RoleData → List Volume
volumes a rd =
    (volume (text "prompt") (config_map_volume (agent_name a (text "-prompt")) [])
      ∷ volume (text "skills")
          (config_map_volume (agent_name a (text "-skills")) (build_skill_items rd))
      ∷ volume (text "jwt-token") (secret_volume (agent_name a (text "-jwt-token")))
      ∷ volume (text "gitea-token")
          (secret_volume (text "role-" ++ (a.spec.role ++ text "-gitea-token")))
      ∷ volume (text "workspace") (claim_volume (agent_name a (text "-workspace")))
      ∷ [])
    ++ role_files_volume a (extra_files_of rd)

unfoldable pub build_deployment : Agent → Option RoleData → Text → Config → Deployment
build_deployment a rd cfg_hash c = record {
  meta = owned_meta a (agent_name a []) none;
  replicas = if a.spec.paused then 0 else 1;
  selector = (text "app", agent_name a []) ∷ [];
  template_labels = (text "app", agent_name a []) ∷ (text "aidevops.io/role", a.spec.role) ∷ [];
  template_annotations = some ((hash_annotation, cfg_hash) ∷ []);
  template_spec = record {
    service_account = agent_name a [];
    containers =
        record {
          name = text "agent-runtime";
          image = agent_runtime_image a.spec.runtime c.agent_runtime_image;
          resources = build_resource_requirements a.spec.resources;
          env = env_vars a c;
          liveness = record {
            path = text "/healthz";
            port = 8080;
            period_seconds = 30;
            failure_threshold = 3;
          };
          readiness = record {
            path = text "/readyz";
            port = 8080;
            period_seconds = 15;
            failure_threshold = 2;
          };
          volume_mounts = volume_mounts rd;
        }
        ∷ [];
    volumes = volumes a rd;
  };
}

-- The hash that the prompt's ConfigMap carries; empty if the Get failed or there is no such entry.
abbrev text_or_empty : Option Text → Text
text_or_empty none = []
text_or_empty (some t) = t

abbrev pub annotation_hash : Option (Dict Text) → Text
annotation_hash none = []
annotation_hash (some m) = text_or_empty (lookup hash_annotation m)

unfoldable pub hash_of : Fetched ConfigMap → Text
hash_of (found cm) = annotation_hash cm.meta.annotations
hash_of missing = []
hash_of (failed e) = []

module _ {W : Type 0} (p : Platform W) where
  -- An existing Deployment keeps its labels, selector and metadata.
  unfoldable pub apply_deployment : Deployment → Text → Fetched Deployment → Step W (Unit {0})
  apply_deployment desired cfg_hash missing = void (call (p.kube.create deployment desired))
  apply_deployment desired cfg_hash (failed e) = λ s. (err e, s)
  apply_deployment desired cfg_hash (found d) = void (
      call (
        p.kube.update deployment (record d {
          replicas = desired.replicas;
          template_spec = desired.template_spec;
          template_annotations = set_hash cfg_hash d.template_annotations;
        })))

  unfoldable pub ensure_deployment : Config → Step W (Unit {0})
  unfolding apply_deployment
  ensure_deployment c s =
      (do
        cm ← fetch p.kube config_map (agent_key s.agent (agent_name s.agent (text "-prompt")))
        let desired = build_deployment s.agent s.role_data (hash_of cm) c
        got ← fetch p.kube deployment (agent_key s.agent desired.meta.name)
        apply_deployment desired (hash_of cm) got)
        s
