-- ===== src/Backend/Handlers/Specs.antt =====
-- unmarshalAgentSpec and resolveGiteaUsername of internal/backend/handler/agents.go: the frontend's
-- flat fields put into an agent's spec. encoding/json is a parameter.
use entropy_gen.Common.{Option, none, some, List, [], ◌∷◌, ◌++◌, if◌then◌else◌}
use entropy_gen.Common.Text.{Text, text, is_empty}
use entropy_gen.Common.Fallible.{wrap, Result, ok, err}
use entropy_gen.Operator.Types.{
  Agent, AgentSpec, AgentGitea, AgentMemory, AgentResources, GiteaUserStatus,
}

pub record FlatResources : Type 0 where
  pub cpu_request : Text
  pub cpu_limit : Text
  pub memory_request : Text
  pub memory_limit : Text
  pub workspace_size : Text

pub record FlatGitea : Type 0 where
  pub repo : Text
  pub repos : List Text
  pub username : Text
  pub email : Text
  pub permissions : List Text

pub record Flat : Type 0 where
  pub resources : Option FlatResources
  pub gitea : Option FlatGitea

abbrev pub unless_empty : Text → Text → Text
unless_empty given old = if is_empty given then old else given

abbrev pub unless_none : List Text → List Text → List Text
unless_none [] old = old
unless_none (t ∷ ts) old = t ∷ ts

abbrev pub no_memory : AgentMemory
no_memory = record { storage_size = []; storage_class = [] }

abbrev pub no_gitea : AgentGitea
no_gitea = record { username = []; email = []; permissions = []; repos = [] }

abbrev pub memory_or_empty : Option AgentMemory → AgentMemory
memory_or_empty none = no_memory
memory_or_empty (some m) = m

abbrev pub gitea_or_empty : Option AgentGitea → AgentGitea
gitea_or_empty none = no_gitea
gitea_or_empty (some g) = g

unfoldable pub sized_memory : Text → Option AgentMemory → Option AgentMemory
sized_memory size memory =
    if is_empty size then memory else some (record (memory_or_empty memory) { storage_size = size })

abbrev pub nested : FlatResources → AgentResources
nested f = record {
  requests = some (record { cpu = f.cpu_request; memory = f.memory_request });
  limits = some (record { cpu = f.cpu_limit; memory = f.memory_limit });
}

unfoldable pub map_resources : Option FlatResources → AgentSpec → AgentSpec
unfolding sized_memory
map_resources none spec = spec
map_resources (some f) spec = if is_empty f.cpu_request then spec else record spec {
  resources = some (nested f);
  memory = sized_memory f.workspace_size spec.memory;
}

-- The list of repositories wins over the single one.
abbrev pub repos_of : FlatGitea → List Text → List Text
repos_of f old = unless_none f.repos (if is_empty f.repo then old else f.repo ∷ [])

abbrev pub merged : FlatGitea → AgentGitea → AgentGitea
merged f g = record {
  username = unless_empty f.username g.username;
  email = unless_empty f.email g.email;
  permissions = unless_none f.permissions g.permissions;
  repos = repos_of f g.repos;
}

unfoldable pub map_gitea : Option FlatGitea → AgentSpec → AgentSpec
map_gitea none spec = spec
map_gitea (some f) spec = record spec { gitea = some (merged f (gitea_or_empty spec.gitea)) }

unfoldable pub flatten_into : Flat → Result AgentSpec → Result AgentSpec
unfolding map_resources map_gitea
flatten_into flat (err e) = err (wrap (text "invalid spec") e)
flatten_into flat (ok spec) = ok (map_gitea flat.gitea (map_resources flat.resources spec))

unfoldable pub unmarshal_agent_spec :
    (Text → Result AgentSpec) → (Text → Flat) → Text → Result AgentSpec
unfolding flatten_into
unmarshal_agent_spec decode decode_flat raw = flatten_into (decode_flat raw) (decode raw)

abbrev pub status_username : Option GiteaUserStatus → Text
status_username none = []
status_username (some u) = u.username

unfoldable pub resolve_gitea_username : Agent → Text
resolve_gitea_username a =
    if is_empty (status_username a.status.gitea_user)
    then if is_empty a.spec.role then [] else text "role-" ++ a.spec.role
    else status_username a.status.gitea_user
