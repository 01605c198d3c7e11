-- ===== src/Operator/Reconciler.antt =====
-- internal/operator/reconciler: what the steps of a reconcile share. A step changes the agent object
-- in memory, the role data that the reconciler caches, and the world that the clients talk to.
pub mod Creation
pub mod Contents
pub mod Pipeline
mod Frames
pub mod Deployed
pub mod Convergence
pub mod RoleDir
pub mod Storage
pub mod ConfigMaps
pub mod GiteaUser
pub mod Jwt
pub mod RoleStep
pub mod All
pub mod Binding
pub mod Deployment
use entropy_gen.Common.{ℕ, Bool, true, false, Option, List}
use entropy_gen.Common.Text.{Text}
use entropy_gen.Common.Dict.{Dict}
use entropy_gen.Events.{Value}
use entropy_gen.Common.Fallible.{Error, is_not_found, Result, ok, err, Action, wrap}
use entropy_gen.Operator.Types.{Agent}
use entropy_gen.Operator.Objects.{Kind, Key, Object, KubeClient}
use entropy_gen.GiteaClient.{Sdk}
use RoleDir.{RoleData, Entry}

-- The services that the reconciler calls and does not implement.
pub record Platform (W : Type 0) : Type 0 where
  pub kube : KubeClient W
  pub sdk : Sdk W
  -- rand.Int below 62, and time.Now in seconds
  pub random_index : W → ℕ × W
  pub now : W → ℕ × W
  -- jwt.NewWithClaims and SignedString: the name of the signing method, the claims and the key
  pub sign : Text → Dict Value → Text → Result Text
  -- the hexadecimal digits of SHA-256
  pub sha256_hex : Text → Text
  -- controllerutil.ContainsFinalizer, AddFinalizer and RemoveFinalizer, on the agent's finalizers
  pub has_finalizer : List Text → Text → Bool
  pub add_finalizer : List Text → Text → List Text
  pub remove_finalizer : List Text → Text → List Text
  -- whether os.Stat finds nothing there, and what filepath.WalkDir meets below a directory
  pub is_missing : Text → W → Bool
  pub walk : Text → W → List Entry

-- The fields of ResourceReconciler, the address and token of its Gitea client, and the
-- environment variable AGENT_RUNTIME_IMAGE.
pub record Config : Type 0 where
  pub jwt_secret : Text
  pub gateway_url : Text
  pub gitea_url : Text
  pub gitea_admin_url : Text
  pub gitea_admin_token : Text
  pub default_storage_class : Text
  pub llm_api_key : Text
  pub llm_base_url : Text
  pub redis_addr : Text
  pub roles_data_path : Text
  pub agent_runtime_image : Text

pub record Run (W : Type 0) : Type 0 where
  pub world : W
  pub agent : Agent
  pub role_data : Option RoleData

abbrev pub Step : Type 0 → Type 0 → Type 0
Step W A = Run W → Result A × Run W

infixl 5 ◌>>=◌ ◌>>◌
abbrev pub ◌>>=◌ : {W A B : Type 0} → Step W A → (A → Step W B) → Step W B
◌>>=◌ m f s = let r = m s in elim r.0 [ ok a ↦ f a r.1 | err e ↦ (err e, r.1) ]

abbrev pub ◌>>◌ : {W B : Type 0} → Step W (Unit {0}) → Step W B → Step W B
m >> k = m >>= λ _. k

abbrev pub return : {W A : Type 0} → A → Step W A
return a s = (ok a, s)

-- A call of a client.
abbrev pub call : {W A : Type 0} → Action W A → Step W A
call act s = let r = act s.world in (r.0, record s { world = r.1 })

-- `if err != nil { return fmt.Errorf("…: %w", err) }`
abbrev pub wrapping : {W A : Type 0} → Text → Step W A → Step W A
wrapping t m s = let r = m s in elim r.0 [ ok a ↦ (ok a, r.1) | err e ↦ (err (wrap t e), r.1) ]

-- The three outcomes of a Get that the steps tell apart.
pub data Fetched (A : Type 0) : Type 0 where
  found : A → Fetched A
  missing : Fetched A
  failed : Error → Fetched A

abbrev pub classify : {A : Type 0} → Result A → Fetched A
classify (ok a) = found a
classify (err e) = elim (is_not_found e) [ true ↦ missing | false ↦ failed e ]

abbrev pub fetch : {W : Type 0} → KubeClient W → (k : Kind) → Key → Step W (Fetched (Object k))
fetch kube k key s = let r = kube.get k key s.world in (ok (classify r.0), record s { world = r.1 })
