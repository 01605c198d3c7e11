-- ===== src/Operator/Objects.antt =====
-- The fields that the operator fills in of the Kubernetes objects it writes, and the API server
-- as it is seen through the client: calls on a world, and the laws of a server that nobody else
-- writes to while a reconcile runs.
use entropy_gen.Common.{ℕ, ◌≡◌, ◌≢◌, Bool, true, List, Option, none, some}
use entropy_gen.Common.Text.{Text}
use entropy_gen.Common.Dict.{Dict}
use entropy_gen.Common.Fallible.{Error, is_not_found, ok, err, Action}
use entropy_gen.Operator.Types.{Agent}

-- `owner` is the agent that SetControllerReference names.
pub record Meta : Type 0 where
  pub name : Text
  pub namespace : Text
  pub owner : Option Text
  pub annotations : Option (Dict Text)

pub record ConfigMap : Type 0 where
  pub meta : Meta
  pub entries : Dict Text

pub record Secret : Type 0 where
  pub meta : Meta
  pub string_data : Dict Text

-- `storage_request` is the text handed to resource.MustParse.
pub record VolumeClaim : Type 0 where
  pub meta : Meta
  pub storage_request : Text
  pub storage_class : Option Text

pub record ServicePort : Type 0 where
  pub name : Text
  pub port : ℕ

pub record Service : Type 0 where
  pub meta : Meta
  pub selector : Dict Text
  pub ports : List ServicePort

pub record ServiceAccount : Type 0 where
  pub meta : Meta

pub record Subject : Type 0 where
  pub kind : Text
  pub name : Text
  pub namespace : Text

pub record RoleBinding : Type 0 where
  pub meta : Meta
  pub role_kind : Text
  pub role_name : Text
  pub subjects : List Subject

pub record Namespace : Type 0 where
  pub meta : Meta

pub record EnvVar : Type 0 where
  pub name : Text
  pub value : Text

pub record VolumeMount : Type 0 where
  pub name : Text
  pub mount_path : Text
  pub sub_path : Text
  pub read_only : Bool

pub record KeyToPath : Type 0 where
  pub key : Text
  pub path : Text

pub data VolumeSource : Type 0 where
  config_map_volume : Text → List KeyToPath → VolumeSource
  secret_volume : Text → VolumeSource
  claim_volume : Text → VolumeSource

pub record Volume : Type 0 where
  pub name : Text
  pub source : VolumeSource

pub record Probe : Type 0 where
  pub path : Text
  pub port : ℕ
  pub period_seconds : ℕ
  pub failure_threshold : ℕ

-- `none` is a nil list; the texts are those handed to resource.MustParse.
pub record Requirements : Type 0 where
  pub requests : Option (Dict Text)
  pub limits : Option (Dict Text)

pub record Container : Type 0 where
  pub name : Text
  pub image : Text
  pub resources : Requirements
  pub env : List EnvVar
  pub liveness : Probe
  pub readiness : Probe
  pub volume_mounts : List VolumeMount

pub record PodSpec : Type 0 where
  pub service_account : Text
  pub containers : List Container
  pub volumes : List Volume

pub record Deployment : Type 0 where
  pub meta : Meta
  pub replicas : ℕ
  pub selector : Dict Text
  pub template_labels : Dict Text
  pub template_annotations : Option (Dict Text)
  pub template_spec : PodSpec

pub data Kind : Type 0 where
  config_map secret volume_claim service service_account role_binding deployment : Kind
  namespace_kind agent_kind : Kind

pub Kind-discrete : Discrete Kind
Kind-discrete = hlevel

-- The objects of a kind.
abbrev pub Object : Kind → Type 0
Object config_map = ConfigMap
Object secret = Secret
Object volume_claim = VolumeClaim
Object service = Service
Object service_account = ServiceAccount
Object role_binding = RoleBinding
Object deployment = Deployment
Object namespace_kind = Namespace
Object agent_kind = Agent

-- types.NamespacedName
pub record Key : Type 0 where
  pub namespace : Text
  pub name : Text

abbrev key_of_meta : Meta → Key
key_of_meta m = record { namespace = m.namespace; name = m.name }

-- client.ObjectKeyFromObject
abbrev pub key_of : (k : Kind) → Object k → Key
key_of config_map o = key_of_meta o.meta
key_of secret o = key_of_meta o.meta
key_of volume_claim o = key_of_meta o.meta
key_of service o = key_of_meta o.meta
key_of service_account o = key_of_meta o.meta
key_of role_binding o = key_of_meta o.meta
key_of deployment o = key_of_meta o.meta
key_of namespace_kind o = key_of_meta o.meta
key_of agent_kind o = record { namespace = o.namespace; name = o.name }

-- The client's calls. Create, Update and Status().Update give back the object as the server now
-- has it.
pub record KubeClient (W : Type 0) : Type 0 where
  pub get : (k : Kind) → Key → Action W (Object k)
  pub create : (k : Kind) → Object k → Action W (Object k)
  pub update : (k : Kind) → Object k → Action W (Object k)
  pub update_status : Agent → Action W Agent

-- What the operator's proofs assume of a client: what a write that was accepted leaves on the server,
-- and that a Get changes nothing and answers with an object of the key that it was asked for. A Get
-- need not tell what the server holds, since controller-runtime reads from a cache.
pub record WriteLaws {W : Type 0} (c : KubeClient W) : Type 0 where
  pub stored : W → (k : Kind) → Key → Option (Object k)
  pub get_key :
      (k : Kind) (key : Key) (w : W) (o : Object k) → (c.get k key w).0 ≡ ok o → key_of k o ≡ key
  pub get_keeps : (k : Kind) (key : Key) (w : W) → stored (c.get k key w).1 ≡ stored w
  pub create_ok :
      (k : Kind) (o o' : Object k) (w : W)
      → (c.create k o w).0 ≡ ok o'
      → stored (c.create k o w).1 k (key_of k o) ≡ some o
  pub create_kind :
      (k j : Kind) (o o' : Object k) (w : W) (key : Key)
      → (c.create k o w).0 ≡ ok o'
      → k ≢ j
      → stored (c.create k o w).1 j key ≡ stored w j key
  pub create_key :
      (k : Kind) (o o' : Object k) (w : W) (key : Key)
      → (c.create k o w).0 ≡ ok o'
      → key_of k o ≢ key
      → stored (c.create k o w).1 k key ≡ stored w k key
  pub update_ok :
      (k : Kind) (o o' : Object k) (w : W)
      → (c.update k o w).0 ≡ ok o'
      → stored (c.update k o w).1 k (key_of k o) ≡ some o
  pub update_kind :
      (k j : Kind) (o o' : Object k) (w : W) (key : Key)
      → (c.update k o w).0 ≡ ok o'
      → k ≢ j
      → stored (c.update k o w).1 j key ≡ stored w j key
  pub update_key :
      (k : Kind) (o o' : Object k) (w : W) (key : Key)
      → (c.update k o w).0 ≡ ok o'
      → key_of k o ≢ key
      → stored (c.update k o w).1 k key ≡ stored w k key

-- What is assumed of a client that reads from the server itself, as the backend's does: Get answers
-- what is stored and changes nothing; a Create or an Update that succeeds has stored the object at
-- its own key and left every other alone. Of one that fails nothing is known.
pub record KubeLaws {W : Type 0} (c : KubeClient W) : Type 0 where
  pub stored : W → (k : Kind) → Key → Option (Object k)
  pub get_ok :
      (k : Kind) (key : Key) (w : W) (o : Object k)
      → (c.get k key w).0 ≡ ok o
      → stored w k key ≡ some o
  pub get_missing :
      (k : Kind) (key : Key) (w : W) (e : Error)
      → (c.get k key w).0 ≡ err e
      → is_not_found e ≡ true
      → stored w k key ≡ none
  pub stored_key :
      (k : Kind) (key : Key) (w : W) (o : Object k) → stored w k key ≡ some o → key_of k o ≡ key
  pub get_keeps : (k : Kind) (key : Key) (w : W) → stored (c.get k key w).1 ≡ stored w
  pub create_ok :
      (k : Kind) (o o' : Object k) (w : W)
      → (c.create k o w).0 ≡ ok o'
      → stored (c.create k o w).1 k (key_of k o) ≡ some o
  pub create_kind :
      (k j : Kind) (o o' : Object k) (w : W) (key : Key)
      → (c.create k o w).0 ≡ ok o'
      → k ≢ j
      → stored (c.create k o w).1 j key ≡ stored w j key
  pub create_key :
      (k : Kind) (o o' : Object k) (w : W) (key : Key)
      → (c.create k o w).0 ≡ ok o'
      → key_of k o ≢ key
      → stored (c.create k o w).1 k key ≡ stored w k key
  pub update_ok :
      (k : Kind) (o o' : Object k) (w : W)
      → (c.update k o w).0 ≡ ok o'
      → stored (c.update k o w).1 k (key_of k o) ≡ some o
  pub update_kind :
      (k j : Kind) (o o' : Object k) (w : W) (key : Key)
      → (c.update k o w).0 ≡ ok o'
      → k ≢ j
      → stored (c.update k o w).1 j key ≡ stored w j key
  pub update_key :
      (k : Kind) (o o' : Object k) (w : W) (key : Key)
      → (c.update k o w).0 ≡ ok o'
      → key_of k o ≢ key
      → stored (c.update k o w).1 k key ≡ stored w k key
