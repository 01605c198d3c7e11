-- ===== src/Examples/Cluster.antt =====
-- A cluster in memory: an API server that keeps the objects of every kind, and services that always
-- succeed.
use entropy_gen.Common.{
  ◌≡◌, ◌≢◌, refl, ap, ◌∙◌, true, false, Bool, Option, none, some, [], ◌∷◌, ◌&&◌, if◌then◌else◌, inl,
  inr, Bool-cases, arith, any,
}
use mathlib.Core.Path.{ap₂, subst}
use entropy_gen.Common.Text.{text, text_eq, text_eq_iff, text_eq_refl}
use entropy_gen.Common.Fallible.{Error, kube_not_found, Result, ok, err}
use entropy_gen.Operator.Objects
use entropy_gen.Operator.Types.{Agent}
use entropy_gen.Operator.Reconciler.{Platform, Config, Run}
use entropy_gen.Operator.Controller.{finalizer_name}

abbrev pub Store : Type 0
Store = (k : Objects.Kind) → Objects.Key → Option (Objects.Object k)

abbrev pub same_key : Objects.Key → Objects.Key → Bool
same_key a b = text_eq a.namespace b.namespace && text_eq a.name b.name

same_key_iff : (a b : Objects.Key) → same_key a b ≡ true → a ≡ b
same_key_iff a b h =
    ap₂ (λ n m. record { namespace = n; name = m })
      ((text_eq_iff a.namespace b.namespace).0 (ground arith))
      ((text_eq_iff a.name b.name).0 (ground arith))

-- Only an object under its own key counts as stored.
abbrev pub at_key :
    (k : Objects.Kind) → Objects.Key → Option (Objects.Object k) → Option (Objects.Object k)
at_key k key none = none
at_key k key (some o) = if same_key (Objects.key_of k o) key then some o else none

abbrev pub stored : Store → (k : Objects.Kind) → Objects.Key → Option (Objects.Object k)
stored w k key = at_key k key (w k key)

-- Two kinds that are the same, with an object of the first as one of the second.
abbrev pub as_kind : (k j : Objects.Kind) → Objects.Object k → Option (Objects.Object j)
as_kind Objects.config_map Objects.config_map o = some o
as_kind Objects.secret Objects.secret o = some o
as_kind Objects.volume_claim Objects.volume_claim o = some o
as_kind Objects.service Objects.service o = some o
as_kind Objects.service_account Objects.service_account o = some o
as_kind Objects.role_binding Objects.role_binding o = some o
as_kind Objects.deployment Objects.deployment o = some o
as_kind Objects.namespace_kind Objects.namespace_kind o = some o
as_kind Objects.agent_kind Objects.agent_kind o = some o
as_kind _ _ o = none

unfoldable pub kind_dec : Discrete Objects.Kind
kind_dec = hlevel

unfoldable pub place :
    (k j : Objects.Kind)
    → Dec (k ≡ j)
    → Objects.Object k
    → Objects.Key
    → Option (Objects.Object j)
    → Option (Objects.Object j)
place k j (yes e) o key old = if same_key (Objects.key_of k o) key then as_kind k j o else old
place k j (no n) o key old = old

unfoldable pub put : (k : Objects.Kind) → Objects.Object k → Store → Store
unfolding place
put k o w j key = place k j (kind_dec k j) o key (w j key)

as_kind_same : (k : Objects.Kind) (o : Objects.Object k) → as_kind k k o ≡ some o
as_kind_same Objects.config_map o = refl
as_kind_same Objects.secret o = refl
as_kind_same Objects.volume_claim o = refl
as_kind_same Objects.service o = refl
as_kind_same Objects.service_account o = refl
as_kind_same Objects.role_binding o = refl
as_kind_same Objects.deployment o = refl
as_kind_same Objects.namespace_kind o = refl
as_kind_same Objects.agent_kind o = refl

same_key_refl : (key : Objects.Key) → same_key key key ≡ true
same_key_refl key = rw (text_eq_refl key.namespace, text_eq_refl key.name) refl

place_own :
    (k : Objects.Kind) (d : Dec (k ≡ k)) (o : Objects.Object k) (old : Option (Objects.Object k))
    → place k k d o (Objects.key_of k o) old ≡ some o
unfolding place
place_own k (yes e) o old = rw (same_key_refl (Objects.key_of k o)) (as_kind_same k o)
place_own k (no n) o old = absurd (n refl)

place_kind :
    (k j : Objects.Kind) (d : Dec (k ≡ j)) (o : Objects.Object k) (key : Objects.Key)
    (old : Option (Objects.Object j))
    → k ≢ j
    → place k j d o key old ≡ old
unfolding place
place_kind k j (yes e) o key old ne = absurd (ne e)
place_kind k j (no n) o key old ne = refl

place_key :
    (k : Objects.Kind) (d : Dec (k ≡ k)) (o : Objects.Object k) (key : Objects.Key)
    (old : Option (Objects.Object k))
    → Objects.key_of k o ≢ key
    → place k k d o key old ≡ old
unfolding place
place_key k (yes e) o key old ne = elim (Bool-cases (same_key (Objects.key_of k o) key)) [
  | inl h ↦ absurd (ne (same_key_iff (Objects.key_of k o) key h))
  | inr h ↦ rw h refl
]
place_key k (no n) o key old ne = refl

pub put_ok :
    (k : Objects.Kind) (o : Objects.Object k) (w : Store)
    → stored (put k o w) k (Objects.key_of k o) ≡ some o
unfolding put
put_ok k o w =
    ap (at_key k (Objects.key_of k o)) (place_own k (kind_dec k k) o (w k (Objects.key_of k o)))
    ∙ rw (same_key_refl (Objects.key_of k o)) refl

pub put_kind :
    (k j : Objects.Kind) (o : Objects.Object k) (w : Store) (key : Objects.Key)
    → k ≢ j
    → stored (put k o w) j key ≡ stored w j key
unfolding put
put_kind k j o w key ne = ap (at_key j key) (place_kind k j (kind_dec k j) o key (w j key) ne)

pub put_key :
    (k : Objects.Kind) (o : Objects.Object k) (w : Store) (key : Objects.Key)
    → Objects.key_of k o ≢ key
    → stored (put k o w) k key ≡ stored w k key
unfolding put
put_key k o w key ne = ap (at_key k key) (place_key k (kind_dec k k) o key (w k key) ne)

abbrev answer_get : {A : Type 0} → Option A → Result A
answer_get none = err (kube_not_found [])
answer_get (some o) = ok o

abbrev pub server : Objects.KubeClient Store
server = record {
  get = λ k key w. (answer_get (stored w k key), w);
  create = λ k o w. (ok o, put k o w);
  update = λ k o w. (ok o, put k o w);
  update_status = λ a w. (ok a, put Objects.agent_kind a w);
}

pub answer_get-ok :
    {A : Type 0} (found : Option A) (o : A) → answer_get found ≡ ok o → found ≡ some o
answer_get-ok none o h = cc
answer_get-ok (some a) o h = ap (λ (r : Result _). elim r [ ok x ↦ some x | err e ↦ none ]) h

pub answer_get-err :
    {A : Type 0} (found : Option A) (e : Error) → answer_get found ≡ err e → found ≡ none
answer_get-err none e h = refl
answer_get-err (some a) e h = cc

checked_key :
    (k : Objects.Kind) (key : Objects.Key) (b : Bool) (a o : Objects.Object k)
    → (b ≡ true → Objects.key_of k a ≡ key)
    → (if b then some a else none) ≡ some o
    → Objects.key_of k o ≡ key
checked_key k key true a o same h =
    subst (λ x. Objects.key_of k x ≡ key) (ap (λ found. elim found [ some x ↦ x | none ↦ a ]) h)
      (same refl)
checked_key k key false a o same h = cc

pub at_key-key :
    (k : Objects.Kind) (key : Objects.Key) (found : Option (Objects.Object k))
    (o : Objects.Object k)
    → at_key k key found ≡ some o
    → Objects.key_of k o ≡ key
at_key-key k key none o h = cc
at_key-key k key (some a) o h =
    checked_key k key (same_key (Objects.key_of k a) key) a o
      (same_key_iff (Objects.key_of k a) key) h

abbrev pub server_laws : Objects.KubeLaws server
server_laws = record {
  stored = stored;
  get_ok = λ k key w o h. answer_get-ok (stored w k key) o h;
  get_missing = λ k key w e h m. answer_get-err (stored w k key) e h;
  stored_key = λ k key w o h. at_key-key k key (w k key) o h;
  get_keeps = λ k key w. refl;
  create_ok = λ k o o' w h. put_ok k o w;
  create_kind = λ k j o o' w key h ne. put_kind k j o w key ne;
  create_key = λ k o o' w key h ne. put_key k o w key ne;
  update_ok = λ k o o' w h. put_ok k o w;
  update_kind = λ k j o o' w key h ne. put_kind k j o w key ne;
  update_key = λ k o o' w key h ne. put_key k o w key ne;
}

abbrev pub server_writes : Objects.WriteLaws server
server_writes = record {
  stored = stored;
  get_key = λ k key w o h. at_key-key k key (w k key) o (answer_get-ok (stored w k key) o h);
  get_keeps = λ k key w. refl;
  create_ok = λ k o o' w h. put_ok k o w;
  create_kind = λ k j o o' w key h ne. put_kind k j o w key ne;
  create_key = λ k o o' w key h ne. put_key k o w key ne;
  update_ok = λ k o o' w h. put_ok k o w;
  update_kind = λ k j o o' w key h ne. put_kind k j o w key ne;
  update_key = λ k o o' w key h ne. put_key k o w key ne;
}

-- Services that always succeed.
abbrev pub platform : Platform Store
platform = record {
  kube = server;
  sdk = record {
    admin_create_user = λ o w. (ok tt, w);
    new_client = λ a w. (ok tt, w);
    create_access_token = λ a n w. (ok (text "token"), w);
    add_collaborator_to = λ a b c d w. (ok tt, w);
    new_request = λ u. ok tt;
    delete_url = λ u t w. (ok 204, w);
    decimal = λ n. n ∷ [];
  };
  random_index = λ w. (0, w);
  now = λ w. (7, w);
  sign = λ alg claims k. ok (text "jwt");
  sha256_hex = λ t. t;
  has_finalizer = λ fs f. any (text_eq f) fs;
  add_finalizer = λ fs f. f ∷ fs;
  remove_finalizer = λ fs f. [];
  is_missing = λ dir w. true;
  walk = λ dir w. [];
}

abbrev pub config : Config
config = record {
  jwt_secret = [];
  gateway_url = [];
  gitea_url = [];
  gitea_admin_url = [];
  gitea_admin_token = [];
  default_storage_class = [];
  llm_api_key = [];
  llm_base_url = [];
  redis_addr = [];
  roles_data_path = [];
  agent_runtime_image = [];
}

abbrev pub agent : Agent
agent = record {
  name = text "one";
  namespace = text "agents";
  deletion_timestamp = none;
  finalizers = finalizer_name ∷ [];
  spec = record {
    role = [];
    display_name = text "One";
    runtime = none;
    llm = none;
    gitea = none;
    kubernetes = none;
    resources = none;
    memory = none;
    paused = false;
  };
  status = record {
    phase = text "Running";
    conditions = [];
    gitea_user = none;
    last_action = none;
    token_usage = none;
    current_task = none;
    pod_name = [];
    started_at = none;
  };
}

abbrev pub start : Run Store
start = record {
  world = put Objects.agent_kind agent (λ k key. none);
  agent = agent;
  role_data = none;
}
