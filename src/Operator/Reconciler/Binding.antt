-- ===== src/Operator/Reconciler/Binding.antt =====
-- EnsureRoleBinding of internal/operator/reconciler/k8s_resources.go.
use entropy_gen.Common.{Option, none, some, List, [], ◌∷◌, ◌++◌, if◌then◌else◌}
use entropy_gen.Common.Text.{Text, text, is_empty}
use entropy_gen.Common.Fallible.{err}
use entropy_gen.Operator.Types.{Agent, AgentKubernetes}
use entropy_gen.Operator.Objects.{role_binding, namespace_kind, RoleBinding, Namespace, Meta}
use entropy_gen.Operator.Reconciler.{
  Platform, Step, ◌>>=◌, ◌>>◌, return, Fetched, found, missing, failed, fetch,
}
use entropy_gen.Operator.Reconciler.Storage.{agent_name, owned_meta, agent_key, create_once}

unfoldable pub rbac_role_of : Option AgentKubernetes → Text
rbac_role_of none = text "agent-readonly-role"
rbac_role_of (some k) = if is_empty k.rbac_role then text "agent-readonly-role" else k.rbac_role

unfoldable pub binding : Agent → Meta → Text → RoleBinding
binding a m kind = record {
  meta = m;
  role_kind = kind;
  role_name = rbac_role_of a.spec.kubernetes;
  subjects =
      record { kind = text "ServiceAccount"; name = agent_name a []; namespace = a.namespace } ∷ [];
}

unfoldable pub home_binding : Agent → RoleBinding
unfolding binding
home_binding a = binding a (owned_meta a (agent_name a []) none) (text "ClusterRole")

-- A binding in another namespace, with no owner.
unfoldable pub extra_binding : Agent → Text → RoleBinding
unfolding binding
extra_binding a ns =
    binding a
      (record {
        name = agent_name a (text "-" ++ ns);
        namespace = ns;
        owner = none;
        annotations = none;
      })
      (text "Role")

abbrev extra_namespaces : Option AgentKubernetes → List Text
extra_namespaces none = []
extra_namespaces (some k) = k.namespace_access

module _ {W : Type 0} (p : Platform W) where
  -- A namespace that is not there yet is passed over.
  unfoldable pub in_namespace : Agent → Text → Fetched Namespace → Step W (Unit {0})
  unfolding create_once
  in_namespace a ns missing = return tt
  in_namespace a ns (failed e) = λ s. (err e, s)
  in_namespace a ns (found _) =
      create_once p.kube role_binding (λ m. m)
        (record { namespace = ns; name = agent_name a (text "-" ++ ns) })
        (return (extra_binding a ns))

  unfoldable pub extra_bindings : Agent → List Text → Step W (Unit {0})
  unfolding in_namespace
  extra_bindings a [] = return tt
  extra_bindings a (ns ∷ rest) = do
    got ← fetch p.kube namespace_kind (record { namespace = []; name = ns })
    in_namespace a ns got
    extra_bindings a rest

  unfoldable pub ensure_role_binding : Step W (Unit {0})
  unfolding create_once extra_bindings
  ensure_role_binding s =
      (do
        create_once p.kube role_binding (λ m. m) (agent_key s.agent (agent_name s.agent []))
            (return (home_binding s.agent))
        extra_bindings s.agent (extra_namespaces s.agent.spec.kubernetes))
        s
