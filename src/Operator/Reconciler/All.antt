-- ===== src/Operator/Reconciler/All.antt =====
-- internal/operator/reconciler/resource_reconciler.go: the thirteen steps in order.
use entropy_gen.Common.{Option, none, some, List, [], ◌∷◌, ◌++◌}
use entropy_gen.Common.Text.{Text, text, is_empty}
use entropy_gen.Operator.Types.{Agent}
use entropy_gen.Operator.Reconciler.RoleDir.{RoleData}
use entropy_gen.Operator.Reconciler.{Platform, Config, Step, ◌>>◌, return, wrapping}
use entropy_gen.Operator.Reconciler.Storage.{ensure_pvc, ensure_service, ensure_service_account}
use entropy_gen.Operator.Reconciler.ConfigMaps.{
  fill_prompt, ensure_config_map, ensure_skills_config_map, ensure_role_files_config_map,
}
use entropy_gen.Operator.Reconciler.GiteaUser.{
  ensure_gitea_user, ensure_gitea_token, ensure_gitea_repo_access,
}
use entropy_gen.Operator.Reconciler.Jwt.{ensure_jwt_secret}
use entropy_gen.Operator.Reconciler.RoleStep.{ensure_role_data}
use entropy_gen.Operator.Reconciler.Binding.{ensure_role_binding}
use entropy_gen.Operator.Reconciler.Deployment.{ensure_deployment}

-- The loop: the first error ends it, behind the step's name.
unfoldable pub run_steps : {W : Type 0} → List (Text × Step W (Unit {0})) → Step W (Unit {0})
run_steps [] = return tt
run_steps ((name, step) ∷ rest) = do wrapping (text "step " ++ name) step; run_steps rest

module _ {W : Type 0} (p : Platform W) (c : Config) where
  unfoldable pub steps : List (Text × Step W (Unit {0}))
  steps =
      (text "gitea-user", ensure_gitea_user p c)
      ∷ (text "gitea-token", ensure_gitea_token p c)
      ∷ (text "gitea-repo-access", ensure_gitea_repo_access p c)
      ∷ (text "jwt-secret", ensure_jwt_secret p c)
      ∷ (text "fetch-role", ensure_role_data p c)
      ∷ (text "configmap", ensure_config_map p)
      ∷ (text "skills-configmap", ensure_skills_config_map p)
      ∷ (text "role-files-configmap", ensure_role_files_config_map p)
      ∷ (text "pvc", ensure_pvc p c)
      ∷ (text "service", ensure_service p)
      ∷ (text "serviceaccount", ensure_service_account p)
      ∷ (text "rolebinding", ensure_role_binding p)
      ∷ (text "deployment", ensure_deployment p c)
      ∷ []

  unfoldable pub reconcile_all : Step W (Unit {0})
  unfolding run_steps steps
  reconcile_all = run_steps steps

-- Kubernetes removes the agent's objects by their owner; nothing is left to do.
unfoldable pub delete_all : {W : Type 0} → Step W (Unit {0})
delete_all = return tt

unfoldable pub cron_prompt : Agent → Option RoleData → Text
cron_prompt a none = []
cron_prompt a (some rd) =
    entropy_gen.Common.if◌then◌else◌ (is_empty rd.prompt) [] (fill_prompt a rd.prompt)
