-- ===== src/Operator/Reconciler/Convergence.antt =====
-- What the cluster holds when ReconcileAll succeeds.
use entropy_gen.Common.{◌≡◌, ◌⊎◌, true, false, Option, none, some, List, [], ◌∷◌, ◌++◌}
use entropy_gen.Common.Text.{Text, text, is_empty}
use entropy_gen.Common.Dict.{Dict}
use entropy_gen.Common.Fallible.{ok}
use entropy_gen.Operator.Types.{Agent}
use entropy_gen.Operator.Objects.{config_map, ConfigMap, WriteLaws}
use entropy_gen.Operator.Reconciler.{Platform, Config, Run, Step, classify}
use entropy_gen.Operator.Reconciler.RoleDir.{RoleData, no_role_data, read_entries}
use entropy_gen.Operator.Reconciler.Deployed.{Deployed, CarriesHash}
use entropy_gen.Operator.Reconciler.Frames.{prompt_key}
use entropy_gen.Operator.Reconciler.Storage.{ensure_pvc, ensure_service, ensure_service_account}
use entropy_gen.Operator.Reconciler.ConfigMaps.{
  compute_hash, build_prompt_config_map_data, ensure_skills_config_map,
  ensure_role_files_config_map,
}
use entropy_gen.Operator.Reconciler.GiteaUser.{
  ensure_gitea_user, ensure_gitea_token, ensure_gitea_repo_access,
}
use entropy_gen.Operator.Reconciler.Jwt.{ensure_jwt_secret}
use entropy_gen.Operator.Reconciler.RoleStep.{ensure_role_data}
use entropy_gen.Operator.Reconciler.Binding.{ensure_role_binding}
use entropy_gen.Operator.Reconciler.Deployment.{hash_of, ensure_deployment}

-- The ConfigMap that a server holds: its entries are those of the agent's role data, and it
-- carries their hash.
pub record Prompted {W : Type 0} (p : Platform W) (a : Agent) (rd : Option RoleData)
    (held : Option ConfigMap) : Type 0 where
  pub object : ConfigMap
  pub is_stored : held ≡ some object
  pub entries : object.entries ≡ build_prompt_config_map_data a rd
  pub carries : CarriesHash (compute_hash p object.entries) object.meta.annotations

module _ {W : Type 0} (p : Platform W) (laws : WriteLaws p.kube) where
  abbrev pub PromptedAt : Run W → Type 0
  PromptedAt t =
      Prompted p t.agent t.role_data (laws.stored t.world config_map (prompt_key t.agent))

  -- What the role's directory gives: no role and no directory give no data.
  abbrev pub RoleRead : Config → Agent → W → Option RoleData → Type 0
  RoleRead c a w rd =
      let dir = c.roles_data_path ++ (text "/" ++ a.spec.role) in
      ((is_empty a.spec.role ≡ true) × (rd ≡ none))
      ⊎ ((is_empty a.spec.role ≡ false)
          × (((p.is_missing dir w ≡ true) × (rd ≡ none))
              ⊎ ((p.is_missing dir w ≡ false)
                  × ((r : RoleData) × (read_entries (p.walk dir w) no_role_data ≡ ok r)
                      × (rd ≡ some r)))))

-- The steps in three parts: up to the role data, those behind the prompt's ConfigMap, and the last.
module _ {W : Type 0} (p : Platform W) (c : Config) where
  abbrev early : List (Text × Step W (Unit {0}))
  early =
      (text "gitea-user", ensure_gitea_user p c)
      ∷ (text "gitea-token", ensure_gitea_token p c)
      ∷ (text "gitea-repo-access", ensure_gitea_repo_access p c)
      ∷ (text "jwt-secret", ensure_jwt_secret p c)
      ∷ []

  abbrev role_step : List (Text × Step W (Unit {0}))
  role_step = (text "fetch-role", ensure_role_data p c) ∷ []

  abbrev front : List (Text × Step W (Unit {0}))
  front = early ++ role_step

  abbrev middle : List (Text × Step W (Unit {0}))
  middle =
      (text "skills-configmap", ensure_skills_config_map p)
      ∷ (text "role-files-configmap", ensure_role_files_config_map p)
      ∷ (text "pvc", ensure_pvc p c)
      ∷ (text "service", ensure_service p)
      ∷ (text "serviceaccount", ensure_service_account p)
      ∷ (text "rolebinding", ensure_role_binding p)
      ∷ []

  abbrev last : List (Text × Step W (Unit {0}))
  last = (text "deployment", ensure_deployment p c) ∷ []

module _ {W : Type 0} (p : Platform W) (laws : WriteLaws p.kube) (c : Config) where
  -- The role data were read from the agent's role; the prompt's ConfigMap is stored with the entries
  -- that are built from them; and the Deployment is stored, with the hash that some Get of that
  -- ConfigMap answered.
  abbrev pub Converged : Run W → Type 0
  Converged t =
      ((w : W) × RoleRead p laws c t.agent w t.role_data)
      × PromptedAt p laws t
      × ((w : W) × Deployed p laws c
            (hash_of (classify (p.kube.get config_map (prompt_key t.agent) w).0)) t)
