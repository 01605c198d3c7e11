-- ===== src/Examples/ClusterRuns.antt =====
-- The operator at work on a cluster in memory.
use entropy_gen.Common.{ℕ, ◌≡◌, refl, Option, none, some, []}
use entropy_gen.Common.Text.{text, text_eq}
use entropy_gen.Common.Fallible.{ok}
use entropy_gen.Operator.Objects.{Key}
use entropy_gen.Operator.Reconciler.{Run}
use entropy_gen.Operator.Reconciler.RoleDir.{
  lower_char, to_lower, classify_file, visit, read_entries,
}
use entropy_gen.Operator.Reconciler.Storage.{
  unless_found, create_once, default_class, class_of, workspace_claim, observe_service,
  agent_account, ensure_pvc, ensure_service, ensure_service_account,
}
use entropy_gen.Operator.Reconciler.ConfigMaps.{
  replace_from, replace_all, skill_key, fill_prompt, build_prompt_config_map_data, text_leb,
  insert_key, sorted_keys, hash_input, compute_hash, put_config_map, ensure_named_config_map,
  prompt_config_map, ensure_config_map, skills_from, build_skills_data, build_skill_items,
  skills_config_map, role_files_config_map, ensure_skills_config_map, ensure_extra_files,
  ensure_role_files_config_map,
}
use entropy_gen.Operator.Reconciler.GiteaUser.{
  gitea_username, gitea_email, is_gitea_already_exists, is_gitea_not_found, char_at, split_repo,
  repo_parts, grants_write, any_write, resolve_collaborator_permission, names_other_user,
  with_username, set_gitea_user, draw_chars, generate_password, tolerate_existing,
  update_agent_status, record_gitea_user, admin, attempt_create_user, ensure_gitea_user,
  delete_gitea_user, token_secret_name, gitea_token_secret, ensure_gitea_token, add_to,
  add_to_repos, ensure_gitea_repo_access,
}
use entropy_gen.Operator.Reconciler.Jwt.{issue_agent_jwt, jwt_secret_of, ensure_jwt_secret}
use entropy_gen.Operator.Reconciler.RoleStep.{read_role_dir, fetch_role_data, ensure_role_data}
use entropy_gen.Operator.Reconciler.All.{run_steps, steps, reconcile_all, delete_all, cron_prompt}
use entropy_gen.Operator.Reconciler.Binding.{
  rbac_role_of, binding, home_binding, extra_binding, in_namespace, extra_bindings,
  ensure_role_binding,
}
use entropy_gen.Operator.Reconciler.Deployment.{
  agent_runtime_image, quantities, build_resource_requirements, env_vars, volume_mounts, volumes,
  build_deployment, hash_of, apply_deployment, ensure_deployment,
}
use entropy_gen.GiteaClient.{create_user, issue_token, create_token_with_password, add_collaborator}
use entropy_gen.Operator.Scheduler.{Cron, CronScheduler}
use entropy_gen.Operator.Controller.{
  reconcile_live, ensure_finalizer, ensure_phase, report_success, report_failure, after_preparation,
  after_resources, after_report, refetch, try_status_update, set_condition, set_condition_in,
  final_phase, store_finalizer, refetch_unless, begin_initializing, done, unschedule,
}
use entropy_gen.Operator.Controller.Outcomes.{Finalized, Begun, Reported, live_without_error}
use entropy_gen.Common.Text.{has_prefix, trim_prefix, after_prefix, contains, split, join}
use entropy_gen.Common.Dict.{lookup, insert, delete}
use entropy_gen.Common.Fallible.{message, is_not_found}
use entropy_gen.Examples.Cluster.{put, place, kind_dec, Store, platform, config, start}

abbrev lib : Cron ℕ
lib = record { remove = λ i c. c; add_func = λ schedule job c. (ok c, c) }

abbrev no_jobs : Option (CronScheduler ℕ)
no_jobs = some (record { cron = 0; jobs = [] })

abbrev key : Key
key = record { namespace = text "agents"; name = text "one" }

live_done : (reconcile_live platform lib config key no_jobs start).0.error ≡ none
unfolding lower_char to_lower classify_file visit read_entries unless_found create_once
    default_class class_of workspace_claim observe_service agent_account ensure_pvc ensure_service
    ensure_service_account replace_from replace_all skill_key fill_prompt
    build_prompt_config_map_data text_leb insert_key sorted_keys hash_input compute_hash
    put_config_map ensure_named_config_map prompt_config_map ensure_config_map skills_from
    build_skills_data build_skill_items skills_config_map role_files_config_map
    ensure_skills_config_map ensure_extra_files ensure_role_files_config_map gitea_username
    gitea_email is_gitea_already_exists is_gitea_not_found char_at split_repo repo_parts
    grants_write any_write resolve_collaborator_permission names_other_user with_username
    set_gitea_user draw_chars generate_password tolerate_existing update_agent_status
    record_gitea_user admin attempt_create_user ensure_gitea_user delete_gitea_user
    token_secret_name gitea_token_secret ensure_gitea_token add_to add_to_repos
    ensure_gitea_repo_access issue_agent_jwt jwt_secret_of ensure_jwt_secret read_role_dir
    fetch_role_data ensure_role_data run_steps steps reconcile_all delete_all cron_prompt
    rbac_role_of binding home_binding extra_binding in_namespace extra_bindings ensure_role_binding
    agent_runtime_image quantities build_resource_requirements env_vars volume_mounts volumes
    build_deployment hash_of apply_deployment ensure_deployment create_user issue_token
    create_token_with_password add_collaborator text text_eq put place kind_dec lookup insert delete
    contains has_prefix trim_prefix after_prefix split join message is_not_found reconcile_live
    ensure_finalizer ensure_phase report_success report_failure after_preparation after_resources
    after_report refetch try_status_update set_condition set_condition_in final_phase
    store_finalizer refetch_unless begin_initializing
live_done = refl

live_without_error_example :
    (s' u v t : Run Store) × Finalized platform key start s'
    × Begun platform key s' u
    × (reconcile_all platform config (record u { role_data = none }) ≡ (ok tt, v))
    × Reported platform key v t
    × (reconcile_live platform lib config key no_jobs start
        ≡ (done platform, unschedule platform lib config t.agent.name no_jobs, t))
live_without_error_example = live_without_error platform lib config key no_jobs start live_done
