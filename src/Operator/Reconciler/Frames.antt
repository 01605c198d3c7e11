-- ===== src/Operator/Reconciler/Frames.antt =====
-- The steps behind the prompt's ConfigMap leave it alone when they succeed.
use entropy_gen.Common.{refl, ap, List, [], ◌∷◌}
use entropy_gen.Common.Text.{Text, text}
use entropy_gen.Common.Dict.{Dict}
use entropy_gen.Operator.Types.{Agent}
use entropy_gen.Operator.Objects.{config_map, namespace_kind, Key, Namespace, WriteLaws}
use entropy_gen.Operator.Reconciler.{
  Platform, Config, Run, Step, ◌>>◌, Fetched, found, missing, failed, classify,
}
use entropy_gen.Operator.Reconciler.Creation.{
  Kept-trans, Keeps, Keeps->>, get-Kept, create_once-Keeps,
}
use entropy_gen.Operator.Reconciler.Contents.{Written-Keeps, skills-ne-prompt, role_files-ne-prompt}
use entropy_gen.Operator.Reconciler.Pipeline.{KeptAt}
use entropy_gen.Operator.Reconciler.Storage.{
  agent_name, agent_key, ensure_pvc, ensure_service, ensure_service_account,
}
use entropy_gen.Operator.Reconciler.ConfigMaps.{
  ensure_skills_config_map, ensure_extra_files, ensure_role_files_config_map, extra_files_of,
  skills_config_map, role_files_config_map,
}
use entropy_gen.Operator.Reconciler.Binding.{in_namespace, extra_bindings, ensure_role_binding}

abbrev pub prompt_key : Agent → Key
prompt_key a = agent_key a (agent_name a (text "-prompt"))

module _ {W : Type 0} (p : Platform W) (laws : WriteLaws p.kube) where
  abbrev pub KeepsPrompt : Step W (Unit {0}) → Type 0
  KeepsPrompt = KeptAt laws (λ s. prompt_key s.agent)

  pub skills-KeepsPrompt : KeepsPrompt (ensure_skills_config_map p)
  unfolding ensure_skills_config_map skills_config_map
  skills-KeepsPrompt s done =
      Written-Keeps p laws (skills_config_map s.agent s.role_data) (λ a. a) _
        (λ e. skills-ne-prompt s.agent (ap (λ k. k.name) e)) s done

  pub extra_files-KeepsPrompt :
      (a : Agent) (fs : Dict Text)
      → Keeps laws config_map (prompt_key a) (ensure_extra_files p a fs)
  unfolding ensure_extra_files role_files_config_map
  extra_files-KeepsPrompt a [] s done = (refl, refl, refl)
  extra_files-KeepsPrompt a (f ∷ fs) s done =
      Written-Keeps p laws (role_files_config_map a (f ∷ fs)) (λ x. x) _
        (λ e. role_files-ne-prompt a (ap (λ k. k.name) e)) s done

  pub role_files-KeepsPrompt : KeepsPrompt (ensure_role_files_config_map p)
  unfolding ensure_role_files_config_map
  role_files-KeepsPrompt s done =
      extra_files-KeepsPrompt s.agent (extra_files_of s.role_data) s done

  pub pvc-KeepsPrompt : (c : Config) → KeepsPrompt (ensure_pvc p c)
  unfolding ensure_pvc
  pvc-KeepsPrompt c s done = create_once-Keeps laws _ _ config_map _ _ (λ e. cc) s done

  pub service-KeepsPrompt : KeepsPrompt (ensure_service p)
  unfolding ensure_service
  service-KeepsPrompt s done = create_once-Keeps laws _ _ config_map _ _ (λ e. cc) s done

  pub account-KeepsPrompt : KeepsPrompt (ensure_service_account p)
  unfolding ensure_service_account
  account-KeepsPrompt s done = create_once-Keeps laws _ _ config_map _ _ (λ e. cc) s done

  in_namespace-Keeps :
      (a : Agent) (key : Key) (n : Text) (f : Fetched Namespace)
      → Keeps laws config_map key (in_namespace p a n f)
  unfolding in_namespace
  in_namespace-Keeps a key n missing s done = (refl, refl, refl)
  in_namespace-Keeps a key n (failed e) s done = cc
  in_namespace-Keeps a key n (found o) s done =
      create_once-Keeps laws _ _ config_map key _ (λ e. cc) s done

  extra_bindings-Keeps :
      (a : Agent) (key : Key) (ns : List Text) → Keeps laws config_map key (extra_bindings p a ns)
  unfolding extra_bindings
  extra_bindings-Keeps a key [] s done = (refl, refl, refl)
  extra_bindings-Keeps a key (n ∷ ns) s done =
      let r = p.kube.get namespace_kind (record { namespace = []; name = n }) s.world in
      let t : Run W = record s { world = r.1 } in
      let bind = in_namespace p a n (classify r.0) in
      Kept-trans laws config_map key s t ((bind >> extra_bindings p a ns) t).1
        (get-Kept laws _ _ config_map key s)
        (Keeps->> laws config_map key bind (extra_bindings p a ns)
          (in_namespace-Keeps a key n (classify r.0)) (extra_bindings-Keeps a key ns) t done)

  pub binding-KeepsPrompt : KeepsPrompt (ensure_role_binding p)
  unfolding ensure_role_binding
  binding-KeepsPrompt s done =
      Keeps->> laws config_map (prompt_key s.agent) _ _
        (create_once-Keeps laws _ _ config_map _ _ (λ e. cc))
        (extra_bindings-Keeps s.agent (prompt_key s.agent) _) s done
