-- ===== src/Operator/Reconciler/Deployed.antt =====
-- What the server holds after a successful EnsureDeployment.
use entropy_gen.Common.{◌≡◌, refl, ap, ◌∙◌, Option, some, [], if◌then◌else◌}
use entropy_gen.Common.Text.{Text, text, text_eq_refl}
use entropy_gen.Common.Dict.{Dict, lookup}
use entropy_gen.Common.Fallible.{ok}
use entropy_gen.Operator.Types.{Agent}
use entropy_gen.Operator.Objects.{config_map, deployment, Deployment, Key, key_of, WriteLaws}
use entropy_gen.Operator.Reconciler.{
  Platform, Config, Run, return, call, Fetched, found, missing, failed, classify,
}
use entropy_gen.Operator.Reconciler.Creation.{>>=-ok}
use entropy_gen.Operator.Reconciler.Contents.{found_key, lookup-set_hash}
use entropy_gen.Operator.Reconciler.Storage.{agent_name, agent_key}
use entropy_gen.Operator.Reconciler.ConfigMaps.{hash_annotation, set_hash}
use entropy_gen.Operator.Reconciler.Deployment.{
  build_deployment, hash_of, apply_deployment, ensure_deployment,
}

abbrev pub deployment_key : Agent → Key
deployment_key a = agent_key a (agent_name a [])

-- The annotations carry the hash.
abbrev pub CarriesHash : Text → Option (Dict Text) → Type 0
CarriesHash hash annotations =
    (m : Dict Text) × (annotations ≡ some m) × (lookup hash_annotation m ≡ some hash)

-- The Deployment that a server holds for the agent: its replicas and pods are those of the agent's
-- specification, and its pods carry a hash.
pub record Deployed {W : Type 0} (p : Platform W) (laws : WriteLaws p.kube) (c : Config)
    (hash : Text) (t : Run W) : Type 0 where
  pub object : Deployment
  pub is_stored : laws.stored t.world deployment (deployment_key t.agent) ≡ some object
  pub replicas : object.replicas ≡ (if t.agent.spec.paused then 0 else 1)
  pub pods : object.template_spec ≡ (build_deployment t.agent t.role_data hash c).template_spec
  pub carries : CarriesHash hash object.template_annotations

-- The hash that EnsureDeployment reads off the prompt's ConfigMap.
unfoldable pub read_hash : {W : Type 0} → Platform W → Run W → Text
read_hash p s = hash_of (
    classify
      (p.kube.get config_map (agent_key s.agent (agent_name s.agent (text "-prompt"))) s.world).0)

module _ {W : Type 0} (p : Platform W) (laws : WriteLaws p.kube) (c : Config) where
  apply_Deployed :
      (hash : Text) (f : Fetched Deployment) (s : Run W)
      → ((d : Deployment) → f ≡ found d → key_of deployment d ≡ deployment_key s.agent)
      → let desired = build_deployment s.agent s.role_data hash c in
        (apply_deployment p desired hash f s).0 ≡ ok tt
        → Deployed p laws c hash (apply_deployment p desired hash f s).1
          × ((key : Key)
              → laws.stored (apply_deployment p desired hash f s).1.world config_map key
                ≡ laws.stored s.world config_map key)
          × ((apply_deployment p desired hash f s).1.agent ≡ s.agent)
          × ((apply_deployment p desired hash f s).1.role_data ≡ s.role_data)
  unfolding apply_deployment build_deployment lookup
  apply_Deployed hash (failed e) s at_key done = cc
  apply_Deployed hash missing s at_key done =
      let desired = build_deployment s.agent s.role_data hash c in
      let (o', e, q) = >>=-ok (call (p.kube.create deployment desired)) (λ _. return tt) s done in
      rw q (
        record {
          object = desired;
          is_stored = laws.create_ok deployment desired o' s.world e;
          replicas = refl;
          pods = refl;
          carries = (_, refl, rw (text_eq_refl hash_annotation));
        },
        λ key. laws.create_kind deployment config_map desired o' s.world key e (λ h. cc),
        refl,
        refl,
      )
  apply_Deployed hash (found d) s at_key done =
      let desired = build_deployment s.agent s.role_data hash c in
      let sent : Deployment = record d {
        replicas = desired.replicas;
        template_spec = desired.template_spec;
        template_annotations = set_hash hash d.template_annotations;
      } in
      let (o', e, q) = >>=-ok (call (p.kube.update deployment sent)) (λ _. return tt) s done in
      rw q (
        record {
          object = sent;
          is_stored = rw (← at_key d refl) (laws.update_ok deployment sent o' s.world e);
          replicas = refl;
          pods = refl;
          carries = lookup-set_hash hash d.template_annotations;
        },
        λ key. laws.update_kind deployment config_map sent o' s.world key e (λ h. cc),
        refl,
        refl,
      )

  pub ensure_Deployed :
      (s : Run W)
      → (ensure_deployment p c s).0 ≡ ok tt
      → Deployed p laws c (read_hash p s) (ensure_deployment p c s).1
        × ((key : Key)
            → laws.stored (ensure_deployment p c s).1.world config_map key
              ≡ laws.stored s.world config_map key)
        × ((ensure_deployment p c s).1.agent ≡ s.agent)
        × ((ensure_deployment p c s).1.role_data ≡ s.role_data)
  unfolding ensure_deployment read_hash build_deployment
  ensure_Deployed s done =
      let prompt = agent_key s.agent (agent_name s.agent (text "-prompt")) in
      let w1 = (p.kube.get config_map prompt s.world).1 in
      let here = deployment_key s.agent in
      let got = classify (p.kube.get deployment here w1).0 in
      let w2 = (p.kube.get deployment here w1).1 in
      let r =
        apply_Deployed (read_hash p s) got (record s { world = w2 })
          (λ d e. found_key laws deployment here w1 d e) done in
      (
        r.0,
        λ key.
            r.1 key
            ∙ (ap (λ h. h config_map key) (laws.get_keeps deployment here w1)
                ∙ ap (λ h. h config_map key) (laws.get_keeps config_map prompt s.world)),
        r.2,
        r.3,
      )
