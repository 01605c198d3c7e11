-- ===== src/Operator/Reconciler/Contents.antt =====
-- What the server holds after a ConfigMap step or the Deployment step that succeeded.
use mathlib.Core.List.{append_cancel_left}
use entropy_gen.Common.{
  ◌≡◌, ◌≢◌, refl, sym, ap, ◌∙◌, ◌⊎◌, inl, inr, Bool, true, false, Option, none, some,
}
use entropy_gen.Common.Text.{Text, text, text_eq, text_eq_refl, text_eq-ne}
use entropy_gen.Common.Dict.{Dict, lookup, lookup-insert}
use entropy_gen.Common.Fallible.{Error, Result, ok, err, is_not_found}
use entropy_gen.Operator.Types.{Agent}
use entropy_gen.Operator.Objects.{
  config_map, ConfigMap, Kind, Key, key_of, Object, KubeClient, WriteLaws,
}
use entropy_gen.Operator.Reconciler.{
  Platform, Run, return, call, Fetched, found, missing, failed, classify,
}
use entropy_gen.Operator.Reconciler.Creation.{Keeps, >>=-ok}
use entropy_gen.Operator.Reconciler.Storage.{agent_name}
use entropy_gen.Operator.Reconciler.ConfigMaps.{
  put_config_map, ensure_named_config_map, hash_annotation, set_hash,
}

pub lookup-set_hash :
    (hash : Text) (old : Option (Dict Text))
    → (m : Dict Text) × (set_hash hash old ≡ some m) × (lookup hash_annotation m ≡ some hash)
unfolding lookup
lookup-set_hash hash none = (_, refl, rw (text_eq_refl hash_annotation))
lookup-set_hash hash (some m) = (
  _,
  refl,
  lookup-insert hash_annotation hash_annotation hash m ∙ rw (text_eq_refl hash_annotation),
)

-- The key of an object that a Get found.
pub found_key :
    {W : Type 0} {kube : KubeClient W} (laws : WriteLaws kube) (k : Kind) (key : Key) (w : W)
    (o : Object k)
    → classify (kube.get k key w).0 ≡ found o
    → key_of k o ≡ key
found_key {kube} laws k key w o e = laws.get_key k key w o (invert (kube.get k key w).0 e)
  where
    invert_failure :
        (x : Error) (b : Bool) → is_not_found x ≡ b → classify {A = Object k} (err x) ≢ found o
    invert_failure x true h f = cc (rw (h, classify) at f)
    invert_failure x false h f = cc (rw (h, classify) at f)

    invert : (r : Result (Object k)) → classify r ≡ found o → r ≡ ok o
    invert (ok o') f = cc
    invert (err x) f = absurd (invert_failure x (is_not_found x) refl f)

-- The object that a successful write has left, and what else it has left alone.
pub record Written {W : Type 0} {kube : KubeClient W} (laws : WriteLaws kube) (new : ConfigMap)
    (annotate : Option (Dict Text) → Option (Dict Text)) (s t : Run W) : Type 0 where
  pub object : ConfigMap
  pub is_stored : laws.stored t.world config_map (key_of config_map new) ≡ some object
  pub same_entries : object.entries ≡ new.entries
  pub old_annotations : Option (Dict Text)
  pub annotations :
      (object.meta.annotations ≡ new.meta.annotations)
      ⊎ (object.meta.annotations ≡ annotate old_annotations)
  pub same_agent : t.agent ≡ s.agent
  pub same_role_data : t.role_data ≡ s.role_data
  pub others :
      (key : Key)
      → key_of config_map new ≢ key
      → laws.stored t.world config_map key ≡ laws.stored s.world config_map key

module _ {W : Type 0} (p : Platform W) (laws : WriteLaws p.kube) (new : ConfigMap)
    (annotate : Option (Dict Text) → Option (Dict Text)) where
  put_Written :
      (f : Fetched ConfigMap) (s : Run W)
      → ((cm : ConfigMap) → f ≡ found cm → key_of config_map cm ≡ key_of config_map new)
      → (put_config_map p new annotate f s).0 ≡ ok tt
      → Written laws new annotate s (put_config_map p new annotate f s).1
  unfolding put_config_map
  put_Written (failed e) s at_key done = cc
  put_Written missing s at_key done =
      let (o', e, q) = >>=-ok (call (p.kube.create config_map new)) (λ _. return tt) s done in
      rw q (record {
        object = new;
        is_stored = laws.create_ok config_map new o' s.world e;
        same_entries = refl;
        old_annotations = none;
        annotations = inl refl;
        same_agent = refl;
        same_role_data = refl;
        others = λ key ne. laws.create_key config_map new o' s.world key e ne;
      })
  put_Written (found cm) s at_key done =
      let sent : ConfigMap = record cm {
        entries = new.entries;
        meta = record cm.meta { annotations = annotate cm.meta.annotations };
      } in
      let (o', e, q) = >>=-ok (call (p.kube.update config_map sent)) (λ _. return tt) s done in
      let here = at_key cm refl in
      rw q (record {
        object = sent;
        is_stored = rw (← here) (laws.update_ok config_map sent o' s.world e);
        same_entries = refl;
        old_annotations = cm.meta.annotations;
        annotations = inr refl;
        same_agent = refl;
        same_role_data = refl;
        others =
            λ key ne. laws.update_key config_map sent o' s.world key e (λ h. ne (sym here ∙ h));
      })

  -- Whether it was created or updated.
  pub ensure_Written :
      (s : Run W)
      → (ensure_named_config_map p new annotate s).0 ≡ ok tt
      → Written laws new annotate s (ensure_named_config_map p new annotate s).1
  unfolding ensure_named_config_map
  ensure_Written s done =
      let key = key_of config_map new in
      let t : Run W = record s { world = (p.kube.get config_map key s.world).1 } in
      let got = classify (p.kube.get config_map key s.world).0 in
      let w = put_Written got t (λ cm e. found_key laws config_map key s.world cm e) done in
      record {
        object = w.object;
        is_stored = w.is_stored;
        same_entries = w.same_entries;
        old_annotations = w.old_annotations;
        annotations = w.annotations;
        same_agent = w.same_agent;
        same_role_data = w.same_role_data;
        others = λ k ne.
            w.others k ne ∙ ap (λ h. h config_map k) (laws.get_keeps config_map key s.world);
      }

  pub Written-Keeps :
      (key : Key)
      → key_of config_map new ≢ key
      → Keeps laws config_map key (ensure_named_config_map p new annotate)
  Written-Keeps key ne s done =
      let w = ensure_Written s done in (w.others key ne, w.same_agent, w.same_role_data)

-- The names of the agent's ConfigMaps differ.
agent_name-ne : (a : Agent) (x y : Text) → x ≢ y → agent_name a x ≢ agent_name a y
agent_name-ne a x y ne e =
    ne (append_cancel_left a.name x y (append_cancel_left (text "agent-") _ _ e))

pub skills-ne-prompt : (a : Agent) → agent_name a (text "-skills") ≢ agent_name a (text "-prompt")
unfolding text text_eq
skills-ne-prompt a = agent_name-ne a _ _ (text_eq-ne refl)

pub role_files-ne-prompt :
    (a : Agent) → agent_name a (text "-role-files") ≢ agent_name a (text "-prompt")
unfolding text text_eq
role_files-ne-prompt a = agent_name-ne a _ _ (text_eq-ne refl)
