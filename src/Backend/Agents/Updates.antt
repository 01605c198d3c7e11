-- ===== src/Backend/Agents/Updates.antt =====
-- What an update of an Agent resource leaves in the cluster.
use entropy_gen.Common.{◌≡◌, ◌≢◌, refl, sym, ap, ◌∙◌, Bool, Option, some, ◌++◌}
use mathlib.Core.Path.{subst}
use entropy_gen.Common.Text.{Text, text}
use entropy_gen.Common.Fallible.{ok}
use entropy_gen.Common.Actions.{◌>>=◌, return, >>=-ok, wrapping, wrapping_ok}
use entropy_gen.Operator.Types.{Agent, AgentSpec}
use entropy_gen.Operator.Objects.{KubeLaws, Key, key_of, agent_kind}
use entropy_gen.Backend.Agents.{
  AgentApi, PodApi, AgentClient, ensure_client, required, get_agent, set_paused, update_agent,
}

module _ {W : Type 0} (api : AgentApi W) (laws : KubeLaws api.kube) (pods : Option (PodApi W))
    (rest : Bool) (namespace : Text) where
  abbrev pub client : AgentClient W
  client = record { api = some api; pods = pods; has_rest_config = rest; namespace = namespace }

  abbrev pub key_named : Text → Key
  key_named name = record { namespace = namespace; name = name }

  -- An agent that was read is the one that is stored, and reading changes nothing stored.
  get_agent_stored :
      (name : Text) (w : W) (o : Agent)
      → (get_agent client name w).0 ≡ ok o
      → (laws.stored w agent_kind (key_named name) ≡ some o)
        × (laws.stored (get_agent client name w).1 ≡ laws.stored w)
  unfolding get_agent ensure_client required ◌>>=◌ return
  get_agent_stored name w o done =
      let (read, world) =
        wrapping_ok (text "get agent " ++ name) (api.kube.get agent_kind (key_named name)) w done in
      (
        laws.get_ok agent_kind (key_named name) w o read,
        ap laws.stored world ∙ laws.get_keeps agent_kind (key_named name) w,
      )

  -- What a change of an agent leaves: the agent that was stored, changed, and every other agent.
  abbrev pub Changed : Text → (Agent → Agent) → W → W → Type 0
  Changed name f w v =
      (o : Agent) × (laws.stored w agent_kind (key_named name) ≡ some o)
      × (laws.stored v agent_kind (key_named name) ≡ some (f o))
      × ((other : Text)
          → key_named name ≢ key_named other
          → laws.stored v agent_kind (key_named other) ≡ laws.stored w agent_kind (key_named other))

  modified :
      (name t : Text) (f : Agent → Agent)
      → ((o : Agent) → key_of agent_kind (f o) ≡ key_of agent_kind o)
      → (w : W) (o' : Agent)
      → ((get_agent client name >>= λ o. wrapping t (api.kube.update agent_kind (f o))) w).0 ≡ ok o'
      → Changed name f w
          ((get_agent client name >>= λ o. wrapping t (api.kube.update agent_kind (f o))) w).1
  modified name t f keeps w o' done =
      let (o, got, next) =
        >>=-ok (get_agent client name) (λ o. wrapping t (api.kube.update agent_kind (f o))) w
          done in
      let final =
        ((get_agent client name >>= λ o. wrapping t (api.kube.update agent_kind (f o))) w).1 in
      let v = (get_agent client name w).1 in
      let (there, kept) = get_agent_stored name w o got in
      let (updated, world) =
        wrapping_ok t (api.kube.update agent_kind (f o)) v (ap (λ x. x.0) (sym next) ∙ done) in
      let end = ap (λ x. x.1) next ∙ world in
      let key = keeps o ∙ laws.stored_key agent_kind (key_named name) w o there in
      (
        o,
        there,
        subst (λ k. laws.stored final agent_kind k ≡ some (f o)) key
            (ap (λ u. laws.stored u agent_kind (key_of agent_kind (f o))) end
              ∙ laws.update_ok agent_kind (f o) o' v updated),
        λ other differ.
            ap (λ u. laws.stored u agent_kind (key_named other)) end
            ∙ laws.update_key agent_kind (f o) o' v (key_named other) updated
                (λ e. differ (sym key ∙ e))
            ∙ ap (λ s. s agent_kind (key_named other)) kept,
      )

  -- Pausing or resuming an agent that succeeds changes just the flag of the agent that is stored,
  -- and leaves every other agent as it is.
  pub set_paused_stored :
      (name : Text) (paused : Bool) (w : W) (o' : Agent)
      → (set_paused client name paused w).0 ≡ ok o'
      → Changed name
          (λ o. record o { spec = record o.spec { paused = paused } })
          w
          (set_paused client name paused w).1
  unfolding set_paused ensure_client required ◌>>=◌ return
  set_paused_stored name paused w o' done =
      modified name (text "set paused on agent " ++ name)
        (λ o. record o { spec = record o.spec { paused = paused } }) (λ o. refl) w o' done

  -- An update puts the new spec into the agent that is stored, keeps its status, and leaves every
  -- other agent as it is.
  pub update_agent_stored :
      (name : Text) (spec : AgentSpec) (w : W) (o' : Agent)
      → (update_agent client name spec w).0 ≡ ok o'
      → Changed name (λ o. record o { spec = spec }) w (update_agent client name spec w).1
  unfolding update_agent ensure_client required ◌>>=◌ return
  update_agent_stored name spec w o' done =
      modified name (text "update agent " ++ name) (λ o. record o { spec = spec }) (λ o. refl) w o'
        done
