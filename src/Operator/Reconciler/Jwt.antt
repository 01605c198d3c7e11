-- ===== src/Operator/Reconciler/Jwt.antt =====
-- internal/operator/reconciler/jwt.go: the Secret with the token by which an agent is known to the
-- gateway.
use entropy_gen.Common.{ℕ, none, [], ◌∷◌, ◌++◌}
use entropy_gen.Common.Text.{Text, text}
use entropy_gen.Common.Dict.{Dict}
use entropy_gen.Events.{Value, str, num}
use entropy_gen.GiteaClient.{quoted}
use entropy_gen.Operator.Types.{Agent}
use entropy_gen.Operator.Objects.{secret, Secret}
use entropy_gen.Operator.Reconciler.{Platform, Config, Step, ◌>>=◌, return, wrapping}
use entropy_gen.Operator.Reconciler.Storage.{agent_name, owned_meta, agent_key, create_once}

-- The time of issue is in seconds; an expiry of 0 stands for none.
unfoldable pub agent_claims : Text → Text → ℕ → Dict Value
agent_claims agent_id agent_role issued =
    (text "sub", str agent_id)
    ∷ (text "agent_id", str agent_id)
    ∷ (text "agent_role", str agent_role)
    ∷ (text "iat", num issued)
    ∷ (text "exp", num 0)
    ∷ []

module _ {W : Type 0} (p : Platform W) where
  unfoldable pub issue_agent_jwt : Text → Text → Text → Step W Text
  issue_agent_jwt agent_id agent_role signing_secret s =
      let r = p.now s.world in
      let claims = agent_claims agent_id agent_role r.0 in
      wrapping (text "sign jwt") (λ t. (p.sign (text "HS256") claims signing_secret, t))
        (record s { world = r.1 })

  unfoldable pub jwt_secret_of : Config → Agent → Step W Secret
  unfolding issue_agent_jwt
  jwt_secret_of c a = do
    token ←
        wrapping (text "issue jwt for " ++ quoted a.name)
          (issue_agent_jwt (agent_name a []) a.spec.role c.jwt_secret)
    return (record {
      meta = owned_meta a (agent_name a (text "-jwt-token")) none;
      string_data = (text "token", token) ∷ [];
    })

  unfoldable pub ensure_jwt_secret : Config → Step W (Unit {0})
  unfolding create_once
  ensure_jwt_secret c s =
      let name = agent_name s.agent (text "-jwt-token") in
      create_once p.kube secret (wrapping (text "get jwt secret " ++ quoted name))
        (agent_key s.agent name) (jwt_secret_of c s.agent) s
