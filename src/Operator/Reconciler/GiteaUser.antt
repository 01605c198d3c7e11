-- ===== src/Operator/Reconciler/GiteaUser.antt =====
-- internal/operator/reconciler/gitea_user.go: the role's Gitea user, its token and its repositories.
use entropy_gen.Common.{
  ℕ, zero, suc, Bool, true, false, ◌||◌, Option, none, some, List, [], ◌∷◌, ◌++◌, if◌then◌else◌,
  ◌==◌,
}
use entropy_gen.Common.Text.{Text, text, text_eq, is_empty, contains}
use entropy_gen.Common.Fallible.{Error, message, Result, ok, err, wrap}
use entropy_gen.GiteaClient
use entropy_gen.GiteaClient.{Client, quoted}
use entropy_gen.Operator.Types.{Agent, AgentGitea, GiteaUserStatus}
use entropy_gen.Operator.Objects.{agent_kind, secret, Secret, key_of}
use entropy_gen.Operator.Reconciler.RoleDir.{to_lower}
use entropy_gen.Operator.Reconciler.{Platform, Config, Step, ◌>>=◌, ◌>>◌, return, call, wrapping}
use entropy_gen.Operator.Reconciler.Storage.{agent_key, create_once}

unfoldable pub gitea_username : Agent → Text
gitea_username a = text "role-" ++ a.spec.role

unfoldable pub gitea_email : Agent → Text
gitea_email a = text "role-" ++ (a.spec.role ++ text "@agents.devops.local")

unfoldable pub is_gitea_already_exists : Error → Bool
is_gitea_already_exists e =
    contains (message e) (text "already exists") || contains (message e) (text "422")

unfoldable pub is_gitea_not_found : Error → Bool
is_gitea_not_found e = contains (message e) (text "not found") || contains (message e) (text "404")

abbrev password_chars : Text
password_chars = text "abcdefghijklmnopqrstuvwxyzABCDEFGHIJKLMNOPQRSTUVWXYZ0123456789"

-- chars[n]; the index is below the length.
unfoldable pub char_at : Text → ℕ → ℕ
char_at [] n = 0
char_at (c ∷ s) zero = c
char_at (c ∷ s) (suc n) = char_at s n

-- SplitN(repo, "/", 2): both parts, if there is a slash.
unfoldable pub split_repo : Text → Option (Text × Text)
split_repo [] = none
split_repo (c ∷ s) =
    let rest = split_repo s in
    if c == b'/' then some ([], s) else elim rest [ none ↦ none | some r ↦ some (c ∷ r.0, r.1) ]

-- The owner and the name, where neither is empty.
unfoldable pub repo_parts : Text → Option (Text × Text)
unfolding split_repo
repo_parts repo = elim (split_repo repo) [
  | none ↦ none
  | some r ↦ if is_empty r.0 || is_empty r.1 then none else some r
]

unfoldable pub grants_write : Text → Bool
unfolding to_lower
grants_write permission =
    let lower = to_lower permission in
    text_eq lower (text "write") || (text_eq lower (text "review") || text_eq lower (text "merge"))

unfoldable pub any_write : List Text → Bool
unfolding grants_write
any_write [] = false
any_write (permission ∷ rest) = grants_write permission || any_write rest

unfoldable pub resolve_collaborator_permission : Option AgentGitea → Text
unfolding any_write
resolve_collaborator_permission none = text "read"
resolve_collaborator_permission (some g) =
    if any_write g.permissions then text "write" else text "read"

-- Whether the status names another user than this, or none.
unfoldable pub names_other_user : Option GiteaUserStatus → Text → Bool
names_other_user none username = true
names_other_user (some u) username = if text_eq u.username username then false else true

unfoldable pub with_username : Option GiteaUserStatus → Text → GiteaUserStatus
with_username none username = record { created = true; username = username; token_secret_ref = [] }
with_username (some u) username = record u { created = true; username = username }

unfoldable pub set_gitea_user : Agent → Agent
unfolding with_username gitea_username
set_gitea_user a = record a {
  status = record a.status {
    gitea_user = some (with_username a.status.gitea_user (gitea_username a));
  };
}

-- Puts the agent that a client call gave back in place of the one in memory.
abbrev pub replace_agent : {W : Type 0} → Agent → Step W (Unit {0})
replace_agent a s = (ok tt, record s { agent = a })

module _ {W : Type 0} (p : Platform W) where
  unfoldable pub draw_chars : ℕ → W → Text × W
  unfolding char_at
  draw_chars zero w = ([], w)
  draw_chars (suc n) w =
      let (i, w') = p.random_index w in
      let (rest, w'') = draw_chars n w' in (char_at password_chars i ∷ rest, w'')

  -- A new random password; the role's name is not used.
  unfoldable pub generate_password : Text → Step W Text
  unfolding draw_chars
  generate_password role s =
      let (chars, w') = draw_chars 24 s.world in
      (ok (chars ++ text "!@1a"), record s { world = w' })

  -- An error of CreateUser counts unless it says that the user is there already.
  unfoldable pub tolerate_existing : Text → Result (Unit {0}) → Step W (Unit {0})
  tolerate_existing username (ok _) s = (ok tt, s)
  tolerate_existing username (err e) s =
      if is_gitea_already_exists e
      then (ok tt, s)
      else (err (wrap (text "create gitea user " ++ quoted username) e), s)

  -- `r.Client.Status().Update(ctx, agent)`, and the Get into the same object.
  unfoldable pub update_agent_status : Step W (Unit {0})
  update_agent_status s =
      (do
        a ← wrapping (text "update gitea user status") (call (p.kube.update_status s.agent))
        replace_agent a
        b ←
            wrapping (text "re-fetch agent after status update")
              (call (p.kube.get agent_kind (key_of agent_kind a)))
        replace_agent b)
        s

  unfoldable pub record_gitea_user : Step W (Unit {0})
  unfolding update_agent_status set_gitea_user
  record_gitea_user s =
      if names_other_user s.agent.status.gitea_user (gitea_username s.agent)
      then update_agent_status (record s { agent = set_gitea_user s.agent })
      else (ok tt, s)

  unfoldable pub admin : Config → Client
  admin c = record { base_url = c.gitea_admin_url; token = c.gitea_admin_token }

  -- CreateUser, whose error is looked at and not returned at once.
  unfoldable pub attempt_create_user : Config → Agent → Text → Step W (Result (Unit {0}))
  unfolding admin
  attempt_create_user c a password s =
      let r =
        GiteaClient.create_user p.sdk (admin c) (gitea_username a) (gitea_email a) password
          s.world in
      (ok r.0, record s { world = r.1 })

  unfoldable pub ensure_gitea_user : Config → Step W (Unit {0})
  unfolding generate_password attempt_create_user tolerate_existing record_gitea_user
  ensure_gitea_user c s =
      (do
        password ← generate_password s.agent.spec.role
        created ← attempt_create_user c s.agent password
        tolerate_existing (gitea_username s.agent) created
        record_gitea_user)
        s

  unfoldable pub delete_gitea_user : Config → Step W (Unit {0})
  unfolding admin
  delete_gitea_user c s =
      let username = gitea_username s.agent in
      let r = GiteaClient.delete_user p.sdk (admin c) username s.world in
      elim r.0 [
        | ok _ ↦ (ok tt, record s { world = r.1 })
        | err e ↦ if is_gitea_not_found e then (ok tt, record s { world = r.1 }) else (
          err (wrap (text "delete gitea user " ++ quoted username) e),
          record s { world = r.1 },
        )
      ]

  unfoldable pub token_secret_name : Agent → Text
  token_secret_name a = text "role-" ++ (a.spec.role ++ text "-gitea-token")

  -- The Secret of the role has no owner.
  unfoldable pub gitea_token_secret : Config → Agent → Step W Secret
  unfolding generate_password admin token_secret_name
  gitea_token_secret c a = do
    password ← generate_password a.spec.role
    token ← wrapping (text "create gitea token for " ++ quoted (gitea_username a)) (
        call (
          GiteaClient.create_token_with_password p.sdk (admin c) (gitea_username a) password
            (text "role-api")))
    return (record {
      meta = record {
        name = token_secret_name a;
        namespace = a.namespace;
        owner = none;
        annotations = none;
      };
      string_data = (text "token", token) ∷ [];
    })

  unfoldable pub ensure_gitea_token : Config → Step W (Unit {0})
  unfolding create_once token_secret_name
  ensure_gitea_token c s =
      let name = token_secret_name s.agent in
      create_once p.kube secret (wrapping (text "get gitea token secret " ++ quoted name))
        (agent_key s.agent name) (gitea_token_secret c s.agent) s

  unfoldable pub add_to : Config → Text → Text → Text → Option (Text × Text) → Step W (Unit {0})
  unfolding admin
  add_to c username permission repo none = return tt
  add_to c username permission repo (some r) =
      wrapping (text "add collaborator " ++ (quoted username ++ (text " to " ++ repo)))
        (call (GiteaClient.add_collaborator p.sdk (admin c) r.0 r.1 username permission))

  -- A repository without an owner and a name is passed over; the first error ends the loop.
  unfoldable pub add_to_repos : Config → Text → Text → List Text → Step W (Unit {0})
  unfolding add_to
  add_to_repos c username permission [] = return tt
  add_to_repos c username permission (repo ∷ repos) = do
    add_to c username permission repo (repo_parts repo)
    add_to_repos c username permission repos

  abbrev repos_of : Option AgentGitea → List Text
  repos_of none = []
  repos_of (some g) = g.repos

  unfoldable pub ensure_gitea_repo_access : Config → Step W (Unit {0})
  unfolding add_to_repos
  ensure_gitea_repo_access c s =
      add_to_repos c (gitea_username s.agent) (resolve_collaborator_permission s.agent.spec.gitea)
        (repos_of s.agent.spec.gitea) s
