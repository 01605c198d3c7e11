-- ===== src/Backend/Roles/Creation.antt =====
-- Whole roles: Create with the files it writes, UpdateDescription, Delete and SeedBuiltinRoles.
pub mod Precedence
pub mod Atomicity
pub mod Spared
pub mod Removal
use entropy_gen.Common.{
  ℕ, zero, suc, ◌≡◌, Bool, true, false, ◌&&◌, not, Option, none, some, List, [], ◌∷◌, ◌++◌,
  if◌then◌else◌, ltb, ◌+◌,
}
use entropy_gen.Common.Text.{Text, text, text_eq, is_empty}
use entropy_gen.Common.Dict.{Dict, lookup, insert}
use entropy_gen.Common.Paths.{FilePath, join_path, dir_of}
use entropy_gen.Common.Fallible.{Error, other, is_not_found, Result, ok, err, wrap, Action}
use entropy_gen.Common.Actions.{◌>>=◌, ◌>>◌, return, lift, fail, attempt, wrapping}
use entropy_gen.GiteaClient.{quoted}
use entropy_gen.Backend.Roles.{
  Role, RoleTypeMeta, RoleMetadata, BuiltinContent, RoleClient, validate_path, role_not_found,
  role_dir, read_metadata, write_metadata, clock,
}
use entropy_gen.Backend.Roles.RoleFiles.{unless_missing}
use entropy_gen.Backend.Roles.Listing.{count_agents_for_role, get_role}

pub record CreateRoleRequest : Type 0 where
  pub name : Text
  pub description : Text
  pub role : Text
  pub initial_files : List Text
  pub files : Dict Text

abbrev pub well_known : List Text
well_known = text "SOUL.md" ∷ text "PROMPT.md" ∷ text "AGENTS.md" ∷ []

abbrev pub skill_path : Text → Text
skill_path skill = text "skills/" ++ (skill ++ text "/SKILL.md")

unfoldable pub builtin_content_for : Option BuiltinContent → Text → Text → Text
builtin_content_for none filename role = []
builtin_content_for (some b) filename role =
    if text_eq filename (text "SOUL.md")
    then b.read_soul
    else if text_eq filename (text "PROMPT.md")
    then b.read_prompt_for_role role
    else if text_eq filename (text "AGENTS.md")
    then b.build_agents_md role
    else []

unfoldable pub add_defaults : Option BuiltinContent → Text → List Text → Dict Text → Dict Text
unfolding builtin_content_for insert
add_defaults builtin role [] m = m
add_defaults builtin role (f ∷ fs) m =
    let content = builtin_content_for builtin f role in
    add_defaults builtin role fs (if is_empty content then m else insert f content m)

unfoldable pub add_skills : BuiltinContent → List Text → Dict Text → Dict Text
unfolding insert
add_skills b [] m = m
add_skills b (s ∷ ss) m = add_skills b ss (insert (skill_path s) (b.read_skill s) m)

-- The first step of Create.
unfoldable pub builtin_data : Option BuiltinContent → Text → Dict Text
unfolding add_defaults add_skills
builtin_data none role = []
builtin_data (some b) role =
    if not (is_empty role) && not (text_eq role (text "custom"))
    then add_skills b (b.builtin_skills_for_role role) (add_defaults (some b) role well_known [])
    else []

abbrev pub or_else : Option Text → Text → Text
or_else (some t) u = t
or_else none u = u

-- The second step: a key that exists keeps its content.
unfoldable pub add_initial : Option BuiltinContent → Text → List Text → Dict Text → Dict Text
unfolding builtin_content_for lookup insert
add_initial builtin role [] m = m
add_initial builtin role (f ∷ fs) m =
    add_initial builtin role fs
      (insert f (or_else (lookup f m) (builtin_content_for builtin f role)) m)

-- The third step, which overrides. The keys of a Go map differ, in whatever order they come.
unfoldable pub add_files : Dict Text → Dict Text → Dict Text
unfolding insert
add_files [] m = m
add_files ((k, v) ∷ fs) m = insert k v (add_files fs m)

unfoldable pub role_data : Option BuiltinContent → CreateRoleRequest → Dict Text
unfolding builtin_data add_initial add_files
role_data builtin req =
    add_files req.files
      (add_initial builtin req.role req.initial_files (builtin_data builtin req.role))

module _ {W : Type 0} (r : RoleClient W) where
  -- `if err := m; err != nil { _ = os.RemoveAll(dir); return nil, err }`
  unfoldable pub or_remove : {A : Type 0} → FilePath → Action W A → Action W A
  or_remove dir m = do
    done ← attempt m
    elim done [ ok a ↦ return a | err e ↦ (attempt (r.fs.remove_all dir) >>= λ _. fail e) ]

  -- The loop that writes the files.
  unfoldable pub write_files : FilePath → List (Text × Text) → Action W (Unit {0})
  unfolding or_remove
  write_files dir [] = return tt
  write_files dir ((path, content) ∷ fs) = do
    or_remove dir (lift (validate_path path))
    or_remove dir
        (wrapping (text "create dir for " ++ path) (r.fs.mkdir_all (dir_of (join_path dir path))))
    or_remove dir
        (wrapping (text "write file " ++ path) (r.fs.write_file (join_path dir path) content))
    write_files dir fs

  -- The directory's content: the files, and then the metadata.
  unfoldable pub populate : CreateRoleRequest → Action W (Unit {0})
  unfolding write_files or_remove role_data write_metadata
  populate req = do
    write_files (role_dir r req.name) (r.range (role_data r.builtin req))
    t ← clock r
    or_remove (role_dir r req.name) (
        wrapping (text "write metadata for " ++ req.name) (
          write_metadata r req.name
            (record { description = req.description; created_at = t; updated_at = t })))

  unfoldable pub unless_exists : FilePath → Error → Action W (Unit {0})
  unless_exists p e = do
    found ← attempt (r.fs.stat p)
    elim found [ ok t ↦ fail e | err x ↦ return tt ]

  -- RoleClient.Create
  unfoldable pub create_role : CreateRoleRequest → Action W Role
  unfolding populate unless_exists get_role
  create_role req = do
    lift (validate_path req.name)
    unless_exists (role_dir r req.name)
        (other (text "role " ++ (req.name ++ text " already exists")))
    wrapping (text "create role dir " ++ req.name) (r.fs.mkdir_all (role_dir r req.name))
    populate req
    get_role r req.name

  unfoldable pub update_description : Text → Text → Action W Role
  unfolding read_metadata write_metadata get_role
  update_description name description = do
    lift (validate_path name)
    m ← wrapping (text "get role " ++ (name ++ text " for update")) (read_metadata r name)
    t ← clock r
    wrapping (text "update description for role " ++ name) (
        write_metadata r name
          (record { description = description; created_at = m.created_at; updated_at = t }))
    get_role r name

  -- The user of the role in Gitea goes, if there is one.
  unfoldable pub forget_user : Option (Text → Action W (Unit {0})) → Text → Action W (Unit {0})
  forget_user none name = return tt
  forget_user (some delete_user) name = do
    gone ← attempt (delete_user (text "role-" ++ name))
    return tt

  abbrev pub token_secret : Text → Text
  token_secret name = text "role-" ++ (name ++ text "-gitea-token")

  unfoldable pub accept_not_found : Text → Result (Unit {0}) → Result (Unit {0})
  accept_not_found t (ok u) = ok u
  accept_not_found t (err e) = if is_not_found e then ok tt else err (wrap t e)

  unfoldable pub forget_secret : Option (Text → Action W (Unit {0})) → Text → Action W (Unit {0})
  unfolding accept_not_found
  forget_secret none name = return tt
  forget_secret (some delete_secret) name = do
    gone ← attempt (delete_secret (token_secret name))
    lift (accept_not_found (text "delete gitea token secret " ++ quoted (token_secret name)) gone)

  unfoldable pub unless_used : Text → ℕ → Action W (Unit {0})
  unless_used name n =
      if ltb zero n
      then fail (other (r.decimal n ++ text " agents are using this role"))
      else return tt

  -- RoleClient.Delete
  unfoldable pub delete_role : Text → Action W (Unit {0})
  unfolding count_agents_for_role unless_used unless_missing forget_user forget_secret
  delete_role name = do
    lift (validate_path name)
    n ← wrapping (text "count agents for role " ++ name) (count_agents_for_role r name)
    unless_used name n
    unless_missing r (role_dir r name) (role_not_found name)
    wrapping (text "remove role dir " ++ name) (r.fs.remove_all (role_dir r name))
    forget_user r.delete_user name
    forget_secret r.delete_secret name

  abbrev pub seed_request : RoleTypeMeta → CreateRoleRequest
  seed_request rt = record {
    name = rt.name;
    description = rt.description;
    role = rt.name;
    initial_files = [];
    files = [];
  }

  -- Whether a role was seeded: there was none, and its creation succeeded.
  unfoldable pub seed_role : RoleTypeMeta → Result ℕ → Action W ℕ
  unfolding create_role
  seed_role rt (ok t) = return 0
  seed_role rt (err x) = do
    created ← attempt (create_role (seed_request rt))
    return (elim created [ ok c ↦ 1 | err e ↦ 0 ])

  unfoldable pub seed_types : List RoleTypeMeta → Action W ℕ
  unfolding seed_role
  seed_types [] = return 0
  seed_types (rt ∷ rts) = do
    found ← attempt (r.fs.stat (role_dir r rt.name))
    seeded ← seed_role rt found
    more ← seed_types rts
    return (seeded + more)

  -- SeedBuiltinRoles
  unfoldable pub seed_builtin_roles : Action W ℕ
  unfolding seed_types
  seed_builtin_roles = elim r.builtin [ none ↦ return 0 | some b ↦ seed_types b.list_role_types ]
