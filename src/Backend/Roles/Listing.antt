-- ===== src/Backend/Roles/Listing.antt =====
-- What RoleClient lists and counts: ListFiles, listFilesInternal, countFiles,
-- countAgentsForRole, Get, List and ListRoleTypes.
pub mod Counts
use entropy_gen.Common.{
  ℕ, zero, suc, ◌≡◌, Bool, true, false, Option, none, some, List, [], ◌∷◌, ◌++◌, if◌then◌else◌,
  length,
}
use entropy_gen.Common.Text.{Text, text, text_eq}
use entropy_gen.Common.Paths.{FilePath}
use entropy_gen.Common.Fallible.{Error, Result, ok, err, wrap, Action}
use entropy_gen.Common.Actions.{◌>>=◌, ◌>>◌, return, lift, fail, attempt, wrapping}
use entropy_gen.Operator.Types.{Agent}
use entropy_gen.Operator.Reconciler.ConfigMaps.{text_leb}
use entropy_gen.Backend.Files.{DirEntry, WalkEntry, walk_error, directory, file}
use entropy_gen.Backend.Roles.{
  RoleFile, Role, RoleTypeMeta, RoleMetadata, BuiltinContent, RoleClient, metadata_file,
  validate_path, role_not_found, role_dir, read_metadata,
}
use entropy_gen.Backend.Roles.RoleFiles.{unless_missing}

-- Where the function that WalkDir calls for a file adds it to the list.
unfoldable pub add_file :
    Text → Result ℕ → Result Text → Result (List RoleFile) → Result (List RoleFile)
add_file rel (err e) content rest = err e
add_file rel (ok t) (err e) rest = err e
add_file rel (ok t) (ok c) (err e) = err e
add_file rel (ok t) (ok c) (ok fs) = ok (record { name = rel; content = c; updated_at = t } ∷ fs)

-- The walk of listFilesInternal: the first error ends it.
unfoldable pub walked_files : List WalkEntry → Result (List RoleFile)
unfolding add_file
walked_files [] = ok []
walked_files (walk_error e ∷ ws) = err e
walked_files (directory ∷ ws) = walked_files ws
walked_files (file rel time content ∷ ws) =
    let rest = walked_files ws in
    if text_eq rel metadata_file then rest else add_file rel time content rest

-- sort.Slice by the files' names
unfoldable pub insert_file : RoleFile → List RoleFile → List RoleFile
unfolding text_leb
insert_file f [] = f ∷ []
insert_file f (g ∷ gs) =
    let rest = insert_file f gs in if text_leb f.name g.name then f ∷ g ∷ gs else g ∷ rest

unfoldable pub sort_files : List RoleFile → List RoleFile
unfolding insert_file
sort_files [] = []
sort_files (f ∷ fs) = insert_file f (sort_files fs)

-- The walk of countFiles, which no error ends.
unfoldable pub count_walked : List WalkEntry → ℕ
count_walked [] = zero
count_walked (walk_error e ∷ ws) = count_walked ws
count_walked (directory ∷ ws) = count_walked ws
count_walked (file rel time content ∷ ws) =
    let rest = count_walked ws in if text_eq rel metadata_file then rest else suc rest

unfoldable pub count_role : Text → List Agent → ℕ
count_role role [] = zero
count_role role (a ∷ rest_agents) =
    let rest = count_role role rest_agents in if text_eq a.spec.role role then suc rest else rest

abbrev pub or_zero : Result ℕ → ℕ
or_zero (ok n) = n
or_zero (err e) = zero

module _ {W : Type 0} (r : RoleClient W) where
  unfoldable pub list_files_internal : Text → Action W (List RoleFile)
  unfolding unless_missing walked_files sort_files
  list_files_internal role = do
    unless_missing r (role_dir r role) (role_not_found role)
    fs ←
        wrapping (text "list files in role " ++ role)
          (λ w. (walked_files (r.fs.walk_dir (role_dir r role) w), w))
    return (sort_files fs)

  unfoldable pub list_files : Text → Action W (List RoleFile)
  unfolding list_files_internal
  list_files role = do lift (validate_path role); list_files_internal role

  abbrev pub count_files : Text → W → ℕ
  count_files role w = count_walked (r.fs.walk_dir (role_dir r role) w)

  unfoldable pub count_agents : Option (Action W (List Agent)) → Text → Action W ℕ
  unfolding count_role
  count_agents none role = return zero
  count_agents (some agents) role = do
    found ← wrapping (text "list agents") agents
    return (count_role role found)

  unfoldable pub count_agents_for_role : Text → Action W ℕ
  unfolding count_agents
  count_agents_for_role role = count_agents r.agents role

  unfoldable pub found_metadata : Text → Result RoleMetadata → Result RoleMetadata
  found_metadata role (ok m) = ok m
  found_metadata role (err e) =
      if r.fs.is_not_exist e
      then err (role_not_found role)
      else err (wrap (text "get role " ++ role) e)

  -- RoleClient.Get
  unfoldable pub get_role : Text → Action W Role
  unfolding read_metadata found_metadata list_files_internal count_agents_for_role
  get_role role = do
    lift (validate_path role)
    read ← attempt (read_metadata r role)
    m ← lift (found_metadata role read)
    fs ← list_files_internal role
    n ← attempt (count_agents_for_role role)
    return (record {
      name = role;
      description = m.description;
      files = fs;
      file_count = length fs;
      agent_count = or_zero n;
      created_at = m.created_at;
      updated_at = m.updated_at;
    })

  -- What the loop of List appends for a directory: nothing without metadata that can be read.
  unfoldable pub added_role : Text → Result RoleMetadata → Action W (List Role)
  unfolding count_agents_for_role count_walked
  added_role role (err e) = return []
  added_role role (ok m) = do
    n ← attempt (count_agents_for_role role)
    k ← λ w. (ok (count_files role w), w)
    return (
        record {
          name = role;
          description = m.description;
          files = [];
          file_count = k;
          agent_count = or_zero n;
          created_at = m.created_at;
          updated_at = m.updated_at;
        }
        ∷ [])

  unfoldable pub list_entry : DirEntry → Action W (List Role)
  unfolding read_metadata added_role
  list_entry e =
      if e.is_dir then (attempt (read_metadata r e.name) >>= added_role e.name) else return []

  unfoldable pub list_entries : List DirEntry → Action W (List Role)
  unfolding list_entry
  list_entries [] = return []
  list_entries (e ∷ es) = do added ← list_entry e; more ← list_entries es; return (added ++ more)

  -- RoleClient.List
  unfoldable pub list_roles : Action W (List Role)
  unfolding list_entries
  list_roles = do
    read ← attempt (r.fs.read_dir r.base_path)
    elim read [
      | ok entries ↦ list_entries entries
      | err e ↦ if r.fs.is_not_exist e then return [] else fail (wrap (text "list roles") e)
    ]

  unfoldable pub list_role_types : List RoleTypeMeta
  list_role_types = elim r.builtin [ none ↦ [] | some b ↦ b.list_role_types ]
