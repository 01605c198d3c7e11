-- ===== src/Backend/Roles.antt =====
-- The RoleClient of internal/backend/k8sclient/role_fs.go: roles are directories below a base
-- path. What is shared by its operations, and the metadata file of a role.
pub mod RoleFiles
pub mod Spares
pub mod Isolation
pub mod Stored
pub mod Listing
pub mod Creation
pub mod Validation
use entropy_gen.Common.{
  ℕ, suc, ◌≡◌, Bool, true, false, Option, none, some, List, [], ◌∷◌, ◌++◌, if◌then◌else◌,
}
use entropy_gen.Common.Text.{Text, text, text_eq}
use entropy_gen.Common.Dict.{Dict}
use entropy_gen.Common.Paths.{FilePath, clean, join_path, goes_up}
use entropy_gen.Common.Fallible.{Error, other, wrap, Result, ok, err, Action}
use entropy_gen.Common.Actions.{◌>>=◌, ◌>>◌, return, lift, fail, attempt, wrapping}
use entropy_gen.Operator.Types.{Agent}
use entropy_gen.Backend.Files.{FileSystem}

pub record RoleFile : Type 0 where
  pub name : Text
  pub content : Text
  pub updated_at : ℕ

pub record Role : Type 0 where
  pub name : Text
  pub description : Text
  pub files : List RoleFile
  pub file_count : ℕ
  pub agent_count : ℕ
  pub created_at : ℕ
  pub updated_at : ℕ

pub record RoleTypeMeta : Type 0 where
  pub name : Text
  pub label : Text
  pub description : Text
  pub skills : List Text
  pub permissions : List Text

pub record BuiltinContent : Type 0 where
  pub read_soul : Text
  pub read_prompt : Text
  pub read_prompt_for_role : Text → Text
  pub build_agents_md : Text → Text
  pub builtin_skills_for_role : Text → List Text
  pub read_skill : Text → Text
  pub list_role_types : List RoleTypeMeta

pub record RoleMetadata : Type 0 where
  pub description : Text
  pub created_at : ℕ
  pub updated_at : ℕ

abbrev pub metadata_file : Text
metadata_file = text ".metadata.json"

-- The fields of RoleClient that are not configured are `none`: agents is agentClient.List,
-- delete_user is giteaClient.DeleteUser, and delete_secret deletes a Secret of the namespace.
-- `range` is the order in which a map is ranged over; the rest is encoding/json, time.Now and %d.
pub record RoleClient (W : Type 0) : Type 0 where
  pub fs : FileSystem W
  pub base_path : FilePath
  pub agents : Option (Action W (List Agent))
  pub builtin : Option BuiltinContent
  pub delete_user : Option (Text → Action W (Unit {0}))
  pub delete_secret : Option (Text → Action W (Unit {0}))
  pub encode : RoleMetadata → Text
  pub decode : Text → Result RoleMetadata
  pub now : W → ℕ × W
  pub range : Dict Text → List (Text × Text)
  pub decimal : ℕ → Text

unfoldable pub validate_path : Text → Result (Unit {0})
validate_path name =
    if (clean name).rooted
    then err (other (text "absolute paths not allowed: " ++ name))
    else if goes_up (clean name).stack
    then err (other (text "path traversal not allowed: " ++ name))
    else ok tt

abbrev pub role_not_found : Text → Error
role_not_found name = other (text "role " ++ (name ++ text " not found"))

-- The error of a nil FileInfo: the program panics.
abbrev pub mod_time : {W : Type 0} → Result ℕ → Action W ℕ
mod_time (ok t) = return t
mod_time (err e) = fail (other (text "nil pointer dereference"))

module _ {W : Type 0} (r : RoleClient W) where
  abbrev pub role_dir : Text → FilePath
  role_dir name = join_path r.base_path name

  abbrev pub metadata_path : Text → FilePath
  metadata_path name = join_path (role_dir name) metadata_file

  unfoldable pub read_metadata : Text → Action W RoleMetadata
  read_metadata name = do
    data_read ← r.fs.read_file (metadata_path name)
    wrapping (text "parse metadata for role " ++ name) (lift (r.decode data_read))

  unfoldable pub write_metadata : Text → RoleMetadata → Action W (Unit {0})
  write_metadata name m = r.fs.write_file (metadata_path name) (r.encode m)

  abbrev pub clock : Action W ℕ
  clock w = let t = r.now w in (ok t.0, t.1)

  unfoldable pub touch_metadata : Text → Action W (Unit {0})
  unfolding read_metadata write_metadata
  touch_metadata name = do
    m ← read_metadata name
    t ← clock
    write_metadata name (record m { updated_at = t })
