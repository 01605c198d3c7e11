-- ===== src/Backend/Handlers/Roles.antt =====
-- internal/backend/handler/roles.go: the answers on roles. The path's parameters and the bound body
-- are arguments.
use entropy_gen.Common.{ℕ, List, [], ◌∷◌, ◌++◌, if◌then◌else◌}
use entropy_gen.Common.Text.{Text, text, trim_prefix, contains}
use entropy_gen.Common.Fallible.{Error, message, Result, ok, err, Action}
use entropy_gen.Common.Actions.{◌>>=◌, ◌>>◌, return, attempt}
use entropy_gen.Backend.Roles.{Role, RoleFile, RoleTypeMeta, RoleClient, metadata_file}
use entropy_gen.Backend.Roles.RoleFiles.{get_file, put_file, delete_file, rename_file}
use entropy_gen.Backend.Roles.Listing.{list_roles, get_role, list_files, list_role_types}
use entropy_gen.Backend.Roles.Creation.{
  CreateRoleRequest, create_role, update_description, delete_role,
}
use entropy_gen.Backend.Roles.Validation.{ValidationIssue, validate_role}
use entropy_gen.Backend.Handlers.{Answer, success, failure, respond, with_body}

-- The answer to an error whose text has a phrase, and to any other.
abbrev pub failure_by : {A : Type 0} → Text → ℕ → Text → Text → Error → Answer A
failure_by phrase status code code_else e =
    if contains (message e) phrase
    then failure status code (message e) []
    else failure 500 code_else (message e) []

abbrev pub failure_500 : {A : Type 0} → Text → Error → Answer A
failure_500 code e = failure 500 code (message e) []

abbrev pub bad_request : {A : Type 0} → Error → Answer A
bad_request e = failure 400 (text "INVALID_REQUEST") (message e) []

-- fileParam
abbrev pub file_param : Text → Text
file_param path = trim_prefix path (text "/")

abbrev pub RenameBody : Type 0
RenameBody = Text × Text

module _ {W : Type 0} (r : RoleClient W) where
  unfoldable pub handle_list_roles : W → Answer (List Role) × W
  handle_list_roles w = respond (success 200) (failure_500 (text "LIST_FAILED")) (list_roles r w)

  -- doCreate
  unfoldable pub do_create : CreateRoleRequest → W → Answer Role × W
  do_create req w =
      respond (success 201)
        (failure_by (text "already exists") 409 (text "ROLE_EXISTS") (text "CREATE_FAILED"))
        (create_role r req w)

  unfoldable pub create_from_json : Result CreateRoleRequest → W → Answer Role × W
  unfolding with_body do_create
  create_from_json body w = with_body bad_request body do_create w

  unfoldable pub handle_get_role : Text → W → Answer Role × W
  handle_get_role name w =
      respond (success 200)
        (λ e.
          failure 404 (text "ROLE_NOT_FOUND") (text "role not found")
            (text "role '" ++ (name ++ text "' not found")))
        (get_role r name w)

  unfoldable pub handle_update_role : Text → Result Text → W → Answer Role × W
  unfolding with_body
  handle_update_role name body w =
      with_body bad_request body
        (λ description v.
          respond (success 200) (failure_500 (text "UPDATE_FAILED"))
            (update_description r name description v))
        w

  unfoldable pub handle_delete_role : Text → W → Answer (Unit {0}) × W
  handle_delete_role name w =
      respond (success 200)
        (failure_by (text "agents are using") 409 (text "ROLE_IN_USE") (text "DELETE_FAILED"))
        (delete_role r name w)

  unfoldable pub handle_list_files : Text → W → Answer (List RoleFile) × W
  handle_list_files name w =
      respond (success 200) (failure_500 (text "LIST_FILES_FAILED")) (list_files r name w)

  unfoldable pub handle_get_file : Text → Text → W → Answer RoleFile × W
  handle_get_file name path w =
      respond (success 200)
        (λ e. failure 404 (text "FILE_NOT_FOUND") (text "file not found") (
          text "file '"
          ++ (file_param path ++ (text "' not found in role '" ++ (name ++ text "'")))))
        (get_file r name (file_param path) w)

  unfoldable pub handle_put_file : Text → Text → Result Text → W → Answer RoleFile × W
  unfolding with_body
  handle_put_file name path body w =
      with_body bad_request body
        (λ content v.
          respond (success 200) (failure_500 (text "PUT_FILE_FAILED"))
            (put_file r name (file_param path) content v))
        w

  unfoldable pub handle_delete_file : Text → Text → W → Answer (Unit {0}) × W
  handle_delete_file name path w =
      respond (success 200) (failure_500 (text "DELETE_FILE_FAILED"))
        (delete_file r name (file_param path) w)

  unfoldable pub handle_rename_file : Text → Result RenameBody → W → Answer RoleFile × W
  unfolding with_body
  handle_rename_file name body w =
      with_body bad_request body
        (λ names v.
          respond (success 200) (failure_500 (text "RENAME_FILE_FAILED"))
            (rename_file r name names.0 names.1 v))
        w

  unfoldable pub handle_list_types : Answer (List RoleTypeMeta)
  handle_list_types = success 200 (list_role_types r)

  unfoldable pub handle_validate : Text → W → Answer (List ValidationIssue) × W
  handle_validate name w =
      respond (success 200)
        (failure_by (text "not found") 404 (text "ROLE_NOT_FOUND") (text "VALIDATE_FAILED"))
        (validate_role r name w)

  -- Export writes an archive: an entry is created and written, and the first error ends it.
  module _ (create_entry : Text → Action W (Unit {0})) (write_entry : Text → Action W (Unit {0}))
      (encode_description : Text → Text) where
    unfoldable pub write_archive : List RoleFile → Action W (Unit {0})
    write_archive [] = return tt
    write_archive (f ∷ fs) = do create_entry f.name; write_entry f.content; write_archive fs

    abbrev description_of : Result Role → Text
    description_of (ok role) = role.description
    description_of (err e) = []

    unfoldable pub export_archive : Text → List RoleFile → Action W (Unit {0})
    unfolding write_archive
    export_archive name fs = do
      role ← attempt (get_role r name)
      write_archive fs
      create_entry metadata_file
      write_entry (encode_description (description_of role))

    unfoldable pub after_listing : Text → Result (List RoleFile) × W → Answer (Unit {0}) × W
    unfolding export_archive
    after_listing name (err e, w) =
        (failure_by (text "not found") 404 (text "ROLE_NOT_FOUND") (text "EXPORT_FAILED") e, w)
    after_listing name (ok fs, w) = (success 200 tt, (export_archive name fs w).1)

    unfoldable pub handle_export : Text → W → Answer (Unit {0}) × W
    unfolding after_listing
    handle_export name w = after_listing name (list_files r name w)
