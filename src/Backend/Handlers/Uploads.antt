-- ===== src/Backend/Handlers/Uploads.antt =====
-- The creation of a role from an uploaded archive: createFromMultipart and parseZipFiles of
-- internal/backend/handler/roles.go. Package archive/zip is a parameter.
use entropy_gen.Common.{ℕ, Bool, List, [], ◌∷◌, if◌then◌else◌, ◌==◌, map}
use entropy_gen.Common.Text.{Text, text, trim_prefix, has_prefix, is_empty}
use entropy_gen.Common.Dict.{Dict, insert}
use entropy_gen.Common.Fallible.{Error, message, Result, ok, err}
use entropy_gen.Backend.Roles.{Role, RoleClient}
use entropy_gen.Backend.Roles.Creation.{CreateRoleRequest}
use entropy_gen.Backend.Handlers.{Answer, failure}
use entropy_gen.Backend.Handlers.Roles.{do_create, create_from_json}

-- An entry of an archive; its content is what opening and reading it gives.
pub record ZipEntry : Type 0 where
  pub name : Text
  pub is_dir : Bool
  pub content : Result Text

-- A form's file: none, one that cannot be opened, or an archive as zip.NewReader reads it.
pub data Upload : Type 0 where
  no_upload : Upload
  unopened : Error → Upload
  uploaded : Result (List ZipEntry) → Upload

pub record RoleForm : Type 0 where
  pub name : Text
  pub description : Text
  pub role : Text
  pub upload : Upload

abbrev pub slash_of : ℕ → ℕ
slash_of c = if c == b'\\' then b'/' else c

unfoldable pub entry_name : Text → Text
unfolding trim_prefix
entry_name name = trim_prefix (trim_prefix (map slash_of name) (text "/")) (text "./")

unfoldable pub add_entry : Text → Result Text → Dict Text → Result (Dict Text)
unfolding insert
add_entry name (err e) files = err e
add_entry name (ok content) files = ok (insert name content files)

abbrev pub is_skipped : ZipEntry → Bool
is_skipped e = if e.is_dir then e.is_dir else is_empty (entry_name e.name)

-- The loop of parseZipFiles: a later entry of a name overwrites an earlier one.
unfoldable pub add_entries : List ZipEntry → Dict Text → Result (Dict Text)
unfolding add_entry entry_name
add_entries [] files = ok files
add_entries (e ∷ es) files =
    let skipped = add_entries es files in
    if is_skipped e then skipped else elim (add_entry (entry_name e.name) e.content files) [
      | ok more ↦ add_entries es more
      | err x ↦ err x
    ]

unfoldable pub parse_zip_files : Result (List ZipEntry) → Result (Dict Text)
unfolding add_entries
parse_zip_files (err e) = err e
parse_zip_files (ok es) = add_entries es []

abbrev pub form_request : RoleForm → Dict Text → CreateRoleRequest
form_request form files = record {
  name = form.name;
  description = form.description;
  role = form.role;
  initial_files = [];
  files = files;
}

module _ {W : Type 0} (r : RoleClient W) where
  unfoldable pub create_with : RoleForm → Result (Dict Text) → W → Answer Role × W
  create_with form (err e) w = (failure 400 (text "ZIP_PARSE_ERROR") (message e) [], w)
  create_with form (ok files) w = do_create r (form_request form files) w

  unfoldable pub create_uploaded : RoleForm → Upload → W → Answer Role × W
  unfolding create_with parse_zip_files
  create_uploaded form no_upload w = do_create r (form_request form []) w
  create_uploaded form (unopened e) w = (failure 400 (text "ZIP_READ_ERROR") (message e) [], w)
  create_uploaded form (uploaded es) w = create_with form (parse_zip_files es) w

  unfoldable pub create_from_multipart : RoleForm → W → Answer Role × W
  unfolding create_uploaded
  create_from_multipart form w =
      if is_empty form.name
      then (failure 400 (text "INVALID_REQUEST") (text "name is required") [], w)
      else create_uploaded form form.upload w

  -- RoleHandler.Create
  unfoldable pub handle_create_role :
      Text → RoleForm → Result CreateRoleRequest → W → Answer Role × W
  unfolding create_from_multipart create_from_json has_prefix
  handle_create_role content_type form body w =
      if has_prefix content_type (text "multipart/form-data")
      then create_from_multipart form w
      else create_from_json r body w
