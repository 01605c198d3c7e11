-- ===== src/Backend/Roles/RoleFiles.antt =====
-- The operations on one file of a role: GetFile, PutFile, DeleteFile and RenameFile.
use entropy_gen.Common.{ℕ, Bool, true, false, ◌&&◌, List, [], ◌∷◌, ◌++◌, if◌then◌else◌}
use entropy_gen.Common.Text.{Text, text, text_eq}
use entropy_gen.Common.Paths.{FilePath, join_path, dir_of}
use entropy_gen.Common.Fallible.{Error, other, Result, ok, err, Action}
use entropy_gen.Common.Actions.{◌>>=◌, ◌>>◌, return, lift, fail, attempt, wrapping}
use entropy_gen.GiteaClient.{quoted}
use entropy_gen.Backend.Roles.{
  RoleFile, RoleClient, validate_path, mod_time, role_dir, metadata_path, touch_metadata,
}

abbrev pub texts_eq : List Text → List Text → Bool
texts_eq [] [] = true
texts_eq (s ∷ ss) (t ∷ ts) = text_eq s t && texts_eq ss ts
texts_eq _ _ = false

abbrev pub flags_eq : Bool → Bool → Bool
flags_eq true b = b
flags_eq false true = false
flags_eq false false = true

abbrev pub path_eq : FilePath → FilePath → Bool
path_eq p q = flags_eq p.rooted q.rooted && texts_eq p.stack q.stack

abbrev pub no_file : Text → Text → Error
no_file filename role =
    other (text "file " ++ (quoted filename ++ (text " not found in role " ++ role)))

module _ {W : Type 0} (r : RoleClient W) where
  -- `if _, err := os.Stat(p); os.IsNotExist(err) { return e }`
  unfoldable pub unless_missing : FilePath → Error → Action W (Unit {0})
  unless_missing p e = do
    found ← attempt (r.fs.stat p)
    elim found [ ok t ↦ return tt | err x ↦ if r.fs.is_not_exist x then fail e else return tt ]

  unfoldable pub stat_file : Text → Text → Result ℕ → Action W ℕ
  stat_file role filename (ok t) = return t
  stat_file role filename (err x) =
      if r.fs.is_not_exist x then fail (no_file filename role) else fail x

  unfoldable pub get_file : Text → Text → Action W RoleFile
  unfolding stat_file
  get_file role filename = do
    lift (validate_path role)
    lift (validate_path filename)
    found ← attempt (r.fs.stat (join_path (role_dir r role) filename))
    t ← stat_file role filename found
    content ← r.fs.read_file (join_path (role_dir r role) filename)
    return (record { name = filename; content = content; updated_at = t })

  -- What PutFile does once the file is written.
  unfoldable pub finish_put : Text → Text → Text → Action W RoleFile
  unfolding touch_metadata
  finish_put role filename content = do
    wrapping (text "update metadata for role " ++ role) (touch_metadata r role)
    info ← attempt (r.fs.stat (join_path (role_dir r role) filename))
    t ← mod_time info
    return (record { name = filename; content = content; updated_at = t })

  unfoldable pub put_file : Text → Text → Text → Action W RoleFile
  unfolding unless_missing finish_put
  put_file role filename content = do
    lift (validate_path role)
    lift (validate_path filename)
    unless_missing (metadata_path r role) (other (text "role " ++ (role ++ text " not found")))
    wrapping (text "create dir for " ++ filename)
        (r.fs.mkdir_all (dir_of (join_path (role_dir r role) filename)))
    wrapping (text "put file " ++ (quoted filename ++ (text " in role " ++ role)))
        (r.fs.write_file (join_path (role_dir r role) filename) content)
    finish_put role filename content

  -- The loop of cleanEmptyParents over the components of `dir`, the last first: it ends at the
  -- path to stop at, at `.` and `/`, and at a directory that cannot be read or is not empty.
  unfoldable pub clean_parents : Bool → List Text → FilePath → W → W
  clean_parents rooted [] stop w = w
  clean_parents rooted (c ∷ st) stop w =
      let dir : FilePath = record { rooted = rooted; stack = c ∷ st } in
      let read = r.fs.read_dir dir w in
      if path_eq dir stop then w else elim read.0 [
        | err e ↦ read.1
        | ok entries ↦ elim entries [
          | [] ↦ clean_parents rooted st stop (r.fs.remove dir read.1).1
          | e ∷ es ↦ read.1
        ]
      ]

  -- cleanEmptyParents
  abbrev pub clean_empty_parents : FilePath → FilePath → Action W (Unit {0})
  clean_empty_parents dir stop w = (ok tt, clean_parents dir.rooted dir.stack stop w)

  unfoldable pub finish_delete : Text → Text → Action W (Unit {0})
  unfolding touch_metadata clean_parents
  finish_delete role filename = do
    clean_empty_parents (dir_of (join_path (role_dir r role) filename)) (role_dir r role)
    wrapping (text "update metadata for role " ++ role) (touch_metadata r role)

  unfoldable pub delete_file : Text → Text → Action W (Unit {0})
  unfolding unless_missing finish_delete
  delete_file role filename = do
    lift (validate_path role)
    lift (validate_path filename)
    unless_missing (join_path (role_dir r role) filename) (no_file filename role)
    wrapping (text "delete file " ++ (quoted filename ++ (text " from role " ++ role)))
        (r.fs.remove (join_path (role_dir r role) filename))
    finish_delete role filename

  abbrev pub content_or_empty : Result Text → Text
  content_or_empty (ok c) = c
  content_or_empty (err e) = []

  unfoldable pub finish_rename : Text → Text → Text → Action W RoleFile
  unfolding finish_delete
  finish_rename role old_name new_name = do
    finish_delete role old_name
    content ← attempt (r.fs.read_file (join_path (role_dir r role) new_name))
    info ← attempt (r.fs.stat (join_path (role_dir r role) new_name))
    t ← mod_time info
    return (record { name = new_name; content = content_or_empty content; updated_at = t })

  unfoldable pub rename_file : Text → Text → Text → Action W RoleFile
  unfolding unless_missing finish_rename
  rename_file role old_name new_name = do
    lift (validate_path role)
    lift (validate_path old_name)
    lift (validate_path new_name)
    unless_missing (join_path (role_dir r role) old_name) (no_file old_name role)
    wrapping (text "create dir for " ++ new_name)
        (r.fs.mkdir_all (dir_of (join_path (role_dir r role) new_name)))
    wrapping
        (text "rename file "
          ++ (quoted old_name ++ (text " to " ++ (quoted new_name ++ (text " in role " ++ role)))))
        (r.fs.rename (join_path (role_dir r role) old_name) (join_path (role_dir r role) new_name))
    finish_rename role old_name new_name
