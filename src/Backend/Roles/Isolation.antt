-- ===== src/Backend/Roles/Isolation.antt =====
-- What the operations on a role and its files leave alone: everything outside of the role's directory.
use mathlib.Core.Path.{subst}
use entropy_gen.Common.{◌≡◌, ◌≢◌, refl, ◌∙◌, List, [], ◌∷◌}
use entropy_gen.Common.Text.{Text}
use entropy_gen.Common.Paths.{FilePath, join_path, dir_of}
use entropy_gen.Common.Paths.Containment.{Within, Within-trans}
use entropy_gen.Common.Fallible.{ok}
use entropy_gen.Common.Actions.{Keeps}
use entropy_gen.Backend.Roles.{RoleClient, validate_path, role_dir, metadata_file, metadata_path}
use entropy_gen.Backend.Roles.RoleFiles.{put_file, delete_file, rename_file}
use entropy_gen.Backend.Roles.Creation.{
  CreateRoleRequest, create_role, update_description, delete_role,
}
use entropy_gen.Backend.Roles.Creation.Spared.{
  create_role-Spares, update_description-Spares, delete_role-Spares,
}
use entropy_gen.Backend.Roles.Spares.{
  RoleLaws, Spares, >>=-Spares, wrapping-Spares, checked-Spares, mkdir_all-Spares,
  unless_missing-Spares, finish_put-Spares, finish_delete-Spares, finish_rename-Spares,
  validate_path-Within, metadata_file-valid,
}

module _ {W : Type 0} (r : RoleClient W) (laws : RoleLaws r) (role : Text) (q : FilePath)
    (outside : ¬ Within (role_dir r role) q) where
  below_ne : (p : FilePath) → Within (role_dir r role) p → p ≢ q
  below_ne p h e = outside (subst (Within (role_dir r role)) e h)

  named_below :
      (name : Text)
      → validate_path name ≡ ok tt
      → Within (role_dir r role) (join_path (role_dir r role) name)
  named_below name valid = validate_path-Within (role_dir r role) name valid

  named_outside :
      (name : Text) → validate_path name ≡ ok tt → ¬ Within (join_path (role_dir r role) name) q
  named_outside name valid k = outside (
      Within-trans (role_dir r role) (join_path (role_dir r role) name) q (named_below name valid)
        k)

  not_metadata : metadata_path r role ≢ q
  not_metadata = below_ne (metadata_path r role) (named_below metadata_file metadata_file-valid)

  put_file-Spares : (filename content : Text) → Spares r laws q (put_file r role filename content)
  unfolding put_file
  put_file-Spares filename content =
      let full = join_path (role_dir r role) filename in
      checked-Spares r laws q _ _ (λ role_ok. checked-Spares r laws q _ _ (λ file_ok.
        >>=-Spares r laws q _ _ (unless_missing-Spares r laws q (metadata_path r role) _) (λ _.
          >>=-Spares r laws q _ _
            (wrapping-Spares r laws q _ _ (mkdir_all-Spares r laws q (dir_of full)))
            (λ _.
              >>=-Spares r laws q _ _
                (wrapping-Spares r laws q _ _ (
                  laws.files.write_frame full q content
                    (below_ne full (named_below filename file_ok))))
                (λ _. finish_put-Spares r laws q role not_metadata filename content)))))

  delete_file-Spares : (filename : Text) → Spares r laws q (delete_file r role filename)
  unfolding delete_file
  delete_file-Spares filename =
      let full = join_path (role_dir r role) filename in
      checked-Spares r laws q _ _ (λ role_ok. checked-Spares r laws q _ _ (λ file_ok.
        >>=-Spares r laws q _ _ (unless_missing-Spares r laws q full _) (λ _.
          >>=-Spares r laws q _ _
            (wrapping-Spares r laws q _ _
              (laws.files.remove_frame full q (below_ne full (named_below filename file_ok))))
            (λ _. finish_delete-Spares r laws q role not_metadata filename))))

  rename_file-Spares :
      (old_name new_name : Text) → Spares r laws q (rename_file r role old_name new_name)
  unfolding rename_file
  rename_file-Spares old_name new_name =
      let old = join_path (role_dir r role) old_name in
      let new = join_path (role_dir r role) new_name in
      checked-Spares r laws q _ _ (λ role_ok. checked-Spares r laws q _ _ (λ old_ok.
        checked-Spares r laws q _ _ (λ new_ok.
          >>=-Spares r laws q _ _ (unless_missing-Spares r laws q old _) (λ _.
            >>=-Spares r laws q _ _
              (wrapping-Spares r laws q _ _ (mkdir_all-Spares r laws q (dir_of new)))
              (λ _.
                >>=-Spares r laws q _ _
                  (wrapping-Spares r laws q _ _ (
                    laws.files.rename_frame old new q (named_outside old_name old_ok)
                      (named_outside new_name new_ok)))
                  (λ _. finish_rename-Spares r laws q role not_metadata old_name new_name))))))

-- What a client may ask for on a role, one request behind the other.
pub data RoleOp : Type 0 where
  puts : Text → Text → RoleOp
  deletes : Text → RoleOp
  renames : Text → Text → RoleOp
  creates : CreateRoleRequest → RoleOp
  describes : Text → RoleOp
  removes : RoleOp

module _ {W : Type 0} (r : RoleClient W) (role : Text) where
  abbrev pub run_op : RoleOp → W → W
  run_op (puts filename content) w = (put_file r role filename content w).1
  run_op (deletes filename) w = (delete_file r role filename w).1
  run_op (renames old_name new_name) w = (rename_file r role old_name new_name w).1
  run_op (creates req) w = (create_role r (record req { name = role }) w).1
  run_op (describes description) w = (update_description r role description w).1
  run_op removes w = (delete_role r role w).1

  pub run_ops : List RoleOp → W → W
  run_ops [] w = w
  run_ops (o ∷ os) w = run_ops os (run_op o w)

module _ {W : Type 0} (r : RoleClient W) (laws : RoleLaws r) where
  run_op-Spares :
      (role : Text) (o : RoleOp) (q : FilePath)
      → ¬ Within (role_dir r role) q
      → Keeps (λ w. laws.files.file_at w q) (λ w. (ok tt, run_op r role o w))
  run_op-Spares role (puts filename content) q outside =
      put_file-Spares r laws role q outside filename content
  run_op-Spares role (deletes filename) q outside =
      delete_file-Spares r laws role q outside filename
  run_op-Spares role (renames old_name new_name) q outside =
      rename_file-Spares r laws role q outside old_name new_name
  run_op-Spares role (creates req) q outside =
      create_role-Spares r laws q role (not_metadata r laws role q outside) outside
        (record req { name = role }) refl
  run_op-Spares role (describes description) q outside =
      update_description-Spares r laws q role (not_metadata r laws role q outside) description
  run_op-Spares role removes q outside = delete_role-Spares r laws q role outside

  -- Whatever is put, deleted and renamed in a role, under whatever names, and however the role
  -- itself is created, described and deleted, whether it succeeds or fails: every file outside of
  -- the role's directory stays as it was.
  pub run_ops-Spares :
      (role : Text) (os : List RoleOp) (w : W) (q : FilePath)
      → ¬ Within (role_dir r role) q
      → laws.files.file_at (run_ops r role os w) q ≡ laws.files.file_at w q
  unfolding run_ops
  run_ops-Spares role [] w q outside = refl
  run_ops-Spares role (o ∷ os) w q outside =
      run_ops-Spares role os (run_op r role o w) q outside ∙ run_op-Spares role o q outside w
