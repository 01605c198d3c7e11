-- ===== src/Backend/Roles/Creation/Atomicity.antt =====
-- A creation that fails while it writes leaves no file behind.
use entropy_gen.Common.{◌≡◌, none, List, [], ◌∷◌}
use entropy_gen.Common.Text.{Text}
use entropy_gen.Common.Paths.{FilePath}
use entropy_gen.Common.Paths.Containment.{Within}
use entropy_gen.Common.Fallible.{Error, Result, ok, err, Action}
use entropy_gen.Common.Actions.{◌>>=◌, return, fail, attempt}
use entropy_gen.Common.Actions.Outcomes.{Fails, Fails->>=, Fails-return, Fails-attempt}
use entropy_gen.Backend.Roles.{RoleClient, role_dir, clock}
use entropy_gen.Backend.Roles.Spares.{RoleLaws, file_at}
use entropy_gen.Backend.Roles.Creation.{CreateRoleRequest, or_remove, write_files, populate}

module _ {W : Type 0} (r : RoleClient W) (laws : RoleLaws r) (dir q : FilePath)
    (below : Within dir q) (removed : (v : W) → (r.fs.remove_all dir v).0 ≡ ok tt) where
  abbrev Gone : W → Type 0
  Gone v = file_at r laws v q ≡ none

  undone :
      {A : Type 0} (done : Result A)
      → Fails
          (elim done as (λ _. Action W A) [
            | ok a ↦ return a
            | err e ↦ (attempt (r.fs.remove_all dir) >>= λ _. fail e)
          ])
          Gone
  unfolding return attempt fail ◌>>=◌
  undone (ok a) w e failed = cc
  undone (err x) w e failed = laws.files.remove_all_ok dir q w (removed w) below

  or_remove-Fails : {A : Type 0} (m : Action W A) → Fails (or_remove r dir m) Gone
  unfolding or_remove
  or_remove-Fails m = Fails->>= Gone (attempt m) _ (Fails-attempt Gone m) (λ done. undone done)

  write_files-Fails : (fs : List (Text × Text)) → Fails (write_files r dir fs) Gone
  unfolding write_files
  write_files-Fails [] = Fails-return Gone tt
  write_files-Fails ((path, content) ∷ fs) = Fails->>= Gone _ _ (or_remove-Fails _) (λ _.
      Fails->>= Gone _ _ (or_remove-Fails _)
        (λ _. Fails->>= Gone _ _ (or_remove-Fails _) (λ _. write_files-Fails fs)))

module _ {W : Type 0} (r : RoleClient W) (laws : RoleLaws r) where
  clock-Fails : (Q : W → Type 0) → Fails (clock r) Q
  clock-Fails Q w e failed = cc

  -- If removing the new role's directory works, then a creation that fails on a file, its name
  -- or the metadata leaves no file in that directory.
  pub populate_undone :
      (req : CreateRoleRequest) (q : FilePath) (w : W) (e : Error)
      → Within (role_dir r req.name) q
      → ((v : W) → (r.fs.remove_all (role_dir r req.name) v).0 ≡ ok tt)
      → (populate r req w).0 ≡ err e
      → file_at r laws (populate r req w).1 q ≡ none
  unfolding populate
  populate_undone req q w e below removed failed =
      let dir = role_dir r req.name in
      let Undone = Gone r laws dir q below removed in
      Fails->>= Undone _ _ (write_files-Fails r laws dir q below removed _)
        (λ _.
          Fails->>= Undone _ _ (clock-Fails Undone)
            (λ t. or_remove-Fails r laws dir q below removed _))
        w e failed
