-- ===== src/Backend/Roles/Creation/Spared.antt =====
-- What the operations on a whole role leave alone.
use entropy_gen.Common.{
  ℕ, zero, ◌≡◌, ◌≢◌, refl, sym, ◌∙◌, ap, inl, inr, Option, none, some, List, [], ◌∷◌, Bool-cases,
  ltb,
}
use mathlib.Core.Path.{subst}
use entropy_gen.Common.Text.{Text}
use entropy_gen.Common.Paths.{FilePath, join_path, dir_of}
use entropy_gen.Common.Paths.Containment.{Within}
use entropy_gen.Common.Fallible.{Error, Result, ok, err, Action}
use entropy_gen.Common.Actions.{
  ◌>>=◌, return, fail, lift, attempt, Keeps-attempt, Keeps-return, Keeps-fail, Keeps-lift,
}
use entropy_gen.Operator.Types.{Agent}
use entropy_gen.Backend.Roles.{RoleClient, role_dir, metadata_path, validate_path}
use entropy_gen.Backend.Roles.Spares.{
  RoleLaws, file_at, Spares, >>=-Spares, wrapping-Spares, checked-Spares, mkdir_all-Spares,
  attempt_stat-Spares, unless_missing-Spares, read_metadata-Spares, write_metadata-Spares,
  clock-Spares, validate_path-Within,
}
use entropy_gen.Backend.Roles.Listing.{
  list_files_internal, count_agents, count_agents_for_role, get_role,
}
use entropy_gen.Backend.Roles.Creation.{
  CreateRoleRequest, or_remove, write_files, populate, unless_exists, create_role,
  update_description, forget_user, forget_secret, unless_used, delete_role,
}

module _ {W : Type 0} (r : RoleClient W) (laws : RoleLaws r) (q : FilePath) where
  abbrev At : W → Option Text
  At w = file_at r laws w q

  count_agents-Spares :
      (agents : Option (Action W (List Agent)))
      → r.agents ≡ agents
      → (role : Text) → Spares r laws q (count_agents r agents role)
  unfolding count_agents
  count_agents-Spares none e role = Keeps-return At zero
  count_agents-Spares (some m) e role =
      >>=-Spares r laws q _ _
        (wrapping-Spares r laws q _ _ (λ w. ap (λ f. f q) (laws.agents_keep m e w)))
        (λ found. Keeps-return At _)

  pub count_agents_for_role-Spares : (role : Text) → Spares r laws q (count_agents_for_role r role)
  unfolding count_agents_for_role
  count_agents_for_role-Spares role = count_agents-Spares r.agents refl role

  list_files_internal-Spares : (role : Text) → Spares r laws q (list_files_internal r role)
  unfolding list_files_internal
  list_files_internal-Spares role =
      >>=-Spares r laws q _ _ (unless_missing-Spares r laws q (role_dir r role) _) (λ _.
        >>=-Spares r laws q _ _ (wrapping-Spares r laws q _ _ (λ w. refl))
          (λ fs. Keeps-return At _))

  module _ (role : Text) (not_metadata : metadata_path r role ≢ q) where
    pub get_role-Spares : Spares r laws q (get_role r role)
    unfolding get_role
    get_role-Spares = checked-Spares r laws q _ _ (λ valid.
        >>=-Spares r laws q _ _
          (Keeps-attempt At _ (read_metadata-Spares r laws q role not_metadata))
          (λ read. >>=-Spares r laws q _ _ (Keeps-lift At _) (λ m.
            >>=-Spares r laws q _ _ (list_files_internal-Spares role) (λ fs.
              >>=-Spares r laws q _ _ (Keeps-attempt At _ (count_agents_for_role-Spares role))
                (λ n. Keeps-return At _)))))

    pub update_description-Spares :
        (description : Text) → Spares r laws q (update_description r role description)
    unfolding update_description
    update_description-Spares description = checked-Spares r laws q _ _ (λ valid.
        >>=-Spares r laws q _ _
          (wrapping-Spares r laws q _ _ (read_metadata-Spares r laws q role not_metadata))
          (λ m. >>=-Spares r laws q _ _ (clock-Spares r laws q role not_metadata) (λ t.
            >>=-Spares r laws q _ _
              (wrapping-Spares r laws q _ _ (write_metadata-Spares r laws q role not_metadata _))
              (λ _. get_role-Spares))))

  remove_all-Spares : (dir : FilePath) → ¬ Within dir q → Spares r laws q (r.fs.remove_all dir)
  remove_all-Spares dir outside = laws.files.remove_all_frame dir q outside

  undone-Spares :
      {A : Type 0} (dir : FilePath) (done : Result A)
      → ¬ Within dir q
      → Spares r laws q (elim done as (λ _. Action W A) [
        | ok a ↦ return a
        | err e ↦ (attempt (r.fs.remove_all dir) >>= λ _. fail e)
      ])
  undone-Spares dir (ok a) outside = Keeps-return At a
  undone-Spares {A = A} dir (err e) outside =
      >>=-Spares r laws q _ _ (Keeps-attempt At _ (remove_all-Spares dir outside))
        (λ _. Keeps-fail At A e)

  or_remove-Spares :
      {A : Type 0} (dir : FilePath) (m : Action W A)
      → ¬ Within dir q
      → Spares r laws q m
      → Spares r laws q (or_remove r dir m)
  unfolding or_remove
  or_remove-Spares dir m outside h =
      >>=-Spares r laws q _ _ (Keeps-attempt At m h) (λ done. undone-Spares dir done outside)

  written-Spares :
      (dir : FilePath) (path content : Text)
      → ¬ Within dir q
      → validate_path path ≡ ok tt
      → Spares r laws q (r.fs.write_file (join_path dir path) content)
  written-Spares dir path content outside valid =
      laws.files.write_frame (join_path dir path) q content
        (λ e. outside (subst (Within dir) e (validate_path-Within dir path valid)))

  or_remove_checked-Spares :
      (dir : FilePath) (c : Result (Unit {0})) (m : Action W (Unit {0}))
      → ¬ Within dir q
      → (c ≡ ok tt → Spares r laws q m)
      → Spares r laws q (or_remove r dir (lift c) >>= λ _. m)
  unfolding or_remove ◌>>=◌ attempt lift return fail
  or_remove_checked-Spares dir (ok u) m outside h = h refl
  or_remove_checked-Spares dir (err e) m outside h = remove_all-Spares dir outside

  write_files-Spares :
      (dir : FilePath) (fs : List (Text × Text))
      → ¬ Within dir q
      → Spares r laws q (write_files r dir fs)
  unfolding write_files
  write_files-Spares dir [] outside = Keeps-return At tt
  write_files-Spares dir ((path, content) ∷ fs) outside =
      or_remove_checked-Spares dir _ _ outside (λ valid.
        >>=-Spares r laws q _ _
          (or_remove-Spares dir _ outside (
            wrapping-Spares r laws q _ _ (mkdir_all-Spares r laws q (dir_of (join_path dir path)))))
          (λ _.
            >>=-Spares r laws q _ _
              (or_remove-Spares dir _ outside
                (wrapping-Spares r laws q _ _ (written-Spares dir path content outside valid)))
              (λ _. write_files-Spares dir fs outside)))

  module _ (role : Text) (not_metadata : metadata_path r role ≢ q)
      (outside : ¬ Within (role_dir r role) q) where
    populate-Spares : (req : CreateRoleRequest) → req.name ≡ role → Spares r laws q (populate r req)
    unfolding populate
    populate-Spares req e =
        let below = λ (h : Within (role_dir r req.name) q).
          outside (subst (λ n. Within (role_dir r n) q) e h) in
        let other =
          λ (h : metadata_path r req.name ≡ q). not_metadata (ap (metadata_path r) (sym e) ∙ h) in
        >>=-Spares r laws q _ _ (write_files-Spares (role_dir r req.name) _ below) (λ _.
          >>=-Spares r laws q _ _ (clock-Spares r laws q req.name other) (λ t.
            or_remove-Spares (role_dir r req.name) _ below
              (wrapping-Spares r laws q _ _ (write_metadata-Spares r laws q req.name other _))))

    exists-Spares :
        (e : Error) (found : Result ℕ)
        → Spares r laws q
            (elim found as (λ _. Action W (Unit {0})) [ ok t ↦ fail e | err x ↦ return tt ])
    exists-Spares e (ok t) = Keeps-fail At _ e
    exists-Spares e (err x) = Keeps-return At tt

    unless_exists-Spares : (p : FilePath) (e : Error) → Spares r laws q (unless_exists r p e)
    unfolding unless_exists
    unless_exists-Spares p e =
        >>=-Spares r laws q _ _ (attempt_stat-Spares r laws q p) (exists-Spares e)

    pub create_role-Spares :
        (req : CreateRoleRequest) → req.name ≡ role → Spares r laws q (create_role r req)
    unfolding create_role
    create_role-Spares req e =
        let other =
          λ (h : metadata_path r req.name ≡ q). not_metadata (ap (metadata_path r) (sym e) ∙ h) in
        checked-Spares r laws q _ _ (λ valid.
          >>=-Spares r laws q _ _ (unless_exists-Spares (role_dir r req.name) _) (λ _.
            >>=-Spares r laws q _ _
              (wrapping-Spares r laws q _ _ (mkdir_all-Spares r laws q (role_dir r req.name)))
              (λ _.
                >>=-Spares r laws q _ _ (populate-Spares req e)
                  (λ _. get_role-Spares req.name other))))

  forget_user-Spares :
      (user : Option (Text → Action W (Unit {0})))
      → r.delete_user ≡ user
      → (name : Text) → Spares r laws q (forget_user r user name)
  unfolding forget_user
  forget_user-Spares none e name = Keeps-return At tt
  forget_user-Spares (some f) e name =
      >>=-Spares r laws q _ _ (Keeps-attempt At _ (λ w. ap (λ g. g q) (laws.users_keep f e _ w)))
        (λ gone. Keeps-return At tt)

  forget_secret-Spares :
      (secret : Option (Text → Action W (Unit {0})))
      → r.delete_secret ≡ secret
      → (name : Text) → Spares r laws q (forget_secret r secret name)
  unfolding forget_secret
  forget_secret-Spares none e name = Keeps-return At tt
  forget_secret-Spares (some f) e name =
      >>=-Spares r laws q _ _ (Keeps-attempt At _ (λ w. ap (λ g. g q) (laws.secrets_keep f e _ w)))
        (λ gone. Keeps-lift At _)

  -- What Delete does once the directory is removed.
  pub forget-Spares :
      (name : Text)
      → Spares r laws q
          (forget_user r r.delete_user name >>= λ _. forget_secret r r.delete_secret name)
  forget-Spares name =
      >>=-Spares r laws q _ _ (forget_user-Spares r.delete_user refl name)
        (λ _. forget_secret-Spares r.delete_secret refl name)

  unless_used-Spares : (name : Text) (n : ℕ) → Spares r laws q (unless_used r name n)
  unfolding unless_used
  unless_used-Spares name n = elim (Bool-cases (ltb zero n)) [
    | inl h ↦ rw h (Keeps-fail At _ _)
    | inr h ↦ rw h (Keeps-return At tt)
  ]

  pub delete_role-Spares :
      (role : Text) → ¬ Within (role_dir r role) q → Spares r laws q (delete_role r role)
  unfolding delete_role
  delete_role-Spares role outside = checked-Spares r laws q _ _ (λ valid.
      >>=-Spares r laws q _ _ (wrapping-Spares r laws q _ _ (count_agents_for_role-Spares role))
        (λ n. >>=-Spares r laws q _ _ (unless_used-Spares role n) (λ _.
          >>=-Spares r laws q _ _ (unless_missing-Spares r laws q (role_dir r role) _) (λ _.
            >>=-Spares r laws q _ _
              (wrapping-Spares r laws q _ _ (remove_all-Spares (role_dir r role) outside))
              (λ _. forget-Spares role)))))
