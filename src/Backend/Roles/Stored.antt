-- ===== src/Backend/Roles/Stored.antt =====
-- What a request on a role's file leaves at the file itself.
use entropy_gen.Common.{ℕ, ◌≡◌, ◌≢◌, refl, sym, ◌∙◌, Option, none, some}
use mathlib.Core.Option.{some-injective}
use entropy_gen.Common.Text.{Text}
use entropy_gen.Common.Paths.{FilePath, join_path, dir_of}
use entropy_gen.Common.Fallible.{Result, ok, Action}
use entropy_gen.Common.Actions.{Keeps-lift, return}
use entropy_gen.Common.Actions.Outcomes.{
  Leads, Leads->>=, Leads-wrapping, Leads-Keeps, Gives, Gives->>=, Gives->>=-first,
}
use entropy_gen.Backend.Roles.{RoleFile, RoleClient, role_dir, metadata_path}
use entropy_gen.Backend.Roles.RoleFiles.{get_file, put_file, delete_file, rename_file, stat_file}
use entropy_gen.Backend.Roles.Spares.{
  RoleLaws, file_at, finish_put-Spares, finish_delete-Spares, finish_rename-Spares,
  mkdir_all-Spares, unless_missing-Spares, stat_file-Spares, attempt_stat-Spares, wrapping-Spares,
  Spares,
}

module _ {W : Type 0} (r : RoleClient W) (laws : RoleLaws r) (role : Text) where
  abbrev pub path_of : Text → FilePath
  path_of filename = join_path (role_dir r role) filename

  abbrev pub Holds : Text → Option Text → W → Type 0
  Holds filename content w = file_at r laws w (path_of filename) ≡ content

  abbrev Any : W → Type 0
  Any w = Unit {0}

  -- A file that was put, and is not the metadata file, has the new content.
  pub put_file_stores :
      (filename content : Text) (w : W) (f : RoleFile)
      → metadata_path r role ≢ path_of filename
      → (put_file r role filename content w).0 ≡ ok f
      → file_at r laws (put_file r role filename content w).1 (path_of filename) ≡ some content
  unfolding put_file
  put_file_stores filename content w f other done =
      let Kept = Holds filename (some content) in
      Leads->>= Any Any Kept _ _ (λ v p a d. tt)
        (λ _.
          Leads->>= Any Any Kept _ _ (λ v p a d. tt)
            (λ _.
              Leads->>= Any Any Kept _ _ (λ v p a d. tt)
                (λ _.
                  Leads->>= Any Any Kept _ _ (λ v p a d. tt)
                    (λ _.
                      Leads->>= Any Kept Kept _ _
                        (Leads-wrapping Any Kept _ _
                          (λ v p a d. laws.files.write_ok (path_of filename) content v d))
                        (λ _.
                          Leads-Keeps (λ v. file_at r laws v (path_of filename)) (some content) _
                            (finish_put-Spares r laws (path_of filename) role other filename
                              content))))))
        w tt f done

  -- A file that was deleted, and is not the metadata file, is gone.
  pub delete_file_removes :
      (filename : Text) (w : W)
      → metadata_path r role ≢ path_of filename
      → (delete_file r role filename w).0 ≡ ok tt
      → file_at r laws (delete_file r role filename w).1 (path_of filename) ≡ none
  unfolding delete_file
  delete_file_removes filename w other done =
      let Gone = Holds filename none in
      Leads->>= Any Any Gone _ _ (λ v p a d. tt)
        (λ _.
          Leads->>= Any Any Gone _ _ (λ v p a d. tt)
            (λ _.
              Leads->>= Any Any Gone _ _ (λ v p a d. tt)
                (λ _.
                  Leads->>= Any Gone Gone _ _
                    (Leads-wrapping Any Gone _ _
                      (λ v p a d. laws.files.remove_ok (path_of filename) v d))
                    (λ _.
                      Leads-Keeps (λ v. file_at r laws v (path_of filename)) none _
                        (finish_delete-Spares r laws (path_of filename) role other filename)))))
        w tt tt done

  kept :
      {A : Type 0} (filename : Text) (c : Option Text) (m : Action W A)
      → Spares r laws (path_of filename) m
      → Leads (Holds filename c) m (Holds filename c)
  kept filename c m h = Leads-Keeps (λ v. file_at r laws v (path_of filename)) c m h

  stat_file-Leads :
      (filename : Text) (c : Option Text) (found : Result ℕ)
      → Leads (Holds filename c) (stat_file r role filename found) (Holds filename c)
  stat_file-Leads filename c found =
      Leads-Keeps (λ v. file_at r laws v (path_of filename)) c _
        (stat_file-Spares r laws (path_of filename) role filename found)

  read_gives :
      (filename : Text) (c : Option Text)
      → Gives (Holds filename c) (r.fs.read_file (path_of filename)) (λ t. c ≡ some t)
  read_gives filename c w h t done = sym h ∙ laws.files.read_ok (path_of filename) w t done

  returned_content :
      (c : Option Text) (f : RoleFile)
      → c ≡ some f.content
      → Gives {W = W} Any (return f) (λ g. c ≡ some g.content)
  unfolding return
  returned_content c f h w p g done = cc

  -- A file that is read has the content that is stored.
  pub get_file_reads :
      (filename : Text) (w : W) (f : RoleFile)
      → (get_file r role filename w).0 ≡ ok f
      → file_at r laws w (path_of filename) ≡ some f.content
  unfolding get_file
  get_file_reads filename w f done =
      let c = file_at r laws w (path_of filename) in
      let H = Holds filename c in
      let Read = λ (g : RoleFile). c ≡ some g.content in
      Gives->>= H H Read _ _ (kept filename c _ (Keeps-lift _ _))
        (λ _. Gives->>= H H Read _ _ (kept filename c _ (Keeps-lift _ _)) (λ _.
          Gives->>= H H Read _ _
            (kept filename c _ (attempt_stat-Spares r laws (path_of filename) (path_of filename)))
            (λ found. Gives->>= H H Read _ _ (stat_file-Leads filename c found) (λ t.
              Gives->>=-first H (λ t. c ≡ some t) Read _ _ (read_gives filename c)
                (λ content h. returned_content c _ h)))))
        w refl f done

  -- What was put into a file other than the metadata is the content that is read next, where both
  -- requests succeed.
  pub get_file-put_file :
      (filename content : Text) (w : W) (f g : RoleFile)
      → metadata_path r role ≢ path_of filename
      → (put_file r role filename content w).0 ≡ ok f
      → (get_file r role filename (put_file r role filename content w).1).0 ≡ ok g
      → g.content ≡ content
  get_file-put_file filename content w f g other put got = some-injective g.content content (
      sym (get_file_reads filename (put_file r role filename content w).1 g got)
      ∙ put_file_stores filename content w f other put)

  -- A renamed file is found under its new name with the content it had, and no longer under its
  -- old one; neither name is the metadata file's.
  pub rename_file_moves :
      (old_name new_name c : Text) (w : W) (f : RoleFile)
      → path_of old_name ≢ path_of new_name
      → metadata_path r role ≢ path_of old_name
      → metadata_path r role ≢ path_of new_name
      → file_at r laws w (path_of old_name) ≡ some c
      → (rename_file r role old_name new_name w).0 ≡ ok f
      → (file_at r laws (rename_file r role old_name new_name w).1 (path_of new_name) ≡ some c)
        × (file_at r laws (rename_file r role old_name new_name w).1 (path_of old_name) ≡ none)
  unfolding rename_file
  rename_file_moves old_name new_name c w f differ not_old not_new before done =
      let H = Holds old_name (some c) in
      let Moved = λ (v : W). Holds new_name (some c) v × Holds old_name none v in
      Leads->>= H H Moved _ _ (kept old_name (some c) _ (Keeps-lift _ _))
        (λ _. Leads->>= H H Moved _ _ (kept old_name (some c) _ (Keeps-lift _ _)) (λ _.
          Leads->>= H H Moved _ _ (kept old_name (some c) _ (Keeps-lift _ _)) (λ _.
            Leads->>= H H Moved _ _
              (kept old_name (some c) _
                (unless_missing-Spares r laws (path_of old_name) (path_of old_name) _))
              (λ _.
                Leads->>= H H Moved _ _
                  (kept old_name (some c) _ (
                    wrapping-Spares r laws (path_of old_name) _ _
                      (mkdir_all-Spares r laws (path_of old_name) (dir_of (path_of new_name)))))
                  (λ _.
                    Leads->>= H Moved Moved _ _
                      (Leads-wrapping H Moved _ _ (λ v p a d.
                        laws.files.rename_ok (path_of old_name) (path_of new_name) v c differ p d))
                      (λ _ v p b d. (
                        finish_rename-Spares r laws (path_of new_name) role not_new old_name
                              new_name v
                            ∙ p.0,
                        finish_rename-Spares r laws (path_of old_name) role not_old old_name
                              new_name v
                            ∙ p.1,
                      )))))))
        w before f done
