-- ===== src/Backend/Roles/Spares.antt =====
-- Which files the steps of the role's file operations leave alone.
use entropy_gen.Common.{
  ℕ, ◌≡◌, ◌≢◌, refl, ap, ◌∙◌, inl, inr, Bool, false, Option, some, List, [], ◌∷◌, arith,
  if◌then◌else◌, Bool-cases,
}
use entropy_gen.Common.Text.{Text, text, text_eq, has_prefix, split}
use entropy_gen.Common.Paths.{
  FilePath, is_abs, enter_all, enter, go_up, clean, join_path, dir_of, goes_up,
}
use entropy_gen.Common.Paths.Containment.{Within, join_path-clean}
use entropy_gen.Common.Fallible.{Error, Result, ok, err, Action}
use entropy_gen.Common.Actions.{
  ◌>>=◌, ◌>>◌, return, lift, fail, attempt, wrapping, Keeps, Keeps->>=, Keeps-wrapping, Keeps-lift,
  Keeps-return, Keeps-fail, Keeps-attempt, Keeps-checked,
}
use entropy_gen.Operator.Types.{Agent}
use entropy_gen.Backend.Files.{DirEntry, FileLaws}
use entropy_gen.Backend.Roles.{
  RoleMetadata, RoleClient, metadata_file, validate_path, mod_time, role_dir, metadata_path,
  touch_metadata, read_metadata, write_metadata, clock,
}
use entropy_gen.Backend.Roles.RoleFiles.{
  unless_missing, stat_file, path_eq, clean_parents, clean_empty_parents, finish_put, finish_delete,
  finish_rename,
}

-- An accepted path is relative and does not go up.
pub validate_path-ok :
    (name : Text)
    → validate_path name ≡ ok tt
    → ((clean name).rooted ≡ false) × (goes_up (clean name).stack ≡ false)
unfolding validate_path
validate_path-ok name h = ground arith

-- Joined to any directory, an accepted path stays within it.
pub validate_path-Within :
    (dir : FilePath) (name : Text) → validate_path name ≡ ok tt → Within dir (join_path dir name)
validate_path-Within dir name h =
    let (relative, level) = validate_path-ok name h in
    let e = join_path-clean dir name relative level in
    (ap (λ p. p.rooted) e, ((clean name).stack, ap (λ p. p.stack) e))

pub metadata_file-valid : validate_path metadata_file ≡ ok tt
unfolding validate_path text clean is_abs has_prefix enter_all enter go_up split text_eq
metadata_file-valid = refl

-- The clock, the list of agents, Gitea and the cluster leave the files alone.
pub record RoleLaws {W : Type 0} (r : RoleClient W) : Type 0 where
  pub files : FileLaws r.fs
  pub now_keeps : (w : W) → files.file_at (r.now w).1 ≡ files.file_at w
  pub agents_keep : (m : Action W (List Agent)) → r.agents ≡ some m → Keeps files.file_at m
  pub users_keep :
      (f : Text → Action W (Unit {0}))
      → r.delete_user ≡ some f
      → (t : Text) → Keeps files.file_at (f t)
  pub secrets_keep :
      (f : Text → Action W (Unit {0}))
      → r.delete_secret ≡ some f
      → (t : Text) → Keeps files.file_at (f t)

module _ {W : Type 0} (r : RoleClient W) (laws : RoleLaws r) where
  abbrev pub file_at : W → FilePath → Option Text
  file_at = laws.files.file_at

  Keeps-at :
      {A : Type 0} (m : Action W A) (q : FilePath) → Keeps file_at m → Keeps (λ w. file_at w q) m
  Keeps-at m q h w = ap (λ f. f q) (h w)

  after_read :
      (dir : FilePath) (w : W) (next : W → W)
      → ((v : W) → file_at (next v) ≡ file_at v)
      → (read : Result (List DirEntry)) → (r.fs.read_dir dir w).0 ≡ read
      → file_at (elim read as (λ _. W) [
        | err e ↦ (r.fs.read_dir dir w).1
        | ok entries ↦ elim entries as (λ _. W) [
          | [] ↦ next (r.fs.remove dir (r.fs.read_dir dir w).1).1
          | e ∷ es ↦ (r.fs.read_dir dir w).1
        ]
      ])
        ≡ file_at w
  after_read dir w next h (err e) read = laws.files.read_dir_keeps dir w
  after_read dir w next h (ok []) read =
      h (r.fs.remove dir (r.fs.read_dir dir w).1).1 ∙ laws.files.remove_empty dir w read
  after_read dir w next h (ok (e ∷ es)) read = laws.files.read_dir_keeps dir w

  -- Only empty directories go.
  clean_parents-Keeps :
      (rooted : Bool) (st : List Text) (stop : FilePath) (w : W)
      → file_at (clean_parents r rooted st stop w) ≡ file_at w
  unfolding clean_parents
  clean_parents-Keeps rooted [] stop w = refl
  clean_parents-Keeps rooted (c ∷ st) stop w =
      let dir : FilePath = record { rooted = rooted; stack = c ∷ st } in
      elim (Bool-cases (path_eq dir stop)) [
        | inl here ↦ rw here refl
        | inr below ↦ rw below (
            after_read dir w (clean_parents r rooted st stop) (clean_parents-Keeps rooted st stop)
              (r.fs.read_dir dir w).0 refl)
      ]

  module _ (q : FilePath) where
    abbrev pub Spares : {A : Type 0} → Action W A → Type 0
    Spares m = Keeps (λ w. file_at w q) m

    pub >>=-Spares :
        {A B : Type 0} (m : Action W A) (f : A → Action W B)
        → Spares m
        → ((a : A) → Spares (f a))
        → Spares (m >>= f)
    >>=-Spares m f h k = Keeps->>= (λ w. file_at w q) m f h k

    pub wrapping-Spares :
        {A : Type 0} (t : Text) (m : Action W A) → Spares m → Spares (wrapping t m)
    wrapping-Spares t m h = Keeps-wrapping (λ w. file_at w q) t m h

    pub checked-Spares :
        {A : Type 0} (c : Result (Unit {0})) (m : Action W A)
        → (c ≡ ok tt → Spares m)
        → Spares (lift c >> m)
    checked-Spares c m h = Keeps-checked (λ w. file_at w q) c m h

    pub read_file-Spares : (p : FilePath) → Spares (r.fs.read_file p)
    read_file-Spares p w = ap (λ f. f q) (laws.files.read_keeps p w)

    stat-Spares : (p : FilePath) → Spares (r.fs.stat p)
    stat-Spares p w = ap (λ f. f q) (laws.files.stat_keeps p w)

    pub mkdir_all-Spares : (p : FilePath) → Spares (r.fs.mkdir_all p)
    mkdir_all-Spares p w = ap (λ f. f q) (laws.files.mkdir_keeps p w)

    pub attempt_stat-Spares : (p : FilePath) → Spares (attempt (r.fs.stat p))
    attempt_stat-Spares p = Keeps-attempt (λ w. file_at w q) (r.fs.stat p) (stat-Spares p)

    mod_time-Spares : (info : Result ℕ) → Spares (mod_time {W = W} info)
    mod_time-Spares (ok t) = Keeps-return (λ w. file_at w q) t
    mod_time-Spares (err e) = Keeps-fail (λ w. file_at w q) _ _

    pub stat_file-Spares :
        (role filename : Text) (found : Result ℕ) → Spares (stat_file r role filename found)
    unfolding stat_file
    stat_file-Spares role filename (ok t) = Keeps-return (λ w. file_at w q) t
    stat_file-Spares role filename (err x) = elim (Bool-cases (r.fs.is_not_exist x)) [
      | inl h ↦ rw h (Keeps-fail (λ w. file_at w q) _ _)
      | inr h ↦ rw h (Keeps-fail (λ w. file_at w q) _ _)
    ]

    missing-Spares :
        (e : Error) (found : Result ℕ)
        → Spares (elim found as (λ _. Action W (Unit {0})) [
          | ok t ↦ return tt
          | err x ↦ if r.fs.is_not_exist x then fail e else return tt
        ])
    missing-Spares e (ok t) = Keeps-return (λ w. file_at w q) tt
    missing-Spares e (err x) = elim (Bool-cases (r.fs.is_not_exist x)) [
      | inl h ↦ rw h (Keeps-fail (λ w. file_at w q) _ e)
      | inr h ↦ rw h (Keeps-return (λ w. file_at w q) tt)
    ]

    pub unless_missing-Spares : (p : FilePath) (e : Error) → Spares (unless_missing r p e)
    unfolding unless_missing
    unless_missing-Spares p e = >>=-Spares _ _ (attempt_stat-Spares p) (missing-Spares e)

    clean_empty_parents-Spares : (dir stop : FilePath) → Spares (clean_empty_parents r dir stop)
    clean_empty_parents-Spares dir stop w =
        ap (λ f. f q) (clean_parents-Keeps dir.rooted dir.stack stop w)

    module _ (role : Text) (not_metadata : metadata_path r role ≢ q) where
      pub read_metadata-Spares : Spares (read_metadata r role)
      unfolding read_metadata
      read_metadata-Spares =
          >>=-Spares _ _ (read_file-Spares (metadata_path r role))
            (λ d. wrapping-Spares _ _ (Keeps-lift (λ w. file_at w q) _))

      pub write_metadata-Spares : (m : RoleMetadata) → Spares (write_metadata r role m)
      unfolding write_metadata
      write_metadata-Spares m =
          laws.files.write_frame (metadata_path r role) q (r.encode m) not_metadata

      pub clock-Spares : Spares (clock r)
      clock-Spares w = ap (λ f. f q) (laws.now_keeps w)

      touch_metadata-Spares : Spares (touch_metadata r role)
      unfolding touch_metadata
      touch_metadata-Spares =
          >>=-Spares _ _ read_metadata-Spares
            (λ m. >>=-Spares _ _ clock-Spares (λ t. write_metadata-Spares _))

      pub finish_put-Spares :
          (filename content : Text) → Spares (finish_put r role filename content)
      unfolding finish_put
      finish_put-Spares filename content =
          >>=-Spares _ _ (wrapping-Spares _ _ touch_metadata-Spares) (λ _.
            >>=-Spares _ _ (attempt_stat-Spares (join_path (role_dir r role) filename)) (λ info.
              >>=-Spares _ _ (mod_time-Spares info) (λ t. Keeps-return (λ w. file_at w q) _)))

      pub finish_delete-Spares : (filename : Text) → Spares (finish_delete r role filename)
      unfolding finish_delete
      finish_delete-Spares filename =
          >>=-Spares _ _
            (clean_empty_parents-Spares (dir_of (join_path (role_dir r role) filename))
              (role_dir r role))
            (λ _. wrapping-Spares _ _ touch_metadata-Spares)

      pub finish_rename-Spares :
          (old_name new_name : Text) → Spares (finish_rename r role old_name new_name)
      unfolding finish_rename
      finish_rename-Spares old_name new_name =
          let new = join_path (role_dir r role) new_name in
          >>=-Spares _ _ (finish_delete-Spares old_name) (λ _.
            >>=-Spares _ _
              (Keeps-attempt (λ w. file_at w q) (r.fs.read_file new) (read_file-Spares new))
              (λ content. >>=-Spares _ _ (attempt_stat-Spares new) (λ info.
                >>=-Spares _ _ (mod_time-Spares info) (λ t. Keeps-return (λ w. file_at w q) _))))
