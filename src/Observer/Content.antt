-- ===== src/Observer/Content.antt =====
-- ReadFile, ValidatePath and GetGitDiff of internal/observer/workspace.go. The file system and git are parameters.
use entropy_gen.Common.{ℕ, not, List, [], ◌∷◌, ◌++◌, if◌then◌else◌}
use entropy_gen.Common.Text.{Text, text, has_prefix, join}
use entropy_gen.Common.Paths.{FilePath, is_abs, clean, join_path, dir_of}
use entropy_gen.Common.Fallible.{Error, other, wrap, Result, ok, err}
use entropy_gen.Observer.Tree.{infer_language}
use entropy_gen.Observer.DiffStat.{parse_diff_stat}

pub record FileContent : Type 0 where
  pub path : Text
  pub content : Text
  pub language : Text

pub record DiffResult : Type 0 where
  pub diff : Text
  pub files_changed : ℕ
  pub insertions : ℕ
  pub deletions : ℕ

-- filepath.Abs, filepath.EvalSymlinks, os.ReadFile, and filepath.Ext of a path.
pub record Workspace : Type 0 where
  pub absolute : Text → Result FilePath
  pub eval_symlinks : FilePath → Result FilePath
  pub read_file : FilePath → Result Text
  pub extension : Text → Text

abbrev pub reversed_onto : List Text → List Text → List Text
reversed_onto [] acc = acc
reversed_onto (c ∷ cs) acc = reversed_onto cs (c ∷ acc)

-- A path as it is written.
unfoldable pub written : FilePath → Text
unfolding join
written p =
    let body = join (text "/") (reversed_onto p.stack []) in
    if p.rooted then text "/" ++ body else body

-- filepath.Join of a directory and the last element of a path
abbrev pub with_base : List Text → FilePath → FilePath
with_base [] dir = dir
with_base (c ∷ st) dir = record dir { stack = c ∷ dir.stack }

-- A parent that cannot be resolved leaves the path as it is.
abbrev pub resolved_path : FilePath → Result FilePath → FilePath
resolved_path joined (err e) = joined
resolved_path joined (ok dir) = with_base joined.stack dir

abbrev pub traversal_denied : Text → Error
traversal_denied requested = other (text "path traversal denied: " ++ requested)

module _ (ws : Workspace) where
  unfoldable pub check_below : Text → Result FilePath → Result (Unit {0})
  unfolding written join_path dir_of has_prefix
  check_below requested (err e) = err (wrap (text "invalid base directory") e)
  check_below requested (ok base) =
      let joined = join_path base requested in
      if not (
        has_prefix (written (resolved_path joined (ws.eval_symlinks (dir_of joined))))
          (written base))
      then err (traversal_denied requested)
      else ok tt

  -- ValidatePath
  unfoldable pub validate_requested : Text → Text → Result (Unit {0})
  unfolding check_below is_abs
  validate_requested base requested =
      if is_abs requested
      then err (traversal_denied requested)
      else check_below requested (ws.absolute base)

  unfoldable pub content_read : Text → Result Text → Result FileContent
  unfolding infer_language
  content_read requested (err e) = err e
  content_read requested (ok t) =
      ok (record {
        path = requested;
        content = t;
        language = infer_language (ws.extension requested);
      })

  unfoldable pub read_validated : Text → Text → Result (Unit {0}) → Result FileContent
  unfolding content_read clean join_path
  read_validated base requested (err e) = err e
  read_validated base requested (ok u) =
      content_read requested (ws.read_file (join_path (clean base) requested))

  -- ReadFile
  unfoldable pub read_requested : Text → Text → Result FileContent
  unfolding read_validated validate_requested
  read_requested base requested = read_validated base requested (validate_requested base requested)

abbrev pub stat_text : Result Text → Text
stat_text (ok t) = t
stat_text (err e) = []

-- GetGitDiff, given what git diff and git diff --stat write.
unfoldable pub get_git_diff : Result Text → Result Text → DiffResult
unfolding parse_diff_stat
get_git_diff (err e) stat = record { diff = []; files_changed = 0; insertions = 0; deletions = 0 }
get_git_diff (ok diff) stat =
    let n = parse_diff_stat (stat_text stat) in
    record { diff = diff; files_changed = n.0; insertions = n.1.0; deletions = n.1.1 }
