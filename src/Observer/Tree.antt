-- ===== src/Observer/Tree.antt =====
-- BuildFileTree and walkDir of internal/observer/workspace.go, and the language of a file.
pub mod Marks
use entropy_gen.Common.{
  ℕ, Bool, true, false, ◌||◌, Option, none, some, List, [], ◌∷◌, ◌++◌, if◌then◌else◌, any,
}
use entropy_gen.Common.Text.{Text, text, text_eq, has_prefix, is_empty}
use entropy_gen.Common.Dict.{Dict, lookup}
use entropy_gen.Common.Fallible.{Result}
use entropy_gen.Observer.GitStatus.{git_modified_files}

-- A directory as os.ReadDir shows it and those below: it may be unreadable.
mutual
  pub data Directory : Type 0 where
    unreadable : Directory
    readable : Entries → Directory

  pub data Entries : Type 0 where
    no_entry : Entries
    plain : Text → Entries → Entries
    folder : Text → Directory → Entries → Entries

-- FileNode: the type is the constructor; a file has no children.
mutual
  pub data FileNode : Type 0 where
    file_node : Text → Bool → FileNode
    dir_node : Text → Bool → FileNodes → FileNode

  pub data FileNodes : Type 0 where
    no_node : FileNodes
    node : FileNode → FileNodes → FileNodes

abbrev pub is_modified : FileNode → Bool
is_modified (file_node name modified) = modified
is_modified (dir_node name modified children) = modified

unfoldable pub any_modified : FileNodes → Bool
any_modified no_node = false
any_modified (node n ns) = is_modified n || any_modified ns

-- The path of an entry relative to the workspace: filepath.Rel of filepath.Join.
abbrev pub rel_path : Text → Text → Text
rel_path dir name = if is_empty dir then name else dir ++ (text "/" ++ name)

-- walkDir below `dir`: hidden entries are skipped, and a directory is marked if a child is.
unfoldable mutual
  unfolding any_modified has_prefix

  pub walk_dir : (Text → Bool) → Text → Directory → FileNodes
  walk_dir modified dir unreadable = no_node
  walk_dir modified dir (readable es) = walk_entries modified dir es

  pub walk_entries : (Text → Bool) → Text → Entries → FileNodes
  walk_entries modified dir no_entry = no_node
  walk_entries modified dir (plain name es) =
      let rest = walk_entries modified dir es in
      if has_prefix name (text ".")
      then rest
      else node (file_node name (modified (rel_path dir name))) rest
  walk_entries modified dir (folder name d es) =
      let rest = walk_entries modified dir es in
      let children = walk_dir modified (rel_path dir name) d in
      if has_prefix name (text ".")
      then rest
      else node (dir_node name (any_modified children) children) rest

-- BuildFileTree, given what `git status` answers and the base name of the directory.
unfoldable pub build_file_tree : Result Text → Text → Directory → FileNode
unfolding walk_dir git_modified_files
build_file_tree status base d =
    dir_node base false (walk_dir (λ p. any (text_eq p) (git_modified_files status)) [] d)

abbrev pub languages : Dict Text
languages =
    (text ".go", text "go")
    ∷ (text ".py", text "python")
    ∷ (text ".js", text "javascript")
    ∷ (text ".ts", text "typescript")
    ∷ (text ".tsx", text "typescriptreact")
    ∷ (text ".jsx", text "javascriptreact")
    ∷ (text ".json", text "json")
    ∷ (text ".yaml", text "yaml")
    ∷ (text ".yml", text "yaml")
    ∷ (text ".md", text "markdown")
    ∷ (text ".sh", text "shell")
    ∷ (text ".bash", text "shell")
    ∷ (text ".css", text "css")
    ∷ (text ".html", text "html")
    ∷ (text ".sql", text "sql")
    ∷ (text ".rs", text "rust")
    ∷ (text ".java", text "java")
    ∷ (text ".rb", text "ruby")
    ∷ (text ".toml", text "toml")
    ∷ (text ".xml", text "xml")
    ∷ (text ".c", text "c")
    ∷ (text ".cpp", text "cpp")
    ∷ (text ".h", text "c")
    ∷ (text ".hpp", text "cpp")
    ∷ (text ".proto", text "protobuf")
    ∷ []

abbrev language_or_plain : Option Text → Text
language_or_plain (some l) = l
language_or_plain none = text "plaintext"

unfoldable pub infer_language : Text → Text
unfolding lookup
infer_language ext = language_or_plain (lookup ext languages)
