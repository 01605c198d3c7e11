-- ===== src/Observer/Tree/Marks.antt =====
-- What the tree of a workspace shows: the visible files, and which directories have changes.
use entropy_gen.Common.{
  ◌≡◌, refl, sym, ap, ◌∙◌, inl, inr, Bool, true, false, ◌||◌, List, [], ◌∷◌, ◌++◌, map, any,
  Bool-cases, if◌then◌else◌,
}
use entropy_gen.Common.Text.{Text, text, text_eq, has_prefix}
use entropy_gen.Common.Fallible.{Result}
use entropy_gen.Observer.GitStatus.{git_modified_files}
use entropy_gen.Observer.Tree.{
  Directory, unreadable, readable, Entries, no_entry, plain, folder, FileNode, file_node, dir_node,
  FileNodes, no_node, node, is_modified, any_modified, rel_path, walk_dir, walk_entries,
  build_file_tree,
}

-- The paths of the files that are visible below a directory, in order.
unfoldable mutual
  pub visible_files : Text → Directory → List Text
  visible_files dir unreadable = []
  visible_files dir (readable es) = visible_in dir es

  pub visible_in : Text → Entries → List Text
  visible_in dir no_entry = []
  visible_in dir (plain name es) =
      let rest = visible_in dir es in
      if has_prefix name (text ".") then rest else rel_path dir name ∷ rest
  visible_in dir (folder name d es) =
      let rest = visible_in dir es in
      let below = visible_files (rel_path dir name) d in
      if has_prefix name (text ".") then rest else below ++ rest

-- The paths and marks of the files in a tree.
unfoldable mutual
  pub files_of : Text → FileNode → List (Text × Bool)
  files_of dir (file_node name modified) = (rel_path dir name, modified) ∷ []
  files_of dir (dir_node name modified children) = files_in (rel_path dir name) children

  pub files_in : Text → FileNodes → List (Text × Bool)
  files_in dir no_node = []
  files_in dir (node n ns) = files_of dir n ++ files_in dir ns

-- A tree in which a directory is marked exactly if a file below it is.
unfoldable mutual
  unfolding files_of

  pub IsMarked : Text → FileNode → Type 0
  IsMarked dir (file_node name modified) = Unit {0}
  IsMarked dir (dir_node name modified children) =
      (modified ≡ any (λ f. f.1) (files_in (rel_path dir name) children))
      × AreMarked (rel_path dir name) children

  pub AreMarked : Text → FileNodes → Type 0
  AreMarked dir no_node = Unit {0}
  AreMarked dir (node n ns) = IsMarked dir n × AreMarked dir ns

map-append : {A B : Type 0} (f : A → B) (xs ys : List A) → map f (xs ++ ys) ≡ map f xs ++ map f ys
map-append f [] ys = refl
map-append f (x ∷ xs) ys = ap (◌∷◌ (f x)) (map-append f xs ys)

or_assoc : (a b c : Bool) → a || (b || c) ≡ (a || b) || c
or_assoc true b c = refl
or_assoc false b c = refl

any-append : {A : Type 0} (p : A → Bool) (xs ys : List A) → any p (xs ++ ys) ≡ any p xs || any p ys
any-append p [] ys = refl
any-append p (x ∷ xs) ys =
    ap (λ b. p x || b) (any-append p xs ys) ∙ or_assoc (p x) (any p xs) (any p ys)

marked_node :
    (dir : Text) (n : FileNode) → IsMarked dir n → is_modified n ≡ any (λ f. f.1) (files_of dir n)
unfolding files_of IsMarked
marked_node dir (file_node name true) h = refl
marked_node dir (file_node name false) h = refl
marked_node dir (dir_node name modified children) h = h.0

any_modified_lem :
    (dir : Text) (ns : FileNodes)
    → AreMarked dir ns
    → any_modified ns ≡ any (λ f. f.1) (files_in dir ns)
unfolding files_of IsMarked any_modified
any_modified_lem dir no_node h = refl
any_modified_lem dir (node n ns) h =
    ap (λ b. b || any_modified ns) (marked_node dir n h.0)
    ∙ ap (λ b. any (λ f. f.1) (files_of dir n) || b) (any_modified_lem dir ns h.1)
    ∙ sym (any-append (λ f. f.1) (files_of dir n) (files_in dir ns))

module _ (modified : Text → Bool) where
  abbrev tagged : List Text → List (Text × Bool)
  tagged ps = map (λ p. (p, modified p)) ps

  mutual
    unfolding walk_dir visible_files files_of

    files_in-walk_dir :
        (dir : Text) (d : Directory)
        → files_in dir (walk_dir modified dir d) ≡ tagged (visible_files dir d)
    files_in-walk_dir dir unreadable = refl
    files_in-walk_dir dir (readable es) = files_in-walk_entries dir es

    files_in-walk_entries :
        (dir : Text) (es : Entries)
        → files_in dir (walk_entries modified dir es) ≡ tagged (visible_in dir es)
    files_in-walk_entries dir no_entry = refl
    files_in-walk_entries dir (plain name es) = elim (Bool-cases (has_prefix name (text "."))) [
      | inl h ↦ rw h (files_in-walk_entries dir es)
      | inr h ↦ rw h (
          ap (◌∷◌ (rel_path dir name, modified (rel_path dir name))) (files_in-walk_entries dir es))
    ]
    files_in-walk_entries dir (folder name d es) = elim (Bool-cases (has_prefix name (text "."))) [
      | inl h ↦ rw h (files_in-walk_entries dir es)
      | inr h ↦ rw h (
          ap (λ fs. fs ++ files_in dir (walk_entries modified dir es))
            (files_in-walk_dir (rel_path dir name) d)
          ∙ ap (λ fs. tagged (visible_files (rel_path dir name) d) ++ fs)
              (files_in-walk_entries dir es)
          ∙ sym (
              map-append (λ p. (p, modified p)) (visible_files (rel_path dir name) d)
                (visible_in dir es)))
    ]

  mutual
    unfolding walk_dir IsMarked

    walk_dir-AreMarked : (dir : Text) (d : Directory) → AreMarked dir (walk_dir modified dir d)
    walk_dir-AreMarked dir unreadable = tt
    walk_dir-AreMarked dir (readable es) = walk_entries-AreMarked dir es

    walk_entries-AreMarked :
        (dir : Text) (es : Entries) → AreMarked dir (walk_entries modified dir es)
    walk_entries-AreMarked dir no_entry = tt
    walk_entries-AreMarked dir (plain name es) = elim (Bool-cases (has_prefix name (text "."))) [
      | inl h ↦ rw h (walk_entries-AreMarked dir es)
      | inr h ↦ rw h (tt, walk_entries-AreMarked dir es)
    ]
    walk_entries-AreMarked dir (folder name d es) = elim (Bool-cases (has_prefix name (text "."))) [
      | inl h ↦ rw h (walk_entries-AreMarked dir es)
      | inr h ↦
          let below = walk_dir-AreMarked (rel_path dir name) d in
          rw h (
            (
              any_modified_lem (rel_path dir name) (walk_dir modified (rel_path dir name) d) below,
              below,
            ),
            walk_entries-AreMarked dir es,
          )
    ]

-- The tree of a workspace has an unmarked root; it shows exactly the visible files, in order, each
-- marked exactly if its path is one of those that the program reads from git's status, none if git
-- failed; and each directory below the root is marked exactly if a visible file below it is.
pub build_file_tree_lem :
    (status : Result Text) (base : Text) (d : Directory)
    → (children : FileNodes) × (build_file_tree status base d ≡ dir_node base false children)
      × (files_in [] children
          ≡ map (λ p. (p, any (text_eq p) (git_modified_files status))) (visible_files [] d))
      × AreMarked [] children
unfolding build_file_tree
build_file_tree_lem status base d =
    let modified : Text → Bool = λ p. any (text_eq p) (git_modified_files status) in
    (
      walk_dir modified [] d,
      refl,
      files_in-walk_dir modified [] d,
      walk_dir-AreMarked modified [] d,
    )
