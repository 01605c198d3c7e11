-- ===== src/Observer/GitStatus.antt =====
-- gitModifiedFiles of internal/observer/workspace.go, given what git status --porcelain writes.
use entropy_gen.Common.{Option, none, some, List, [], ◌∷◌, if◌then◌else◌, ltb, length, drop}
use entropy_gen.Common.Text.{Text, text, has_prefix, split}
use entropy_gen.Common.Fallible.{Result, ok, err}
use entropy_gen.Observer.DiffStat.{trim_space}

-- What stands behind the first occurrence of a text.
unfoldable pub behind : Text → Text → Option Text
unfolding has_prefix
behind word [] = none
behind word (c ∷ s) =
    let later = behind word s in
    if has_prefix (c ∷ s) word then some (drop (length word) (c ∷ s)) else later

abbrev pub renamed_to : Text → Option Text → Text
renamed_to file none = file
renamed_to file (some target) = target

-- "XY filename" or "XY filename -> renamed"
unfoldable pub file_of_line : Text → Text
unfolding trim_space behind
file_of_line line =
    let file = trim_space (drop 3 line) in renamed_to file (behind (text " -> ") file)

unfoldable pub files_of_lines : List Text → List Text
unfolding file_of_line
files_of_lines [] = []
files_of_lines (l ∷ ls) =
    let rest = files_of_lines ls in if ltb (length l) 4 then rest else file_of_line l ∷ rest

unfoldable pub git_modified_files : Result Text → List Text
unfolding files_of_lines trim_space split
git_modified_files (err e) = []
git_modified_files (ok out) = files_of_lines (split 10 (trim_space out))
