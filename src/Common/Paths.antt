-- ===== src/Common/Paths.antt =====
-- Package path/filepath on Unix, as far as the source calls it. A path is kept as filepath.Clean
-- leaves it: whether it is rooted, and its components, the last one first.
pub mod Containment
use mathlib.Core.Bool.{Bool, true, false, ◌||◌}
use mathlib.Core.List.{List, [], ◌∷◌}
use entropy_gen.Common.Tests.{if◌then◌else◌}
use entropy_gen.Common.Lists.{any}
use entropy_gen.Common.Text.{Text, text, text_eq, is_empty, has_prefix, split}

pub record FilePath : Type 0 where
  pub rooted : Bool
  pub stack : List Text

abbrev pub dot_dot : Text
dot_dot = text ".."

-- `..` on what stands before it. It goes nowhere from the root, and is kept where there is nothing
-- left to go up from.
unfoldable pub go_up : Bool → List Text → List Text
go_up true [] = []
go_up false [] = dot_dot ∷ []
go_up rooted (c ∷ st) = if text_eq c dot_dot then dot_dot ∷ c ∷ st else st

unfoldable pub enter : Bool → Text → List Text → List Text
unfolding go_up
enter rooted c st =
    if is_empty c || text_eq c (text ".")
    then st
    else if text_eq c dot_dot
    then go_up rooted st
    else c ∷ st

unfoldable pub enter_all : Bool → List Text → List Text → List Text
unfolding enter
enter_all rooted [] st = st
enter_all rooted (c ∷ cs) st = enter_all rooted cs (enter rooted c st)

-- filepath.IsAbs
unfoldable pub is_abs : Text → Bool
is_abs t = has_prefix t (text "/")

-- filepath.Clean
unfoldable pub clean : Text → FilePath
unfolding is_abs enter_all
clean t = record { rooted = is_abs t; stack = enter_all (is_abs t) (split b'/' t) [] }

-- filepath.Join of a path and one more element
unfoldable pub join_path : FilePath → Text → FilePath
unfolding enter_all
join_path p t = record p { stack = enter_all p.rooted (split b'/' t) p.stack }

-- filepath.Dir
abbrev pub rest_of : List Text → List Text
rest_of [] = []
rest_of (c ∷ st) = st

unfoldable pub dir_of : FilePath → FilePath
dir_of p = record p { stack = rest_of p.stack }

-- Whether a clean path has a `..`.
abbrev pub goes_up : List Text → Bool
goes_up st = any (λ c. text_eq c dot_dot) st
