-- ===== src/Operator/Reconciler/RoleDir.antt =====
-- readRoleDataFromDir of internal/operator/reconciler/k8s_resources.go: a role's directory sorted
-- into the files that the operator knows.
use entropy_gen.Common.{ℕ, ◌+◌, ◌&&◌, List, [], ◌∷◌, map, if◌then◌else◌, leb}
use entropy_gen.Common.Text.{Text, text, text_eq, has_prefix}
use entropy_gen.Common.Dict.{Dict, insert}
use entropy_gen.Common.Fallible.{Error, Result, ok, err}

pub record RoleData : Type 0 where
  pub soul : Text
  pub prompt : Text
  pub agents_md : Text
  pub skills : Dict Text
  pub extra_files : Dict Text

-- What WalkDir calls the function with: an error of the walk, a directory, or a file with its path
-- below the role's directory and what os.ReadFile gives for it.
pub data Entry : Type 0 where
  walk_error : Error → Entry
  directory : Text → Entry
  file : Text → Result Text → Entry

-- strings.ToLower on ASCII; other characters stay.
unfoldable pub lower_char : ℕ → ℕ
lower_char c = if leb b'A' c && leb c b'Z' then c + 32 else c

unfoldable pub to_lower : Text → Text
unfolding lower_char
to_lower = map lower_char

-- The switch on a file's name.
unfoldable pub classify_file : Text → Text → RoleData → RoleData
unfolding to_lower
classify_file rel content rd =
    let lower = to_lower rel in
    if text_eq lower (text "soul.md")
    then record rd { soul = content }
    else if text_eq lower (text "prompt.md")
    then record rd { prompt = content }
    else if text_eq lower (text "agents.md")
    then record rd { agents_md = content }
    else if has_prefix lower (text "skills/")
    then record rd { skills = insert rel content rd.skills }
    else record rd { extra_files = insert rel content rd.extra_files }

-- One call of the walk's function.
unfoldable pub visit : Entry → RoleData → Result RoleData
unfolding classify_file
visit (walk_error e) rd = err e
visit (directory path) rd = ok rd
visit (file rel content) rd =
    if text_eq rel (text ".metadata.json")
    then ok rd
    else elim content [ ok c ↦ ok (classify_file rel c rd) | err e ↦ err e ]

-- The walk stops at the first error.
unfoldable pub read_entries : List Entry → RoleData → Result RoleData
unfolding visit
read_entries [] rd = ok rd
read_entries (e ∷ es) rd = elim (visit e rd) [ ok rd' ↦ read_entries es rd' | err x ↦ err x ]

abbrev pub no_role_data : RoleData
no_role_data = record { soul = []; prompt = []; agents_md = []; skills = []; extra_files = [] }
