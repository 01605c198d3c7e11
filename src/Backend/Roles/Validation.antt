-- ===== src/Backend/Roles/Validation.antt =====
-- RoleClient.ValidateRole: the warnings on a role's files.
pub mod WellFormed
use entropy_gen.Common.{
  ℕ, ◌≡◌, Bool, true, false, ◌&&◌, not, Option, none, some, List, [], ◌∷◌, ◌++◌, if◌then◌else◌,
}
use entropy_gen.Common.Text.{Text, text, text_eq, has_prefix, contains, split}
use entropy_gen.Common.Fallible.{Result, ok, err, Action}
use entropy_gen.Common.Actions.{◌>>=◌, ◌>>◌, return, lift}
use entropy_gen.Backend.Roles.{RoleFile, RoleClient, validate_path}
use entropy_gen.Backend.Roles.Listing.{list_files_internal}
use entropy_gen.Backend.Roles.Creation.{well_known}

pub record ValidationIssue : Type 0 where
  pub file : Text
  pub level : Text
  pub message : Text

abbrev pub warning : Text → Text → ValidationIssue
warning f m = record { file = f; level = text "warning"; message = m }

-- fileMap: among files of one name the last counts.
unfoldable pub content_of : Text → List RoleFile → Option Text
content_of name [] = none
content_of name (f ∷ fs) =
    let later = content_of name fs in
    elim later [ some c ↦ some c | none ↦ if text_eq f.name name then some f.content else none ]

unfoldable pub missing_files : List Text → List RoleFile → List ValidationIssue
unfolding content_of
missing_files [] fs = []
missing_files (k ∷ ks) fs =
    let rest = missing_files ks fs in
    elim (content_of k fs) [ some c ↦ rest | none ↦ warning k (k ++ text " is missing") ∷ rest ]

abbrev pub placeholders : List Text
placeholders = text "{{REPOS}}" ∷ text "{{AGENT_ID}}" ∷ []

unfoldable pub missing_placeholders : List Text → Text → List ValidationIssue
missing_placeholders [] content = []
missing_placeholders (p ∷ ps) content =
    let rest = missing_placeholders ps content in
    if contains content p
    then rest
    else warning (text "PROMPT.md") (text "Missing placeholder " ++ p) ∷ rest

unfoldable pub prompt_issues : Option Text → List ValidationIssue
unfolding missing_placeholders
prompt_issues none = []
prompt_issues (some content) = missing_placeholders placeholders content

-- len(parts) == 3 and parts[2] == "SKILL.md"
abbrev pub is_skill_path : List Text → Bool
is_skill_path (a ∷ b ∷ c ∷ []) = text_eq c (text "SKILL.md")
is_skill_path _ = false

unfoldable pub skill_issues : List RoleFile → List ValidationIssue
skill_issues [] = []
skill_issues (f ∷ fs) =
    let rest = skill_issues fs in
    if has_prefix f.name (text "skills/") && not (is_skill_path (split b'/' f.name))
    then warning f.name (text "Skill files should follow skills/<name>/SKILL.md convention") ∷ rest
    else rest

unfoldable pub issues_of : List RoleFile → List ValidationIssue
unfolding missing_files content_of prompt_issues skill_issues
issues_of fs =
    missing_files well_known fs
    ++ (prompt_issues (content_of (text "PROMPT.md") fs) ++ skill_issues fs)

module _ {W : Type 0} (r : RoleClient W) where
  unfoldable pub validate_role : Text → Action W (List ValidationIssue)
  unfolding list_files_internal issues_of
  validate_role name = do
    lift (validate_path name)
    fs ← list_files_internal r name
    return (issues_of fs)
