-- ===== src/Backend/Roles/Validation/WellFormed.antt =====
-- When a role's files give no warning.
use entropy_gen.Common.{◌≡◌, true, Option, some, List, All}
use entropy_gen.Common.Text.{Text, text, has_prefix, contains, split}
use entropy_gen.Backend.Roles.{RoleFile}
use entropy_gen.Backend.Roles.Creation.{well_known}
use entropy_gen.Backend.Roles.Validation.{content_of, placeholders, is_skill_path}

abbrev HasFile : List RoleFile → Text → Type 0
HasFile fs name = (c : Text) × (content_of name fs ≡ some c)

abbrev HasPlaceholders : Text → Type 0
HasPlaceholders content = All (λ p. contains content p ≡ true) placeholders

abbrev IsConventional : RoleFile → Type 0
IsConventional f =
    has_prefix f.name (text "skills/") ≡ true → is_skill_path (split b'/' f.name) ≡ true

-- A role with the three well-known files, whose prompt has both placeholders, and whose files
-- below skills/ are all named skills/<name>/SKILL.md.
pub record IsReady (fs : List RoleFile) : Type 0 where
  pub has_files : All (HasFile fs) well_known
  pub has_placeholders : (c : Text) → content_of (text "PROMPT.md") fs ≡ some c → HasPlaceholders c
  pub skills_conventional : All IsConventional fs
