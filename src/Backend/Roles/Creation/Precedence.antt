-- ===== src/Backend/Roles/Creation/Precedence.antt =====
-- Which contents Create collects for a role.
use entropy_gen.Common.{Option, none, some, List, any, if◌then◌else◌}
use entropy_gen.Common.Text.{Text, text_eq}
use entropy_gen.Common.Dict.{Dict}
use entropy_gen.Backend.Roles.{BuiltinContent}
use entropy_gen.Backend.Roles.Creation.{builtin_content_for}

abbrev pub first_of : Option Text → Option Text → Option Text
first_of (some c) later = some c
first_of none later = later

-- The default of a file that was asked for.
abbrev pub default_of : Option BuiltinContent → Text → List Text → Text → Option Text
default_of builtin role fs k =
    if any (λ f. text_eq f k) fs then some (builtin_content_for builtin k role) else none
