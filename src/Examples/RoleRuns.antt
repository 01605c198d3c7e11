-- ===== src/Examples/RoleRuns.antt =====
-- Runs of the role store on a file system in memory.
use entropy_gen.Common.{◌≡◌, refl, false, none, some, List, [], ◌∷◌}
use entropy_gen.Common.Text.{Text, text, text_eq, split, has_prefix}
use entropy_gen.Common.Dict.{lookup, insert}
use entropy_gen.Common.Paths.Containment.{Within}
use entropy_gen.Common.Paths.{FilePath, join_path, enter_all, enter, go_up, is_abs, clean, dir_of}
use entropy_gen.Common.Fallible.{Error, other, ok, err}
use entropy_gen.Common.Actions.{◌>>=◌, return, lift, fail, attempt, wrapping}
use entropy_gen.Backend.Roles.{
  RoleFile, role_dir, metadata_path, touch_metadata, read_metadata, write_metadata, validate_path,
}
use entropy_gen.Backend.Roles.RoleFiles.{
  path_eq, stat_file, unless_missing, finish_put, get_file, put_file,
}
use entropy_gen.Backend.Roles.Isolation.{
  RoleOp, puts, deletes, renames, creates, describes, removes, run_ops, run_ops-Spares,
}
use entropy_gen.Backend.Roles.Creation.{
  CreateRoleRequest, delete_role, unless_used, forget_user, forget_secret, write_files, or_remove,
  builtin_data, add_defaults, add_skills, add_initial, add_files, builtin_content_for, role_data,
  populate,
}
use entropy_gen.Backend.Roles.Stored.{get_file-put_file}
use entropy_gen.Backend.Roles.Listing.{count_agents_for_role, count_agents, count_role}
use entropy_gen.Backend.Roles.Creation.Removal.{Unused, delete_role_lem}
use entropy_gen.Backend.Roles.Creation.Atomicity.{populate_undone}
use entropy_gen.Examples.RoleFiles.{
  below, put_at, path_eq-false, Disk, store, store_laws, below-false,
}

abbrev developer : Text
developer = text "developer"

abbrev request : CreateRoleRequest
request = record {
  name = developer;
  description = text "writes code";
  role = developer;
  initial_files = text "NOTES.md" ∷ [];
  files = (text "PROMPT.md", text "mine") ∷ [];
}

abbrev empty_disk : Disk
empty_disk p = none

abbrev reviewer_soul : FilePath
reviewer_soul = join_path (role_dir store (text "reviewer")) (text "SOUL.md")

abbrev some_ops : List RoleOp
some_ops =
    creates request
    ∷ puts (text "../reviewer/SOUL.md") (text "x")
    ∷ puts (text "a/b.md") (text "x")
    ∷ renames (text "a/b.md") (text "c.md")
    ∷ deletes (text "c.md")
    ∷ describes (text "y")
    ∷ removes
    ∷ []

apart : below reviewer_soul.rooted reviewer_soul.stack (role_dir store developer) ≡ false
unfolding text text_eq split is_abs has_prefix enter_all enter go_up clean join_path
apart = refl

run_ops-Spares_example :
    store_laws.files.file_at (run_ops store developer some_ops empty_disk) reviewer_soul ≡ none
run_ops-Spares_example =
    run_ops-Spares store store_laws developer some_ops empty_disk reviewer_soul
      (below-false (role_dir store developer) reviewer_soul apart)

abbrev file_path : Text → FilePath
file_path name = join_path (role_dir store developer) name

-- A role with its metadata and one more file.
abbrev ready : Disk
ready =
    put_at (metadata_path store developer) (some (text "writes code"))
      (put_at (file_path (text "a.md")) (some (text "old")) empty_disk)

not_metadata : path_eq (metadata_path store developer) (file_path (text "a.md")) ≡ false
unfolding text text_eq split is_abs has_prefix enter_all enter go_up clean join_path
not_metadata = refl

abbrev new_file : RoleFile
new_file = record { name = text "a.md"; content = text "new"; updated_at = 7 }

put_ok : (put_file store developer (text "a.md") (text "new") ready).0 ≡ ok new_file
unfolding put_file unless_missing finish_put touch_metadata read_metadata write_metadata ◌>>=◌
    return lift fail attempt wrapping validate_path text text_eq split is_abs has_prefix enter_all
    enter go_up clean join_path dir_of
put_ok = refl

got_ok :
    (get_file store developer
      (text "a.md")
      (put_file store developer (text "a.md") (text "new") ready).1).0
    ≡ ok new_file
unfolding put_file unless_missing finish_put touch_metadata read_metadata write_metadata get_file
    stat_file dir_of ◌>>=◌ return lift fail attempt wrapping validate_path text text_eq split is_abs
    has_prefix enter_all enter go_up clean join_path
got_ok = refl

get_file-put_file_example : new_file.content ≡ text "new"
get_file-put_file_example =
    get_file-put_file store store_laws developer (text "a.md") (text "new") ready new_file new_file
      (path_eq-false (metadata_path store developer) (file_path (text "a.md")) not_metadata) put_ok
      got_ok

abbrev renamed : RoleFile
renamed = record { name = text "b.md"; content = text "old"; updated_at = 7 }

role_deleted : (delete_role store developer ready).0 ≡ ok tt
unfolding delete_role count_agents_for_role count_agents count_role unless_used unless_missing
    forget_user forget_secret ◌>>=◌ return lift fail attempt wrapping validate_path text text_eq
    split is_abs has_prefix enter_all enter go_up clean join_path
role_deleted = refl

delete_role_lem_example :
    Unused store.agents developer ready
    × ((q : FilePath)
        → Within (role_dir store developer) q
        → store_laws.files.file_at (delete_role store developer ready).1 q ≡ none)
delete_role_lem_example = delete_role_lem store store_laws developer ready role_deleted

abbrev bad_request : CreateRoleRequest
bad_request = record request { files = (text "../x", text "y") ∷ [] }

abbrev traversal : Error
traversal = other (text "path traversal not allowed: ../x")

populate_failed : (populate store bad_request empty_disk).0 ≡ err traversal
unfolding populate write_files or_remove role_data builtin_data add_defaults add_skills add_initial
    add_files builtin_content_for insert lookup write_metadata dir_of ◌>>=◌ return lift fail attempt
    wrapping validate_path text text_eq split is_abs has_prefix enter_all enter go_up clean
    join_path
populate_failed = refl

soul_below : Within (role_dir store developer) (file_path (text "SOUL.md"))
unfolding text text_eq split is_abs has_prefix enter_all enter go_up clean join_path
soul_below = (refl, (text "SOUL.md" ∷ [], refl))

populate_undone_example :
    store_laws.files.file_at
      (populate store bad_request empty_disk).1
      (join_path (role_dir store developer) (text "SOUL.md"))
    ≡ none
populate_undone_example =
    populate_undone store store_laws bad_request (file_path (text "SOUL.md")) empty_disk traversal
      soul_below (λ v. refl) populate_failed

-- The name of the directory of all roles passes the check of a role's name.
dot_accepted : validate_path (text ".") ≡ ok tt
unfolding validate_path text clean is_abs has_prefix enter_all enter go_up split text_eq
dot_accepted = refl
