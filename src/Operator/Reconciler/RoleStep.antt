-- ===== src/Operator/Reconciler/RoleStep.antt =====
-- fetchRoleData and EnsureRoleData: the role's directory is read into the reconciler's cache.
-- filepath.Join is the two parts with a slash between them.
use entropy_gen.Common.{Option, none, some, ◌++◌, if◌then◌else◌}
use entropy_gen.Common.Text.{Text, text, is_empty}
use entropy_gen.Common.Fallible.{ok, err, wrap}
use entropy_gen.Operator.Reconciler.RoleDir.{RoleData, no_role_data, read_entries}
use entropy_gen.Operator.Reconciler.{Platform, Config, Step, ◌>>=◌}

module _ {W : Type 0} (p : Platform W) where
  unfoldable pub read_role_dir : Text → Step W (Option RoleData)
  read_role_dir dir s = elim (read_entries (p.walk dir s.world) no_role_data) [
    | ok rd ↦ (ok (some rd), s)
    | err e ↦ (err (wrap (text "read role dir " ++ dir) e), s)
  ]

  -- No role, or no directory for it: no role data, and no error.
  unfoldable pub fetch_role_data : Config → Step W (Option RoleData)
  unfolding read_role_dir
  fetch_role_data c s =
      let dir = c.roles_data_path ++ (text "/" ++ s.agent.spec.role) in
      if is_empty s.agent.spec.role
      then (ok none, s)
      else if p.is_missing dir s.world
      then (ok none, s)
      else read_role_dir dir s

  unfoldable pub ensure_role_data : Config → Step W (Unit {0})
  unfolding fetch_role_data
  ensure_role_data c = do rd ← fetch_role_data c; λ s. (ok tt, record s { role_data = rd })
