-- ===== src/Operator/RoleWatcher.antt =====
-- The roleWatcher of internal/operator/controller/agent_controller.go: a scan of the roles'
-- directory against the update times last seen.
use entropy_gen.Common.{
  ℕ, Bool, false, Option, none, some, List, [], ◌∷◌, ◌++◌, if◌then◌else◌, ◌==◌, any,
}
use entropy_gen.Common.Text.{Text, text_eq}
use entropy_gen.Common.Dict.{Dict, lookup, insert, delete}
use entropy_gen.Operator.Types.{Agent}
use entropy_gen.Operator.Objects.{Key, key_of, agent_kind}

-- A directory entry, with the update time if its metadata could be read and parsed.
pub record RoleEntry : Type 0 where
  pub name : Text
  pub is_dir : Bool
  pub updated_at : Option ℕ

-- lastUpdatedAt, and the changed roles so far.
pub record Scan : Type 0 where
  pub last_updated_at : Dict ℕ
  pub changed : List Text

compare_time : Text → ℕ → Option ℕ → Scan → Scan
compare_time name t none s = record s { last_updated_at = insert name t s.last_updated_at }
compare_time name t (some prev) s = if t == prev then s else record s {
  last_updated_at = insert name t s.last_updated_at;
  changed = s.changed ++ (name ∷ []);
}

visit_time : Text → Option ℕ → Scan → Scan
unfolding compare_time
visit_time name none s = s
visit_time name (some t) s = compare_time name t (lookup name s.last_updated_at) s

-- The loop over the entries.
unfoldable pub visit_entries : List RoleEntry → Scan → Scan
unfolding visit_time
visit_entries [] s = s
visit_entries (e ∷ es) s =
    visit_entries es (if e.is_dir then visit_time e.name e.updated_at s else s)

abbrev pub seen : List RoleEntry → Text → Bool
seen entries name = any (λ e. if e.is_dir then text_eq e.name name else false) entries

-- The loop over the roles known so far: those without a directory are forgotten.
unfoldable pub forget_deleted : List RoleEntry → Dict ℕ → Scan → Scan
forget_deleted entries [] s = s
forget_deleted entries ((name, t) ∷ m) s = forget_deleted entries m (
    if seen entries name then s else record s {
      last_updated_at = delete name s.last_updated_at;
      changed = s.changed ++ (name ∷ []);
    })

-- `none` for a directory that cannot be read: nothing changes.
unfoldable pub scan_for_changes : Option (List RoleEntry) → Dict ℕ → Scan
unfolding visit_entries forget_deleted
scan_for_changes none known = record { last_updated_at = known; changed = [] }
scan_for_changes (some entries) known =
    let s = visit_entries entries (record { last_updated_at = known; changed = [] }) in
    forget_deleted entries s.last_updated_at s

-- The agents of a role, as they are sent to the channel.
unfoldable pub enqueue_agents_for_role : List Agent → Text → List Key
enqueue_agents_for_role [] role = []
enqueue_agents_for_role (a ∷ rest) role =
    let tail = enqueue_agents_for_role rest role in
    if text_eq a.spec.role role then key_of agent_kind a ∷ tail else tail
