-- ===== src/Operator/Reconciler/ConfigMaps.antt =====
-- The prompt, skills and role-files ConfigMaps (k8s_resources.go).
use entropy_gen.Common.{
  ℕ, zero, suc, ◌-◌, Bool, Option, none, some, List, [], ◌∷◌, ◌++◌, map, if◌then◌else◌, length,
  take, ◌==◌,
}
use entropy_gen.Common.Text.{Text, text, is_empty, has_prefix, join}
use entropy_gen.Common.Dict.{Dict, insert, lookup}
use entropy_gen.Common.Fallible.{err}
use entropy_gen.Operator.Types.{Agent, AgentGitea}
use entropy_gen.Operator.Objects.{config_map, ConfigMap, KeyToPath}
use entropy_gen.Operator.Reconciler.RoleDir.{RoleData}
use entropy_gen.Operator.Reconciler.{
  Platform, Step, ◌>>=◌, return, call, Fetched, found, missing, failed, fetch,
}
use entropy_gen.Operator.Reconciler.Storage.{agent_name, owned_meta, void}

-- strings.ReplaceAll for a text to replace that is not empty; `skip` counts the characters of the
-- last hit that are still to be passed over.
unfoldable pub replace_from : Text → Text → ℕ → Text → Text
replace_from old new skip [] = []
replace_from old new (suc skip) (c ∷ s) = replace_from old new skip s
replace_from old new zero (c ∷ s) =
    let hit = new ++ replace_from old new (length old - 1) s in
    let miss = c ∷ replace_from old new zero s in if has_prefix (c ∷ s) old then hit else miss

unfoldable pub replace_all : Text → Text → Text → Text
unfolding replace_from
replace_all s old new = replace_from old new zero s

-- K8s ConfigMap keys cannot contain '/'.
unfoldable pub skill_key : Text → Text
skill_key [] = []
skill_key (c ∷ s) = let rest = skill_key s in if c == b'/' then b'_' ∷ b'_' ∷ rest else c ∷ rest

abbrev fill_repos : Option AgentGitea → Text → Text
fill_repos none prompt = prompt
fill_repos (some g) prompt = elim g.repos [
  | [] ↦ prompt
  | r ∷ rs ↦ replace_all prompt (text "{{REPOS}}") (join (text ",") (r ∷ rs))
]

-- The prompt with its template variables filled in.
unfoldable pub fill_prompt : Agent → Text → Text
fill_prompt a prompt =
    replace_all
      (replace_all (fill_repos a.spec.gitea prompt) (text "{{AGENT_ID}}") (text "agent-" ++ a.name))
      (text "{{AGENT_ROLE}}") a.spec.role

-- An entry for a file that is not empty.
abbrev entry_of : Text → Text → Dict Text
entry_of name content = if is_empty content then [] else (name, content) ∷ []

unfoldable pub build_prompt_config_map_data : Agent → Option RoleData → Dict Text
build_prompt_config_map_data a none = []
build_prompt_config_map_data a (some rd) =
    entry_of (text "SOUL.md") rd.soul
    ++ (entry_of (text "AGENTS.md") rd.agents_md
        ++ (if is_empty rd.prompt then [] else (text "PROMPT.md", fill_prompt a rd.prompt) ∷ []))

-- The order of sort.Strings, and the sort of a map's keys by insertion.
unfoldable pub text_leb : Text → Text → Bool
text_leb [] t = Bool.true
text_leb (c ∷ s) [] = Bool.false
text_leb (c ∷ s) (d ∷ t) = let rest = text_leb s t in if c == d then rest else ltb_char c d
  where
    ltb_char : ℕ → ℕ → Bool
    ltb_char x y = entropy_gen.Common.ltb x y

unfoldable pub insert_key : Text → List Text → List Text
unfolding text_leb
insert_key k [] = k ∷ []
insert_key k (j ∷ js) = let rest = insert_key k js in if text_leb k j then k ∷ j ∷ js else j ∷ rest

unfoldable pub sorted_keys : {V : Type 0} → Dict V → List Text
unfolding insert_key
sorted_keys [] = []
sorted_keys ((k, v) ∷ m) = insert_key k (sorted_keys m)

-- What computeHash feeds to SHA-256: a line `key=value` for each key, in order.
unfoldable pub hash_input : Dict Text → List Text → Text
hash_input m [] = []
hash_input m (k ∷ ks) = k ++ (text "=" ++ (value_of (lookup k m) ++ (text "\n" ++ hash_input m ks)))
  where
    value_of : Option Text → Text
    value_of none = []
    value_of (some v) = v

module _ {W : Type 0} (p : Platform W) where
  unfoldable pub compute_hash : Dict Text → Text
  unfolding hash_input sorted_keys
  compute_hash m = take 16 (p.sha256_hex (hash_input m (sorted_keys m)))

  -- Creates the ConfigMap, or gives the one that was found new data and, for the prompt, a new hash.
  unfoldable pub put_config_map :
      ConfigMap → (Option (Dict Text) → Option (Dict Text)) → Fetched ConfigMap → Step W (Unit {0})
  put_config_map new annotate_found missing = void (call (p.kube.create config_map new))
  put_config_map new annotate_found (failed e) = λ s. (err e, s)
  put_config_map new annotate_found (found cm) = void (
      call (
        p.kube.update config_map (record cm {
          entries = new.entries;
          meta = record cm.meta { annotations = annotate_found cm.meta.annotations };
        })))

  unfoldable pub ensure_named_config_map :
      ConfigMap → (Option (Dict Text) → Option (Dict Text)) → Step W (Unit {0})
  unfolding put_config_map
  ensure_named_config_map new annotate_found = do
    got ← fetch p.kube config_map (record { namespace = new.meta.namespace; name = new.meta.name })
    put_config_map new annotate_found got

abbrev pub hash_annotation : Text
hash_annotation = text "aidevops.io/config-hash"

-- `if Annotations == nil { … }; Annotations[annotationCfgHash] = hash`
abbrev pub set_hash : Text → Option (Dict Text) → Option (Dict Text)
set_hash hash none = some ((hash_annotation, hash) ∷ [])
set_hash hash (some m) = some (insert hash_annotation hash m)

module _ {W : Type 0} (p : Platform W) where
  unfoldable pub prompt_config_map : Agent → Option RoleData → ConfigMap
  prompt_config_map a rd =
      let m = build_prompt_config_map_data a rd in
      record {
        meta =
            owned_meta a (agent_name a (text "-prompt"))
              (some ((hash_annotation, compute_hash p m) ∷ []));
        entries = m;
      }

  unfoldable pub ensure_config_map : Step W (Unit {0})
  unfolding ensure_named_config_map
  ensure_config_map s =
      ensure_named_config_map p (prompt_config_map s.agent s.role_data)
        (set_hash (compute_hash p (build_prompt_config_map_data s.agent s.role_data))) s

-- Go ranges over the map in any order; keys that become equal leave one entry.
unfoldable pub skills_from : Dict Text → Dict Text
unfolding skill_key
skills_from [] = []
skills_from ((k, v) ∷ m) = insert (skill_key k) v (skills_from m)

unfoldable pub build_skills_data : Option RoleData → Dict Text
unfolding skills_from
build_skills_data none = []
build_skills_data (some rd) = skills_from rd.skills

unfoldable pub build_skill_items : Option RoleData → List KeyToPath
build_skill_items none = []
build_skill_items (some rd) =
    map (λ path. record { key = skill_key path; path = path }) (sorted_keys rd.skills)

unfoldable pub skills_config_map : Agent → Option RoleData → ConfigMap
skills_config_map a rd = record {
  meta = owned_meta a (agent_name a (text "-skills")) none;
  entries = build_skills_data rd;
}

unfoldable pub role_files_config_map : Agent → Dict Text → ConfigMap
role_files_config_map a files = record {
  meta = owned_meta a (agent_name a (text "-role-files")) none;
  entries = files;
}

abbrev pub extra_files_of : Option RoleData → Dict Text
extra_files_of none = []
extra_files_of (some rd) = rd.extra_files

module _ {W : Type 0} (p : Platform W) where
  unfoldable pub ensure_skills_config_map : Step W (Unit {0})
  unfolding ensure_named_config_map
  ensure_skills_config_map s =
      ensure_named_config_map p (skills_config_map s.agent s.role_data) (λ a. a) s

  -- Skipped where the role has no extra files.
  unfoldable pub ensure_extra_files : Agent → Dict Text → Step W (Unit {0})
  unfolding ensure_named_config_map
  ensure_extra_files a [] = return tt
  ensure_extra_files a (f ∷ fs) =
      ensure_named_config_map p (role_files_config_map a (f ∷ fs)) (λ x. x)

  unfoldable pub ensure_role_files_config_map : Step W (Unit {0})
  unfolding ensure_extra_files
  ensure_role_files_config_map s = ensure_extra_files s.agent (extra_files_of s.role_data) s
