-- ===== src/Backend/Roles/Creation/Removal.antt =====
-- What a role's deletion ensures.
use entropy_gen.Common.{
  ℕ, suc, ◌≡◌, ◌≢◌, refl, sym, ap, ◌∙◌, inl, inr, true, not, Option, none, some, List, [], ◌∷◌,
  ◌++◌, all, Bool-cases, arith,
}
use entropy_gen.Common.Text.{Text, text, text_eq}
use entropy_gen.Common.Paths.{FilePath}
use entropy_gen.Common.Paths.Containment.{Within}
use entropy_gen.Common.Fallible.{Result, ok, err, Action}
use entropy_gen.Common.Actions.{◌>>=◌, ◌>>◌, return, lift, fail, wrapping, >>=-ok, wrapping_ok}
use entropy_gen.Common.Actions.Outcomes.{Leads->>=, Leads-wrapping, Leads-Keeps}
use entropy_gen.Operator.Types.{Agent}
use entropy_gen.Backend.Roles.{RoleClient, role_dir, validate_path}
use entropy_gen.Backend.Roles.Spares.{RoleLaws, file_at}
use entropy_gen.Backend.Roles.Listing.{count_agents_for_role, count_agents, count_role}
use entropy_gen.Backend.Roles.Creation.{delete_role, unless_used}
use entropy_gen.Backend.Roles.Creation.Spared.{forget-Spares}

some_counted : (n : ℕ) → suc n ≢ 0
some_counted n h = omega arith

ok-injective : (m n : ℕ) → ok m ≡ ok n → m ≡ n
ok-injective m n h = ap (λ (x : Result ℕ). elim x [ ok k ↦ k | err e ↦ m ]) h

count_role_zero :
    (name : Text) (agents : List Agent)
    → count_role name agents ≡ 0
    → all (λ a. not (text_eq a.spec.role name)) agents ≡ true
unfolding count_role
count_role_zero name [] h = refl
count_role_zero name (a ∷ agents) h = elim (Bool-cases (text_eq a.spec.role name)) [
  | inl e ↦ absurd (some_counted (count_role name agents) (rw (count_role, e) at h))
  | inr e ↦ rw e (count_role_zero name agents (rw (count_role, e) at h))
]

-- Without a client nothing is said; with one, the list was read and no agent has the role.
abbrev pub Unused : {W : Type 0} → Option (Action W (List Agent)) → Text → W → Type 0
Unused none name w = Unit {0}
Unused {W} (some agents) name w =
    (found : List Agent) × ((agents w).0 ≡ ok found)
    × (all (λ a. not (text_eq a.spec.role name)) found ≡ true)

count_agents-Unused :
    {W : Type 0} (r : RoleClient W) (agents : Option (Action W (List Agent))) (name : Text) (w : W)
    → (count_agents r agents name w).0 ≡ ok 0
    → Unused agents name w
unfolding return
count_agents-Unused r none name w h = tt
count_agents-Unused r (some agents) name w h =
    let counted : (wrapping (text "list agents") agents >>= λ found. return (count_role name found))
          w
        ≡ count_agents r (some agents) name w =
      unfold count_agents in refl in
    let (found, e, more) =
      >>=-ok (wrapping (text "list agents") agents) (λ found. return (count_role name found)) w
        (ap (λ x. x.0) counted ∙ h) in
    (
      found,
      (wrapping_ok _ agents w e).0,
      count_role_zero name found
          (ok-injective _ _ (ap (λ x. x.0) (sym more) ∙ ap (λ x. x.0) counted ∙ h)),
    )

module _ {W : Type 0} (r : RoleClient W) where
  unless_used_ok : (name : Text) (n : ℕ) (w : W) → (unless_used r name n w).0 ≡ ok tt → n ≡ 0
  unfolding unless_used fail return
  unless_used_ok name n w h = ground arith

  abbrev Any : W → Type 0
  Any w = Unit {0}

  used_count :
      (name : Text) (n : ℕ) (m : Action W (Unit {0})) (w : W)
      → ((unless_used r name n >> m) w).0 ≡ ok tt
      → n ≡ 0
  used_count name n m w done =
      unless_used_ok name n w (>>=-ok (unless_used r name n) (λ _. m) w done).1

  delete_role_unused :
      (name : Text) (w : W)
      → (delete_role r name w).0 ≡ ok tt
      → (count_agents_for_role r name w).0 ≡ ok 0
  unfolding delete_role lift
  delete_role_unused name w done =
      let (_, _, rest) = >>=-ok (lift (validate_path name)) _ w done in
      let checked = ap (λ x. x.0) (sym rest) ∙ done in
      let (n, counted, more) =
        >>=-ok (wrapping (text "count agents for role " ++ name) (count_agents_for_role r name)) _ w
          checked in
      (wrapping_ok _ (count_agents_for_role r name) w counted).0
      ∙ ap ok (used_count name n _ _ (ap (λ x. x.0) (sym more) ∙ checked))

module _ {W : Type 0} (r : RoleClient W) (laws : RoleLaws r) where
  -- Once a role is deleted, no file is left in its directory.
  pub delete_role_empties :
      (name : Text) (w : W) (q : FilePath)
      → Within (role_dir r name) q
      → (delete_role r name w).0 ≡ ok tt
      → file_at r laws (delete_role r name w).1 q ≡ none
  unfolding delete_role
  delete_role_empties name w q below done =
      let Gone = λ (v : W). file_at r laws v q ≡ none in
      Leads->>= (Any r) (Any r) Gone _ _ (λ v p a d. tt)
        (λ _.
          Leads->>= (Any r) (Any r) Gone _ _ (λ v p a d. tt)
            (λ n.
              Leads->>= (Any r) (Any r) Gone _ _ (λ v p a d. tt)
                (λ _.
                  Leads->>= (Any r) (Any r) Gone _ _ (λ v p a d. tt)
                    (λ _.
                      Leads->>= (Any r) Gone Gone _ _
                        (Leads-wrapping (Any r) Gone _ _
                          (λ v p a d. laws.files.remove_all_ok (role_dir r name) q v d below))
                        (λ _.
                          Leads-Keeps (λ v. file_at r laws v q) none _
                            (forget-Spares r laws q name))))))
        w tt tt done

  -- Once a role is deleted, no file is left in its directory. Where the client of the agents is
  -- configured, the deletion read their list, and none of them has the role.
  pub delete_role_lem :
      (name : Text) (w : W)
      → (delete_role r name w).0 ≡ ok tt
      → Unused r.agents name w
        × ((q : FilePath)
            → Within (role_dir r name) q
            → file_at r laws (delete_role r name w).1 q ≡ none)
  delete_role_lem name w done = (
    count_agents-Unused r r.agents name w
        (unfold count_agents_for_role in delete_role_unused r name w done),
    λ q below. delete_role_empties name w q below done,
  )
