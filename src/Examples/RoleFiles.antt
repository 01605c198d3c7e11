-- ===== src/Examples/RoleFiles.antt =====
-- A file system in memory without directories, and a role store on it.
use mathlib.Core.Path.{subst}
use entropy_gen.Common.{
  ℕ, ◌≡◌, ◌≢◌, refl, sym, ap, ◌∙◌, inl, inr, Bool, true, false, ◌&&◌, ◌||◌, Option, none, some,
  List, [], ◌∷◌, ◌++◌, if◌then◌else◌, Bool-cases, arith,
}
use mathlib.Core.Option.{some-injective}
use entropy_gen.Common.Text.{Text, text, text_eq_iff, text_eq_refl}
use entropy_gen.Common.Paths.{FilePath}
use entropy_gen.Common.Paths.Containment.{Within, Within-refl}
use entropy_gen.Common.Fallible.{Error, other, Result, ok, err, Action}
use entropy_gen.Operator.Types.{Agent}
use entropy_gen.Backend.Files.{FileSystem, FileLaws}
use entropy_gen.Backend.Roles.{BuiltinContent, RoleClient}
use entropy_gen.Backend.Roles.RoleFiles.{path_eq, texts_eq, flags_eq}
use entropy_gen.Backend.Roles.Spares.{RoleLaws}

abbrev pub Disk : Type 0
Disk = FilePath → Option Text

abbrev pub no_such_file : Error
no_such_file = other (text "input/output error")

texts_eq_sound : (ss ts : List Text) → texts_eq ss ts ≡ true → ss ≡ ts
texts_eq_sound [] [] h = refl
texts_eq_sound [] (t ∷ ts) h = cc
texts_eq_sound (s ∷ ss) [] h = cc
texts_eq_sound (s ∷ ss) (t ∷ ts) h = ground (arith, text_eq_iff s t, texts_eq_sound ss ts)

texts_eq_refl : (ts : List Text) → texts_eq ts ts ≡ true
texts_eq_refl [] = refl
texts_eq_refl (t ∷ ts) = rw (text_eq_refl t, texts_eq_refl ts) refl

flags_eq_sound : (a b : Bool) → flags_eq a b ≡ true → a ≡ b
flags_eq_sound true b h = sym h
flags_eq_sound false true h = cc
flags_eq_sound false false h = refl

flags_eq_refl : (a : Bool) → flags_eq a a ≡ true
flags_eq_refl true = refl
flags_eq_refl false = refl

path_eq_refl : (p : FilePath) → path_eq p p ≡ true
path_eq_refl p = rw (flags_eq_refl p.rooted, texts_eq_refl p.stack) refl

both : (a b : Bool) → a && b ≡ true → (a ≡ true) × (b ≡ true)
both true b h = (refl, h)
both false b h = cc

path_eq_sound : (p q : FilePath) → path_eq p q ≡ true → p ≡ q
path_eq_sound p q h =
    let (a, b) = both (flags_eq p.rooted q.rooted) (texts_eq p.stack q.stack) h in
    let rooted = flags_eq_sound p.rooted q.rooted a in
    let stack = texts_eq_sound p.stack q.stack b in
    λ i. record { rooted = rooted i; stack = stack i }

pub path_eq-false : (p q : FilePath) → path_eq p q ≡ false → p ≢ q
path_eq-false p q h e = let same : path_eq p q ≡ true = rw e (path_eq_refl q) in cc

path_eq-ne : (p q : FilePath) → p ≢ q → path_eq p q ≡ false
path_eq-ne p q h = elim (Bool-cases (path_eq p q)) [
  | inl e ↦ absurd (h (path_eq_sound p q e))
  | inr e ↦ e
]

-- Whether the stack, or what is below some of its components, is the directory's.
abbrev pub below : Bool → List Text → FilePath → Bool
below rooted [] dir = path_eq dir (record { rooted = rooted; stack = [] })
below rooted (c ∷ st) dir =
    path_eq dir (record { rooted = rooted; stack = c ∷ st }) || below rooted st dir

right : (a b : Bool) → a ≡ false → a || b ≡ true → b ≡ true
right true b e h = cc
right false b e h = h

or_true : (a b : Bool) → b ≡ true → a || b ≡ true
or_true true b h = refl
or_true false b h = h

or_left : (a b : Bool) → a ≡ true → a || b ≡ true
or_left true b h = refl
or_left false b h = cc

below_sound :
    (rooted : Bool) (st : List Text) (dir : FilePath)
    → below rooted st dir ≡ true
    → Within dir (record { rooted = rooted; stack = st })
below_sound rooted [] dir h =
    subst (λ p. Within p (record { rooted = rooted; stack = [] })) (sym (path_eq_sound dir _ h))
      (Within-refl _)
below_sound rooted (c ∷ st) dir h =
    elim (Bool-cases (path_eq dir (record { rooted = rooted; stack = c ∷ st }))) [
      | inl e ↦
          subst (λ p. Within p (record { rooted = rooted; stack = c ∷ st }))
            (sym (path_eq_sound dir _ e)) (Within-refl _)
      | inr e ↦
          let (e', (xs, f)) = below_sound rooted st dir (right _ (below rooted st dir) e h) in
          (e', (c ∷ xs, ap (◌∷◌ c) f))
    ]

below_complete :
    (rooted : Bool) (xs base : List Text)
    → below rooted (xs ++ base) (record { rooted = rooted; stack = base }) ≡ true
below_complete rooted [] [] = path_eq_refl (record { rooted = rooted; stack = [] })
below_complete rooted [] (c ∷ st) =
    or_left _ _ (path_eq_refl (record { rooted = rooted; stack = c ∷ st }))
below_complete rooted (x ∷ xs) base = or_true _ _ (below_complete rooted xs base)

abbrev pub read_memory : Option Text → Result Text
read_memory (some c) = ok c
read_memory none = err no_such_file

abbrev pub time_of : Option Text → Result ℕ
time_of (some c) = ok 7
time_of none = err no_such_file

abbrev pub put_at : FilePath → Option Text → Disk → Disk
put_at p c w q = if path_eq p q then c else w q

abbrev pub cleared : FilePath → Disk → Disk
cleared p w q = if below q.rooted q.stack p then none else w q

abbrev pub moved : Option Text → FilePath → FilePath → Disk → Result (Unit {0}) × Disk
moved none p q w = (err no_such_file, w)
moved (some c) p q w = (ok tt, put_at q (some c) (put_at p none w))

abbrev pub memory : FileSystem Disk
memory = record {
  read_file = λ p w. (read_memory (w p), w);
  write_file = λ p c w. (ok tt, put_at p (some c) w);
  stat = λ p w. (time_of (w p), w);
  mkdir_all = λ p w. (ok tt, w);
  remove = λ p w. (ok tt, put_at p none w);
  remove_all = λ p w. (ok tt, cleared p w);
  rename = λ p q w. moved (w p) p q w;
  read_dir = λ p w. (err no_such_file, w);
  walk_dir = λ p w. [];
  is_not_exist = λ e. false;
}

pub read_memory-some : (o : Option Text) (c : Text) → read_memory o ≡ ok c → o ≡ some c
read_memory-some none c h = cc
read_memory-some (some d) c h = cc

pub put_at_here : (p : FilePath) (o : Option Text) (w : Disk) → put_at p o w p ≡ o
put_at_here p o w = rw (path_eq_refl p) refl

pub put_at_other : (p q : FilePath) (o : Option Text) (w : Disk) → p ≢ q → put_at p o w q ≡ w q
put_at_other p q o w h = rw (path_eq-ne p q h) refl

pub cleared_below : (p q : FilePath) (w : Disk) → Within p q → cleared p w q ≡ none
cleared_below p q w (e, (xs, f)) = rw (e, f, below_complete p.rooted xs p.stack) refl

pub cleared_outside : (p q : FilePath) (w : Disk) → ¬ Within p q → cleared p w q ≡ w q
cleared_outside p q w h = elim (Bool-cases (below q.rooted q.stack p)) [
  | inl e ↦ absurd (h (below_sound q.rooted q.stack p e))
  | inr e ↦ rw e refl
]

not-Within_ne : (p q : FilePath) → ¬ Within p q → p ≢ q
not-Within_ne p q h e = h (subst (Within p) e (Within-refl p))

pub moved_ok :
    (p q : FilePath) (w : Disk) (c : Text) (o : Option Text)
    → p ≢ q
    → o ≡ some c
    → ((moved o p q w).1 q ≡ some c) × ((moved o p q w).1 p ≡ none)
moved_ok p q w c none h e = cc
moved_ok p q w c (some d) h e = (
  put_at_here q (some d) (put_at p none w) ∙ e,
  put_at_other q p (some d) (put_at p none w) (λ k. h (sym k)) ∙ put_at_here p none w,
)

pub moved_frame :
    (p q r : FilePath) (w : Disk) (o : Option Text)
    → ¬ Within p r
    → ¬ Within q r
    → (moved o p q w).1 r ≡ w r
moved_frame p q r w none h k = refl
moved_frame p q r w (some c) h k =
    put_at_other q r (some c) (put_at p none w) (not-Within_ne q r k)
    ∙ put_at_other p r none w (not-Within_ne p r h)

abbrev pub memory_laws : FileLaws memory
memory_laws = record {
  file_at = λ w p. w p;
  read_ok = λ p w c h. read_memory-some (w p) c h;
  read_keeps = λ p w. refl;
  stat_keeps = λ p w. refl;
  mkdir_keeps = λ p w. refl;
  read_dir_keeps = λ p w. refl;
  write_ok = λ p c w h. put_at_here p (some c) w;
  write_frame = λ p q c h w. put_at_other p q (some c) w h;
  remove_ok = λ p w h. put_at_here p none w;
  remove_frame = λ p q h w. put_at_other p q none w h;
  remove_empty = λ p w h. cc;
  remove_all_ok = λ p q w h k. cleared_below p q w k;
  remove_all_frame = λ p q h w. cleared_outside p q w h;
  rename_ok = λ p q w c h e done. moved_ok p q w c (w p) h e;
  rename_frame = λ p q r h k w. moved_frame p q r w (w p) h k;
}

pub below-false : (p q : FilePath) → below q.rooted q.stack p ≡ false → ¬ Within p q
below-false p q h (e, (xs, f)) =
    let found = below_complete p.rooted xs p.stack in
    let there : below q.rooted q.stack p ≡ true = rw (e, f) found in cc

abbrev pub builtin : BuiltinContent
builtin = record {
  read_soul = text "soul";
  read_prompt = text "prompt";
  read_prompt_for_role = λ role. text "prompt of " ++ role;
  build_agents_md = λ role. text "agents of " ++ role;
  builtin_skills_for_role = λ role. text "git" ∷ [];
  read_skill = λ name. text "how to " ++ name;
  list_role_types = [];
}

abbrev pub no_agents : Action Disk (List Agent)
no_agents w = (ok [], w)

abbrev pub no_user : Text → Action Disk (Unit {0})
no_user t w = (err no_such_file, w)

abbrev pub store : RoleClient Disk
store = record {
  fs = memory;
  base_path = record { rooted = true; stack = text "roles" ∷ text "data" ∷ [] };
  agents = some no_agents;
  builtin = some builtin;
  delete_user = some no_user;
  delete_secret = none;
  encode = λ m. m.description;
  decode = λ t. ok (record { description = t; created_at = 1; updated_at = 2 });
  now = λ w. (9, w);
  range = λ m. m;
  decimal = λ n. text "1";
}

abbrev pub store_laws : RoleLaws store
store_laws = record {
  files = memory_laws;
  now_keeps = λ w. refl;
  agents_keep = λ m e w. subst (λ n. (n w).1 ≡ w) (some-injective no_agents m e) refl;
  users_keep = λ f e t w. subst (λ g. (g t w).1 ≡ w) (some-injective no_user f e) refl;
  secrets_keep = λ f e t w. cc;
}
