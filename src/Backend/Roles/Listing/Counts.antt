-- ===== src/Backend/Roles/Listing/Counts.antt =====
-- The two walks over a role's files agree.
use entropy_gen.Common.{
  ℕ, suc, ◌≡◌, refl, ap, ◌∙◌, inl, inr, Bool, true, false, List, [], ◌∷◌, length, if◌then◌else◌,
  Bool-cases, arith,
}
use entropy_gen.Common.Text.{Text, text_eq}
use entropy_gen.Common.Fallible.{Result, ok, err}
use entropy_gen.Operator.Reconciler.ConfigMaps.{text_leb}
use entropy_gen.Backend.Files.{WalkEntry, walk_error, directory, file}
use entropy_gen.Backend.Roles.{RoleFile, metadata_file}
use entropy_gen.Backend.Roles.Listing.{
  add_file, walked_files, insert_file, sort_files, count_walked,
}

length-insert_file :
    (f : RoleFile) (fs : List RoleFile) → length (insert_file f fs) ≡ suc (length fs)
unfolding insert_file
length-insert_file f [] = refl
length-insert_file f (g ∷ gs) = elim (Bool-cases (text_leb f.name g.name)) [
  | inl h ↦ rw h refl
  | inr h ↦ rw h (ap suc (length-insert_file f gs))
]

length-sort_files : (fs : List RoleFile) → length (sort_files fs) ≡ length fs
unfolding sort_files
length-sort_files [] = refl
length-sort_files (f ∷ fs) = length-insert_file f (sort_files fs) ∙ ap suc (length-sort_files fs)

length-add_file :
    (n : ℕ) (rel : Text) (time : Result ℕ) (content : Result Text) (rest : Result (List RoleFile))
    (fs : List RoleFile)
    → ((gs : List RoleFile) → rest ≡ ok gs → length gs ≡ n)
    → add_file rel time content rest ≡ ok fs
    → length fs ≡ suc n
unfolding add_file
length-add_file n rel (err e) content rest fs h done = cc
length-add_file n rel (ok t) (err e) rest fs h done = cc
length-add_file n rel (ok t) (ok c) (err e) fs h done = cc
length-add_file n rel (ok t) (ok c) (ok gs) fs h done = grind (arith, h gs refl)

length-unless_metadata :
    (b : Bool) (n : ℕ) (rest added : Result (List RoleFile)) (fs : List RoleFile)
    → ((gs : List RoleFile) → rest ≡ ok gs → length gs ≡ n)
    → ((gs : List RoleFile) → added ≡ ok gs → length gs ≡ suc n)
    → (if b then rest else added) ≡ ok fs
    → length fs ≡ (if b then n else suc n)
length-unless_metadata true n rest added fs h k done = h fs done
length-unless_metadata false n rest added fs h k done = k fs done

length-walked_files :
    (ws : List WalkEntry) (fs : List RoleFile)
    → walked_files ws ≡ ok fs
    → length fs ≡ count_walked ws
unfolding walked_files count_walked
length-walked_files [] fs done = grind arith
length-walked_files (walk_error e ∷ ws) fs done = cc
length-walked_files (directory ∷ ws) fs done = length-walked_files ws fs done
length-walked_files (file rel time content ∷ ws) fs done =
    length-unless_metadata (text_eq rel metadata_file) (count_walked ws) (walked_files ws)
      (add_file rel time content (walked_files ws)) fs (length-walked_files ws)
      (λ gs.
        length-add_file (count_walked ws) rel time content (walked_files ws) gs
          (length-walked_files ws))
      done

-- If the listing of a role's files succeeds, it has as many files as the count tells of, which
-- looks at the same walk but skips errors.
pub length-listed :
    (ws : List WalkEntry) (fs : List RoleFile)
    → walked_files ws ≡ ok fs
    → length (sort_files fs) ≡ count_walked ws
length-listed ws fs done = length-sort_files fs ∙ length-walked_files ws fs done
