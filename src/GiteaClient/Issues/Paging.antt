-- ===== src/GiteaClient/Issues/Paging.antt =====
-- The pages of a repository's labels bring all of them.
use entropy_gen.Common.{
  ℕ, zero, suc, ◌+◌, ◌*◌, ◌-◌, ◌≤◌, ◌<◌, ◌≡◌, refl, sym, ap, ◌∙◌, inl, inr, ◌⊎◌, Bool, true, false,
  ◌&&◌, any, all, List, [], if◌then◌else◌, ◌∷◌, ◌++◌, length, take, drop, length-take, take_all,
  ltb, Bool-cases, map, arith,
}
use mathlib.Core.Path.{subst}
use entropy_gen.Common.Text.{Text, text_eq, text_eq_iff, text_eq_refl}
use entropy_gen.Common.Fallible.{Error, Result, ok, err}
use entropy_gen.Common.Actions.{◌>>=◌, lift, return}
use entropy_gen.Common.Actions.Outcomes.{>>=-returns, wrapping_returns}
use entropy_gen.GiteaClient.Issues.{
  Label, IssueSdk, page_size, all_labels, resolve_label_ids, check_found, labels_named,
}

module _ {A : Type 0} where
  take-drop : (n : ℕ) (xs : List A) → take n xs ++ drop n xs ≡ xs
  take-drop zero xs = refl
  take-drop (suc n) [] = refl
  take-drop (suc n) (x ∷ xs) = ap (◌∷◌ x) (take-drop n xs)

  length-drop : (n : ℕ) (xs : List A) → length (drop n xs) ≡ length xs - n
  length-drop zero xs = omega arith
  length-drop (suc n) [] = omega arith
  length-drop (suc n) (x ∷ xs) = omega (arith, length-drop n xs)

  drop_empty : (n : ℕ) → drop {A = A} n [] ≡ []
  drop_empty zero = refl
  drop_empty (suc n) = refl

  drop-drop : (m n : ℕ) (xs : List A) → drop n (drop m xs) ≡ drop (m + n) xs
  drop-drop zero n xs = let e : n ≡ 0 + n = omega arith in ap (λ k. drop k xs) e
  drop-drop (suc m) n [] = drop_empty n ∙ sym (drop_empty (suc m + n))
  drop-drop (suc m) n (x ∷ xs) =
      let e : suc (m + n) ≡ suc m + n = omega arith in
      drop-drop m n xs ∙ ap (λ k. drop k (x ∷ xs)) e

and_true : (a b : Bool) → a && b ≡ true → (a ≡ true) × (b ≡ true)
and_true true b h = (refl, h)
and_true false b h = cc

-- The members that pass a test, in order.
pub filter : {A : Type 0} → (A → Bool) → List A → List A
filter f [] = []
filter f (x ∷ xs) = let rest = filter f xs in if f x then x ∷ rest else rest

same_name : (a b : Text) → text_eq a b ≡ text_eq b a
same_name a b = ground (arith, text_eq_iff a b, text_eq_iff b a)

labels_named-filter :
    (names : List Text) (ls : List Label)
    → labels_named names ls ≡ filter (λ l. any (λ n. text_eq n l.name) names) ls
unfolding labels_named filter
labels_named-filter names [] = refl
labels_named-filter names (l ∷ ls) = elim (Bool-cases (any (λ n. text_eq n l.name) names)) [
  | inl h ↦ rw h (ap (◌∷◌ l) (labels_named-filter names ls))
  | inr h ↦ rw h (labels_named-filter names ls)
]

-- A name that is asked for is found among the labels that were kept if it is a label's at all.
found_kept :
    (name : Text) (names : List Text) (ls : List Label)
    → any (λ n. text_eq n name) names ≡ true
    → any (λ l. text_eq l.name name) (labels_named names ls) ≡ any (λ l. text_eq name l.name) ls
unfolding labels_named
found_kept name names [] asked = refl
found_kept name names (l ∷ ls) asked =
    let rest = found_kept name names ls asked in
    elim (Bool-cases (text_eq name l.name)) [
      | inl same ↦
          let e = (text_eq_iff name l.name).0 same in
          let kept = subst (λ x. any (λ n. text_eq n x) names ≡ true) e asked in
          let same' = same_name l.name name ∙ same in rw (kept, same, same') refl
      | inr apart ↦ elim (Bool-cases (any (λ n. text_eq n l.name) names)) [
        | inl kept ↦ let apart' = same_name l.name name ∙ apart in rw (kept, apart, apart') rest
        | inr gone ↦ rw (gone, apart) rest
      ]
    ]

not_taken :
    (b : Bool) (x : Result (Unit {0})) (e : Error)
    → b ≡ false
    → (f : Error) × ((if b then x else err e) ≡ err f)
not_taken b x e h = (e, rw h refl)

-- For part of the names that are asked for.
check_some :
    (owner repo : Text) (asked names : List Text) (ls : List Label)
    → all (λ n. any (λ m. text_eq m n) asked) names ≡ true
    → ((all (λ n. any (λ l. text_eq n l.name) ls) names ≡ true)
        × (check_found owner repo (labels_named asked ls) names ≡ ok tt))
      ⊎ ((all (λ n. any (λ l. text_eq n l.name) ls) names ≡ false)
          × ((e : Error) × (check_found owner repo (labels_named asked ls) names ≡ err e)))
unfolding check_found
check_some owner repo asked [] ls h = inl (refl, refl)
check_some owner repo asked (n ∷ names) ls h =
    let (one, more) =
      and_true (any (λ m. text_eq m n) asked) (all (λ k. any (λ m. text_eq m k) asked) names) h in
    let kept = found_kept n asked ls one in
    elim (Bool-cases (any (λ l. text_eq n l.name) ls)) [
      | inr absent ↦ inr (rw absent refl, not_taken _ _ _ (kept ∙ absent))
      | inl here ↦ elim (check_some owner repo asked names ls more) [
        | inl (every, e) ↦ inl (rw (here, every) refl, rw (kept, here) e)
        | inr (some_not, (f, e)) ↦ inr (rw (here, some_not) refl, (f, rw (kept, here) e))
      ]
    ]

all_asked_step :
    (x : Text) (asked names : List Text)
    → all (λ n. any (λ m. text_eq m n) asked) names ≡ true
    → all (λ n. any (λ m. text_eq m n) (x ∷ asked)) names ≡ true
all_asked_step x asked [] h = refl
all_asked_step x asked (n ∷ names) h =
    let (one, more) =
      and_true (any (λ m. text_eq m n) asked) (all (λ k. any (λ m. text_eq m k) asked) names) h in
    let rest = all_asked_step x asked names more in
    elim (Bool-cases (text_eq x n)) [ inl same ↦ rw same rest | inr apart ↦ rw (apart, one) rest ]

all_asked : (names : List Text) → all (λ n. any (λ m. text_eq m n) names) names ≡ true
all_asked [] = refl
all_asked (n ∷ names) = rw (text_eq_refl n) (all_asked_step n names names (all_asked names))

check_found-cases :
    (owner repo : Text) (names : List Text) (ls : List Label)
    → ((all (λ n. any (λ l. text_eq n l.name) ls) names ≡ true)
        × (check_found owner repo (labels_named names ls) names ≡ ok tt))
      ⊎ ((all (λ n. any (λ l. text_eq n l.name) ls) names ≡ false)
          × ((e : Error) × (check_found owner repo (labels_named names ls) names ≡ err e)))
check_found-cases owner repo names ls = check_some owner repo names names ls (all_asked names)

module _ {W : Type 0} (sdk : IssueSdk W) (owner repo : Text) (labels : List Label)
    (paged : (k : ℕ) (w : W)
      → sdk.list_repo_labels owner repo (suc k) page_size w
        ≡ (ok (take page_size (drop (k * page_size) labels)), w)) where
  last_page :
      (xs : List Label) (w : W)
      → ltb (length (take page_size xs)) page_size ≡ true
      → return (take page_size xs) w ≡ (ok xs, w)
  unfolding return
  last_page xs w h =
      ap (λ ys. (ok ys, w)) (take_all page_size xs (grind (arith, length-take page_size xs)))

  full_page :
      (k : ℕ)
      → ltb (length (take page_size (drop (k * page_size) labels))) page_size ≡ false
      → suc k * page_size ≤ length labels
  full_page k h = grind (
    arith,
    length-take page_size (drop (k * page_size) labels),
    length-drop (k * page_size) labels,
  )

  rejoined :
      (k : ℕ) (w : W)
      → return (take page_size (drop (k * page_size) labels) ++ drop (suc k * page_size) labels) w
        ≡ (ok (drop (k * page_size) labels), w)
  unfolding return
  rejoined k w =
      let xs = drop (k * page_size) labels in
      let e : k * page_size + page_size ≡ suc k * page_size = omega arith in
      ap (λ ys. (ok ys, w))
        (ap (λ n. take page_size xs ++ drop n labels) (sym e)
          ∙ ap (λ ys. take page_size xs ++ ys) (sym (drop-drop (k * page_size) page_size labels))
          ∙ take-drop page_size xs)

  -- Gitea's pages of a fixed list of labels are read in full, and reading them ends: with fuel
  -- for one page more than are full the loop gives all the labels from its page on.
  pub all_labels_lem :
      (fuel k : ℕ) (w : W)
      → k * page_size ≤ length labels
      → length labels < (k + fuel) * page_size
      → all_labels sdk fuel owner repo (suc k) w ≡ (ok (drop (k * page_size) labels), w)
  unfolding all_labels
  all_labels_lem zero k w low high = absurd (omega arith)
  all_labels_lem (suc fuel) k w low high =
      let xs = drop (k * page_size) labels in
      >>=-returns _ _ w w _ (wrapping_returns _ _ w w _ (paged k w))
      ∙ elim (Bool-cases (ltb (length (take page_size xs)) page_size)) [
        | inl h ↦ rw h (last_page xs w h)
        | inr h ↦ rw h (
            >>=-returns _ _ w w _ (all_labels_lem fuel (suc k) w (full_page k h) (omega arith))
            ∙ rejoined k w)
      ]

  checked_result :
      {B : Type 0} (c : Result (Unit {0})) (b : B) (w : W)
      → (lift c >>= λ _. return b) w
        ≡ (elim c as (λ _. Result B × W) [ ok u ↦ (ok b, w) | err e ↦ (err e, w) ])
  unfolding ◌>>=◌ lift return
  checked_result (ok u) b w = refl
  checked_result (err e) b w = refl

  -- With fuel for one page more than are full, resolving names ends. Where every name is the name of
  -- a label it gives the ids of exactly the labels whose name is asked for, in the repository's
  -- order; otherwise it fails.
  pub resolve_label_ids_lem :
      (fuel : ℕ) (names : List Text) (w : W)
      → length labels < fuel * page_size
      → ((all (λ n. any (λ l. text_eq n l.name) labels) names ≡ true)
          × (resolve_label_ids sdk fuel owner repo names w
              ≡ (ok (map (λ l. l.id) (filter (λ l. any (λ n. text_eq n l.name) names) labels)), w)))
        ⊎ ((all (λ n. any (λ l. text_eq n l.name) labels) names ≡ false)
            × ((e : Error) × (resolve_label_ids sdk fuel owner repo names w ≡ (err e, w))))
  unfolding resolve_label_ids
  resolve_label_ids_lem fuel names w enough =
      let found = labels_named names labels in
      let read =
        >>=-returns _ _ w w labels (all_labels_lem fuel 0 w (omega arith) (omega arith))
        ∙ checked_result (check_found owner repo found names) (map (λ l. l.id) found) w in
      elim (check_found-cases owner repo names labels) [
        | inl (every, e) ↦ inl (
          every,
          read ∙ rw e (ap (λ ls. (ok (map (λ l. l.id) ls), w)) (labels_named-filter names labels)),
        )
        | inr (some_not, (f, e)) ↦ inr (some_not, (f, read ∙ rw e refl))
      ]
