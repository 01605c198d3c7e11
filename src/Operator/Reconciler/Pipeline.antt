-- ===== src/Operator/Reconciler/Pipeline.antt =====
-- The loop of ReconcileAll over its steps.
use mathlib.Core.Path.{fun_ext, subst}
use entropy_gen.Common.{◌≡◌, refl, sym, ap, ◌∙◌, List, [], ◌∷◌, ◌++◌, All}
use entropy_gen.Common.Text.{Text, text}
use entropy_gen.Common.Fallible.{Error, Result, ok, err, wrap}
use entropy_gen.Operator.Types.{Agent}
use entropy_gen.Operator.Objects.{config_map, Key, KubeClient, WriteLaws}
use entropy_gen.Operator.Reconciler.{Run, Step, ◌>>=◌, ◌>>◌, wrapping}
use entropy_gen.Operator.Reconciler.Creation.{Kept, Kept-trans, >>=-ok}
use entropy_gen.Operator.Reconciler.All.{run_steps}

wrapping_ok :
    {W A : Type 0} (t : Text) (m : Step W A) (s : Run W) {a : A}
    → (wrapping t m s).0 ≡ ok a
    → ((m s).0 ≡ ok a) × (wrapping t m s ≡ m s)
wrapping_ok {W} {A} t m s h = invert (m s) h
  where
    invert :
        (r : Result A × Run W) {a : A}
        → (wrapping t (λ (_ : Run W). r) s).0 ≡ ok a
        → (r.0 ≡ ok a) × (wrapping t (λ (_ : Run W). r) s ≡ r)
    invert (ok b, u) f = (f, refl)
    invert (err e, u) f = cc

module _ {W A B : Type 0} where
  assoc_from :
      (r : Result A × Run W) (f : Step W B) (g : Step W (Unit {0}))
      → ((◌>>=◌ (λ (_ : Run W). r) (λ _. f)) >>= (λ _. g)) r.1
        ≡ (◌>>=◌ (λ (_ : Run W). r) (λ _. f >>= λ _. g)) r.1
  assoc_from (ok a, t) f g = refl
  assoc_from (err e, t) f g = refl

>>=-step :
    {W A B : Type 0} (m : Step W A) (f : A → Step W B) (s : Run W) {r : Result A × Run W}
    → m s ≡ r
    → (m >>= f) s ≡ ◌>>=◌ (λ (_ : Run W). r) f s
>>=-step m f s e = ap (λ r. ◌>>=◌ (λ _. r) f s) e

module _ {W : Type 0} where
  >>-assoc : (m f g : Step W (Unit {0})) (s : Run W) → ((m >> f) >> g) s ≡ (m >> (f >> g)) s
  >>-assoc m f g s = assoc_from (m s) f g

  -- A run of a step and the rest that succeeds is the step's success and then the rest.
  pub run_cons_ok :
      (name : Text) (m : Step W (Unit {0})) (rest : List (Text × Step W (Unit {0}))) (s : Run W)
      → (run_steps ((name, m) ∷ rest) s).0 ≡ ok tt
      → ((m s).0 ≡ ok tt) × (run_steps ((name, m) ∷ rest) s ≡ run_steps rest (m s).1)
  unfolding run_steps
  run_cons_ok name m rest s done =
      let (a, e, q) = >>=-ok (wrapping (text "step " ++ name) m) (λ _. run_steps rest) s done in
      let (f, same) = wrapping_ok (text "step " ++ name) m s e in
      (f, q ∙ ap (λ r. run_steps rest r.1) same)

  -- The steps of two lists are the steps of the first and then, if none failed, of the second.
  pub run_steps-append :
      (xs ys : List (Text × Step W (Unit {0}))) (s : Run W)
      → run_steps (xs ++ ys) s ≡ (run_steps xs >> run_steps ys) s
  unfolding run_steps
  run_steps-append [] ys s = refl
  run_steps-append ((name, m) ∷ xs) ys s =
      ap (λ k. ((wrapping (text "step " ++ name) m) >> k) s) (fun_ext (run_steps-append xs ys))
      ∙ sym (>>-assoc (wrapping (text "step " ++ name) m) (run_steps xs) (run_steps ys) s)

  -- The first step that fails, behind steps that succeeded, ends the run: the error carries the
  -- step's name, and the state is the one that the step left.
  pub run_steps_first_error :
      (xs ys : List (Text × Step W (Unit {0}))) (name : Text) (m : Step W (Unit {0}))
      (s t u : Run W) (e : Error)
      → run_steps xs s ≡ (ok tt, t)
      → m t ≡ (err e, u)
      → run_steps (xs ++ ((name, m) ∷ ys)) s ≡ (err (wrap (text "step " ++ name) e), u)
  run_steps_first_error xs ys name m s t u e before fails =
      run_steps-append xs ((name, m) ∷ ys) s
      ∙ >>=-step (run_steps xs) (λ _. run_steps ((name, m) ∷ ys)) s before
      ∙ unfold run_steps in
        ap (λ r. ◌>>=◌ (wrapping (text "step " ++ name) (λ (_ : Run W). r)) (λ _. run_steps ys) t)
          fails

  -- Steps that each leave an object alone leave it alone together.
  abbrev pub KeptAt :
      {kube : KubeClient W} → WriteLaws kube → (Run W → Key) → Step W (Unit {0}) → Type 0
  KeptAt laws key m = (s : Run W) → (m s).0 ≡ ok tt → Kept laws config_map (key s) s (m s).1

module _ {W : Type 0} {kube : KubeClient W} (laws : WriteLaws kube) (key : Agent → Key) where
  abbrev object_key : Run W → Key
  object_key s = key s.agent

  pub run_steps-Kept :
      (xs : List (Text × Step W (Unit {0})))
      → All (λ x. KeptAt laws object_key x.1) xs
      → KeptAt laws object_key (run_steps xs)
  run_steps-Kept [] h s done = unfold run_steps in (refl, refl, refl)
  run_steps-Kept ((n, m) ∷ xs) h s done =
      let (e, q) = run_cons_ok n m xs s done in
      let first = h.0 s e in
      let rest = run_steps-Kept xs h.1 (m s).1 (ap (λ r. r.0) (sym q) ∙ done) in
      rw q (
        Kept-trans laws config_map (object_key s) s (m s).1 (run_steps xs (m s).1).1 first (
          subst
              (λ (a : Agent).
                laws.stored (run_steps xs (m s).1).1.world config_map (key a)
                ≡ laws.stored (m s).1.world config_map (key a))
              first.1 rest.0,
          rest.1,
          rest.2,
        ))
