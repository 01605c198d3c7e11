-- ===== src/Operator/Reconciler/Creation.antt =====
-- What steps leave alone, and what the success of a sequence says of its parts.
use entropy_gen.Common.{◌≡◌, ◌≢◌, refl, sym, ap, ◌∙◌, ◌⊎◌, inl, inr}
use entropy_gen.Common.Fallible.{Error, Result, ok, err}
use entropy_gen.Operator.Objects.{Kind, Key, Object, KubeClient, WriteLaws}
use entropy_gen.Operator.Reconciler.{
  Run, Step, ◌>>=◌, ◌>>◌, return, call, Fetched, classify, found, missing, failed,
}
use entropy_gen.Operator.Reconciler.Storage.{create_once, unless_found, void}

module _ {W A B : Type 0} where
  bind_ok :
      (r : Result A × Run W) (f : A → Step W B) {b : B}
      → (◌>>=◌ (λ (_ : Run W). r) f r.1).0 ≡ ok b
      → (a : A) × (r.0 ≡ ok a) × (◌>>=◌ (λ (_ : Run W). r) f r.1 ≡ f a r.1)
  bind_ok (ok a, t) f h = (a, refl, refl)
  bind_ok (err e, t) f h = cc

  -- A bind that succeeds is its second part, run where the first left off.
  pub >>=-ok :
      (m : Step W A) (f : A → Step W B) (s : Run W) {b : B}
      → ((m >>= f) s).0 ≡ ok b
      → (a : A) × ((m s).0 ≡ ok a) × ((m >>= f) s ≡ f a (m s).1)
  >>=-ok m f s h = bind_ok (m s) f h

-- Where a failed Get stays an error, success means that the object was found, or that it was missing
-- and was made.
pub unless_found_ok :
    {W A : Type 0} (blame : Step W (Unit {0}) → Step W (Unit {0}))
    → ((e : Error) (t : Run W) → (blame (λ u. (err e, u)) t).0 ≢ ok tt)
    → (make : Step W (Unit {0})) (f : Fetched A) (s : Run W)
    → (unless_found blame make f s).0 ≡ ok tt
    → (unless_found blame make f s ≡ (ok tt, s)) ⊎ (unless_found blame make f s ≡ make s)
unfolding unless_found
unless_found_ok blame fails make (found o) s done = inl refl
unless_found_ok blame fails make missing s done = inr refl
unless_found_ok blame fails make (failed e) s done = absurd (fails e s done)

-- What a step leaves as it was: one object of the server, the agent and the role data.
abbrev pub Kept :
    {W : Type 0} {c : KubeClient W} → WriteLaws c → Kind → Key → Run W → Run W → Type 0
Kept laws j key s t =
    (laws.stored t.world j key ≡ laws.stored s.world j key)
    × (t.agent ≡ s.agent)
    × (t.role_data ≡ s.role_data)

pub Kept-trans :
    {W : Type 0} {c : KubeClient W} (laws : WriteLaws c) (j : Kind) (key : Key) (s t u : Run W)
    → Kept laws j key s t
    → Kept laws j key t u
    → Kept laws j key s u
Kept-trans laws j key s t u a b = (b.0 ∙ a.0, b.1 ∙ a.1, b.2 ∙ a.2)

-- The steps whose success leaves the object alone.
abbrev pub Keeps :
    {W : Type 0} {c : KubeClient W} → WriteLaws c → Kind → Key → Step W (Unit {0}) → Type 0
Keeps {W} laws j key m = (s : Run W) → (m s).0 ≡ ok tt → Kept laws j key s (m s).1

module _ {W : Type 0} {kube : KubeClient W} (laws : WriteLaws kube) where
  pub Keeps->> :
      (j : Kind) (key : Key) (m f : Step W (Unit {0}))
      → Keeps laws j key m
      → Keeps laws j key f
      → Keeps laws j key (m >> f)
  Keeps->> j key m f hm hf s done =
      let (a, e, q) = >>=-ok m (λ _. f) s done in
      rw q (
        Kept-trans laws j key s (m s).1 (f (m s).1).1 (hm s e)
          (hf (m s).1 (ap (λ r. r.0) (sym q) ∙ done)))

  pub get-Kept :
      (k : Kind) (key : Key) (j : Kind) (key' : Key) (s : Run W)
      → Kept laws j key' s (record s { world = (kube.get k key s.world).1 })
  get-Kept k key j key' s = (ap (λ h. h j key') (laws.get_keeps k key s.world), refl, refl)

  pub create-Keeps :
      (k : Kind) (j : Kind) (key' : Key) (o : Object k)
      → k ≢ j
      → Keeps laws j key' (void (call (kube.create k o)))
  create-Keeps k j key' o ne s done =
      let (o', e, q) = >>=-ok (call (kube.create k o)) (λ _. return tt) s done in
      rw q (laws.create_kind k j o o' s.world key' e ne, refl, refl)

  -- Creating an object that is built without a call leaves the objects of the other kinds alone.
  pub create_once-Keeps :
      (k : Kind) (key : Key) (j : Kind) (key' : Key) (o : Object k)
      → k ≢ j
      → Keeps laws j key' (create_once kube k (λ m. m) key (return o))
  unfolding create_once
  create_once-Keeps k key j key' o ne s done =
      let make : Step W (Unit {0}) = void (call (kube.create k o)) in
      let t : Run W = record s { world = (kube.get k key s.world).1 } in
      elim (unless_found_ok (λ m. m) (λ e u h. cc) make (classify (kube.get k key s.world).0) t
        done) [
          | inl same ↦ rw same (get-Kept k key j key' s)
          | inr made ↦ rw made (
              Kept-trans laws j key' s t (make t).1 (get-Kept k key j key' s)
                (create-Keeps k j key' o ne t (rw made at done)))
        ]
