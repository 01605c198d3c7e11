-- ===== src/Common/Actions.antt =====
-- Calls on a world in sequence: the first error ends them.
pub mod Outcomes
use mathlib.Core.Path.{◌≡◌, refl, ap, sym, ◌∙◌}
use entropy_gen.Common.Text.{Text}
use entropy_gen.Common.Fallible.{Error, Result, ok, err, wrap, Action}

infixl 5 ◌>>=◌ ◌>>◌
unfoldable pub ◌>>=◌ : {W A B : Type 0} → Action W A → (A → Action W B) → Action W B
◌>>=◌ m f w = let r = m w in elim r.0 [ ok a ↦ f a r.1 | err e ↦ (err e, r.1) ]

abbrev pub ◌>>◌ : {W B : Type 0} → Action W (Unit {0}) → Action W B → Action W B
m >> k = m >>= λ _. k

unfoldable pub return : {W A : Type 0} → A → Action W A
return a w = (ok a, w)

-- A result that needs no world.
unfoldable pub lift : {W A : Type 0} → Result A → Action W A
lift r w = (r, w)

unfoldable pub fail : {W A : Type 0} → Error → Action W A
fail e w = (err e, w)

-- A call whose error is a value for what follows.
unfoldable pub attempt : {W A : Type 0} → Action W A → Action W (Result A)
attempt m w = let r = m w in (ok r.0, r.1)

-- `if err != nil { return fmt.Errorf("…: %w", err) }`
unfoldable pub wrapping : {W A : Type 0} → Text → Action W A → Action W A
wrapping t m w = let r = m w in elim r.0 [ ok a ↦ (ok a, r.1) | err e ↦ (err (wrap t e), r.1) ]

module _ {W A B : Type 0} where
  bound_ok :
      (r : Result A × W) (f : A → Action W B) {b : B}
      → (elim r.0 as (λ _. Result B × W) [ ok a ↦ f a r.1 | err e ↦ (err e, r.1) ]).0 ≡ ok b
      → (a : A) × (r.0 ≡ ok a)
        × (elim r.0 as (λ _. Result B × W) [ ok a' ↦ f a' r.1 | err e ↦ (err e, r.1) ] ≡ f a r.1)
  bound_ok (ok a, w) f h = (a, refl, refl)
  bound_ok (err e, w) f h = cc

  -- A sequence that succeeds is its second part, run where the first left off.
  pub >>=-ok :
      (m : Action W A) (f : A → Action W B) (w : W) {b : B}
      → ((m >>= f) w).0 ≡ ok b
      → (a : A) × ((m w).0 ≡ ok a) × ((m >>= f) w ≡ f a (m w).1)
  unfolding ◌>>=◌
  >>=-ok m f w h = bound_ok (m w) f h

-- What a call leaves as it was: a view of the world.
abbrev pub Keeps : {W A V : Type 0} → (W → V) → Action W A → Type 0
Keeps {W} view m = (w : W) → view (m w).1 ≡ view w

module _ {W V : Type 0} (view : W → V) where
  kept_bound :
      {A B : Type 0} (r : Result A × W) (f : A → Action W B)
      → ((a : A) → Keeps view (f a))
      → view (elim r.0 as (λ _. Result B × W) [ ok a ↦ f a r.1 | err e ↦ (err e, r.1) ]).1
        ≡ view r.1
  kept_bound (ok a, w) f h = h a w
  kept_bound (err e, w) f h = refl

  pub Keeps->>= :
      {A B : Type 0} (m : Action W A) (f : A → Action W B)
      → Keeps view m
      → ((a : A) → Keeps view (f a))
      → Keeps view (m >>= f)
  unfolding ◌>>=◌
  Keeps->>= m f h k w = kept_bound (m w) f k ∙ h w

  kept_wrapped :
      {A : Type 0} (t : Text) (r : Result A × W)
      → view
          (elim r.0 as (λ _. Result A × W) [ ok a ↦ (ok a, r.1) | err e ↦ (err (wrap t e), r.1) ]).1
        ≡ view r.1
  kept_wrapped t (ok a, w) = refl
  kept_wrapped t (err e, w) = refl

  pub Keeps-wrapping :
      {A : Type 0} (t : Text) (m : Action W A) → Keeps view m → Keeps view (wrapping t m)
  unfolding wrapping
  Keeps-wrapping t m h w = kept_wrapped t (m w) ∙ h w

  pub Keeps-lift : {A : Type 0} (r : Result A) → Keeps view (lift r)
  unfolding lift
  Keeps-lift r w = refl

  pub Keeps-return : {A : Type 0} (a : A) → Keeps view (return a)
  unfolding return
  Keeps-return a w = refl

  pub Keeps-fail : (A : Type 0) (e : Error) → Keeps view (fail {A = A} e)
  unfolding fail
  Keeps-fail A e w = refl

  pub Keeps-attempt : {A : Type 0} (m : Action W A) → Keeps view m → Keeps view (attempt m)
  unfolding attempt
  Keeps-attempt m h w = h w

  -- What follows a check is only run if the check accepts.
  pub Keeps-checked :
      {A : Type 0} (r : Result (Unit {0})) (m : Action W A)
      → (r ≡ ok tt → Keeps view m)
      → Keeps view (lift r >> m)
  unfolding ◌>>=◌ lift
  Keeps-checked (ok u) m h w = h refl w
  Keeps-checked (err e) m h w = refl

module _ {W A : Type 0} where
  wrapped_ok :
      (t : Text) (r : Result A × W) {a : A}
      → (elim r.0 as (λ _. Result A × W) [ ok b ↦ (ok b, r.1) | err e ↦ (err (wrap t e), r.1) ]).0
        ≡ ok a
      → (r.0 ≡ ok a)
        × ((elim r.0 as (λ _. Result A × W) [
          | ok b ↦ (ok b, r.1)
          | err e ↦ (err (wrap t e), r.1)
        ]).1
            ≡ r.1)
  wrapped_ok t (ok b, w) h = (h, refl)
  wrapped_ok t (err e, w) h = cc

  pub wrapping_ok :
      (t : Text) (m : Action W A) (w : W) {a : A}
      → (wrapping t m w).0 ≡ ok a
      → ((m w).0 ≡ ok a) × ((wrapping t m w).1 ≡ (m w).1)
  unfolding wrapping
  wrapping_ok t m w h = wrapped_ok t (m w) h
