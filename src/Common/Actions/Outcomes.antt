-- ===== src/Common/Actions/Outcomes.antt =====
-- What calls on a world lead to: after a success, in its result, and after a failure.
use mathlib.Core.Path.{◌≡◌, refl, ap, sym, ◌∙◌}
use entropy_gen.Common.Text.{Text}
use entropy_gen.Common.Fallible.{Error, Result, ok, err, wrap, Action}
use entropy_gen.Common.Actions.{◌>>=◌, return, attempt, wrapping, Keeps, >>=-ok}

-- Where a call that succeeds on a world with P leads: to a world with Q.
abbrev pub Leads : {W A : Type 0} → (W → Type 0) → Action W A → (W → Type 0) → Type 0
Leads {W} {A} P m Q = (w : W) → P w → (a : A) → (m w).0 ≡ ok a → Q (m w).1

module _ {W : Type 0} where
  bound_leads :
      {A B : Type 0} (Q R : W → Type 0) (r : Result A × W) (f : A → Action W B)
      → ((a : A) → r.0 ≡ ok a → Q r.1)
      → ((a : A) → Leads Q (f a) R)
      → (b : B)
      → (elim r.0 as (λ _. Result B × W) [ ok a ↦ f a r.1 | err e ↦ (err e, r.1) ]).0 ≡ ok b
      → R (elim r.0 as (λ _. Result B × W) [ ok a ↦ f a r.1 | err e ↦ (err e, r.1) ]).1
  bound_leads Q R (ok a, w) f h k b done = k a w (h a refl) b done
  bound_leads Q R (err e, w) f h k b done = cc

  pub Leads->>= :
      {A B : Type 0} (P Q R : W → Type 0) (m : Action W A) (f : A → Action W B)
      → Leads P m Q
      → ((a : A) → Leads Q (f a) R)
      → Leads P (m >>= f) R
  unfolding ◌>>=◌
  Leads->>= P Q R m f h k w p b done = bound_leads Q R (m w) f (h w p) k b done

  wrapped_leads :
      {A : Type 0} (Q : W → Type 0) (t : Text) (r : Result A × W)
      → ((a : A) → r.0 ≡ ok a → Q r.1)
      → (b : A)
      → (elim r.0 as (λ _. Result A × W) [ ok a ↦ (ok a, r.1) | err e ↦ (err (wrap t e), r.1) ]).0
        ≡ ok b
      → Q (elim r.0 as (λ _. Result A × W) [ ok a ↦ (ok a, r.1) | err e ↦ (err (wrap t e), r.1) ]).1
  wrapped_leads Q t (ok a, w) h b done = h b done
  wrapped_leads Q t (err e, w) h b done = cc

  pub Leads-wrapping :
      {A : Type 0} (P Q : W → Type 0) (t : Text) (m : Action W A)
      → Leads P m Q
      → Leads P (wrapping t m) Q
  unfolding wrapping
  Leads-wrapping P Q t m h w p b done = wrapped_leads Q t (m w) (h w p) b done

  -- What a view shows is still shown after a call that keeps the view.
  pub Leads-Keeps :
      {A V : Type 0} (view : W → V) (v : V) (m : Action W A)
      → Keeps view m
      → Leads (λ w. view w ≡ v) m (λ w. view w ≡ v)
  Leads-Keeps view v m h w p a done = h w ∙ p

-- What is known of the result of a call that succeeds on a world with P.
abbrev pub Gives : {W A : Type 0} → (W → Type 0) → Action W A → (A → Type 0) → Type 0
Gives {W} {A} P m Q = (w : W) → P w → (a : A) → (m w).0 ≡ ok a → Q a

module _ {W A B : Type 0} where
  pub Gives->>= :
      (P P' : W → Type 0) (Q : B → Type 0) (m : Action W A) (f : A → Action W B)
      → Leads P m P'
      → ((a : A) → Gives P' (f a) Q)
      → Gives P (m >>= f) Q
  Gives->>= P P' Q m f h k w p b done =
      let (a, first, rest) = >>=-ok m f w done in
      k a (m w).1 (h w p a first) b (ap (λ x. x.0) (sym rest) ∙ done)

  pub Gives->>=-first :
      (P : W → Type 0) (Q : A → Type 0) (R : B → Type 0) (m : Action W A) (f : A → Action W B)
      → Gives P m Q
      → ((a : A) → Q a → Gives (λ w. Unit {0}) (f a) R)
      → Gives P (m >>= f) R
  Gives->>=-first P Q R m f h k w p b done =
      let (a, first, rest) = >>=-ok m f w done in
      k a (h w p a first) (m w).1 tt b (ap (λ x. x.0) (sym rest) ∙ done)

-- What a call that fails leaves behind, from any world.
abbrev pub Fails : {W A : Type 0} → Action W A → (W → Type 0) → Type 0
Fails {W} m Q = (w : W) (e : Error) → (m w).0 ≡ err e → Q (m w).1

module _ {W : Type 0} (Q : W → Type 0) where
  bound_fails :
      {A B : Type 0} (r : Result A × W) (f : A → Action W B)
      → ((e : Error) → r.0 ≡ err e → Q r.1)
      → ((a : A) → Fails (f a) Q)
      → (x : Error)
      → (elim r.0 as (λ _. Result B × W) [ ok a ↦ f a r.1 | err e ↦ (err e, r.1) ]).0 ≡ err x
      → Q (elim r.0 as (λ _. Result B × W) [ ok a ↦ f a r.1 | err e ↦ (err e, r.1) ]).1
  bound_fails (ok a, w) f h k x failed = k a w x failed
  bound_fails (err e, w) f h k x failed = h e refl

  pub Fails->>= :
      {A B : Type 0} (m : Action W A) (f : A → Action W B)
      → Fails m Q
      → ((a : A) → Fails (f a) Q)
      → Fails (m >>= f) Q
  unfolding ◌>>=◌
  Fails->>= m f h k w e failed = bound_fails (m w) f (h w) k e failed

  pub Fails-return : {A : Type 0} (a : A) → Fails (return a) Q
  unfolding return
  Fails-return a w e failed = cc

  pub Fails-attempt : {A : Type 0} (m : Action W A) → Fails (attempt m) Q
  unfolding attempt
  Fails-attempt m w e failed = cc

module _ {W A : Type 0} where
  pub >>=-returns :
      {B : Type 0} (m : Action W A) (f : A → Action W B) (w v : W) (a : A)
      → m w ≡ (ok a, v)
      → (m >>= f) w ≡ f a v
  unfolding ◌>>=◌
  >>=-returns {B = B} m f w v a h =
      ap (λ r. elim r.0 as (λ _. Result B × W) [ ok b ↦ f b r.1 | err e ↦ (err e, r.1) ]) h

  pub wrapping_returns :
      (t : Text) (m : Action W A) (w v : W) (a : A) → m w ≡ (ok a, v) → wrapping t m w ≡ (ok a, v)
  unfolding wrapping
  wrapping_returns t m w v a h =
      ap
        (λ r. elim r.0 as (λ _. Result A × W) [
          | ok b ↦ (ok b, r.1)
          | err e ↦ (err (wrap t e), r.1)
        ])
        h
