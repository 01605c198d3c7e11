-- ===== src/Common/Paths/Containment.antt =====
-- A relative path that does not go up stays below what it is joined to.
use mathlib.Core.Path.{◌≡◌, refl, ap, sym, ◌∙◌}
use mathlib.Core.Logic.{inl, inr}
use mathlib.Core.Bool.{Bool, true, false}
use mathlib.Core.List.{List, [], ◌∷◌, ◌++◌, append_assoc}
use native.Mathlib.Omega.{arith}
use entropy_gen.Common.Tests.{Bool-cases}
use entropy_gen.Common.Text.{Text, text_eq_refl, split}
use entropy_gen.Common.Paths.{
  FilePath, dot_dot, go_up, enter, enter_all, is_abs, clean, join_path, goes_up,
}

-- What goes up once goes up for good.
goes_up-enter : (c : Text) (st : List Text) → goes_up st ≡ true → goes_up (enter false c st) ≡ true
unfolding enter go_up
goes_up-enter c [] h = cc
goes_up-enter c (d ∷ st) h = ground (arith, text_eq_refl dot_dot)

goes_up-enter_all : (cs st : List Text) → goes_up st ≡ true → goes_up (enter_all false cs st) ≡ true
unfolding enter_all
goes_up-enter_all [] st h = h
goes_up-enter_all (c ∷ cs) st h = goes_up-enter_all cs (enter false c st) (goes_up-enter c st h)

enter-onto :
    (rooted : Bool) (c : Text) (st base : List Text)
    → goes_up (enter false c st) ≡ false
    → enter rooted c (st ++ base) ≡ enter false c st ++ base
unfolding enter go_up
enter-onto rooted c [] base h = ground (arith, text_eq_refl dot_dot)
enter-onto rooted c (d ∷ st) base h = ground arith

-- Components that do not go up by themselves only add to what is there.
pub enter_all-onto :
    (rooted : Bool) (cs st base : List Text)
    → goes_up (enter_all false cs st) ≡ false
    → enter_all rooted cs (st ++ base) ≡ enter_all false cs st ++ base
unfolding enter_all
enter_all-onto rooted [] st base h = refl
enter_all-onto rooted (c ∷ cs) st base h = elim (Bool-cases (goes_up (enter false c st))) [
  | inl up ↦ let e = goes_up-enter_all cs (enter false c st) up in cc
  | inr level ↦
      ap (enter_all rooted cs) (enter-onto rooted c st base level)
      ∙ enter_all-onto rooted cs (enter false c st) base h
]

-- `q` is `p` or lies below it.
abbrev pub Within : FilePath → FilePath → Type 0
Within p q = (q.rooted ≡ p.rooted) × ((rest : List Text) × (q.stack ≡ rest ++ p.stack))

pub Within-refl : (p : FilePath) → Within p p
Within-refl p = (refl, ([], refl))

pub Within-trans : (p q r : FilePath) → Within p q → Within q r → Within p r
Within-trans p q r (e, (xs, f)) (g, (ys, h)) =
    (g ∙ e, (ys ++ xs, h ∙ ap (λ st. ys ++ st) f ∙ sym (append_assoc ys xs p.stack)))

-- Joined to any path, a relative path that does not go up only adds its own components.
pub join_path-clean :
    (p : FilePath) (t : Text)
    → (clean t).rooted ≡ false
    → goes_up (clean t).stack ≡ false
    → join_path p t ≡ record p { stack = (clean t).stack ++ p.stack }
unfolding join_path clean
join_path-clean p t relative level =
    let same : enter_all (is_abs t) (split b'/' t) [] ≡ enter_all false (split b'/' t) [] =
      ap (λ b. enter_all b (split b'/' t) []) relative in
    ap (λ st. record p { stack = st })
      (enter_all-onto p.rooted (split b'/' t) [] p.stack (sym (ap goes_up same) ∙ level)
        ∙ ap (λ st. st ++ p.stack) (sym same))
