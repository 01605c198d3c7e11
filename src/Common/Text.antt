-- ===== src/Common/Text.antt =====
-- Go strings as lists of bytes, and the functions of package strings that the source calls.
use Prim.Native.Char.{code}
use Prim.Native.String.{String}
use Prim.Native.Nat.{ℕ}
use mathlib.Core.Path.{◌≡◌, refl}
use mathlib.Core.Logic.{◌↔◌, ◌≢◌}
use mathlib.Core.Bool.{Bool, true, false, ◌&&◌, ◌||◌}
use mathlib.Core.List.{List, [], ◌∷◌, ◌++◌}
use native.Mathlib.Omega.{arith}
use entropy_gen.Common.Tests.{◌==◌, ==_iff, if◌then◌else◌}

abbrev pub Text : Type 0
Text = List ℕ

-- A literal, which is ASCII wherever it is used. It is shut, so that a goal shows it as it is written.
unfoldable pub text : String → Text
text String.[] = []
text (String.◌∷◌ c s) = code c ∷ text s

unfoldable pub text_eq : Text → Text → Bool
text_eq [] [] = true
text_eq [] (y ∷ ys) = false
text_eq (x ∷ xs) [] = false
text_eq (x ∷ xs) (y ∷ ys) = x == y && text_eq xs ys

pub text_eq_iff : (s t : Text) → (text_eq s t ≡ true) ↔ (s ≡ t)
unfolding text_eq
text_eq_iff [] [] = (λ _. refl, λ _. refl)
text_eq_iff [] (y ∷ ys) = (λ e. cc, λ e. cc)
text_eq_iff (x ∷ xs) [] = (λ e. cc, λ e. cc)
text_eq_iff (x ∷ xs) (y ∷ ys) = ground (arith, text_eq_iff xs ys, ==_iff x y)

pub text_eq_refl : (s : Text) → text_eq s s ≡ true
text_eq_refl s = (text_eq_iff s s).1 refl

-- Two literals differ if their comparison computes to `false`.
pub text_eq-ne : {s t : Text} → text_eq s t ≡ false → s ≢ t
text_eq-ne {s} {t} h e = cc ((text_eq_iff s t).1 e)

abbrev pub is_empty : Text → Bool
is_empty [] = true
is_empty (c ∷ s) = false

-- strings.HasPrefix s prefix
unfoldable pub has_prefix : Text → Text → Bool
has_prefix s [] = true
has_prefix [] (p ∷ ps) = false
has_prefix (c ∷ s) (p ∷ ps) = c == p && has_prefix s ps

-- The text behind a prefix that it has.
unfoldable pub after_prefix : Text → Text → Text
after_prefix s [] = s
after_prefix [] (p ∷ ps) = []
after_prefix (c ∷ s) (p ∷ ps) = after_prefix s ps

-- strings.TrimPrefix s prefix
unfoldable pub trim_prefix : Text → Text → Text
unfolding has_prefix after_prefix
trim_prefix s p = if has_prefix s p then after_prefix s p else s

pub has_prefix-append : (p s : Text) → has_prefix (p ++ s) p ≡ true
unfolding has_prefix
has_prefix-append [] [] = refl
has_prefix-append [] (c ∷ s) = refl
has_prefix-append (p ∷ ps) s = ground (arith, has_prefix-append ps s)

pub after_prefix-append : (p s : Text) → after_prefix (p ++ s) p ≡ s
unfolding after_prefix
after_prefix-append [] [] = refl
after_prefix-append [] (c ∷ s) = refl
after_prefix-append (p ∷ ps) s = after_prefix-append ps s

pub has_prefix_split : (s p : Text) → has_prefix s p ≡ true → s ≡ p ++ after_prefix s p
unfolding has_prefix after_prefix
has_prefix_split [] [] h = refl
has_prefix_split (c ∷ s) [] h = refl
has_prefix_split [] (p ∷ ps) h = cc
has_prefix_split (c ∷ s) (p ∷ ps) h = ground (arith, has_prefix_split s ps)

pub trim_prefix-append : (p s : Text) → trim_prefix (p ++ s) p ≡ s
unfolding trim_prefix
trim_prefix-append p s = rw (has_prefix-append p s) (after_prefix-append p s)

-- strings.Contains s sub
unfoldable pub contains : Text → Text → Bool
unfolding has_prefix
contains [] sub = has_prefix [] sub
contains (c ∷ s) sub = has_prefix (c ∷ s) sub || contains s sub

-- The first field gets one more character in front.
abbrev pub push_head : ℕ → List Text → List Text
push_head c [] = (c ∷ []) ∷ []
push_head c (f ∷ fs) = (c ∷ f) ∷ fs

-- strings.Split s sep, for a separator of one character: never empty.
unfoldable pub split : ℕ → Text → List Text
split sep [] = [] ∷ []
split sep (c ∷ s) = let rest = split sep s in if c == sep then [] ∷ rest else push_head c rest

-- strings.Join fields sep
unfoldable pub join : Text → List Text → Text
join sep [] = []
join sep (f ∷ []) = f
join sep (f ∷ g ∷ fs) = f ++ (sep ++ join sep (g ∷ fs))
