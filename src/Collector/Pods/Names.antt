-- ===== src/Collector/Pods/Names.antt =====
-- A pod's name leads back to the agent's Deployment.
use entropy_gen.Common.{
  ℕ, ◌-◌, ◌≤◌, ◌≡◌, ◌≢◌, refl, inl, inr, take-append, take_all, sym, ap, ◌∙◌, Bool, true, false,
  ◌&&◌, List, [], ◌∷◌, ◌++◌, arith, leb, length, take, length-append, if◌then◌else◌, ◌==◌, ==_iff,
  Bool-cases, All,
}
use mathlib.Core.Path.{ap₂}
use mathlib.Core.List.{append_assoc, append-nil}
use entropy_gen.Common.Text.{Text, text, split, join, push_head, text_eq_refl}
use entropy_gen.Collector.Pods.{agent_id_from_pod_name, first_is}

-- A text without the separator, and a list of such texts.
abbrev pub IsPlain : ℕ → Text → Type 0
IsPlain sep s = All (λ c. (c == sep) ≡ false) s

split_some : (sep : ℕ) (s : Text) → split sep s ≢ []
unfolding split
split_some sep [] e = cc
split_some sep (c ∷ s) e = go (c == sep) (split sep s) e
  where
    go : (b : Bool) (fs : List Text) → (if b then [] ∷ fs else push_head c fs) ≢ []
    go true fs h = cc
    go false [] h = cc
    go false (f ∷ fs) h = cc

join-push_head :
    (sep : Text) (c : ℕ) (fs : List Text) → fs ≢ [] → join sep (push_head c fs) ≡ c ∷ join sep fs
unfolding join
join-push_head sep c [] h = absurd (h refl)
join-push_head sep c (f ∷ []) h = refl
join-push_head sep c (f ∷ g ∷ fs) h = refl

join_empty : (sep : Text) (fs : List Text) → fs ≢ [] → join sep ([] ∷ fs) ≡ sep ++ join sep fs
unfolding join
join_empty sep [] h = absurd (h refl)
join_empty sep (f ∷ fs) h = refl

-- Splitting and joining again gives the text.
pub join-split : (sep : ℕ) (s : Text) → join (sep ∷ []) (split sep s) ≡ s
unfolding split
join-split sep [] = unfold join in refl
join-split sep (c ∷ s) = elim (Bool-cases (c == sep)) [
  | inl e ↦ rw e (
      join_empty (sep ∷ []) (split sep s) (split_some sep s)
      ∙ ap₂ ◌∷◌ (sym ((==_iff c sep).0 e)) (join-split sep s))
  | inr e ↦
      rw e (
        join-push_head (sep ∷ []) c (split sep s) (split_some sep s)
        ∙ ap (◌∷◌ c) (join-split sep s))
]

split-plain : (sep : ℕ) (s : Text) → IsPlain sep s → split sep s ≡ s ∷ []
unfolding split
split-plain sep [] h = refl
split-plain sep (c ∷ s) h = rw (h.0, split-plain sep s h.1)

push_head-append :
    (c : ℕ) (fs gs : List Text) → fs ≢ [] → push_head c (fs ++ gs) ≡ push_head c fs ++ gs
push_head-append c [] gs h = absurd (h refl)
push_head-append c (f ∷ fs) gs h = refl

-- A separator and a text without one make one more field.
split-append :
    (sep : ℕ) (s t : Text) → IsPlain sep t → split sep (s ++ (sep ∷ t)) ≡ split sep s ++ (t ∷ [])
unfolding split
split-append sep [] t h =
    let same : (sep == sep) ≡ true = (==_iff sep sep).1 refl in rw (same, split-plain sep t h) refl
split-append sep (c ∷ s) t h = elim (Bool-cases (c == sep)) [
  | inl e ↦ rw e (ap (◌∷◌ []) (split-append sep s t h))
  | inr e ↦ rw e (
      ap (push_head c) (split-append sep s t h)
      ∙ push_head-append c (split sep s) (t ∷ []) (split_some sep s))
]

take_front :
    (xs : List Text) (y z : Text) → take (length (xs ++ (y ∷ z ∷ [])) - 2) (xs ++ (y ∷ z ∷ [])) ≡ xs
take_front xs y z =
    let rest : List Text = y ∷ z ∷ [] in
    let fewer : length (xs ++ rest) - 2 ≡ length xs = omega (arith, length-append xs rest) in
    let zero_left : length xs - length xs ≡ 0 = omega arith in
    rw (fewer, take-append (length xs) xs rest, zero_left)
      (ap (λ ys. ys ++ []) (take_all (length xs) xs (omega arith)) ∙ append-nil xs)

nonempty_lem : (fs : List Text) → fs ≢ [] → 1 ≤ length fs
nonempty_lem [] h = absurd (h refl)
nonempty_lem (f ∷ fs) h = omega arith

-- The parts of a Deployment's name.
split-agent : (name : Text) → split b'-' (text "agent-" ++ name) ≡ text "agent" ∷ split b'-' name
unfolding split text
split-agent name = refl

dash : text "-" ≡ b'-' ∷ []
unfolding text
dash = refl

from_fields :
    (whole name replica_set pod : Text) (fields : List Text)
    → fields ≡ (text "agent" ∷ split b'-' name) ++ (replica_set ∷ pod ∷ [])
    → (if leb 4 (length fields) && first_is (text "agent") fields
        then join (text "-") (take (length fields - 2) fields)
        else whole)
      ≡ join (text "-") (text "agent" ∷ split b'-' name)
from_fields whole name replica_set pod fields e =
    let parts = text "agent" ∷ split b'-' name in
    let long : leb 4 (length (parts ++ (replica_set ∷ pod ∷ []))) ≡ true = ground (
      arith,
      length-append parts (replica_set ∷ pod ∷ []),
      nonempty_lem (split b'-' name) (split_some b'-' name),
    ) in
    rw (e, long, text_eq_refl (text "agent"))
      (ap (join (text "-")) (take_front parts replica_set pod))

-- The name of a pod of the Deployment "agent-<name>", with the suffixes that Kubernetes adds for the
-- ReplicaSet and the pod, which have no dash: the collector finds "agent-<name>" again, also where the
-- agent's own name has dashes.
pub agent_id_from_pod_name-found :
    (name replica_set pod : Text)
    → IsPlain b'-' replica_set
    → IsPlain b'-' pod
    → agent_id_from_pod_name ((((text "agent-" ++ name) ++ (b'-' ∷ replica_set)) ++ (b'-' ∷ pod)))
      ≡ text "agent-" ++ name
unfolding agent_id_from_pod_name
agent_id_from_pod_name-found name replica_set pod h k =
    let deployment = text "agent-" ++ name in
    let fields : split b'-' ((deployment ++ (b'-' ∷ replica_set)) ++ (b'-' ∷ pod))
        ≡ split b'-' deployment ++ (replica_set ∷ pod ∷ []) =
      split-append b'-' (deployment ++ (b'-' ∷ replica_set)) pod k
      ∙ ap (λ fs. fs ++ (pod ∷ [])) (split-append b'-' deployment replica_set h)
      ∙ append_assoc (split b'-' deployment) (replica_set ∷ []) (pod ∷ []) in
    from_fields _ name replica_set pod _
      (fields ∙ ap (λ fs. fs ++ (replica_set ∷ pod ∷ [])) (split-agent name))
    ∙ ap (join (text "-")) (sym (split-agent name))
    ∙ ap (λ t. join t (split b'-' deployment)) dash
    ∙ join-split b'-' deployment
