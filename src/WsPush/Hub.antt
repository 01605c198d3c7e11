-- ===== src/WsPush/Hub.antt =====
-- The hub of internal/backend/wspush under any sequence of its operations.
use entropy_gen.Common.{
  ℕ, ◌≤◌, ◌≡◌, refl, sym, ap, ◌∙◌, inl, inr, Bool, true, false, ◌||◌, Bool-cases, List, [], ◌∷◌,
  ◌++◌, arith, if◌then◌else◌, ◌==◌, ==_iff, length, length-append, drop, All,
}
use mathlib.Core.Path.{subst}
use entropy_gen.Common.Text.{Text}
use entropy_gen.WsPush.{
  Client, Pusher, send_capacity, register, unregister, is_registered, without, offer, offer_all,
  broadcast, pump, pump_all,
}

-- What happens to the hub, in the order of its lock.
pub data Op : Type 0 where
  registers : ℕ → Text → Op
  unregisters : ℕ → Op
  broadcasts : Text → Text → Op
  pumps : ℕ → Op

abbrev pub step : Op → Pusher → Pusher
step (registers n agent) p = register n agent p
step (unregisters n) p = unregister n p
step (broadcasts agent payload) p = broadcast agent payload p
step (pumps n) p = pump n p

pub run : List Op → Pusher → Pusher
run [] p = p
run (o ∷ os) p = run os (step o p)

-- Whether a number is in a list.
abbrev pub listed : ℕ → List ℕ → Bool
listed n [] = false
listed n (m ∷ ms) = m == n || listed n ms

-- A list without repetitions.
abbrev pub AreDistinct : List ℕ → Type 0
AreDistinct [] = Unit {0}
AreDistinct (n ∷ ns) = (listed n ns ≡ false) × AreDistinct ns

-- No channel was closed twice, no registered client's channel is closed, and no channel is
-- overfull: what a panic of Go would come from.
abbrev pub IsSafe : Pusher → Type 0
IsSafe p =
    AreDistinct p.closed
    × ((n : ℕ) → is_registered n p.clients ≡ true → listed n p.closed ≡ false)
    × All (λ c. length c.send ≤ send_capacity) p.clients

-- A new client has a number that was never in use.
abbrev pub IsFresh : Op → Pusher → Type 0
IsFresh (registers n agent) p = (is_registered n p.clients ≡ false) × (listed n p.closed ≡ false)
IsFresh (unregisters n) p = Unit {0}
IsFresh (broadcasts agent payload) p = Unit {0}
IsFresh (pumps n) p = Unit {0}

abbrev pub AreFresh : List Op → Pusher → Type 0
AreFresh [] p = Unit {0}
AreFresh (o ∷ os) p = IsFresh o p × AreFresh os (step o p)

listed-append : (m n : ℕ) (ns : List ℕ) → listed m (ns ++ (n ∷ [])) ≡ (n == m || listed m ns)
listed-append m n [] = refl
listed-append m n (k ∷ ns) = ground (arith, listed-append m n ns)

AreDistinct-append :
    (n : ℕ) (ns : List ℕ) → listed n ns ≡ false → AreDistinct ns → AreDistinct (ns ++ (n ∷ []))
AreDistinct-append n [] new d = (refl, tt)
AreDistinct-append n (k ∷ ns) new d =
    let rest : listed n ns ≡ false = ground arith in
    let apart : (n == k) ≡ false = ground (arith, ==_iff n k, ==_iff k n) in
    (rw (listed-append k n ns, apart) d.0, AreDistinct-append n ns rest d.1)

is_registered-append :
    (m : ℕ) (c : Client) (cs : List Client)
    → is_registered m (cs ++ (c ∷ [])) ≡ (c.number == m || is_registered m cs)
unfolding is_registered
is_registered-append m c [] = refl
is_registered-append m c (b ∷ cs) = ground (arith, is_registered-append m c cs)

is_registered-without :
    (m n : ℕ) (cs : List Client)
    → is_registered m (without n cs) ≡ (if n == m then false else is_registered m cs)
unfolding is_registered without
is_registered-without m n [] = ground arith
is_registered-without m n (c ∷ cs) =
    ground (arith, is_registered-without m n cs, ==_iff c.number n, ==_iff c.number m, ==_iff n m)

is_registered-offer_all :
    (m : ℕ) (agent payload : Text) (cs : List Client)
    → is_registered m (offer_all agent payload cs) ≡ is_registered m cs
unfolding is_registered offer_all offer
is_registered-offer_all m agent payload [] = refl
is_registered-offer_all m agent payload (c ∷ cs) =
    ground (arith, is_registered-offer_all m agent payload cs)

Small : List Client → Type 0
Small cs = All (λ c. length c.send ≤ send_capacity) cs

Small-append :
    (c : Client) (cs : List Client)
    → length c.send ≤ send_capacity
    → Small cs
    → Small (cs ++ (c ∷ []))
unfolding Small
Small-append c [] h s = (h, tt)
Small-append c (b ∷ cs) h s = (s.0, Small-append c cs h s.1)

Small-without : (n : ℕ) (cs : List Client) → Small cs → Small (without n cs)
unfolding Small without
Small-without n [] s = tt
Small-without n (c ∷ cs) s = elim (Bool-cases (c.number == n)) [
  | inl e ↦ rw e (Small-without n cs s.1)
  | inr e ↦ rw e (s.0, Small-without n cs s.1)
]

offer_small :
    (agent payload : Text) (c : Client)
    → length c.send ≤ send_capacity
    → length (offer agent payload c).send ≤ send_capacity
unfolding offer
offer_small agent payload c h = ground (arith, length-append c.send (payload ∷ []))

Small-offer_all :
    (agent payload : Text) (cs : List Client) → Small cs → Small (offer_all agent payload cs)
unfolding Small offer_all
Small-offer_all agent payload [] s = tt
Small-offer_all agent payload (c ∷ cs) s =
    (offer_small agent payload c s.0, Small-offer_all agent payload cs s.1)

is_registered-pump_all :
    (m n : ℕ) (cs : List Client) → is_registered m (pump_all n cs) ≡ is_registered m cs
unfolding is_registered pump_all
is_registered-pump_all m n [] = refl
is_registered-pump_all m n (c ∷ cs) = ground (arith, is_registered-pump_all m n cs)

length-drop_first : (xs : List Text) → length (drop 1 xs) ≤ length xs
length-drop_first [] = omega arith
length-drop_first (x ∷ xs) = omega arith

Small-pump_all : (n : ℕ) (cs : List Client) → Small cs → Small (pump_all n cs)
unfolding Small pump_all
Small-pump_all n [] s = tt
Small-pump_all n (c ∷ cs) s =
    (ground (arith, s.0, length-drop_first c.send), Small-pump_all n cs s.1)

both_apart :
    (same registered closed : Bool)
    → (if same then false else registered) ≡ true
    → (registered ≡ true → closed ≡ false)
    → (same || closed) ≡ false
both_apart true registered closed h apart = cc
both_apart false registered closed h apart = apart h

new_apart :
    (n m : ℕ) (registered : Bool) (closed : List ℕ)
    → listed n closed ≡ false
    → (registered ≡ true → listed m closed ≡ false)
    → (n == m || registered) ≡ true
    → listed m closed ≡ false
new_apart n m registered closed fresh apart h = elim (Bool-cases (n == m)) [
  | inl e ↦ subst (λ k. listed k closed ≡ false) ((==_iff n m).0 e) fresh
  | inr e ↦ apart (sym (ap (λ b. b || registered) e) ∙ h)
]

unregister-IsSafe : (n : ℕ) (p : Pusher) → IsSafe p → IsSafe (unregister n p)
unfolding unregister Small
unregister-IsSafe n p (distinct, apart, small) = elim (Bool-cases (is_registered n p.clients)) [
  | inl e ↦ rw e (
    AreDistinct-append n p.closed (apart n e) distinct,
    (λ m h.
        listed-append m n p.closed
        ∙ both_apart (n == m) (is_registered m p.clients) (listed m p.closed)
            (sym (is_registered-without m n p.clients) ∙ h) (apart m)),
    Small-without n p.clients small,
  )
  | inr e ↦ rw e (distinct, apart, small)
]

step-IsSafe : (o : Op) (p : Pusher) → IsFresh o p → IsSafe p → IsSafe (step o p)
unfolding register broadcast pump Small
step-IsSafe (registers n agent) p fresh (distinct, apart, small) = (
  distinct,
  (λ m h. new_apart n m (is_registered m p.clients) p.closed fresh.1 (apart m) (
      sym (is_registered-append m (record { number = n; agent_id = agent; send = [] }) p.clients)
      ∙ h)),
  Small-append (record { number = n; agent_id = agent; send = [] }) p.clients (omega arith) small,
)
step-IsSafe (unregisters n) p fresh safe = unregister-IsSafe n p safe
step-IsSafe (pumps n) p fresh (distinct, apart, small) = (
  distinct,
  (λ m h. apart m (sym (is_registered-pump_all m n p.clients) ∙ h)),
  Small-pump_all n p.clients small,
)
step-IsSafe (broadcasts agent payload) p fresh (distinct, apart, small) = (
  distinct,
  (λ m h. apart m (sym (is_registered-offer_all m agent payload p.clients) ∙ h)),
  Small-offer_all agent payload p.clients small,
)

-- Whatever clients come and go and whatever is broadcast and sent on, in any order: from a safe hub, no channel
-- is ever closed twice, no registered client has a closed channel, and no channel holds more than
-- 256 messages, so that no send or close panics.
pub run-IsSafe : (os : List Op) (p : Pusher) → AreFresh os p → IsSafe p → IsSafe (run os p)
unfolding run
run-IsSafe [] p fresh safe = safe
run-IsSafe (o ∷ os) p fresh safe = run-IsSafe os (step o p) fresh.1 (step-IsSafe o p fresh.0 safe)
