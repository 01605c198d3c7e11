-- ===== src/Collector/Webhook/Answers.antt =====
-- What the webhook answers, and which deliveries become events.
use entropy_gen.Common.{
  ℕ, ◌≡◌, refl, sym, ◌⊎◌, inl, inr, ◌↔◌, Bool, true, false, ◌&&◌, Option, none, some, List, [], ◌∷◌,
  if◌then◌else◌, any, Bool-cases,
}
use mathlib.Core.Path.{subst}
use entropy_gen.Common.Text.{Text, text, text_eq, text_eq_iff, trim_prefix}
use entropy_gen.Common.Fallible.{Error, Result, ok, err, Result-cases}
use entropy_gen.Events.{Event}
use entropy_gen.Collector.Webhook.{
  Tools, Delivery, Answer, Parsed, answer_parsed, issue_type, pull_type, by_action, with_type,
  verify_signature, parse_event, truncate_payload, serve_http, default_max_bytes,
}

-- The kinds of deliveries that become events, each with a type that it can lead to.
abbrev pub webhook_types : List (Text × Text)
webhook_types =
    (text "push", text "gitea.push")
    ∷ (text "issues", text "gitea.issue_open")
    ∷ (text "issues", text "gitea.issue_close")
    ∷ (text "issue_comment", text "gitea.issue_comment")
    ∷ (text "pull_request", text "gitea.pr_open")
    ∷ (text "pull_request", text "gitea.pr_merge")
    ∷ (text "pull_request_review_comment", text "gitea.pr_review")
    ∷ (text "workflow_run", text "gitea.ci_status")
    ∷ []

abbrev pub IsKnown : Text → Text → Type 0
IsKnown name t = any (λ k. text_eq name k.0 && text_eq t k.1) webhook_types ≡ true

-- No event, or one of a type for this kind of delivery.
abbrev IsFine : Text → Option (Text × Text) → Type 0
IsFine name none = Unit {0}
IsFine name (some (t, payload)) = IsKnown name t

abbrev AreFine : Text → Parsed → Type 0
AreFine name (err e) = Unit {0}
AreFine name (ok o) = IsFine name o

either_branch {ℓ} :
    {A : Type ℓ} (P : A → Type 0) (b : Bool) {x y : A} → P x → P y → P (if b then x else y)
either_branch P true h k = h
either_branch P false h k = k

-- A test of the delivery's name that holds tells the name.
named_branch {ℓ} :
    {A : Type ℓ} (P : Text → A → Type 0) (name expected : Text) {x y : A}
    → P expected x
    → P name y
    → P name (if text_eq name expected then x else y)
named_branch P name expected {x} h k = elim (Bool-cases (text_eq name expected)) [
  | inl e ↦ rw e (subst (λ n. P n x) (sym ((text_eq_iff name expected).0 e)) h)
  | inr e ↦ rw e k
]

IsFine-issue :
    (payload action : Text) → IsFine (text "issues") (with_type payload (issue_type action))
unfolding issue_type
IsFine-issue payload action =
    let P = λ (o : Option Text). IsFine (text "issues") (with_type payload o) in
    either_branch P (text_eq action (text "opened")) (unfold text text_eq in refl)
      (either_branch P (text_eq action (text "closed")) (unfold text text_eq in refl) tt)

IsFine-pull :
    (payload action : Text) (merged : Bool)
    → IsFine (text "pull_request") (with_type payload (pull_type action merged))
unfolding pull_type
IsFine-pull payload action merged =
    let P = λ (o : Option Text). IsFine (text "pull_request") (with_type payload o) in
    either_branch P (text_eq action (text "closed") && merged) (unfold text text_eq in refl)
      (either_branch P (text_eq action (text "opened")) (unfold text text_eq in refl) tt)

AreFine-by_action :
    {A : Type 0} (name payload : Text) (type_of : A → Option Text) (action : Result A)
    → ((a : A) → IsFine name (with_type payload (type_of a)))
    → AreFine name (by_action payload type_of action)
AreFine-by_action name payload type_of (ok a) h = h a
AreFine-by_action name payload type_of (err e) h = tt

parse_event-AreFine :
    (tools : Tools) (name body : Text) → AreFine name (parse_event tools name body)
unfolding parse_event
parse_event-AreFine tools name body =
    let payload = truncate_payload tools body default_max_bytes in
    named_branch AreFine name (text "push") (unfold text text_eq in refl) (
      named_branch AreFine name (text "issues")
        (AreFine-by_action (text "issues") payload issue_type (tools.action body)
          (IsFine-issue payload))
        (named_branch AreFine name (text "issue_comment") (unfold text text_eq in refl) (
          named_branch AreFine name (text "pull_request")
            (AreFine-by_action (text "pull_request") payload (λ a. pull_type a.0 a.1)
              (tools.pull body) (λ a. IsFine-pull payload a.0 a.1))
            (named_branch AreFine name (text "pull_request_review_comment")
              (unfold text text_eq in refl)
              (named_branch AreFine name (text "workflow_run") (unfold text text_eq in refl) tt)))))

-- No secret is set, or the header's digits are those of the body's HMAC under the secret.
abbrev pub IsSigned : Tools → Text → Text → Text → Type 0
IsSigned tools secret body header =
    (secret ≡ []) ⊎ (tools.mac_hex secret body ≡ trim_prefix header (text "sha256="))

unsigned :
    (c : ℕ) (secret : Text) (test : Bool) (mac digits : Text)
    → ((test ≡ true) ↔ (mac ≡ digits))
    → test ≡ false
    → ¬ (((c ∷ secret) ≡ []) ⊎ (mac ≡ digits))
unsigned c secret test mac digits same e (inl h) = cc
unsigned c secret test mac digits same e (inr h) = cc (same.1 h)

verify_signature-cases :
    (tools : Tools) (secret body header : Text)
    → ((verify_signature tools secret body header ≡ true) × IsSigned tools secret body header)
      ⊎ ((verify_signature tools secret body header ≡ false) × ¬ IsSigned tools secret body header)
unfolding verify_signature
verify_signature-cases tools [] body header = inl (refl, inl refl)
verify_signature-cases tools (c ∷ secret) body header =
    let same =
      text_eq_iff (tools.mac_hex (c ∷ secret) body) (trim_prefix header (text "sha256=")) in
    let test = text_eq (tools.mac_hex (c ∷ secret) body) (trim_prefix header (text "sha256=")) in
    elim (Bool-cases test) [
      | inl e ↦ inl (e, inr (same.0 e))
      | inr e ↦ inr (e, unsigned c secret test _ _ same e)
    ]

-- What can be said of an answer: 400 for a body that cannot be read, 403 for one that is not
-- signed, and no event with either; or else 200, and an event only of a type for the delivery's
-- kind, with the id and the time of the handler and no agent.
abbrev pub Answered : Tools → Text → Text → ℕ → Delivery → Answer → Type 0
Answered tools secret id now d (status, event) =
    ((e : Error) × (d.body ≡ err e) × (status ≡ 400) × (event ≡ none))
    ⊎ ((body : Text) × (d.body ≡ ok body)
        × (((¬ IsSigned tools secret body d.signature) × (status ≡ 403) × (event ≡ none))
            ⊎ (IsSigned tools secret body d.signature
                × (status ≡ 200)
                × ((event ≡ none)
                    ⊎ ((e : Event) × (event ≡ some e)
                        × IsKnown d.event_name e.event_type
                        × (e.event_id ≡ id)
                        × (e.timestamp ≡ now)
                        × (e.agent_id ≡ []))))))

answer_parsed-sent :
    (name id : Text) (now : ℕ) (parsed : Parsed)
    → AreFine name parsed
    → ((answer_parsed id now parsed).0 ≡ 200)
      × (((answer_parsed id now parsed).1 ≡ none)
          ⊎ ((e : Event) × ((answer_parsed id now parsed).1 ≡ some e)
              × IsKnown name e.event_type
              × (e.event_id ≡ id)
              × (e.timestamp ≡ now)
              × (e.agent_id ≡ [])))
unfolding answer_parsed
answer_parsed-sent name id now (err f) fine = (refl, inl refl)
answer_parsed-sent name id now (ok none) fine = (refl, inl refl)
answer_parsed-sent name id now (ok (some (t, payload))) fine =
    (refl, inr (_, refl, fine, refl, refl, refl))

-- A delivery is answered by 400 if its body cannot be read, and by 403 if a secret is set and the
-- header does not have the body's HMAC under it, in both cases without an event. Any other is
-- answered by 200, and leads to no event or to one of a type that belongs to the delivery's kind,
-- with the handler's id and time and without an agent.
pub serve_http-Answered :
    (tools : Tools) (secret id : Text) (now : ℕ) (d : Delivery)
    → Answered tools secret id now d (serve_http tools secret id now d)
unfolding serve_http
serve_http-Answered tools secret id now d = elim (Result-cases d.body) [
  | inr (e, f) ↦ rw f (inl (e, refl, refl, refl))
  | inl (body, e) ↦ elim (verify_signature-cases tools secret body d.signature) [
    | inl (good, signed) ↦
        let parsed = parse_event tools d.event_name body in
        let sent =
          answer_parsed-sent d.event_name id now parsed
            (parse_event-AreFine tools d.event_name body) in
        rw (e, good) (inr (body, refl, inr (signed, sent.0, sent.1)))
    | inr (bad, unsigned) ↦ rw (e, bad) (inr (body, refl, inl (unsigned, refl, refl)))
  ]
]
