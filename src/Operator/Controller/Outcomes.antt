-- ===== src/Operator/Controller/Outcomes.antt =====
-- What a pass of Reconcile over a live agent has done when it tells the controller runtime of no error.
use mathlib.Core.Path.{subst}
use entropy_gen.Common.{
  ℕ, Bool, List, ◌≡◌, ◌⊎◌, inl, inr, refl, sym, ap, ◌∙◌, true, false, Option, some, none,
  Bool-cases, if◌then◌else◌,
}
use entropy_gen.Common.Text.{text, text_eq_iff, is_empty}
use entropy_gen.Common.Fallible.{Error, Result, ok, err, Result-cases}
use entropy_gen.Operator.Types.{Agent, AgentCondition}
use entropy_gen.Operator.Objects.{agent_kind, Key}
use entropy_gen.Operator.Reconciler.{Platform, Config, Run, ◌>>=◌, ◌>>◌, call}
use entropy_gen.Operator.Reconciler.Creation.{>>=-ok}
use entropy_gen.Operator.Reconciler.GiteaUser.{replace_agent}
use entropy_gen.Operator.Reconciler.All.{reconcile_all}
use entropy_gen.Operator.Scheduler.{Cron, CronScheduler}
use entropy_gen.Operator.Controller.Conditions.{condition_of, condition_of-set_condition_in}
use entropy_gen.Operator.Controller.{
  finalizer_name, with_finalizers, with_phase, with_conditions, ensure_finalizer, store_finalizer,
  ensure_phase, begin_initializing, refetch, refetch_unless, try_status_update, set_condition,
  set_condition_in, final_phase, report_success, report_failure, unschedule, after_report,
  after_resources, after_preparation, reconcile_live, done,
}

module _ {W : Type 0} (p : Platform W) where
  -- The agent that a Get of the key answers is the one in memory.
  abbrev pub Refetched : Key → W → Run W → Type 0
  Refetched key w t = (a : Agent) × (p.kube.get agent_kind key w ≡ (ok a, t.world)) × (t.agent ≡ a)

  refetch-Refetched :
      (key : Key) (s : Run W)
      → (refetch p key s).0 ≡ ok tt
      → Refetched key s.world (refetch p key s).1
  unfolding refetch
  refetch-Refetched key s h =
      let (a, e, q) = >>=-ok (call (p.kube.get agent_kind key)) replace_agent s h in
      rw q (a, ap (λ r. (r, (p.kube.get agent_kind key s.world).1)) e, refl)

  -- The agent has the operator's finalizer already, or the server accepted it with the finalizer.
  abbrev pub Finalized : Key → Run W → Run W → Type 0
  Finalized key s t =
      ((p.has_finalizer s.agent.finalizers finalizer_name ≡ true) × (t ≡ s))
      ⊎ ((p.has_finalizer s.agent.finalizers finalizer_name ≡ false)
          × ((a : Agent) × (w : W) × (p.kube.update agent_kind
                  (with_finalizers s.agent (p.add_finalizer s.agent.finalizers finalizer_name))
                  s.world
                ≡ (ok a, w))
              × Refetched key w t))

  store_finalizer-ok :
      (key : Key) (s : Run W)
      → (store_finalizer p key s).0 ≡ ok tt
      → (a : Agent) × (w : W) × (p.kube.update agent_kind
            (with_finalizers s.agent (p.add_finalizer s.agent.finalizers finalizer_name))
            s.world
          ≡ (ok a, w))
        × Refetched key w (store_finalizer p key s).1
  unfolding store_finalizer
  store_finalizer-ok key s h =
      let sent = with_finalizers s.agent (p.add_finalizer s.agent.finalizers finalizer_name) in
      let (a, e, q) =
        >>=-ok (call (p.kube.update agent_kind sent)) (λ a. replace_agent a >> refetch p key) s h in
      let w = (p.kube.update agent_kind sent s.world).1 in
      rw q (
        a,
        w,
        ap (λ r. (r, w)) e,
        refetch-Refetched key (record s { world = w; agent = a }) (ap (λ r. r.0) (sym q) ∙ h),
      )

  ensure_finalizer-Finalized :
      (key : Key) (s : Run W)
      → (ensure_finalizer p key s).0 ≡ ok tt
      → Finalized key s (ensure_finalizer p key s).1
  unfolding ensure_finalizer
  ensure_finalizer-Finalized key s h =
      elim (Bool-cases (p.has_finalizer s.agent.finalizers finalizer_name)) [
        | inl e ↦ rw e (inl (refl, refl))
        | inr e ↦ rw e (inr (refl, store_finalizer-ok key s (rw (ensure_finalizer, e) at h)))
      ]

  -- The phase was there, or an update of the status with Initializing was sent; if the server
  -- accepted that the agent was fetched again.
  abbrev pub Begun : Key → Run W → Run W → Type 0
  Begun key s t =
      let sent = with_phase s.agent (text "Initializing") in
      ((is_empty s.agent.status.phase ≡ false) × (t ≡ s))
      ⊎ ((is_empty s.agent.status.phase ≡ true)
          × (((e : Error) × (p.kube.update_status sent s.world ≡ (err e, t.world)))
              ⊎ ((a : Agent) × (w : W) × (p.kube.update_status sent s.world ≡ (ok a, w))
                  × Refetched key w t)))

  tried_ok :
      (s : Run W) (a : Agent) (w : W)
      → p.kube.update_status s.agent s.world ≡ (ok a, w)
      → try_status_update p s ≡ (ok none, record s { world = w; agent = a })
  unfolding try_status_update
  tried_ok s a w e =
      ap
        (λ r. elim r.0 as (λ _. Result (Option Error) × Run W) [
          | ok b ↦ (ok none, record s { world = r.1; agent = b })
          | err f ↦ (ok (some f), record s { world = r.1 })
        ])
        e

  tried_err :
      (s : Run W) (f : Error) (w : W)
      → p.kube.update_status s.agent s.world ≡ (err f, w)
      → try_status_update p s ≡ (ok (some f), record s { world = w })
  unfolding try_status_update
  tried_err s f w e =
      ap
        (λ r. elim r.0 as (λ _. Result (Option Error) × Run W) [
          | ok b ↦ (ok none, record s { world = r.1; agent = b })
          | err f ↦ (ok (some f), record s { world = r.1 })
        ])
        e

  abbrev then_refetch : Key → Result (Option Error) × Run W → Result (Unit {0}) × Run W
  then_refetch key r = ◌>>=◌ (λ (_ : Run W). r) (refetch_unless p key) r.1

  begin_initializing_lem :
      (key : Key) (s : Run W)
      → begin_initializing p key s ≡ then_refetch key (try_status_update p s)
  unfolding begin_initializing
  begin_initializing_lem key s = refl

  begin_initializing-ok :
      (key : Key) (s : Run W)
      → (begin_initializing p key s).0 ≡ ok tt
      → ((e : Error) × (p.kube.update_status s.agent s.world
            ≡ (err e, (begin_initializing p key s).1.world)))
        ⊎ ((a : Agent) × (w : W) × (p.kube.update_status s.agent s.world ≡ (ok a, w))
            × Refetched key w (begin_initializing p key s).1)
  unfolding refetch_unless
  begin_initializing-ok key s h =
      let r = p.kube.update_status s.agent s.world in
      elim (Result-cases r.0) [
        | inl (a, e) ↦
            let sent = ap (λ x. (x, r.1)) e in
            let u : Run W = record s { world = r.1; agent = a } in
            let run : begin_initializing p key s ≡ refetch p key u =
              begin_initializing_lem key s ∙ ap (then_refetch key) (tried_ok s a r.1 sent) in
            let again = refetch-Refetched key u (ap (λ x. x.0) (sym run) ∙ h) in
            inr (a, r.1, sent, subst (Refetched key r.1) (sym (ap (λ x. x.1) run)) again)
        | inr (f, e) ↦
            let sent = ap (λ x. (x, r.1)) e in
            let run : begin_initializing p key s ≡ (ok tt, record s { world = r.1 }) =
              begin_initializing_lem key s ∙ ap (then_refetch key) (tried_err s f r.1 sent) in
            inl (f, sent ∙ ap (λ w. (err f, w)) (sym (ap (λ x. x.1.world) run)))
      ]

  ensure_phase-Begun :
      (key : Key) (s : Run W)
      → (ensure_phase p key s).0 ≡ ok tt
      → Begun key s (ensure_phase p key s).1
  unfolding ensure_phase
  ensure_phase-Begun key s h = elim (Bool-cases (is_empty s.agent.status.phase)) [
    | inr e ↦ rw e (inl (refl, refl))
    | inl e ↦ rw e (
        inr (
          refl,
          begin_initializing-ok key (record s { agent = with_phase s.agent (text "Initializing") })
              (rw (ensure_phase, e) at h),
        ))
  ]

  -- The agent was fetched again, and as the last call an update of the status was sent: with the
  -- phase that the agent's pause asks for and the condition Ready, which is True. Whether the server
  -- accepted it is not asked.
  abbrev pub Reported : Key → Run W → Run W → Type 0
  Reported key s t =
      (u : Run W) × Refetched key s.world u
      × ((sent : Agent) × (c : AgentCondition) × (sent.status.phase
            ≡ (if u.agent.spec.paused then text "Paused" else text "Running"))
          × (condition_of (text "Ready") sent.status.conditions ≡ some c)
          × (c.status ≡ text "True")
          × (t.world ≡ (p.kube.update_status sent (p.now u.world).1).1))

  -- The update is sent and is no error of the step.
  try_status_update-sent :
      (s : Run W)
      → (e : Option Error) × ((try_status_update p s).0 ≡ ok e)
        × ((try_status_update p s).1.world ≡ (p.kube.update_status s.agent s.world).1)
  try_status_update-sent s =
      let r = p.kube.update_status s.agent s.world in
      elim (Result-cases r.0) [
        | inl (a, e) ↦
            let run = tried_ok s a r.1 (ap (λ x. (x, r.1)) e) in
            (none, ap (λ x. x.0) run, ap (λ x. x.1.world) run)
        | inr (f, e) ↦
            let run = tried_err s f r.1 (ap (λ x. (x, r.1)) e) in
            (some f, ap (λ x. x.0) run, ap (λ x. x.1.world) run)
      ]

  final_phase_lem : (b : Bool) → final_phase p b ≡ (if b then text "Paused" else text "Running")
  unfolding final_phase
  final_phase_lem true = refl
  final_phase_lem false = refl

  ready_lem :
      (new : AgentCondition) (cs : List AgentCondition)
      → new.type ≡ text "Ready"
      → condition_of (text "Ready") (set_condition_in new cs) ≡ some new
  ready_lem new cs e =
      condition_of-set_condition_in new (text "Ready") cs
      ∙ rw ((text_eq_iff new.type (text "Ready")).1 e) refl

  ended :
      (r : Result (Option Error) × Run W) (f : Option Error)
      → r.0 ≡ ok f
      → ◌>>=◌ (λ (_ : Run W). r) (λ _ s. (ok tt, s)) r.1 ≡ (ok tt, r.1)
  ended (ok e, t) f h = refl
  ended (err e, t) f h = cc

  abbrev ready_at : ℕ → AgentCondition
  ready_at now = record {
    type = text "Ready";
    status = text "True";
    reason = text "Reconciled";
    message = text "All resources reconciled successfully";
    last_transition_time = now;
  }

  -- The agent as the report sends it.
  abbrev reported : Run W → Agent
  reported u =
      let a = with_phase u.agent (final_phase p u.agent.spec.paused) in
      with_conditions a (set_condition_in (ready_at (p.now u.world).0) a.status.conditions)

  abbrev ending : Run W → Result (Unit {0}) × Run W
  ending u =
      (do ignored ← try_status_update p; λ s. (ok tt, s))
        (record u { agent = reported u; world = (p.now u.world).1 })

  report_success-Reported :
      (key : Key) (s : Run W)
      → (report_success p key s).0 ≡ ok tt
      → Reported key s (report_success p key s).1
  unfolding report_success set_condition
  report_success-Reported key s h =
      let (x, e, q) = >>=-ok (refetch p key) (λ _. ending) s h in
      let u = (refetch p key s).1 in
      let r : Run W = record u { agent = reported u; world = (p.now u.world).1 } in
      let (f, sent, world) = try_status_update-sent r in
      let paused : final_phase p u.agent.spec.paused
          ≡ (if u.agent.spec.paused then text "Paused" else text "Running") =
        final_phase_lem u.agent.spec.paused in
      rw q (
        u,
        refetch-Refetched key s e,
        (
          reported u,
          ready_at (p.now u.world).0,
          paused,
          ready_lem (ready_at (p.now u.world).0) u.agent.status.conditions refl,
          refl,
          ap (λ x. x.1.world) (ended (try_status_update p r) f sent) ∙ world,
        ),
      )

module _ {W C : Type 0} (p : Platform W) (lib : Cron C) (cfg : Config) where
  after_report-error :
      (sch : Option (CronScheduler C)) (r : Result (Unit {0}) × Run W)
      → (after_report p lib cfg sch r).0.error ≡ none
      → (s : Run W) × (r ≡ (ok tt, s))
        × (after_report p lib cfg sch r ≡ (done p, unschedule p lib cfg s.agent.name sch, s))
  unfolding after_report
  after_report-error sch (err e, s) h = cc
  after_report-error sch (ok u, s) h = (s, refl, refl)

  after_resources-error :
      (key : Key) (sch : Option (CronScheduler C)) (r : Result (Unit {0}) × Run W)
      → (after_resources p lib cfg key sch r).0.error ≡ none
      → (s t : Run W) × (r ≡ (ok tt, s))
        × (report_success p key s ≡ (ok tt, t))
        × (after_resources p lib cfg key sch r ≡ (done p, unschedule p lib cfg t.agent.name sch, t))
  unfolding after_resources report_failure
  after_resources-error key sch (err e, s) h = cc
  after_resources-error key sch (ok u, s) h =
      let (t, q, f) = after_report-error sch (report_success p key s) h in (s, t, refl, q, f)

  after_preparation-error :
      (key : Key) (sch : Option (CronScheduler C)) (r : Result (Unit {0}) × Run W)
      → (after_preparation p lib cfg key sch r).0.error ≡ none
      → (u v t : Run W) × (r ≡ (ok tt, u))
        × (reconcile_all p cfg (record u { role_data = none }) ≡ (ok tt, v))
        × (report_success p key v ≡ (ok tt, t))
        × (after_preparation p lib cfg key sch r
            ≡ (done p, unschedule p lib cfg t.agent.name sch, t))
  unfolding after_preparation
  after_preparation-error key sch (err e, u) h = cc
  after_preparation-error key sch (ok x, u) h =
      let (v, t, q, f, g) =
        after_resources-error key sch (reconcile_all p cfg (record u { role_data = none })) h in
      (u, v, t, refl, q, f, g)

  -- If a pass over a live agent tells of no error, then the agent has the operator's finalizer or the
  -- server accepted it with the finalizer; an agent without a phase was sent to the server as
  -- Initializing; every step of the reconciler succeeded; and as the last call the agent was sent
  -- with the phase Running, or Paused if it is paused, and with Ready set to True. Errors of the two
  -- updates of the status are not asked for. The runtime is asked for no requeue, and the agent's
  -- cron job is removed.
  pub live_without_error :
      (key : Key) (sch : Option (CronScheduler C)) (s : Run W)
      → (reconcile_live p lib cfg key sch s).0.error ≡ none
      → (s' u v t : Run W) × Finalized p key s s'
        × Begun p key s' u
        × (reconcile_all p cfg (record u { role_data = none }) ≡ (ok tt, v))
        × Reported p key v t
        × (reconcile_live p lib cfg key sch s ≡ (done p, unschedule p lib cfg t.agent.name sch, t))
  unfolding reconcile_live
  live_without_error key sch s h =
      let prepared = (ensure_finalizer p key >> ensure_phase p key) s in
      let (u, v, t, first, all, reported, run) = after_preparation-error key sch prepared h in
      let (x, finalized, q) =
        >>=-ok (ensure_finalizer p key) (λ _. ensure_phase p key) s (ap (λ r. r.0) first) in
      let s' = (ensure_finalizer p key s).1 in
      let begun = ap (λ r. r.0) (sym q ∙ first) in
      (
        s',
        u,
        v,
        t,
        ensure_finalizer-Finalized p key s finalized,
        subst (Begun p key s') (ap (λ r. r.1) (sym q ∙ first)) (ensure_phase-Begun p key s' begun),
        all,
        subst (Reported p key v) (ap (λ r. r.1) reported)
            (report_success-Reported p key v (ap (λ r. r.0) reported)),
        run,
      )
