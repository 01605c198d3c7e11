-- ===== src/Operator/Controller.antt =====
-- internal/operator/controller/agent_controller.go: one call of Reconcile. What the controller
-- runtime is told is a requeue delay in seconds (0 for none) and an error.
pub mod Conditions
pub mod Outcomes
use entropy_gen.Common.{ℕ, Bool, true, false, Option, none, some, List, [], ◌∷◌, if◌then◌else◌}
use entropy_gen.Common.Text.{Text, text, text_eq, is_empty}
use entropy_gen.Common.Fallible.{Error, is_not_found, message, Result, ok, err}
use entropy_gen.Operator.Types.{Agent, AgentCondition}
use entropy_gen.Operator.Objects.{agent_kind, Key}
use entropy_gen.Operator.Reconciler.{Platform, Config, Run, Step, ◌>>=◌, ◌>>◌, call}
use entropy_gen.Operator.Reconciler.GiteaUser.{replace_agent}
use entropy_gen.Operator.Reconciler.All.{reconcile_all, delete_all}
use entropy_gen.Operator.Scheduler.{Cron, CronScheduler}
use entropy_gen.Operator.Scheduler

abbrev pub finalizer_name : Text
finalizer_name = text "aidevops.io/cleanup"

abbrev pub requeue_on_error : ℕ
requeue_on_error = 30

pub record Outcome : Type 0 where
  pub requeue_after : ℕ
  pub error : Option Error

-- The first condition of the type is replaced in place; if there is none it goes to the end.
unfoldable pub set_condition_in : AgentCondition → List AgentCondition → List AgentCondition
set_condition_in new [] = new ∷ []
set_condition_in new (c ∷ cs) =
    let rest = set_condition_in new cs in if text_eq c.type new.type then new ∷ cs else c ∷ rest

abbrev pub with_conditions : Agent → List AgentCondition → Agent
with_conditions a cs = record a { status = record a.status { conditions = cs } }

abbrev pub with_phase : Agent → Text → Agent
with_phase a phase = record a { status = record a.status { phase = phase } }

abbrev pub with_finalizers : Agent → List Text → Agent
with_finalizers a fs = record a { finalizers = fs }

module _ {W : Type 0} (p : Platform W) where
  unfoldable pub set_condition : Text → Text → Text → Text → Step W (Unit {0})
  set_condition type status reason msg s =
      let r = p.now s.world in
      let new : AgentCondition = record {
        type = type;
        status = status;
        reason = reason;
        message = msg;
        last_transition_time = r.0;
      } in
      (
        ok tt,
        record s {
          world = r.1;
          agent = with_conditions s.agent (set_condition_in new s.agent.status.conditions);
        },
      )

  -- A call that puts the server's object in place of the agent in memory.
  unfoldable pub refetch : Key → Step W (Unit {0})
  refetch key = do a ← call (p.kube.get agent_kind key); replace_agent a

  -- `_ = r.Status().Update(ctx, agent)`: the agent is replaced if the call succeeds, and the error
  -- is handed back as a value.
  unfoldable pub try_status_update : Step W (Option Error)
  try_status_update s =
      let r = p.kube.update_status s.agent s.world in
      elim r.0 [
        | ok a ↦ (ok none, record s { world = r.1; agent = a })
        | err e ↦ (ok (some e), record s { world = r.1 })
      ]

  unfoldable pub store_finalizer : Key → Step W (Unit {0})
  unfolding refetch
  store_finalizer key s =
      (do
        a ← call (
            p.kube.update agent_kind
              (with_finalizers s.agent (p.add_finalizer s.agent.finalizers finalizer_name)))
        replace_agent a
        refetch key)
        s

  unfoldable pub ensure_finalizer : Key → Step W (Unit {0})
  unfolding store_finalizer
  ensure_finalizer key s =
      if p.has_finalizer s.agent.finalizers finalizer_name
      then (ok tt, s)
      else store_finalizer key s

  unfoldable pub refetch_unless : Key → Option Error → Step W (Unit {0})
  unfolding refetch
  refetch_unless key none s = refetch key s
  refetch_unless key (some e) s = (ok tt, s)

  unfoldable pub begin_initializing : Key → Step W (Unit {0})
  unfolding try_status_update refetch_unless
  begin_initializing key = do failed ← try_status_update; refetch_unless key failed

  unfoldable pub ensure_phase : Key → Step W (Unit {0})
  unfolding begin_initializing
  ensure_phase key s =
      if is_empty s.agent.status.phase
      then begin_initializing key (record s { agent = with_phase s.agent (text "Initializing") })
      else (ok tt, s)

  -- The end of a pass that failed.
  unfoldable pub report_failure : Error → Run W → Outcome × Run W
  unfolding set_condition try_status_update
  report_failure e s =
      let r =
        (do
          set_condition (text "Ready") (text "False") (text "ReconcileError") (message e)
          try_status_update)
          s in
      (record { requeue_after = requeue_on_error; error = some e }, r.1)

  unfoldable pub final_phase : Bool → Text
  final_phase true = text "Paused"
  final_phase false = text "Running"

  -- The end of a pass in which every resource was reconciled.
  unfoldable pub report_success : Key → Step W (Unit {0})
  unfolding refetch set_condition try_status_update final_phase
  report_success key = do
    refetch key
    λ s. (ok tt, record s { agent = with_phase s.agent (final_phase s.agent.spec.paused) })
    set_condition (text "Ready") (text "True") (text "Reconciled")
        (text "All resources reconciled successfully")
    ignored ← try_status_update
    λ s. (ok tt, s)

  abbrev pub plain_error : Error → Outcome
  plain_error e = record { requeue_after = 0; error = some e }

  abbrev pub done : Outcome
  done = record { requeue_after = 0; error = none }

module _ {W C : Type 0} (p : Platform W) (lib : Cron C) (cfg : Config) where
  -- `if r.CronScheduler != nil { r.CronScheduler.Remove(agent.Name) }`
  abbrev pub unschedule : Text → Option (CronScheduler C) → Option (CronScheduler C)
  unschedule name none = none
  unschedule name (some s) = some (Scheduler.remove lib name s)

  -- The calls on a live agent, and its cron job's removal at the end of a successful pass.
  unfoldable pub after_report :
      Option (CronScheduler C)
      → Result (Unit {0}) × Run W
      → Outcome × Option (CronScheduler C) × Run W
  after_report sch (err e, s) = (plain_error p e, sch, s)
  after_report sch (ok _, s) = (done p, unschedule s.agent.name sch, s)

  unfoldable pub after_resources :
      Key
      → Option (CronScheduler C)
      → Result (Unit {0}) × Run W
      → Outcome × Option (CronScheduler C) × Run W
  unfolding after_report
  after_resources key sch (err e, s) = let r = report_failure p e s in (r.0, sch, r.1)
  after_resources key sch (ok _, s) = after_report sch (report_success p key s)

  unfoldable pub after_preparation :
      Key
      → Option (CronScheduler C)
      → Result (Unit {0}) × Run W
      → Outcome × Option (CronScheduler C) × Run W
  unfolding after_resources
  after_preparation key sch (err e, s) = (plain_error p e, sch, s)
  after_preparation key sch (ok _, s) =
      after_resources key sch (reconcile_all p cfg (record s { role_data = none }))

  unfoldable pub reconcile_live :
      Key → Option (CronScheduler C) → Run W → Outcome × Option (CronScheduler C) × Run W
  unfolding after_preparation
  reconcile_live key sch s =
      after_preparation key sch ((do ensure_finalizer p key; ensure_phase p key) s)

  abbrev pub error_of : Result Agent → Option Error
  error_of (ok a) = none
  error_of (err e) = some e

  unfoldable pub after_cleanup :
      Option (CronScheduler C)
      → Result (Unit {0}) × Run W
      → Outcome × Option (CronScheduler C) × Run W
  after_cleanup sch (err e, s) =
      (record { requeue_after = requeue_on_error; error = some e }, sch, s)
  after_cleanup sch (ok _, s) =
      let a = with_finalizers s.agent (p.remove_finalizer s.agent.finalizers finalizer_name) in
      let r = p.kube.update agent_kind a s.world in
      (record { requeue_after = 0; error = error_of r.0 }, sch, record s { world = r.1; agent = a })

  unfoldable pub reconcile_deleted :
      Option (CronScheduler C) → Run W → Outcome × Option (CronScheduler C) × Run W
  unfolding after_cleanup
  reconcile_deleted sch s =
      if p.has_finalizer s.agent.finalizers finalizer_name
      then after_cleanup (unschedule s.agent.name sch) (delete_all s)
      else (done p, sch, s)

  dispatch :
      Key → Option (CronScheduler C) → Option ℕ → Run W → Outcome × Option (CronScheduler C) × Run W
  unfolding reconcile_live reconcile_deleted
  dispatch key sch none s = reconcile_live key sch s
  dispatch key sch (some t) s = reconcile_deleted sch s

  drop_run : Outcome × Option (CronScheduler C) × Run W → Outcome × Option (CronScheduler C) × W
  drop_run r = (r.0, r.1, r.2.world)

  with_agent :
      Key → Option (CronScheduler C) → Result Agent × W → Outcome × Option (CronScheduler C) × W
  unfolding dispatch drop_run
  with_agent key sch (err e, w) =
      if is_not_found e then (done p, sch, w) else (plain_error p e, sch, w)
  with_agent key sch (ok a, w) =
      drop_run
        (dispatch key sch a.deletion_timestamp (record { world = w; agent = a; role_data = none }))

  unfoldable pub reconcile :
      Key → Option (CronScheduler C) → W → Outcome × Option (CronScheduler C) × W
  unfolding with_agent
  reconcile key sch w = with_agent key sch (p.kube.get agent_kind key w)
