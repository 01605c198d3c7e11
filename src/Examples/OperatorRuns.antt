-- ===== src/Examples/OperatorRuns.antt =====
-- Concrete runs of internal/operator.
use entropy_gen.Common.{
  ℕ, ◌-◌, ◌≤◌, ◌<◌, ◌%◌, ◌≡◌, ◌⊎◌, refl, true, false, Bool, Option, none, some, List, [], ◌∷◌, ◌++◌,
  arith, if◌then◌else◌,
}
use entropy_gen.Common.Text.{Text, text, text_eq}
use entropy_gen.Common.Dict.{lookup}
use entropy_gen.Common.Fallible.{other, wrap, ok, err}
use entropy_gen.Operator.Types.{Agent, AgentCondition}
use entropy_gen.Operator.Reconciler.{Run, Step}
use entropy_gen.Operator.Reconciler.All.{run_steps}
use entropy_gen.Operator.Reconciler.Pipeline.{run_steps_first_error}
use entropy_gen.Operator.Controller.{set_condition_in}
use entropy_gen.Operator.Controller.Conditions.{
  condition_of, condition_of-set_condition_in, count_of, count_of-set_condition_in,
}
use entropy_gen.Operator.Scheduler.{Cron, CronScheduler, sync}
use entropy_gen.Operator.Scheduler.Jobs.{Synced, sync-cases}
use Prim.Native.Nat.{max}

abbrev pub agent : Agent
agent = record {
  name = text "one";
  namespace = text "agents";
  deletion_timestamp = none;
  finalizers = [];
  spec = record {
    role = text "developer";
    display_name = text "One";
    runtime = none;
    llm = none;
    gitea = none;
    kubernetes = none;
    resources = none;
    memory = none;
    paused = false;
  };
  status = record {
    phase = [];
    conditions = [];
    gitea_user = none;
    last_action = none;
    token_usage = none;
    current_task = none;
    pod_name = [];
    started_at = none;
  };
}

-- A world that counts its steps.
abbrev start : Run ℕ
start = record { world = 0; agent = agent; role_data = none }

abbrev good : Step ℕ (Unit {0})
good s = (ok tt, record s { world = 1 })

abbrev bad : Step ℕ (Unit {0})
bad s = (err (other (text "refused")), s)

run_steps_first_error_example :
    run_steps ((text "one", good) ∷ (text "two", bad) ∷ (text "three", good) ∷ []) start
    ≡ (err (wrap (text "step " ++ text "two") (other (text "refused"))), record start { world = 1 })
unfolding run_steps
run_steps_first_error_example =
    run_steps_first_error ((text "one", good) ∷ []) ((text "three", good) ∷ []) (text "two") bad
      start (record start { world = 1 }) (record start { world = 1 }) (other (text "refused")) refl
      refl

abbrev ready : AgentCondition
ready = record {
  type = text "Ready";
  status = text "True";
  reason = text "Reconciled";
  message = [];
  last_transition_time = 7;
}

abbrev not_ready : AgentCondition
not_ready = record ready { status = text "False"; last_transition_time = 3 }

condition_of-set_condition_in_example :
    condition_of (text "Ready") (set_condition_in ready (not_ready ∷ [])) ≡ (
      if text_eq ready.type (text "Ready")
      then some ready
      else condition_of (text "Ready") (not_ready ∷ []))
condition_of-set_condition_in_example =
    condition_of-set_condition_in ready (text "Ready") (not_ready ∷ [])

count_of-set_condition_in_example :
    count_of (text "Ready") (set_condition_in ready (not_ready ∷ [])) ≡ (
      if text_eq ready.type (text "Ready")
      then max 1 (count_of (text "Ready") (not_ready ∷ []))
      else count_of (text "Ready") (not_ready ∷ []))
count_of-set_condition_in_example = count_of-set_condition_in ready (text "Ready") (not_ready ∷ [])

-- A cron library whose entry table is the number of the last entry.
abbrev lib : Cron ℕ
lib = record {
  remove = λ i c. c;
  add_func = λ schedule job c. (ok (entropy_gen.Common.suc c), entropy_gen.Common.suc c);
}

abbrev scheduler : CronScheduler ℕ
scheduler = record {
  cron = 1;
  jobs = (text "one", record { entry_id = 1; schedule = text "* * * * *" }) ∷ [];
}

sync-cases_example :
    Synced lib
      (text "one")
      (text "@daily")
      (text "go")
      (lookup (text "one") scheduler.jobs)
      scheduler
      (sync lib (text "one") (text "@daily") (text "go") scheduler)
    × ((other : Text)
        → text_eq (text "one") other ≡ false
        → lookup other (sync lib (text "one") (text "@daily") (text "go") scheduler).jobs
          ≡ lookup other scheduler.jobs)
sync-cases_example = sync-cases lib (text "one") (text "@daily") (text "go") scheduler
