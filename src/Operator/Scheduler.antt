-- ===== src/Operator/Scheduler.antt =====
-- internal/operator/scheduler/cron_scheduler.go: at most one cron job for each agent. The cron
-- library is a parameter; a job is the data that its callback closes over.
pub mod Jobs
use entropy_gen.Common.{ℕ, Option, none, some, ◌++◌, if◌then◌else◌}
use entropy_gen.Common.Text.{Text, text, text_eq}
use entropy_gen.Common.Dict.{Dict, lookup, insert, delete}
use entropy_gen.Common.Fallible.{Result, ok, err}

pub record Job : Type 0 where
  pub stream : Text
  pub agent_name : Text
  pub prompt : Text

-- What the entry table of the library offers: entries are found by their number.
pub record Cron (C : Type 0) : Type 0 where
  pub remove : ℕ → C → C
  pub add_func : Text → Job → C → Result ℕ × C

pub record JobEntry : Type 0 where
  pub entry_id : ℕ
  pub schedule : Text

pub record CronScheduler (C : Type 0) : Type 0 where
  pub cron : C
  pub jobs : Dict JobEntry

module _ {C : Type 0} (lib : Cron C) where
  unfoldable pub drop_entry : Text → Option JobEntry → CronScheduler C → CronScheduler C
  drop_entry agent none s = s
  drop_entry agent (some j) s = record {
    cron = lib.remove j.entry_id s.cron;
    jobs = delete agent s.jobs;
  }

  unfoldable pub remove : Text → CronScheduler C → CronScheduler C
  unfolding drop_entry
  remove agent s = drop_entry agent (lookup agent s.jobs) s

  -- An invalid schedule is passed over: the agent then has no job.
  unfoldable pub record_entry : Text → Text → Dict JobEntry → Result ℕ × C → CronScheduler C
  record_entry agent schedule jobs (ok i, c) = record {
    cron = c;
    jobs = insert agent (record { entry_id = i; schedule = schedule }) jobs;
  }
  record_entry agent schedule jobs (err e, c) = record { cron = c; jobs = jobs }

  unfoldable pub add_job : Text → Text → Text → CronScheduler C → CronScheduler C
  unfolding record_entry
  add_job agent schedule prompt s = record_entry agent schedule s.jobs (
      lib.add_func schedule
        (record { stream = text "events:agent-" ++ agent; agent_name = agent; prompt = prompt })
        s.cron)

  unfoldable pub sync_with :
      Text → Text → Text → Option JobEntry → CronScheduler C → CronScheduler C
  unfolding add_job drop_entry
  sync_with agent schedule prompt none s = add_job agent schedule prompt s
  sync_with agent schedule prompt (some j) s =
      if text_eq j.schedule schedule
      then s
      else add_job agent schedule prompt (drop_entry agent (some j) s)

  unfoldable pub sync : Text → Text → Text → CronScheduler C → CronScheduler C
  unfolding sync_with
  sync agent schedule prompt s = sync_with agent schedule prompt (lookup agent s.jobs) s
