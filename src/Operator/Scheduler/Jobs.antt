-- ===== src/Operator/Scheduler/Jobs.antt =====
-- What Sync and Remove do to the job table and to the cron library.
use entropy_gen.Common.{
  ℕ, ◌≡◌, ◌⊎◌, inl, inr, refl, ◌∙◌, false, Option, none, some, ◌++◌, if◌then◌else◌, Bool-cases,
}
use mathlib.Core.Path.{subst}
use entropy_gen.Common.Text.{Text, text, text_eq, text_eq_iff, text_eq_refl}
use entropy_gen.Common.Dict.{Dict, lookup, delete, lookup-insert, lookup-delete}
use entropy_gen.Common.Fallible.{Error, Result, ok, err}
use entropy_gen.Operator.Scheduler.{
  Cron, CronScheduler, JobEntry, drop_entry, record_entry, add_job, sync_with, remove, sync,
}

module _ {C : Type 0} (lib : Cron C) where
  lookup-drop_entry :
      (agent other : Text) (found : Option JobEntry) (s : CronScheduler C)
      → lookup agent s.jobs ≡ found
      → lookup other (drop_entry lib agent found s).jobs
        ≡ (if text_eq agent other then none else lookup other s.jobs)
  unfolding drop_entry
  lookup-drop_entry agent other none s e = elim (Bool-cases (text_eq agent other)) [
    | inl same ↦ rw same (subst (λ a. lookup a s.jobs ≡ none) ((text_eq_iff agent other).0 same) e)
    | inr apart ↦ rw apart refl
  ]
  lookup-drop_entry agent other (some j) s e = lookup-delete agent other s.jobs

  -- Afterwards the agent has no job, and every other agent has the job it had.
  pub lookup-remove :
      (agent other : Text) (s : CronScheduler C)
      → lookup other (remove lib agent s).jobs
        ≡ (if text_eq agent other then none else lookup other s.jobs)
  unfolding remove
  lookup-remove agent other s = lookup-drop_entry agent other (lookup agent s.jobs) s refl

  record_entry-others :
      (agent other schedule : Text) (jobs : Dict JobEntry) (r : Result ℕ × C)
      → text_eq agent other ≡ false
      → lookup other (record_entry lib agent schedule jobs r).jobs ≡ lookup other jobs
  unfolding record_entry
  record_entry-others agent other schedule jobs (ok i, c) e =
      lookup-insert agent other (record { entry_id = i; schedule = schedule }) jobs ∙ rw e refl
  record_entry-others agent other schedule jobs (err f, c) e = refl

  -- The agent's old entry, which has another schedule, is out of the cron library.
  abbrev pub Cleared : Text → Option JobEntry → C → C → Type 0
  Cleared schedule found before after =
      ((found ≡ none) × (after ≡ before))
      ⊎ ((j : JobEntry) × (found ≡ some j)
          × (text_eq j.schedule schedule ≡ false)
          × (after ≡ lib.remove j.entry_id before))

  -- The library was asked for a job: the agent has it under the library's number, or the library
  -- refused the schedule and the agent has none.
  abbrev pub Added : Text → Text → Text → C → CronScheduler C → Type 0
  Added agent schedule prompt c s =
      let r =
        lib.add_func schedule
          (record { stream = text "events:agent-" ++ agent; agent_name = agent; prompt = prompt })
          c in
      (s.cron ≡ r.1)
      × (((i : ℕ) × (r.0 ≡ ok i)
            × (lookup agent s.jobs ≡ some (record { entry_id = i; schedule = schedule })))
          ⊎ ((e : Error) × (r.0 ≡ err e) × (lookup agent s.jobs ≡ none)))

  abbrev pub Synced :
      Text → Text → Text → Option JobEntry → CronScheduler C → CronScheduler C → Type 0
  Synced agent schedule prompt found s s' =
      ((j : JobEntry) × (found ≡ some j) × (j.schedule ≡ schedule) × (s' ≡ s))
      ⊎ ((c : C) × Cleared schedule found s.cron c × Added agent schedule prompt c s')

  record_entry-Added :
      (agent schedule : Text) (jobs : Dict JobEntry) (r : Result ℕ × C)
      → lookup agent jobs ≡ none
      → ((record_entry lib agent schedule jobs r).cron ≡ r.1)
        × (((i : ℕ) × (r.0 ≡ ok i)
              × (lookup agent (record_entry lib agent schedule jobs r).jobs
                  ≡ some (record { entry_id = i; schedule = schedule })))
            ⊎ ((e : Error) × (r.0 ≡ err e)
                × (lookup agent (record_entry lib agent schedule jobs r).jobs ≡ none)))
  unfolding record_entry
  record_entry-Added agent schedule jobs (ok i, c) e = (
    refl,
    inl (
      i,
      refl,
      lookup-insert agent agent (record { entry_id = i; schedule = schedule }) jobs
          ∙ rw (text_eq_refl agent) refl,
    ),
  )
  record_entry-Added agent schedule jobs (err f, c) e = (refl, inr (f, refl, e))

  sync_with-Synced :
      (agent schedule prompt : Text) (found : Option JobEntry) (s : CronScheduler C)
      → lookup agent s.jobs ≡ found
      → Synced agent schedule prompt found s (sync_with lib agent schedule prompt found s)
  unfolding sync_with add_job
  sync_with-Synced agent schedule prompt none s e =
      inr (s.cron, inl (refl, refl), record_entry-Added agent schedule s.jobs _ e)
  sync_with-Synced agent schedule prompt (some j) s e =
      elim (Bool-cases (text_eq j.schedule schedule)) [
        | inl same ↦ rw same (inl (j, refl, (text_eq_iff j.schedule schedule).0 same, refl))
        | inr changed ↦ rw changed (
            inr (
              lib.remove j.entry_id s.cron,
              inr (j, refl, changed, refl),
              record_entry-Added agent schedule (delete agent s.jobs) _
                  (lookup-delete agent agent s.jobs ∙ rw (text_eq_refl agent) refl),
            ))
      ]

  sync_with-others :
      (agent schedule prompt : Text) (found : Option JobEntry) (s : CronScheduler C) (other : Text)
      → text_eq agent other ≡ false
      → lookup other (sync_with lib agent schedule prompt found s).jobs ≡ lookup other s.jobs
  unfolding sync_with add_job
  sync_with-others agent schedule prompt none s other apart =
      record_entry-others agent other schedule s.jobs _ apart
  sync_with-others agent schedule prompt (some j) s other apart =
      elim (Bool-cases (text_eq j.schedule schedule)) [
        | inl same ↦ rw same refl
        | inr changed ↦ rw changed (
            record_entry-others agent other schedule (delete agent s.jobs) _ apart
            ∙ lookup-delete agent other s.jobs
            ∙ rw apart refl)
      ]

  -- A job that has the schedule already stays as it is. Otherwise the agent's old entry, if there is
  -- one, leaves the cron library, the library is asked for a job under the new schedule, and the
  -- agent has that job under the number that it answers, or none if it refuses. Every other agent
  -- has the job it had.
  pub sync-cases :
      (agent schedule prompt : Text) (s : CronScheduler C)
      → Synced agent schedule prompt (lookup agent s.jobs) s (sync lib agent schedule prompt s)
        × ((other : Text)
            → text_eq agent other ≡ false
            → lookup other (sync lib agent schedule prompt s).jobs ≡ lookup other s.jobs)
  unfolding sync
  sync-cases agent schedule prompt s = (
    sync_with-Synced agent schedule prompt (lookup agent s.jobs) s refl,
    λ other apart. sync_with-others agent schedule prompt (lookup agent s.jobs) s other apart,
  )
