-- ===== src/Runtime/Scheduler/Valid.antt =====
-- runtime/scheduler.py: `running` follows the task through every call and step.
use mathlib.Core.Bool.{false≢true}
use fdv.Base.{
  ◌≡◌, refl, inl, inr, ◌||◌, ◌∙◌, ◌+◌, sym, ap, Bool, true, false, not, Option, none, some, String,
  if◌then◌else◌, ltb, Bool-cases,
}
use fdv.Domain.Order.{Time}
use fdv.Runtime.Scheduler.{
  JobState, LoopPoint, created, waiting, in_job, Task, absent, active, cancelling, done, with_task,
  cancel, start_job, pause_job, resume_job, trigger_now, stop_job, shut_job,
}
use fdv.Runtime.Scheduler.Loop.{
  seconds_until_next_run, ended, wait_for_wake, run_once, wait_or_run, turn, run_over, after_run,
  resumes, cancelled, finished, JobEvent, starting, pausing, resuming, triggering, stopping_job,
  shutting, turning, finishing, cancel_arriving, job_step,
}

abbrev pub runs : LoopPoint → Bool
runs created = false
runs (waiting timeout) = false
runs in_job = true

abbrev pub in_run : Task → Bool
in_run absent = false
in_run (active p) = runs p
in_run (cancelling p) = runs p
in_run done = false

-- A job says that it runs exactly while its task is in it.
abbrev pub JobValid : JobState → Type 0
JobValid j = j.running ≡ in_run j.task

pub with_task-in_run : (t : Task) → in_run (with_task t) ≡ in_run t
unfolding with_task
with_task-in_run absent = refl
with_task-in_run (active p) = refl
with_task-in_run (cancelling p) = refl
with_task-in_run done = refl

pub cancel-in_run : (t : Task) → in_run (cancel t) ≡ in_run t
unfolding cancel
cancel-in_run absent = refl
cancel-in_run (active p) = refl
cancel-in_run (cancelling p) = refl
cancel-in_run done = refl

wait_or_run-JobValid :
    (now : Time) (o : Option Time) (j : JobState)
    → j.running ≡ false
    → JobValid (wait_or_run now o j)
unfolding wait_or_run wait_for_wake run_once
wait_or_run-JobValid now none j v = refl
wait_or_run-JobValid now (some timeout) j v = elim (Bool-cases (ltb 0 timeout)) [
  | inl k ↦ rw k v
  | inr k ↦ rw k refl
]

turn-JobValid :
    (stopping : Bool) (now : Time) (j : JobState)
    → j.running ≡ false
    → JobValid (turn stopping now j)
unfolding turn ended wait_for_wake
turn-JobValid stopping now j v = elim (Bool-cases (stopping || not j.enabled)) [
  | inl k ↦ rw k refl
  | inr k ↦
      rw k
        (elim j.paused
          as (λ b. JobValid (
            if b
            then wait_for_wake none j
            else wait_or_run now (seconds_until_next_run now j.next_run_at) j)) [
              | true ↦ v
              | false ↦ wait_or_run-JobValid now (seconds_until_next_run now j.next_run_at) j v
            ])
]

after_run-JobValid :
    (stopping : Bool) (now : Time) (o : Option Time) (j : JobState)
    → j.running ≡ false
    → JobValid (after_run stopping now o j)
unfolding after_run wait_for_wake
after_run-JobValid stopping now none j v = v
after_run-JobValid stopping now (some interval) j v =
    turn-JobValid stopping now (record j { next_run_at = some (now + interval) }) v

finished-JobValid :
    (stopping : Bool) (now : Time) (error : Option String) (t : Task) (j : JobState)
    → JobValid j
    → JobValid (finished stopping now error t j)
unfolding finished run_over
finished-JobValid stopping now error absent j v = v
finished-JobValid stopping now error (active created) j v = v
finished-JobValid stopping now error (active (waiting timeout)) j v = v
finished-JobValid stopping now error (active in_job) j v =
    after_run-JobValid stopping now j.interval_seconds _ refl
finished-JobValid stopping now error (cancelling p) j v = v
finished-JobValid stopping now error done j v = v

cancelled-JobValid :
    (now : Time) (t : Task) (j : JobState) → j.task ≡ t → JobValid j → JobValid (cancelled now t j)
unfolding cancelled ended run_over
cancelled-JobValid now absent j k v = v
cancelled-JobValid now (active p) j k v = v
cancelled-JobValid now (cancelling created) j k v = v ∙ ap in_run k
cancelled-JobValid now (cancelling (waiting timeout)) j k v = refl
cancelled-JobValid now (cancelling in_job) j k v = refl
cancelled-JobValid now done j k v = v

resumes-in_run : (t : Task) (wake : Bool) → resumes t wake ≡ true → in_run t ≡ false
resumes-in_run (active created) wake h = refl
resumes-in_run (active (waiting timeout)) wake h = refl
resumes-in_run (active in_job) wake h = sym h ∙ refl
resumes-in_run absent wake h = refl
resumes-in_run (cancelling p) wake h = absurd (false≢true h)
resumes-in_run done wake h = refl

-- Every call on a job and every step of its task, a cancellation at any point of it included, keeps
-- the job's `running` true exactly while the task is in the job.
pub job_step-JobValid : (e : JobEvent) (j : JobState) → JobValid j → JobValid (job_step e j)
unfolding job_step start_job pause_job resume_job trigger_now stop_job shut_job
job_step-JobValid (starting now) j v = v ∙ sym (with_task-in_run j.task)
job_step-JobValid pausing j v = v
job_step-JobValid (resuming now) j v = v
job_step-JobValid (triggering now) j v = v ∙ sym (with_task-in_run j.task)
job_step-JobValid stopping_job j v = v ∙ sym (cancel-in_run j.task)
job_step-JobValid shutting j v = v ∙ sym (cancel-in_run j.task)
job_step-JobValid (turning stopping now) j v = elim (Bool-cases (resumes j.task j.wake)) [
  | inl k ↦ rw k (turn-JobValid stopping now j (v ∙ resumes-in_run j.task j.wake k))
  | inr k ↦ rw k v
]
job_step-JobValid (finishing stopping now error) j v =
    finished-JobValid stopping now error j.task j v
job_step-JobValid (cancel_arriving now) j v = cancelled-JobValid now j.task j refl v
