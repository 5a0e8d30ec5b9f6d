-- ===== src/Runtime/Scheduler/Pausing.antt =====
-- runtime/scheduler.py: a paused job starts no run.
use mathlib.Core.Bool.{false≢true}
use fdv.Base.{
  All, ◌≡◌, refl, inl, inr, ◌||◌, ◌∙◌, sym, Bool, true, false, not, Option, List, [], ◌∷◌, String,
  Bool-cases,
}
use fdv.Domain.Order.{Time}
use fdv.Runtime.Scheduler.{
  JobState, created, waiting, in_job, Task, absent, active, cancelling, done, start_job, pause_job,
  trigger_now, shut_job,
}
use fdv.Runtime.Scheduler.Loop.{
  ended, wait_for_wake, turn, run_over, resumes, cancelled, finished, JobEvent, starting, pausing,
  resuming, triggering, stopping_job, shutting, turning, finishing, cancel_arriving, job_step,
  job_run,
}
use fdv.Runtime.Scheduler.Valid.{in_run, with_task-in_run, cancel-in_run}

-- While no call resumes or stops the job.
abbrev pub LeavesPaused : JobEvent → Type 0
LeavesPaused (starting now) = Unit {0}
LeavesPaused pausing = Unit {0}
LeavesPaused (resuming now) = ⊥
LeavesPaused (triggering now) = Unit {0}
LeavesPaused stopping_job = ⊥
LeavesPaused shutting = Unit {0}
LeavesPaused (turning stopping now) = Unit {0}
LeavesPaused (finishing stopping now error) = Unit {0}
LeavesPaused (cancel_arriving now) = Unit {0}

abbrev pub Quiet : JobState → Type 0
Quiet j = (j.paused ≡ true) × (in_run j.task ≡ false)

-- Nothing of the sort happened and nothing ran.
abbrev Same : JobState → JobState → Type 0
Same j k = Quiet k × (k.run_count ≡ j.run_count)

turn-Quiet : (stopping : Bool) (now : Time) (j : JobState) → Quiet j → Same j (turn stopping now j)
unfolding turn ended wait_for_wake
turn-Quiet stopping now j (p, q) = elim (Bool-cases (stopping || not j.enabled)) [
  | inl k ↦ rw k ((p, refl), refl)
  | inr k ↦ rw k (rw p ((refl, refl), refl))
]

finished-Quiet :
    (stopping : Bool) (now : Time) (error : Option String) (t : Task) (j : JobState)
    → in_run t ≡ false
    → finished stopping now error t j ≡ j
unfolding finished
finished-Quiet stopping now error absent j q = refl
finished-Quiet stopping now error (active created) j q = refl
finished-Quiet stopping now error (active (waiting timeout)) j q = refl
finished-Quiet stopping now error (active in_job) j q = absurd (false≢true (sym q))
finished-Quiet stopping now error (cancelling p) j q = refl
finished-Quiet stopping now error done j q = refl

cancelled-Quiet :
    (now : Time) (t : Task) (j : JobState) → in_run t ≡ false → Quiet j → Same j (cancelled now t j)
unfolding cancelled ended run_over
cancelled-Quiet now absent j q v = (v, refl)
cancelled-Quiet now (active p) j q v = (v, refl)
cancelled-Quiet now (cancelling created) j q v = ((v.0, refl), refl)
cancelled-Quiet now (cancelling (waiting timeout)) j q v = ((v.0, refl), refl)
cancelled-Quiet now (cancelling in_job) j q v = absurd (false≢true (sym q))
cancelled-Quiet now done j q v = (v, refl)

job_step-Same : (e : JobEvent) (j : JobState) → LeavesPaused e → Quiet j → Same j (job_step e j)
unfolding job_step start_job pause_job trigger_now shut_job
job_step-Same (starting now) j f (p, q) = ((p, with_task-in_run j.task ∙ q), refl)
job_step-Same pausing j f (p, q) = ((refl, q), refl)
job_step-Same (resuming now) j f v = absurd f
job_step-Same (triggering now) j f (p, q) = ((p, with_task-in_run j.task ∙ q), refl)
job_step-Same stopping_job j f v = absurd f
job_step-Same shutting j f (p, q) = ((p, cancel-in_run j.task ∙ q), refl)
job_step-Same (turning stopping now) j f v = elim (Bool-cases (resumes j.task j.wake)) [
  | inl k ↦ rw k (turn-Quiet stopping now j v)
  | inr k ↦ rw k (v, refl)
]
job_step-Same (finishing stopping now error) j f v =
    rw (finished-Quiet stopping now error j.task j v.1) (v, refl)
job_step-Same (cancel_arriving now) j f v = cancelled-Quiet now j.task j v.1 v

-- Whatever happens to a paused job that is not in a run, the calls that start or trigger it included,
-- no run of it begins and none is counted, as long as no call resumes or stops it.
pub job_run-Quiet :
    (es : List JobEvent) (j : JobState)
    → All LeavesPaused es
    → Quiet j
    → (Quiet (job_run es j)) × ((job_run es j).run_count ≡ j.run_count)
unfolding job_run
job_run-Quiet [] j f v = (v, refl)
job_run-Quiet (e ∷ rest) j f v =
    let s = job_step-Same e j f.0 v in
    let r = job_run-Quiet rest (job_step e j) f.1 s.0 in (r.0, r.1 ∙ s.1)
