-- ===== src/Runtime/Scheduler/Starts.antt =====
-- runtime/scheduler.py: which starts and triggers lead to a run.
use mathlib.Core.Bool.{false≢true}
use fdv.Base.{
  arith, ◌-◌, ◌≡◌, refl, inl, inr, sym, ap, ◌≤◌, Bool, true, false, Option, none, some, String,
  if◌then◌else◌, ltb, Bool-cases,
}
use fdv.Domain.Order.{Time}
use fdv.Runtime.Scheduler.{
  JobState, created, waiting, in_job, Task, absent, active, cancelling, done, is_live, with_task,
  cancel, start_job, trigger_now, stop_job,
}
use fdv.Runtime.Scheduler.Loop.{
  seconds_until_next_run, ended, wait_for_wake, run_once, wait_or_run, turn, run_over, after_run,
  resumes, cancelled, finished, starting, triggering, stopping_job, turning, finishing,
  cancel_arriving, job_step,
}
use fdv.Runtime.Scheduler.Valid.{in_run}

cancel-left :
    (now : Time) (t : Task) (j : JobState)
    → j.task ≡ with_task (cancel t)
    → is_live t ≡ true
    → is_live (cancelled now (with_task (cancel t)) j).task ≡ false
unfolding cancelled cancel with_task is_live ended run_over
cancel-left now absent j k h = absurd (false≢true h)
cancel-left now (active created) j k h = refl
cancel-left now (active (waiting timeout)) j k h = refl
cancel-left now (active in_job) j k h = refl
cancel-left now (cancelling created) j k h = refl
cancel-left now (cancelling (waiting timeout)) j k h = refl
cancel-left now (cancelling in_job) j k h = refl
cancel-left now done j k h = absurd (false≢true h)

cancel-enabled : (now : Time) (t : Task) (j : JobState) → (cancelled now t j).enabled ≡ j.enabled
unfolding cancelled ended run_over
cancel-enabled now absent j = refl
cancel-enabled now (active p) j = refl
cancel-enabled now (cancelling created) j = refl
cancel-enabled now (cancelling (waiting timeout)) j = refl
cancel-enabled now (cancelling in_job) j = refl
cancel-enabled now done j = refl

-- A job with a live task that is stopped, and started again before the cancellation arrives, is enabled
-- but has no live task once it arrives: the second start makes no task, and the first one ends.
pub start_job-after_stop :
    (now later : Time) (j : JobState)
    → is_live j.task ≡ true
    → let k =
        job_step (cancel_arriving later) (job_step (starting now) (job_step stopping_job j)) in
      (k.enabled ≡ true) × (is_live k.task ≡ false)
unfolding job_step start_job stop_job
start_job-after_stop now later j h = (
  cancel-enabled later (with_task (cancel j.task)) (start_job now (stop_job j)),
  cancel-left later j.task (start_job now (stop_job j)) refl h,
)

run_over-triggered :
    (now later : Time) (stopping : Bool) (error : Option String) (o : Option Time) (j : JobState)
    → o ≡ none
    → j.enabled ≡ true
    → after_run stopping later o
        (run_over later (record (trigger_now now j) { last_error = error }))
      ≡ after_run stopping later o (run_over later (record j { last_error = error }))
unfolding trigger_now after_run run_over wait_for_wake
run_over-triggered now later stopping error none j k e = cc
run_over-triggered now later stopping error (some interval) j k e = cc

finished-in_job :
    (now later : Time) (stopping : Bool) (error : Option String) (t : Task) (j : JobState)
    → t ≡ active in_job
    → j.interval_seconds ≡ none
    → j.enabled ≡ true
    → finished stopping later error (with_task t) (trigger_now now j)
      ≡ finished stopping later error t j
unfolding finished with_task trigger_now is_live
finished-in_job now later stopping error (active in_job) j t i e =
    run_over-triggered now later stopping error j.interval_seconds j i e
finished-in_job now later stopping error (active created) j t i e =
    absurd (false≢true (ap in_run t))
finished-in_job now later stopping error (active (waiting timeout)) j t i e =
    absurd (false≢true (ap in_run t))
finished-in_job now later stopping error (cancelling p) j t i e = cc
finished-in_job now later stopping error absent j t i e = absurd (false≢true (ap is_live t))
finished-in_job now later stopping error done j t i e = absurd (false≢true (ap is_live t))

-- Triggering an enabled job without an interval while it is in a run changes nothing once the run is
-- over: the end of the run forgets the time that the trigger set, and the wait clears the wake.
pub trigger_now-in_run :
    (now later : Time) (stopping : Bool) (error : Option String) (j : JobState)
    → j.task ≡ active in_job
    → j.interval_seconds ≡ none
    → j.enabled ≡ true
    → job_step (finishing stopping later error) (job_step (triggering now) j)
      ≡ job_step (finishing stopping later error) j
unfolding job_step trigger_now finished with_task after_run run_over wait_for_wake
trigger_now-in_run now later stopping error j t i e =
    finished-in_job now later stopping error j.task j t i e

with_task-resumes : (t : Task) → is_live t ≡ false → resumes (with_task t) true ≡ true
unfolding with_task is_live
with_task-resumes absent h = refl
with_task-resumes (active p) h = absurd (false≢true (sym h))
with_task-resumes (cancelling p) h = absurd (false≢true (sym h))
with_task-resumes done h = refl

due-runs :
    (now later : Time) (j : JobState)
    → now ≤ later
    → wait_or_run later (seconds_until_next_run later (some now)) j ≡ run_once later j
unfolding seconds_until_next_run wait_or_run
due-runs now later j le = elim (Bool-cases (ltb 0 (now - later))) [
  | inl k ↦ absurd (ground arith)
  | inr k ↦ rw k refl
]

triggered-turn :
    (now later : Time) (b : Bool) (j : JobState)
    → b ≡ false
    → now ≤ later
    → (if b
        then wait_for_wake none j
        else wait_or_run later (seconds_until_next_run later (some now)) j)
      ≡ run_once later j
triggered-turn now later true j p le = absurd (false≢true (sym p))
triggered-turn now later false j p le = due-runs now later j le

-- A job that is not paused and has no live task is in a run after a trigger and the first turn of the
-- task that the trigger makes, if that turn is not before the trigger and the scheduler is not stopping.
pub trigger_now-runs :
    (now later : Time) (j : JobState)
    → is_live j.task ≡ false
    → j.paused ≡ false
    → now ≤ later
    → let k = job_step (turning false later) (job_step (triggering now) j) in
      (k.running ≡ true) × (k.task ≡ active in_job)
unfolding job_step trigger_now turn run_once
trigger_now-runs now later j h p le =
    rw (with_task-resumes j.task h)
      (rw (triggered-turn now later j.paused (trigger_now now j) p le) (refl, refl))
