-- ===== src/Runtime/Scheduler/Loop.antt =====
-- runtime/scheduler.py: `_run_job_loop`, as turns between one `await` and the next.
use fdv.Base.{
  suc, ◌+◌, ◌-◌, String, Bool, true, false, Option, none, some, List, [], ◌∷◌, if◌then◌else◌, not,
  ◌||◌, ltb,
}
use fdv.Domain.Order.{Time}
use fdv.Runtime.Scheduler.{
  JobState, LoopPoint, created, waiting, in_job, Task, absent, active, cancelling, done, start_job,
  pause_job, resume_job, trigger_now, stop_job, shut_job,
}

-- The difference stops at 0, as the source has it.
unfoldable pub seconds_until_next_run : Time → Option Time → Option Time
seconds_until_next_run now none = none
seconds_until_next_run now (some at) = some (at - now)

unfoldable pub ended : JobState → JobState
ended j = record j { running = false; task = absent }

-- `_wait_for_wake` up to its `await`.
unfoldable pub wait_for_wake : Option Time → JobState → JobState
wait_for_wake timeout j = record j { wake = false; task = active (waiting timeout) }

-- `_run_once` up to its `await`.
unfoldable pub run_once : Time → JobState → JobState
run_once now j = record j {
  running = true;
  last_started_at = some now;
  last_error = none;
  task = active in_job;
}

unfoldable pub wait_or_run : Time → Option Time → JobState → JobState
unfolding run_once wait_for_wake
wait_or_run now none j = run_once now j
wait_or_run now (some timeout) j =
    if ltb 0 timeout then wait_for_wake (some timeout) j else run_once now j

-- From the loop's condition to its next `await`, or to its end.
unfoldable pub turn : Bool → Time → JobState → JobState
unfolding ended wait_for_wake wait_or_run seconds_until_next_run
turn stopping now j =
    if stopping || not j.enabled
    then ended j
    else if j.paused
    then wait_for_wake none j
    else wait_or_run now (seconds_until_next_run now j.next_run_at) j

-- The `finally` of `_run_once`.
unfoldable pub run_over : Time → JobState → JobState
run_over now j = record j {
  run_count = suc j.run_count;
  running = false;
  last_finished_at = some now;
}

-- After `_run_once`: a job without an interval waits for a wake, another is due after its interval.
unfoldable pub after_run : Bool → Time → Option Time → JobState → JobState
unfolding wait_for_wake turn
after_run stopping now none j = wait_for_wake none (record j { next_run_at = none })
after_run stopping now (some interval) j =
    turn stopping now (record j { next_run_at = some (now + interval) })

-- A wait ends when the job is woken, one with a timeout also when its time is over.
abbrev pub may_resume : LoopPoint → Bool → Bool
may_resume created wake = true
may_resume (waiting none) wake = wake
may_resume (waiting (some timeout)) wake = true
may_resume in_job wake = false

abbrev pub resumes : Task → Bool → Bool
resumes absent wake = false
resumes (active p) wake = may_resume p wake
resumes (cancelling p) wake = false
resumes done wake = false

-- The CancelledError arrives: a task that has not begun is done with no `finally` run.
unfoldable pub cancelled : Time → Task → JobState → JobState
unfolding ended run_over
cancelled now absent j = j
cancelled now (active p) j = j
cancelled now (cancelling created) j = record j { task = done }
cancelled now (cancelling (waiting timeout)) j = ended j
cancelled now (cancelling in_job) j = ended (run_over now j)
cancelled now done j = j

-- The job returns, or raises an error with a text, while its task is in it.
unfoldable pub finished : Bool → Time → Option String → Task → JobState → JobState
unfolding run_over after_run
finished stopping now error absent j = j
finished stopping now error (active created) j = j
finished stopping now error (active (waiting timeout)) j = j
finished stopping now error (active in_job) j =
    after_run stopping now j.interval_seconds (run_over now (record j { last_error = error }))
finished stopping now error (cancelling p) j = j
finished stopping now error done j = j

-- What can happen to a job: the calls, and what its task does. A task that cannot take the step
-- leaves the job as it is.
pub data JobEvent : Type 0 where
  starting : Time → JobEvent
  pausing : JobEvent
  resuming : Time → JobEvent
  triggering : Time → JobEvent
  stopping_job : JobEvent
  shutting : JobEvent
  turning : Bool → Time → JobEvent
  finishing : Bool → Time → Option String → JobEvent
  cancel_arriving : Time → JobEvent

unfoldable pub job_step : JobEvent → JobState → JobState
unfolding start_job pause_job resume_job trigger_now stop_job shut_job turn finished cancelled
job_step (starting now) j = start_job now j
job_step pausing j = pause_job j
job_step (resuming now) j = resume_job now j
job_step (triggering now) j = trigger_now now j
job_step stopping_job j = stop_job j
job_step shutting j = shut_job j
job_step (turning stopping now) j = if resumes j.task j.wake then turn stopping now j else j
job_step (finishing stopping now error) j = finished stopping now error j.task j
job_step (cancel_arriving now) j = cancelled now j.task j

unfoldable pub job_run : List JobEvent → JobState → JobState
unfolding job_step
job_run [] j = j
job_run (e ∷ rest) j = job_run rest (job_step e j)
