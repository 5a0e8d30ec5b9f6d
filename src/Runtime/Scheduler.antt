-- ===== src/Runtime/Scheduler.antt =====
-- runtime/scheduler.py: the jobs and the calls on them. A task is the asyncio task of the job's loop;
-- times and seconds are numbers of one unit, so that no interval is negative.
pub mod Loop
pub mod Valid
pub mod Pausing
pub mod Starts
use fdv.Base.{
  ℕ, ◌+◌, String, Bool, true, false, Option, none, some, List, [], ◌∷◌, if◌then◌else◌, ◌&&◌,
  string_eq,
}
use fdv.Base.Dict.{Dict, lookup, insert}
use fdv.Domain.Order.{Time}

-- Where the loop of a job stands between two turns of the event loop: not begun, waiting for a wake
-- (for at most so long, if there is a timeout), or in the job.
pub data LoopPoint : Type 0 where
  created : LoopPoint
  waiting : Option Time → LoopPoint
  in_job : LoopPoint

-- `task` of a job: none, a task that goes on, one that was asked to cancel, or one that is done.
pub data Task : Type 0 where
  absent : Task
  active : LoopPoint → Task
  cancelling : LoopPoint → Task
  done : Task

pub record JobState : Type 0 where
  pub priority : String
  pub interval_seconds : Option Time
  pub tags : List String
  pub enabled : Bool
  pub run_immediately : Bool
  pub paused : Bool
  pub running : Bool
  pub run_count : ℕ
  pub last_started_at : Option Time
  pub last_finished_at : Option Time
  pub next_run_at : Option Time
  pub last_error : Option String
  pub task : Task
  pub wake : Bool

pub record Scheduler : Type 0 where
  pub jobs : Dict String JobState
  pub stop_event : Bool

-- `not (state.task is None or state.task.done())`
unfoldable pub is_live : Task → Bool
is_live absent = false
is_live (active p) = true
is_live (cancelling p) = true
is_live done = false

-- `if state.task is None or state.task.done(): state.task = asyncio.create_task(...)`
unfoldable pub with_task : Task → Task
with_task absent = active created
with_task (active p) = active p
with_task (cancelling p) = cancelling p
with_task done = active created

-- `if state.task is not None: state.task.cancel()`
unfoldable pub cancel : Task → Task
cancel absent = absent
cancel (active p) = cancelling p
cancel (cancelling p) = cancelling p
cancel done = done

-- `if state.next_run_at is None and state.interval_seconds is not None: ... = _utc_now()`
unfoldable pub first_run_at : Time → Option Time → Option Time → Option Time
first_run_at now (some interval) none = some now
first_run_at now none none = none
first_run_at now interval (some at) = some at

unfoldable pub start_job : Time → JobState → JobState
start_job now j = record j {
  enabled = true;
  next_run_at = first_run_at now j.interval_seconds j.next_run_at;
  task = with_task j.task;
  wake = true;
}

unfoldable pub pause_job : JobState → JobState
pause_job j = record j { paused = true; wake = true }

unfoldable pub resume_job : Time → JobState → JobState
resume_job now j = record j {
  paused = false;
  next_run_at = first_run_at now j.interval_seconds j.next_run_at;
  wake = true;
}

unfoldable pub trigger_now : Time → JobState → JobState
trigger_now now j = record j {
  enabled = true;
  next_run_at = some now;
  task = with_task j.task;
  wake = true;
}

unfoldable pub stop_job : JobState → JobState
stop_job j = record j {
  enabled = false;
  paused = false;
  next_run_at = none;
  task = cancel j.task;
  wake = true;
}

-- The part of `shutdown` for one job.
unfoldable pub shut_job : JobState → JobState
shut_job j = record j { enabled = false; task = cancel j.task; wake = true }

unfoldable pub new_job : Time → String → Option Time → List String → Bool → Bool → JobState
new_job now priority interval tags start run_immediately = record {
  priority = priority;
  interval_seconds = interval;
  tags = tags;
  enabled = start;
  run_immediately = run_immediately;
  paused = false;
  running = false;
  run_count = 0;
  last_started_at = none;
  last_finished_at = none;
  next_run_at = if start && run_immediately then some now else none;
  last_error = none;
  task = absent;
  wake = false;
}

unfoldable pub register_found :
    Time → Scheduler → String → JobState → Bool → Option JobState → Option Scheduler
register_found now s name j start (some old) = none
register_found now s name j start none =
    some (record s { jobs = insert name (if start then start_job now j else j) s.jobs })

-- `register_job`; `none` is the ValueError of a name that is taken.
unfoldable pub register_job : Time → Scheduler → String → JobState → Bool → Option Scheduler
unfolding register_found
register_job now s name j start = register_found now s name j start (lookup name s.jobs)

unfoldable pub call_found :
    (JobState → JobState) → Scheduler → String → Option JobState → Option Scheduler
call_found call s name none = none
call_found call s name (some j) = some (record s { jobs = insert name (call j) s.jobs })

-- A call on the job of a name; `none` is the KeyError of a name that is not registered.
unfoldable pub on_job : (JobState → JobState) → Scheduler → String → Option Scheduler
unfolding call_found
on_job call s name = call_found call s name (lookup name s.jobs)

abbrev pub on_jobs : (JobState → JobState) → Dict String JobState → Dict String JobState
on_jobs call [] = []
on_jobs call ((name, j) ∷ rest) = (name, call j) ∷ on_jobs call rest

unfoldable pub start_all : Time → Scheduler → Scheduler
start_all now s = record s { jobs = on_jobs (λ j. if j.enabled then start_job now j else j) s.jobs }

unfoldable pub shutdown : Scheduler → Scheduler
shutdown s = record { jobs = on_jobs shut_job s.jobs; stop_event = true }
