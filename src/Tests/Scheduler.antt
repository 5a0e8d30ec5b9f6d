-- ===== src/Tests/Scheduler.antt =====
-- runtime/scheduler.py: runs of one job.
use fdv.Base.{arith, ◌≡◌, refl, true, false, none, some, [], ◌∷◌}
use fdv.Runtime.Scheduler.{
  JobState, in_job, active, new_job, is_live, stop_job, with_task, first_run_at, cancel,
}
use fdv.Runtime.Scheduler.Loop.{
  starting, triggering, stopping_job, turning, finishing, cancel_arriving, job_step, job_run,
}
use fdv.Runtime.Scheduler.Valid.{JobValid, job_step-JobValid}
use fdv.Runtime.Scheduler.Pausing.{job_run-Quiet, Quiet}
use fdv.Runtime.Scheduler.Starts.{start_job-after_stop, trigger_now-in_run, trigger_now-runs}

abbrev discovery : JobState
unfolding new_job
discovery = new_job 10 "low" none [] true true

abbrev discovery_in_run : JobState
unfolding job_run
discovery_in_run = job_run (starting 10 ∷ turning false 11 ∷ []) discovery

discovery-run_count :
    (job_run (finishing false 15 (some "timed out") ∷ []) discovery_in_run).run_count ≡ 1
unfolding discovery_in_run discovery new_job job_run with_task first_run_at
discovery-run_count = refl

job_step-JobValid_example : JobValid (job_step (cancel_arriving 13) (stop_job discovery_in_run))
unfolding discovery_in_run discovery new_job job_run with_task first_run_at stop_job cancel
job_step-JobValid_example = job_step-JobValid (cancel_arriving 13) (stop_job discovery_in_run) refl

job_run-Quiet_example :
    let j = job_run (triggering 20 ∷ turning false 21 ∷ []) (record discovery { paused = true }) in
    (Quiet j) × (j.run_count ≡ 0)
unfolding discovery new_job
job_run-Quiet_example =
    job_run-Quiet (triggering 20 ∷ turning false 21 ∷ []) (record discovery { paused = true })
      (tt, (tt, tt)) (refl, refl)

start_job-after_stop_example :
    let k =
      job_step
        (cancel_arriving 30)
        (job_step (starting 20) (job_step stopping_job discovery_in_run)) in
    (k.enabled ≡ true) × (is_live k.task ≡ false)
unfolding discovery_in_run discovery new_job job_run with_task first_run_at is_live
start_job-after_stop_example = start_job-after_stop 20 30 discovery_in_run refl

trigger_now-in_run_example :
    job_step (finishing false 15 none) (job_step (triggering 12) discovery_in_run)
    ≡ job_step (finishing false 15 none) discovery_in_run
unfolding discovery_in_run discovery new_job job_run with_task first_run_at
trigger_now-in_run_example = trigger_now-in_run 12 15 false none discovery_in_run refl refl refl

trigger_now-runs_example :
    let k = job_step (turning false 12) (job_step (triggering 11) discovery) in
    (k.running ≡ true) × (k.task ≡ active in_job)
unfolding discovery new_job is_live
trigger_now-runs_example = trigger_now-runs 11 12 discovery refl refl (omega arith)
