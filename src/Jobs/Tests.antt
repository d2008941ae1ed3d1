-- ===== src/Jobs/Tests.antt =====
-- A sample job is built, under a worker whose builds return a READY release at once.
use konnaxion_worlds.Base.{
  ◌≡◌, refl, inl, inr, true, false, none, some, [], ◌∷◌, any, find, put, text_eq, codes,
}
use konnaxion_worlds.Base.Exec.{ok, err}
use konnaxion_worlds.Models.{WorldBuildJob, JobStatus}
use konnaxion_worlds.Jobs.{
  Queue, Worker, built, update_rows, free_slot, record_event, build_queued, settle_job, begin,
  run_claimed, claim, run_in_slot, run_locked, start, build_world_release_task, job_id_of,
  dropped_locks,
}
use konnaxion_worlds.Jobs.Locks.{KeepsLocks, build_world_release_task-locks}
use konnaxion_worlds.Jobs.Outcomes.{
  Claimed, build_world_release_task-Reported, build_world_release_task_exclusive,
}
use konnaxion_worlds.Store.{all_saved, host_error}
use konnaxion_worlds.Samples.{second_release, installation}

abbrev job : WorldBuildJob
job = record {
  id = 3;
  world_id = 10;
  release_id = none;
  seed_pack_key = codes "alpha";
  seed_version = codes "1.0.0";
  promote_after_build = false;
  status = JobStatus.queued;
  celery_task_id = [];
  concurrency_slot = none;
  attempts = 0;
  expected_checksum = codes "cs";
  error = false;
  started_at = none;
  finished_at = none;
}

abbrev worker : Worker
worker = record {
  now = 70;
  concurrency = 1;
  task_id = codes "t1";
  meanwhile = λ moment jobs. jobs;
  load_pack = λ j. ok (codes "cs");
  build = λ j q. (ok second_release, q);
  start_failure = none;
  report_failure = none;
  bookkeeping = all_saved;
  closes_connection = true;
}

abbrev queue : Queue
queue = record { jobs = job ∷ []; job_locks = 9 ∷ []; slots = []; store = installation }

-- A worker whose builds fail, and close the connection.
abbrev failing_worker : Worker
failing_worker = record worker { build = λ j q. (err (host_error 1), dropped_locks worker j q) }

keeps : KeepsLocks failing_worker
keeps j q = inr (refl, refl)

locks_example :
    ((build_world_release_task failing_worker 3 queue).1.job_locks ≡ 9 ∷ [])
    × ((build_world_release_task failing_worker 3 queue).1.slots ≡ [])
locks_example = build_world_release_task-locks failing_worker keeps 3 queue

abbrev after : WorldBuildJob
after = record job {
  release_id = some 8;
  status = JobStatus.ready;
  celery_task_id = codes "t1";
  concurrency_slot = some 0;
  attempts = 1;
  started_at = some 70;
  finished_at = some 70;
}

ran : (build_world_release_task worker 3 queue).0 ≡ built 8
unfolding build_world_release_task start find any run_locked run_in_slot free_slot claim run_claimed
    begin put build_queued settle_job text_eq
ran = refl

reported_example : (after.status ≡ JobStatus.ready) × (after.release_id ≡ some 8)
unfolding build_world_release_task start find any run_locked run_in_slot free_slot claim run_claimed
    begin put build_queued settle_job text_eq record_event update_rows
reported_example =
    build_world_release_task-Reported worker
      (record { starts = refl; reports = refl; saves = refl }) 3 queue after (inl refl) refl

exclusive_example : Claimed worker 3 (find job_id_of 3 queue.jobs) queue
exclusive_example = build_world_release_task_exclusive worker 3 queue ran
