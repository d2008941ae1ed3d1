-- ===== src/Jobs.antt =====
-- backend/konnaxion/worlds/tasks.py and backend/konnaxion/worlds/services/build_queue.py: one
-- execution of a persisted build job, under an advisory lock of the job and a slot of a small pool.
pub mod Locks
pub mod Outcomes
pub mod Tests
use konnaxion_worlds.Base.{
  ℕ, zero, suc, ◌+◌, Bool, true, false, not, ◌&&◌, ◌||◌, Option, none, some, List, [], ◌∷◌, Text,
  text_eq, find, put, any, if◌then◌else◌, ◌==◌,
}
use konnaxion_worlds.Base.Exec.{Result, ok, err, Exec, pure, raise, ◌>>=◌, ◌>>◌}
use konnaxion_worlds.Models.{
  WorldRelease, ReleaseStatus, WorldBuildJob, JobStatus, is_terminal, is_queued, is_in_progress,
}
use konnaxion_worlds.Plane.{truthy}
use konnaxion_worlds.Store.{
  Store, Failure, EventType, does_not_exist, checksum_drift, job_interrupted, job_started,
  job_failed, job_ready, release_id_of, audit, Bookkeeping, bookkept,
}

-- The jobs, the advisory locks that sessions hold on jobs and on slots, and the control plane.
pub record Queue : Type 0 where
  pub jobs : List WorldBuildJob
  pub job_locks : List ℕ
  pub slots : List ℕ
  pub store : Store

abbrev pub job_id_of : WorldBuildJob → ℕ
job_id_of j = j.id

-- Between its statements a task gives way to other sessions, which may change the rows of jobs. They
-- take and give back no advisory lock.
pub data Moment : Type 0 where
  before_lock before_claim : Moment

pub record Worker : Type 0 where
  pub now : ℕ
  pub concurrency : ℕ
  pub task_id : Text
  pub meanwhile : Moment → List WorldBuildJob → List WorldBuildJob
  -- get_registered_seed_pack, of which the task reads the checksum
  pub load_pack : WorldBuildJob → Result Failure Text
  -- build_world_release, with the progress callback of the job
  pub build : WorldBuildJob → Exec Failure Queue WorldRelease
  -- what the reload of the claimed job, or the event of its start, raises before the try block
  pub start_failure : Option Failure
  -- what the event of a READY job raises after the job is saved
  pub report_failure : Option Failure
  -- how far the except block gets, whose own failures are swallowed
  pub bookkeeping : Bookkeeping
  -- the except block closes the connection, and with it the session
  pub closes_connection : Bool

pub data Outcome : Type 0 where
  missing retry interrupted : Outcome
  finished : JobStatus → Option ℕ → Outcome
  ignored : JobStatus → Option ℕ → Outcome
  built : ℕ → Outcome
  raised : Failure → Outcome

-- WorldBuildJob.objects.filter(pk=i).update(…)
unfoldable pub update_rows :
    ℕ → (WorldBuildJob → WorldBuildJob) → List WorldBuildJob → List WorldBuildJob
update_rows i f [] = []
update_rows i f (j ∷ js) = (if j.id == i then f j else j) ∷ update_rows i f js

abbrev pub update_job : ℕ → (WorldBuildJob → WorldBuildJob) → Queue → Queue
update_job i f q = record q { jobs = update_rows i f q.jobs }

abbrev pub holds : ℕ → List ℕ → Bool
holds i held = any (λ j. j == i) held

-- pg_advisory_unlock by the session that holds the lock
unfoldable pub unlock : ℕ → List ℕ → List ℕ
unlock i [] = []
unlock i (j ∷ held) = let rest = unlock i held in if j == i then held else j ∷ rest

abbrev pub unlock_slot : Option ℕ → List ℕ → List ℕ
unlock_slot none held = held
unlock_slot (some slot) held = unlock slot held

-- for slot in range(concurrency), from `slot` with `left` to go
unfoldable pub free_slot : (left slot : ℕ) → List ℕ → Option ℕ
free_slot zero slot held = none
free_slot (suc left) slot held =
    let rest = free_slot left (suc slot) held in if holds slot held then rest else some slot

unfoldable pub record_event : EventType → (world_id : ℕ) → Option ℕ → Queue → Queue
unfolding audit
record_event event world_id release_id q = record q {
  store = (audit event world_id release_id q.store).1;
}

-- _progress_job: the status of a release, as the status of its job.
abbrev pub job_status : ReleaseStatus → JobStatus
job_status ReleaseStatus.building = JobStatus.building
job_status ReleaseStatus.validating = JobStatus.validating
job_status ReleaseStatus.ready = JobStatus.ready
job_status ReleaseStatus.current = JobStatus.ready
job_status ReleaseStatus.failed = JobStatus.failed
job_status ReleaseStatus.frozen = JobStatus.building
job_status ReleaseStatus.archived = JobStatus.building

abbrev pub finishing : (now : ℕ) → JobStatus → WorldBuildJob → WorldBuildJob
finishing now JobStatus.ready job = record job { finished_at = some now; error = false }
finishing now JobStatus.failed job = record job { finished_at = some now; error = true }
finishing now _ job = job

unfoldable pub progress_job : (now job_id : ℕ) → WorldRelease → Queue → Queue
progress_job now job_id release = update_job job_id λ job.
    finishing now (job_status release.status)
      (record job { release_id = some release.id; status = job_status release.status })

-- _mark_interrupted_job: the partial release fails closed, and so does the job.
abbrev pub fail_partial : (now world_id : ℕ) → Option WorldRelease → Store → Store
fail_partial now world_id none s = s
fail_partial now world_id (some r) s =
    if r.world_id == world_id && is_in_progress r.status
    then record s {
      releases =
          put release_id_of
            (record r { status = ReleaseStatus.failed; build_finished_at = some now }) s.releases;
    }
    else s

abbrev pub partial_release : Option ℕ → Store → Option WorldRelease
partial_release none s = none
partial_release (some i) s = find release_id_of i s.releases

abbrev pub failed_job : (now : ℕ) → WorldBuildJob → WorldBuildJob
failed_job now job = record job { status = JobStatus.failed; error = true; finished_at = some now }

unfoldable pub mark_interrupted_job : (now : ℕ) → WorldBuildJob → Queue → Queue
unfolding record_event
mark_interrupted_job now job q = record_event job_interrupted job.world_id job.release_id (
    update_job job.id (failed_job now) (record q {
      store = fail_partial now job.world_id (partial_release job.release_id q.store) q.store;
    }))

module _ (worker : Worker) where
  -- The pack is loaded and compared with what was queued, and the release built.
  unfoldable pub build_queued : WorldBuildJob → Exec Failure Queue WorldRelease
  build_queued job = (λ q. (worker.load_pack job, q)) >>= build_checked
    where
      build_checked : Text → Exec Failure Queue WorldRelease
      build_checked checksum =
          if truthy job.expected_checksum && not (text_eq checksum job.expected_checksum)
          then raise checksum_drift
          else worker.build job

  abbrev pub recorded_release : Option WorldBuildJob → Option ℕ
  recorded_release none = none
  recorded_release (some job) = job.release_id

  -- connection.close(): PostgreSQL drops the advisory locks of the session.
  abbrev pub dropped_locks : WorldBuildJob → Queue → Queue
  dropped_locks job q = record q {
    job_locks = unlock job.id q.job_locks;
    slots = unlock_slot job.concurrency_slot q.slots;
  }

  abbrev pub closed_connection : WorldBuildJob → Queue → Queue
  closed_connection job q = if worker.closes_connection then dropped_locks job q else q

  abbrev pub fail_job : WorldBuildJob → Queue → Queue
  fail_job job q =
      bookkept worker.bookkeeping q (update_job job.id (failed_job worker.now) q)
        (record_event job_failed job.world_id (recorded_release (find job_id_of job.id q.jobs)))

  abbrev pub ready_job : WorldRelease → WorldBuildJob → WorldBuildJob
  ready_job release job = record job {
    release_id = some release.id;
    status = JobStatus.ready;
    error = false;
    finished_at = some worker.now;
  }

  abbrev pub report_ready : WorldBuildJob → WorldRelease → Option Failure → Queue → Outcome × Queue
  report_ready job release (some e) q = (raised e, q)
  report_ready job release none q =
      (built release.id, record_event job_ready job.world_id (some release.id) q)

  -- except: the job fails, if it can be saved, and the exception goes on. Then, without one: it is READY.
  unfoldable pub settle_job : WorldBuildJob → Result Failure WorldRelease × Queue → Outcome × Queue
  unfolding record_event
  settle_job job (err e, q) = (raised e, fail_job job (closed_connection job q))
  settle_job job (ok release, q) =
      report_ready job release worker.report_failure (update_job job.id (ready_job release) q)

  abbrev pub or_now : Option ℕ → Option ℕ
  or_now none = some worker.now
  or_now (some t) = some t

  abbrev pub or_this_task : Text → Text
  or_this_task [] = worker.task_id
  or_this_task (c ∷ s) = c ∷ s

  abbrev pub claimed : (slot : ℕ) → WorldBuildJob → WorldBuildJob
  claimed slot locked = record locked {
    status = JobStatus.building;
    started_at = or_now locked.started_at;
    concurrency_slot = some slot;
    attempts = locked.attempts + 1;
    celery_task_id = or_this_task locked.celery_task_id;
  }

  -- The claim is committed.
  unfoldable pub begin : WorldBuildJob → Queue → Queue
  begin job q = record q { jobs = put job_id_of job q.jobs }

  -- The job is reloaded and its start recorded, and then it is built.
  unfoldable pub run_claimed : WorldBuildJob → Option Failure → Queue → Outcome × Queue
  unfolding record_event build_queued settle_job
  run_claimed job (some e) q = (raised e, q)
  run_claimed job none q =
      settle_job job (build_queued job (record_event job_started job.world_id none q))

  -- The transaction that claims a queued job, and what follows it.
  unfoldable pub claim : (slot : ℕ) → Option WorldBuildJob → Queue → Outcome × Queue
  unfolding run_claimed begin
  claim slot none q = (raised does_not_exist, q)
  claim slot (some locked) q =
      if not (is_queued locked.status)
      then (ignored locked.status locked.release_id, q)
      else (let job = claimed slot locked in run_claimed job worker.start_failure (begin job q))

  -- finally: release_world_build_slot(slot)
  abbrev pub free : (slot : ℕ) → Outcome × Queue → Outcome × Queue
  free slot (outcome, q) = (outcome, record q { slots = unlock slot q.slots })

  unfoldable pub run_in_slot : (job_id : ℕ) → Option ℕ → Queue → Outcome × Queue
  unfolding claim
  run_in_slot job_id none q = (retry, q)
  run_in_slot job_id (some slot) q =
      let jobs = worker.meanwhile before_claim q.jobs in
      free slot
        (claim slot (find job_id_of job_id jobs) (record q { jobs = jobs; slots = slot ∷ q.slots }))

  unfoldable pub run_locked : (job_id : ℕ) → Option WorldBuildJob → Queue → Outcome × Queue
  unfolding run_in_slot mark_interrupted_job
  run_locked job_id none q = (raised does_not_exist, q)
  run_locked job_id (some job) q =
      if is_terminal job.status
      then (finished job.status job.release_id, q)
      else if is_queued job.status
      then run_in_slot job_id (free_slot worker.concurrency 0 q.slots) q
      else if truthy job.celery_task_id && text_eq worker.task_id job.celery_task_id
      then (interrupted, mark_interrupted_job worker.now job q)
      else (ignored job.status job.release_id, q)

  -- finally: release_world_build_job_lock(job.id)
  abbrev pub unlock_job : (job_id : ℕ) → Outcome × Queue → Outcome × Queue
  unlock_job job_id (outcome, q) = (outcome, record q { job_locks = unlock job_id q.job_locks })

  unfoldable pub start : Option WorldBuildJob → Queue → Outcome × Queue
  unfolding run_locked
  start none q = (missing, q)
  start (some job) q =
      if is_terminal job.status
      then (finished job.status job.release_id, q)
      else if holds job.id q.job_locks
      then (retry, q)
      else (let jobs = worker.meanwhile before_lock q.jobs in
          unlock_job job.id (
            run_locked job.id (find job_id_of job.id jobs)
              (record q { jobs = jobs; job_locks = job.id ∷ q.job_locks })))

  unfoldable pub build_world_release_task : (job_id : ℕ) → Queue → Outcome × Queue
  unfolding start
  build_world_release_task job_id q = start (find job_id_of job_id q.jobs) q
