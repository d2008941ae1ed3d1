-- ===== src/Jobs/Outcomes.antt =====
-- What the row of a job says once its task has ended, and when a task builds at all.
use konnaxion_worlds.Base.{
  ℕ, ◌<◌, ◌≡◌, ◌≢◌, inl, inr, refl, ap, sym, ◌∙◌, subst, true, false, ◌&&◌, Option, none, some,
  List, [], ◌∷◌, In, arith, text_eq, find, find-In, ◌==◌, ==_iff, Option-cases, Bool-cases,
}
use konnaxion_worlds.Base.Exec.{Result, ok, err}
use konnaxion_worlds.Models.{WorldRelease, WorldBuildJob, JobStatus, is_queued, is_terminal}
use konnaxion_worlds.Plane.{truthy}
use konnaxion_worlds.Store.{
  Failure, Bookkeeping, not_saved, row_saved, all_saved, bookkept, saves_row, job_failed,
  job_started,
}
use konnaxion_worlds.Jobs.{
  Queue, Worker, Outcome, before_lock, before_claim, job_id_of, holds, free_slot, record_event,
  mark_interrupted_job, build_queued, settle_job, claim, run_in_slot, run_locked, start,
  build_world_release_task, built, raised, interrupted, retry, update_rows, missing, finished,
  ignored, begin, claimed, failed_job, closed_connection, fail_job, ready_job, run_claimed,
  recorded_release, update_job,
}
use konnaxion_worlds.Jobs.Locks.{free_slot_lem}

-- The row `j` of the job agrees with the outcome that the task reports.
abbrev pub Reported : Outcome → WorldBuildJob → Type 0
Reported (built r) j = (j.status ≡ JobStatus.ready) × (j.release_id ≡ some r)
Reported (raised e) j = j.status ≡ JobStatus.failed
Reported interrupted j = j.status ≡ JobStatus.failed
Reported missing j = Unit
Reported retry j = Unit
Reported (finished s r) j = Unit
Reported (ignored s r) j = Unit

In-update_rows :
    (i : ℕ) (f : WorldBuildJob → WorldBuildJob) (js : List WorldBuildJob) (j : WorldBuildJob)
    → In j (update_rows i f js)
    → ((x : WorldBuildJob) → (f x).id ≡ x.id)
    → j.id ≡ i
    → (x : WorldBuildJob) × (f x ≡ j)
unfolding update_rows
In-update_rows i f [] j m same e = elim m [ ]
In-update_rows i f (x ∷ xs) j (inr m) same e = In-update_rows i f xs j m same e
In-update_rows i f (x ∷ xs) j (inl here) same e = elim (Bool-cases (x.id == i)) [
  | inl t ↦ (x, rw t at here)
  | inr n ↦ absurd (cc (n, (==_iff x.id i).1 (ap job_id_of (rw n at here) ∙ e)))
]

find-none :
    (i : ℕ) (js : List WorldBuildJob) (j : WorldBuildJob)
    → find job_id_of i js ≡ none
    → In j js
    → j.id ≢ i
unfolding find
find-none i [] j h m e = elim m [ ]
find-none i (x ∷ xs) j h (inl here) e =
    let t = (==_iff x.id i).1 (ap job_id_of here ∙ e) in absurd (cc (rw t at h))
find-none i (x ∷ xs) j h (inr m) e = ground (arith, find-none i xs j)

-- What the task asks of its surroundings: nothing raises between the claim and the try block, nor
-- when the READY job is reported, and the except block can save the row of the job.
pub record CanReport (worker : Worker) : Type 0 where
  pub starts : worker.start_failure ≡ none
  pub reports : worker.report_failure ≡ none
  pub saves : saves_row worker.bookkeeping ≡ true

bookkept-jobs :
    (b : Bookkeeping) (before written : Queue) (record_it : Queue → Queue)
    → (record_it written).jobs ≡ written.jobs
    → saves_row b ≡ true
    → (bookkept b before written record_it).jobs ≡ written.jobs
bookkept-jobs not_saved before written record_it same saves = absurd cc
bookkept-jobs row_saved before written record_it same saves = refl
bookkept-jobs all_saved before written record_it same saves = same

closed_connection-jobs :
    (worker : Worker) (job : WorldBuildJob) (q : Queue)
    → (closed_connection worker job q).jobs ≡ q.jobs
closed_connection-jobs worker job q = ground arith

module _ (worker : Worker) (can : CanReport worker) where
  fail_job-failed :
      (job : WorldBuildJob) (q : Queue) (j : WorldBuildJob)
      → In j (fail_job worker job q).jobs
      → j.id ≡ job.id
      → j.status ≡ JobStatus.failed
  unfolding record_event
  fail_job-failed job q j m same =
      let rows =
        bookkept-jobs worker.bookkeeping q (update_job job.id (failed_job worker.now) q)
          (record_event job_failed job.world_id
            (recorded_release worker (find job_id_of job.id q.jobs)))
          refl can.saves in
      let (x, made) =
        In-update_rows job.id (failed_job worker.now) q.jobs j (subst (In j) rows m) (λ x. refl)
          same in
      sym (ap (λ (y : WorldBuildJob). y.status) made)

  settle_job-Reported :
      (job : WorldBuildJob) (r : Result Failure WorldRelease × Queue) (j : WorldBuildJob)
      → In j (settle_job worker job r).1.jobs
      → j.id ≡ job.id
      → Reported (settle_job worker job r).0 j
  unfolding settle_job record_event
  settle_job-Reported job (err e, q) j m same =
      fail_job-failed job (closed_connection worker job q) j m same
  settle_job-Reported job (ok release, q) j m same =
      let (x, made) =
        In-update_rows job.id (ready_job worker release) q.jobs j (rw can.reports at m) (λ x. refl)
          same in
      rw can.reports (
        sym (ap (λ (y : WorldBuildJob). y.status) made),
        sym (ap (λ (y : WorldBuildJob). y.release_id) made),
      )

  claim-Reported :
      (slot i : ℕ) (o : Option WorldBuildJob) (q : Queue) (j : WorldBuildJob)
      → find job_id_of i q.jobs ≡ o
      → In j (claim worker slot o q).1.jobs
      → j.id ≡ i
      → Reported (claim worker slot o q).0 j
  unfolding claim run_claimed
  claim-Reported slot i none q j e m same = absurd (find-none i q.jobs j e m same)
  claim-Reported slot i (some locked) q j e m same = elim (Bool-cases (is_queued locked.status)) [
    | inr f ↦ rw f tt
    | inl t ↦
        let job = claimed worker slot locked in
        let entered = record_event job_started job.world_id none (begin worker job q) in
        rw (t, can.starts)
          (settle_job-Reported job (build_queued worker job entered) j (rw (t, can.starts) at m)
            (same ∙ sym (find-In job_id_of i q.jobs e).1))
  ]

  run_in_slot-Reported :
      (i : ℕ) (o : Option ℕ) (q : Queue) (j : WorldBuildJob)
      → In j (run_in_slot worker i o q).1.jobs
      → j.id ≡ i
      → Reported (run_in_slot worker i o q).0 j
  unfolding run_in_slot
  run_in_slot-Reported i none q j m same = tt
  run_in_slot-Reported i (some slot) q j m same =
      let jobs = worker.meanwhile before_claim q.jobs in
      claim-Reported slot i (find job_id_of i jobs)
        (record q { jobs = jobs; slots = slot ∷ q.slots }) j refl m same

  run_locked-Reported :
      (i : ℕ) (o : Option WorldBuildJob) (q : Queue) (j : WorldBuildJob)
      → find job_id_of i q.jobs ≡ o
      → In j (run_locked worker i o q).1.jobs
      → j.id ≡ i
      → Reported (run_locked worker i o q).0 j
  unfolding run_locked mark_interrupted_job record_event
  run_locked-Reported i none q j e m same = absurd (find-none i q.jobs j e m same)
  run_locked-Reported i (some job) q j e m same = elim (Bool-cases (is_terminal job.status)) [
    | inl t ↦ rw t tt
    | inr t ↦ elim (Bool-cases (is_queued job.status)) [
      | inl u ↦
          rw (t, u)
            (run_in_slot-Reported i (free_slot worker.concurrency 0 q.slots) q j (rw (t, u) at m)
              same)
      | inr u ↦
          elim (Bool-cases
            (truthy job.celery_task_id && text_eq worker.task_id job.celery_task_id)) [
              | inr w ↦ rw (t, u, w) tt
              | inl w ↦
                  let (x, made) =
                    In-update_rows job.id (failed_job worker.now) q.jobs j (rw (t, u, w) at m)
                      (λ x. refl) (same ∙ sym (find-In job_id_of i q.jobs e).1) in
                  rw (t, u, w) (sym (ap (λ (y : WorldBuildJob). y.status) made))
            ]
    ]
  ]

  start-Reported :
      (i : ℕ) (o : Option WorldBuildJob) (q : Queue) (j : WorldBuildJob)
      → find job_id_of i q.jobs ≡ o
      → In j (start worker o q).1.jobs
      → j.id ≡ i
      → Reported (start worker o q).0 j
  unfolding start
  start-Reported i none q j e m same = tt
  start-Reported i (some job) q j e m same = elim (Bool-cases (is_terminal job.status)) [
    | inl t ↦ rw t tt
    | inr t ↦ elim (Bool-cases (holds job.id q.job_locks)) [
      | inl u ↦ rw (t, u) tt
      | inr u ↦
          let jobs = worker.meanwhile before_lock q.jobs in
          rw (t, u)
            (run_locked-Reported job.id (find job_id_of job.id jobs)
              (record q { jobs = jobs; job_locks = job.id ∷ q.job_locks }) j refl (rw (t, u) at m)
              (same ∙ sym (find-In job_id_of i q.jobs e).1))
    ]
  ]

  -- When a task has ended, the row of its job agrees with what it reports: READY with the release
  -- that was built, or FAILED after an exception of the build and after an interruption. Conditions:
  -- the except block can save the row of the job, and nothing raises between the claim of the job
  -- and the try block, nor when the READY job is reported.
  pub build_world_release_task-Reported :
      (i : ℕ) (q : Queue) (j : WorldBuildJob)
      → In j (build_world_release_task worker i q).1.jobs
      → j.id ≡ i
      → Reported (build_world_release_task worker i q).0 j
  unfolding build_world_release_task
  build_world_release_task-Reported i q j m same =
      start-Reported i (find job_id_of i q.jobs) q j refl m same

module _ (worker : Worker) where
  -- What it takes to build.
  abbrev pub Claimed : ℕ → Option WorldBuildJob → Queue → Type 0
  Claimed i o q =
      (job : WorldBuildJob) × (o ≡ some job)
      × (is_terminal job.status ≡ false)
      × (holds job.id q.job_locks ≡ false)
      × ((slot : ℕ) × (slot < worker.concurrency) × (holds slot q.slots ≡ false))

  run_in_slot-built :
      (i : ℕ) (o : Option ℕ) (q : Queue) {r : ℕ}
      → (run_in_slot worker i o q).0 ≡ built r
      → (slot : ℕ) × (o ≡ some slot)
  unfolding run_in_slot
  run_in_slot-built i none q h = absurd cc
  run_in_slot-built i (some slot) q h = (slot, refl)

  run_locked-built :
      (i : ℕ) (o : Option WorldBuildJob) (q : Queue) {r : ℕ}
      → (run_locked worker i o q).0 ≡ built r
      → (slot : ℕ) × (free_slot worker.concurrency 0 q.slots ≡ some slot)
  unfolding run_locked
  run_locked-built i none q h = absurd cc
  run_locked-built i (some job) q h = elim (Bool-cases (is_terminal job.status)) [
    | inl t ↦ absurd (cc (rw t at h))
    | inr t ↦ elim (Bool-cases (is_queued job.status)) [
      | inl u ↦ run_in_slot-built i (free_slot worker.concurrency 0 q.slots) q (rw (t, u) at h)
      | inr u ↦
          elim (Bool-cases
            (truthy job.celery_task_id && text_eq worker.task_id job.celery_task_id)) [
              | inl w ↦ absurd (cc (rw (t, u, w) at h))
              | inr w ↦ absurd (cc (rw (t, u, w) at h))
            ]
    ]
  ]

  -- A task that reports a build has found its job unfinished, the lock of the job free, and one of
  -- the configured slots free.
  pub build_world_release_task_exclusive :
      (i : ℕ) (q : Queue) {r : ℕ}
      → (build_world_release_task worker i q).0 ≡ built r
      → Claimed i (find job_id_of i q.jobs) q
  unfolding build_world_release_task start
  build_world_release_task_exclusive i q h = elim (Option-cases (find job_id_of i q.jobs)) [
    | inl e ↦ absurd (cc (rw e at h))
    | inr (job, e) ↦ elim (Bool-cases (is_terminal job.status)) [
      | inl t ↦ absurd (cc (rw (e, t) at h))
      | inr t ↦ elim (Bool-cases (holds job.id q.job_locks)) [
        | inl u ↦ absurd (cc (rw (e, t, u) at h))
        | inr u ↦
            let jobs = worker.meanwhile before_lock q.jobs in
            let (slot, taken) =
              run_locked-built job.id (find job_id_of job.id jobs)
                (record q { jobs = jobs; job_locks = job.id ∷ q.job_locks }) (rw (e, t, u) at h) in
            let (_, below, unheld) = free_slot_lem worker.concurrency 0 q.slots taken in
            (job, e, t, u, (slot, omega (arith, below), unheld))
      ]
    ]
  ]
