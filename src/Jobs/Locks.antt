-- ===== src/Jobs/Locks.antt =====
-- The advisory locks of a build task: taken only when free, and given back however it ends.
use konnaxion_worlds.Base.{
  ℕ, zero, suc, ◌+◌, ◌≤◌, ◌<◌, ◌≡◌, ◌⊎◌, inl, inr, refl, ap, sym, subst, ◌∙◌, false, Option, none,
  some, List, [], ◌∷◌, arith, any, find, find-In, Bool-cases, Option-cases,
}
use konnaxion_worlds.Base.Exec.{Result, ok, err}
use konnaxion_worlds.Models.{WorldRelease, WorldBuildJob, is_queued, is_terminal}
use konnaxion_worlds.Store.{
  Failure, job_started, Bookkeeping, not_saved, row_saved, all_saved, bookkept,
}
use konnaxion_worlds.Jobs.{
  Queue, Worker, before_lock, before_claim, job_id_of, holds, unlock, free_slot, record_event,
  mark_interrupted_job, build_queued, settle_job, claim, run_in_slot, run_locked, start,
  build_world_release_task, begin, claimed, unlock_slot, dropped_locks, closed_connection, fail_job,
  run_claimed,
}

pub free_slot_lem :
    (left slot : ℕ) (held : List ℕ) {k : ℕ}
    → free_slot left slot held ≡ some k
    → (slot ≤ k) × (k < slot + left) × (holds k held ≡ false)
unfolding free_slot
free_slot_lem zero slot held h = absurd cc
free_slot_lem (suc left) slot held {k} h =
    ground (arith, free_slot_lem left (suc slot) held {k = k})

unlock_same : (i : ℕ) (held : List ℕ) → unlock i (i ∷ held) ≡ held
unfolding unlock
unlock_same i held = ground arith

unlock_absent : (i : ℕ) (held : List ℕ) → holds i held ≡ false → unlock i held ≡ held
unfolding unlock any
unlock_absent i [] h = refl
unlock_absent i (j ∷ held) h = ground (arith, unlock_absent i held)

-- The lock `i` is held on top of the others, or has been dropped.
abbrev Ours : (i : ℕ) (others held : List ℕ) → Type 0
Ours i others held = (held ≡ i ∷ others) ⊎ (held ≡ others)

unlock_back :
    (i : ℕ) (others held : List ℕ)
    → holds i others ≡ false
    → Ours i others held
    → unlock i held ≡ others
unlock_back i others held free (inl own) = ap (unlock i) own ∙ unlock_same i others
unlock_back i others held free (inr own) = ap (unlock i) own ∙ unlock_absent i others free

abbrev pub SameLocks : Queue → Queue → Type 0
SameLocks after q = (after.job_locks ≡ q.job_locks) × (after.slots ≡ q.slots)

-- What a build does to the advisory locks: it leaves them alone, or closes the connection of the task,
-- which drops the two locks that the task holds.
abbrev pub KeepsLocks : Worker → Type 0
KeepsLocks worker =
    (job : WorldBuildJob) (q : Queue)
    → SameLocks (worker.build job q).1 q
      ⊎ SameLocks (worker.build job q).1 (dropped_locks worker job q)

bookkept-locks :
    (b : Bookkeeping) (q written : Queue) (record_it : Queue → Queue)
    → SameLocks written q
    → SameLocks (record_it written) written
    → SameLocks (bookkept b q written record_it) q
bookkept-locks not_saved q written record_it w r = (refl, refl)
bookkept-locks row_saved q written record_it w r = w
bookkept-locks all_saved q written record_it w r = (r.0 ∙ w.0, r.1 ∙ w.1)

module _ (worker : Worker) (keeps : KeepsLocks worker) (others taken : List ℕ) where
  -- The locks while the task of the job `i` runs in a slot.
  abbrev Held : (i slot : ℕ) → Queue → Type 0
  Held i slot q = Ours i others q.job_locks × Ours slot taken q.slots

  Held-same : (i slot : ℕ) (after q : Queue) → SameLocks after q → Held i slot q → Held i slot after
  Held-same i slot after q (a, b) (c, d) =
      (subst (Ours i others) (sym a) c, subst (Ours slot taken) (sym b) d)

  module _ (i slot : ℕ) (free_lock : holds i others ≡ false) (slot_free : holds slot taken ≡ false)
      (job : WorldBuildJob) (named : job.id ≡ i) (own_slot : job.concurrency_slot ≡ some slot) where
    dropped_locks-Held : (q : Queue) → Held i slot q → Held i slot (dropped_locks worker job q)
    dropped_locks-Held q (a, b) = (
      inr (ap (λ k. unlock k q.job_locks) named ∙ unlock_back i others q.job_locks free_lock a),
      inr (ap (λ k. unlock_slot k q.slots) own_slot ∙ unlock_back slot taken q.slots slot_free b),
    )

    closed_connection-Held :
        (q : Queue) → Held i slot q → Held i slot (closed_connection worker job q)
    closed_connection-Held q h = elim (Bool-cases worker.closes_connection) [
      | inl t ↦ rw t (dropped_locks-Held q h)
      | inr f ↦ rw f h
    ]

    settle_job-Held :
        (r : Result Failure WorldRelease × Queue)
        → Held i slot r.1
        → Held i slot (settle_job worker job r).1
    unfolding settle_job record_event
    settle_job-Held (err e, q) h =
        let closed = closed_connection worker job q in
        Held-same i slot (fail_job worker job closed) closed
          (bookkept-locks worker.bookkeeping closed _ _ (refl, refl) (refl, refl))
          (closed_connection-Held q h)
    settle_job-Held (ok release, q) h = elim (Option-cases worker.report_failure) [
      | inl quiet ↦ rw quiet h
      | inr (e, raises) ↦ rw raises h
    ]

    build-Held : (q : Queue) → Held i slot q → Held i slot (worker.build job q).1
    build-Held q h = elim (keeps job q) [
      | inl same ↦ Held-same i slot (worker.build job q).1 q same h
      | inr same ↦
          Held-same i slot (worker.build job q).1 (dropped_locks worker job q) same
            (dropped_locks-Held q h)
    ]

    build_queued-Held : (q : Queue) → Held i slot q → Held i slot (build_queued worker job q).1
    unfolding build_queued
    build_queued-Held q h = ground (arith, build-Held q h)

    run_claimed-Held :
        (o : Option Failure) (q : Queue)
        → Held i slot q
        → Held i slot (run_claimed worker job o q).1
    unfolding run_claimed record_event
    run_claimed-Held (some e) q h = h
    run_claimed-Held none q h =
        settle_job-Held _ (build_queued-Held (record_event job_started job.world_id none q) h)

  module _ (i : ℕ) (free_lock : holds i others ≡ false) where
    claim-Held :
        (slot : ℕ) (slot_free : holds slot taken ≡ false) (o : Option WorldBuildJob) (q : Queue)
        → find job_id_of i q.jobs ≡ o
        → Held i slot q
        → Held i slot (claim worker slot o q).1
    unfolding claim begin
    claim-Held slot slot_free none q e h = h
    claim-Held slot slot_free (some locked) q e h = elim (Bool-cases (is_queued locked.status)) [
      | inr f ↦ rw f h
      | inl t ↦ rw t (
          run_claimed-Held i slot free_lock slot_free (claimed worker slot locked)
            (find-In job_id_of i q.jobs e).1 refl worker.start_failure
            (begin worker (claimed worker slot locked) q) h)
    ]

    run_in_slot-locks :
        (o : Option ℕ) (q : Queue)
        → ((slot : ℕ) → o ≡ some slot → holds slot taken ≡ false)
        → q.job_locks ≡ i ∷ others
        → q.slots ≡ taken
        → Ours i others (run_in_slot worker i o q).1.job_locks
          × ((run_in_slot worker i o q).1.slots ≡ taken)
    unfolding run_in_slot
    run_in_slot-locks none q unheld held same = (inl held, same)
    run_in_slot-locks (some slot) q unheld held same =
        let jobs = worker.meanwhile before_claim q.jobs in
        let entered : Queue = record q { jobs = jobs; slots = slot ∷ q.slots } in
        let slot_free = unheld slot refl in
        let (a, b) =
          claim-Held slot slot_free (find job_id_of i jobs) entered refl
            (inl held, inl (ap (λ s. slot ∷ s) same)) in
        (a, unlock_back slot taken _ slot_free b)

    run_locked-locks :
        (o : Option WorldBuildJob) (q : Queue)
        → q.job_locks ≡ i ∷ others
        → q.slots ≡ taken
        → Ours i others (run_locked worker i o q).1.job_locks
          × ((run_locked worker i o q).1.slots ≡ taken)
    unfolding run_locked mark_interrupted_job record_event
    run_locked-locks none q held same = (inl held, same)
    run_locked-locks (some job) q held same = ground (
      arith,
      held,
      same,
      run_in_slot-locks (free_slot worker.concurrency 0 q.slots) q
          (λ slot found.
            subst (λ s. holds slot s ≡ false) same
              (free_slot_lem worker.concurrency 0 q.slots found).2)
          held same,
    )

module _ (worker : Worker) (keeps : KeepsLocks worker) where
  start-locks : (o : Option WorldBuildJob) (q : Queue) → SameLocks (start worker o q).1 q
  unfolding start
  start-locks none q = (refl, refl)
  start-locks (some job) q = elim (Bool-cases (is_terminal job.status)) [
    | inl t ↦ rw t (refl, refl)
    | inr t ↦ elim (Bool-cases (holds job.id q.job_locks)) [
      | inl u ↦ rw (t, u) (refl, refl)
      | inr u ↦
          let jobs = worker.meanwhile before_lock q.jobs in
          let (a, b) =
            run_locked-locks worker keeps q.job_locks q.slots job.id u (find job_id_of job.id jobs)
              (record q { jobs = jobs; job_locks = job.id ∷ q.job_locks }) refl refl in
          rw (t, u) (unlock_back job.id q.job_locks _ u a, b)
    ]
  ]

  -- However a task ends, by a result, a retry, an interruption or an exception, the advisory locks on
  -- jobs and on slots are those that were held before it. Conditions: the build leaves the locks
  -- alone, or drops those that the task holds, as it does where it closes the connection after a
  -- failure; and no other session takes or gives back a lock while the task runs.
  pub build_world_release_task-locks :
      (i : ℕ) (q : Queue)
      → ((build_world_release_task worker i q).1.job_locks ≡ q.job_locks)
        × ((build_world_release_task worker i q).1.slots ≡ q.slots)
  unfolding build_world_release_task
  build_world_release_task-locks i q = start-locks (find job_id_of i q.jobs) q
