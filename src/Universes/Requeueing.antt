-- ===== src/Universes/Requeueing.antt =====
-- backend/konnaxion/worlds/services/universe_packs.py, queue_universe_pack: what a second run finds.
use konnaxion_worlds.Base.{
  ℕ, ◌≡◌, refl, sym, ◌∙◌, ap, subst, Bool, true, false, ◌||◌, Option, none, some, List, [], ◌∷◌,
  ◌++◌, Text, text_eq_iff, text_eq_refl, get_key, arith, inl, inr, Bool-cases, Option-cases, ==_iff,
  ==_refl, is_some, if◌then◌else◌,
}
use konnaxion_worlds.Base.Exec.{ok, result_or, pure, ◌>>=◌, continue-ok}
use konnaxion_worlds.Models.{World, WorldRelease, WorldBuildJob}
use konnaxion_worlds.Seeds.{SeedPack, is_blank}
use konnaxion_worlds.Universes.{PackWorld, Worlds, Packs}
use konnaxion_worlds.Universes.Finalize.{current_matches, matching_ready_release, seed_for}
use konnaxion_worlds.Universes.Queueing.{
  JobTable, Queueing, Aim, aim_of, builds_for, active_job, new_job, create_job, amend_job,
  submitted, dispatch_job, job_for, queue_world, with_job, queue_row, queue_rows,
}

active-append :
    (aim : Aim) (jobs : List WorldBuildJob) (job : WorldBuildJob)
    → active_job aim (jobs ++ job ∷ [])
      ≡ (if builds_for aim job then some job.id else active_job aim jobs)
unfolding active_job
active-append aim [] job = ground arith
active-append aim (x ∷ xs) job = ground (arith, active-append aim xs job)

active-submitted :
    (aim : Aim) (i : ℕ) (task : Text) (jobs : List WorldBuildJob)
    → active_job aim (amend_job i (submitted task) jobs) ≡ active_job aim jobs
unfolding active_job amend_job builds_for
active-submitted aim i task [] = refl
active-submitted aim i task (x ∷ xs) = ground (arith, active-submitted aim i task xs)

-- A new job is for its own aim, and for no other.
new_job-own : (aim : Aim) (i : ℕ) → builds_for aim (new_job aim i) ≡ true
unfolding builds_for
new_job-own aim i = ground (
  arith,
  ==_refl aim.world_id,
  text_eq_refl aim.key,
  text_eq_refl aim.version,
  text_eq_refl aim.checksum,
)

new_job-other :
    (aim other : Aim) (i : ℕ)
    → is_blank aim.checksum ≡ false
    → builds_for other (new_job aim i) ≡ true
    → aim ≡ other
unfolding builds_for
new_job-other aim other i filled h =
    let world : aim.world_id ≡ other.world_id =
      (==_iff aim.world_id other.world_id).0 (ground (arith, h)) in
    let key : aim.key ≡ other.key = (text_eq_iff aim.key other.key).0 (ground (arith, h)) in
    let version : aim.version ≡ other.version =
      (text_eq_iff aim.version other.version).0 (ground (arith, h)) in
    let checksum : aim.checksum ≡ other.checksum =
      (text_eq_iff aim.checksum other.checksum).0 (ground (arith, h, filled)) in
    rw (world, key, version, checksum) refl

-- Whatever is the newest active job for an aim still is.
abbrev pub Stable : List WorldBuildJob → List WorldBuildJob → Type 0
Stable before after =
    (aim : Aim) (i : ℕ) → active_job aim before ≡ some i → active_job aim after ≡ some i

created-Stable :
    (aim : Aim) (jobs : List WorldBuildJob) (i : ℕ)
    → is_blank aim.checksum ≡ false
    → active_job aim jobs ≡ none
    → Stable jobs (jobs ++ new_job aim i ∷ [])
created-Stable aim jobs i filled free other k h =
    elim (Bool-cases (builds_for other (new_job aim i))) [
      | inr f ↦ rw (active-append, f) h
      | inl t ↦
          let same : aim ≡ other = new_job-other aim other i filled t in
          absurd (cc (subst (λ a. active_job a jobs ≡ none) same free, h))
    ]

Stable-refl : (jobs : List WorldBuildJob) → Stable jobs jobs
Stable-refl jobs aim i h = h

submitted-Stable :
    (i : ℕ) (task : Text) (before jobs : List WorldBuildJob)
    → Stable before jobs
    → Stable before (amend_job i (submitted task) jobs)
submitted-Stable i task before jobs v aim k h = active-submitted aim i task jobs ∙ v aim k h

module _ (apply_async : ℕ → Option Text) (dispatch : Bool) where
  -- Where the dispatch of a job returns, the same jobs are active.
  dispatched :
      (answer : Option Text) (i : ℕ) (table : JobTable)
      → (dispatch_job dispatch answer i table).0 ≡ ok tt
      → (aim : Aim)
      → active_job aim (dispatch_job dispatch answer i table).1.jobs ≡ active_job aim table.jobs
  unfolding dispatch_job
  dispatched answer i table h aim = elim (Bool-cases dispatch) [
    | inr f ↦ rw f refl
    | inl t ↦ elim (Option-cases answer) [
      | inl e ↦ absurd (cc (rw (t, e) at h))
      | inr (task, e) ↦ rw (t, e) (active-submitted aim i task table.jobs)
    ]
  ]

  -- The job is there afterwards, and no other has gone.
  found_job :
      (aim : Aim) (table : JobTable)
      → is_blank aim.checksum ≡ false
      → {i : ℕ} → (job_for apply_async dispatch aim (active_job aim table.jobs) table).0 ≡ ok i
      → Stable table.jobs
          (job_for apply_async dispatch aim (active_job aim table.jobs) table).1.jobs
        × (active_job aim
              (job_for apply_async dispatch aim (active_job aim table.jobs) table).1.jobs
            ≡ some i)
  found_job aim table filled {i} h = elim (Option-cases (active_job aim table.jobs)) [
    | inr (j, e) ↦
        rw e (Stable-refl table.jobs, e ∙ ap (λ x. some x) (ap (result_or j) (rw e at h)))
    | inl e ↦
        let k : ℕ = table.next_job_id in
        let next : JobTable = (create_job aim table).1 in
        let (_, done, same, returned) =
          continue-ok (dispatch_job dispatch (apply_async k) k next) (λ _. pure k) (rw e at h) in
        let active = dispatched (apply_async k) k next done in
        let here : active_job aim next.jobs ≡ some k = rw (active-append, new_job-own) refl in
        rw e (
          subst (λ x. Stable table.jobs x.1.jobs × (active_job aim x.1.jobs ≡ some i)) (sym same)
            (
              (λ other m f. active other ∙ created-Stable aim table.jobs k filled e other m f),
              active aim ∙ here ∙ ap (λ x. some x) (ap (result_or k) returned),
            ))
  ]

  -- A run whose second run, with its newest active jobs as they were, does nothing and answers the same.
  abbrev pub Repeats : {A : Type 0} → Queueing A → JobTable → A → Type 0
  Repeats m table a =
      Stable table.jobs (m table).1.jobs
      × ((later : JobTable) → Stable (m table).1.jobs later.jobs → m later ≡ (ok a, later))

  queue_world-Repeats :
      (releases : List WorldRelease) (world : World) (seed : SeedPack) (table : JobTable)
      → is_blank seed.checksum ≡ false
      → {o : Option ℕ} → (queue_world apply_async dispatch releases world seed table).0 ≡ ok o
      → Repeats (queue_world apply_async dispatch releases world seed) table o
  unfolding queue_world
  queue_world-Repeats releases world seed table filled {o} h =
      elim (Bool-cases (
        current_matches releases world seed
        || is_some (matching_ready_release releases world seed))) [
          | inl t ↦ rw t (Stable-refl table.jobs, (λ later v. ap (λ x. (x, later)) (rw t at h)))
          | inr f ↦
              let aim : Aim = aim_of world seed in
              let (i, done, same, returned) =
                continue-ok (job_for apply_async dispatch aim (active_job aim table.jobs) table)
                  (λ i. pure (some i)) (rw f at h) in
              let (stable, active) = found_job aim table filled done in
              let there = job_for apply_async dispatch aim (active_job aim table.jobs) table in
              rw f (
                subst (λ x. Stable table.jobs x.1.jobs) (sym same) stable,
                (λ later v.
                    let again : active_job aim later.jobs ≡ some i =
                      v aim i (ap (λ x. active_job aim x.1.jobs) same ∙ active) in
                    rw again (ap (λ x. (x, later)) returned)),
              )
        ]

  module _ (releases : List WorldRelease) (resolved : Packs) (worlds : Worlds)
      (filled : (key : Text) (seed : SeedPack)
        → get_key key resolved ≡ some seed
        → is_blank seed.checksum ≡ false) where
    queue_row-Repeats :
        (world : Option World) (table : JobTable) {o : Option ℕ}
        → (queue_row apply_async dispatch releases world (seed_for resolved world) table).0 ≡ ok o
        → Repeats (queue_row apply_async dispatch releases world (seed_for resolved world)) table o
    queue_row-Repeats none table h = absurd cc
    queue_row-Repeats (some w) table h = elim (Option-cases (get_key w.key resolved)) [
      | inl e ↦ absurd (cc (rw e at h))
      | inr (seed, e) ↦
          rw e (queue_world-Repeats releases w seed table (filled w.key seed e) (rw e at h))
    ]

    -- Where no checksum of a resolved pack is empty: once the loop over the rows of a pack returns, every job
    -- that was the newest active one for its aim (a World, a pack's key, version and checksum) still is; and
    -- a second run over the same Worlds and releases, on any later table in which each of these, the new
    -- ones included, still is, changes nothing and returns the same jobs.
    pub queue_rows-Repeats :
        (rows : List PackWorld) (table : JobTable) {ids : List ℕ}
        → (queue_rows apply_async dispatch releases resolved worlds rows table).0 ≡ ok ids
        → Repeats (queue_rows apply_async dispatch releases resolved worlds rows) table ids
    unfolding queue_rows
    queue_rows-Repeats [] table h = (Stable-refl table.jobs, (λ later v. ap (λ x. (x, later)) h))
    queue_rows-Repeats (row ∷ rows) table {ids} h =
        let world : Option World = get_key row.world_key worlds in
        let first : Queueing (Option ℕ) =
          queue_row apply_async dispatch releases world (seed_for resolved world) in
        let rest : Queueing (List ℕ) =
          queue_rows apply_async dispatch releases resolved worlds rows in
        let (o, one, same, more) =
          continue-ok (first table)
            (λ o. rest >>= (λ ids. pure (with_job apply_async dispatch o ids))) h in
        let next : JobTable = (first table).1 in
        let (others, all, then_same, returned) =
          continue-ok (rest next) (λ ids. pure (with_job apply_async dispatch o ids)) more in
        let (a, b) = queue_row-Repeats world table one in
        let (c, d) = queue_rows-Repeats rows next all in
        let end : List WorldBuildJob = (rest next).1.jobs in
        subst
          (λ x.
            Stable table.jobs x.1.jobs
            × ((later : JobTable)
                → Stable x.1.jobs later.jobs
                → queue_rows apply_async dispatch releases resolved worlds (row ∷ rows) later
                  ≡ (ok ids, later)))
          (sym (same ∙ then_same))
          (
            (λ aim i m. c aim i (a aim i m)),
            (λ later v.
                rw (b later (λ aim i m. v aim i (c aim i m)), d later v)
                  (ap (λ x. (x, later)) returned)),
          )
