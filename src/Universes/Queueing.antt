-- ===== src/Universes/Queueing.antt =====
-- backend/konnaxion/worlds/services/universe_packs.py, queue_universe_pack: a build job for every World that
-- has neither the release nor a job for it. The column queue_name and the progress are left out.
use konnaxion_worlds.Base.{
  ℕ, suc, Bool, true, false, ◌&&◌, ◌||◌, Option, none, some, List, [], ◌∷◌, ◌++◌, Text, text_eq,
  get_key, if◌then◌else◌, ◌==◌, is_some,
}
use konnaxion_worlds.Base.Exec.{Result, ok, err, Exec, pure, raise, ◌>>=◌, ◌>>◌}
use konnaxion_worlds.Models.{World, WorldRelease, WorldBuildJob, JobStatus, Universe}
use konnaxion_worlds.Store.{Failure, missing_key, not_enqueued}
use konnaxion_worlds.Seeds.{SeedPack, is_blank}
use konnaxion_worlds.Seeds.Catalog.{SeedPackRow}
use konnaxion_worlds.Universes.{PackWorld, UniversePack, Realm, Worlds, Packs, resolve_world_packs}
use konnaxion_worlds.Universes.Ensuring.{ensure_universe_worlds}
use konnaxion_worlds.Universes.Finalize.{current_matches, matching_ready_release, seed_for}

-- The table of jobs, in the order of creation.
pub record JobTable : Type 0 where
  pub jobs : List WorldBuildJob
  pub next_job_id : ℕ

abbrev pub Queueing : Type 0 → Type 0
Queueing A = Exec Failure JobTable A

abbrev pub is_pending : JobStatus → Bool
is_pending JobStatus.queued = true
is_pending JobStatus.building = true
is_pending JobStatus.validating = true
is_pending JobStatus.ready = false
is_pending JobStatus.failed = false

-- What a job is to build: for which World, and from which pack.
pub record Aim : Type 0 where
  pub world_id : ℕ
  pub key : Text
  pub version : Text
  pub checksum : Text

abbrev pub aim_of : World → SeedPack → Aim
aim_of world seed = record {
  world_id = world.id;
  key = seed.world_key;
  version = seed.version;
  checksum = seed.checksum;
}

unfoldable pub builds_for : Aim → WorldBuildJob → Bool
builds_for aim job =
    job.world_id == aim.world_id
    && is_pending job.status
    && text_eq job.seed_pack_key aim.key
    && text_eq job.seed_version aim.version
    && (is_blank job.expected_checksum || text_eq job.expected_checksum aim.checksum)

abbrev pub newer : Option ℕ → Bool → ℕ → Option ℕ
newer (some i) fits id = some i
newer none fits id = if fits then some id else none

-- The active job for an aim that was created last.
unfoldable pub active_job : Aim → List WorldBuildJob → Option ℕ
unfolding builds_for
active_job aim [] = none
active_job aim (job ∷ jobs) = newer (active_job aim jobs) (builds_for aim job) job.id

abbrev pub new_job : Aim → ℕ → WorldBuildJob
new_job aim id = record {
  id = id;
  world_id = aim.world_id;
  release_id = none;
  seed_pack_key = aim.key;
  seed_version = aim.version;
  promote_after_build = false;
  status = JobStatus.queued;
  celery_task_id = [];
  concurrency_slot = none;
  attempts = 0;
  expected_checksum = aim.checksum;
  error = false;
  started_at = none;
  finished_at = none;
}

abbrev pub create_job : Aim → Queueing ℕ
create_job aim table = (
  ok table.next_job_id,
  record {
    jobs = table.jobs ++ new_job aim table.next_job_id ∷ [];
    next_job_id = suc table.next_job_id;
  },
)

-- job.save(update_fields=…)
unfoldable pub amend_job :
    ℕ → (WorldBuildJob → WorldBuildJob) → List WorldBuildJob → List WorldBuildJob
amend_job i change [] = []
amend_job i change (job ∷ jobs) =
    let rest = amend_job i change jobs in if job.id == i then change job ∷ rest else job ∷ rest

abbrev pub submitted : Text → WorldBuildJob → WorldBuildJob
submitted task job = record job { celery_task_id = task }

abbrev pub not_submitted : WorldBuildJob → WorldBuildJob
not_submitted job = record job { status = JobStatus.failed; error = true }

-- enqueue_world_build_job, by what apply_async gives: the number of the task, or an exception.
unfoldable pub dispatch_job : (dispatch : Bool) → Option Text → ℕ → Queueing Unit
unfolding amend_job
dispatch_job false answer i table = (ok tt, table)
dispatch_job true none i table =
    (err not_enqueued, record table { jobs = amend_job i not_submitted table.jobs })
dispatch_job true (some task) i table =
    (ok tt, record table { jobs = amend_job i (submitted task) table.jobs })

-- The control plane with its jobs.
pub record Yard : Type 0 where
  pub realm : Realm
  pub table : JobTable

abbrev pub beside : Realm → Result Failure (List ℕ) × JobTable → Result Failure (List ℕ) × Yard
beside realm (r, table) = (r, record { realm = realm; table = table })

module _ (apply_async : ℕ → Option Text) (dispatch : Bool) where
  abbrev pub job_for : Aim → Option ℕ → Queueing ℕ
  job_for aim (some i) = pure i
  job_for aim none = create_job aim >>= (λ i. dispatch_job dispatch (apply_async i) i >> pure i)

  abbrev pub some_id : Queueing ℕ → Queueing (Option ℕ)
  some_id m = m >>= (λ i. pure (some i))

  -- One round of the loop.
  unfoldable pub queue_world : List WorldRelease → World → SeedPack → Queueing (Option ℕ)
  unfolding active_job dispatch_job current_matches matching_ready_release
  queue_world releases world seed table =
      if current_matches releases world seed || is_some (matching_ready_release releases world seed)
      then (ok none, table)
      else some_id (job_for (aim_of world seed) (active_job (aim_of world seed) table.jobs)) table

  abbrev pub with_job : Option ℕ → List ℕ → List ℕ
  with_job none ids = ids
  with_job (some i) ids = i ∷ ids

  abbrev pub queue_row : List WorldRelease → Option World → Option SeedPack → Queueing (Option ℕ)
  queue_row releases none seed = raise missing_key
  queue_row releases (some world) none = raise missing_key
  queue_row releases (some world) (some seed) = queue_world releases world seed

  unfoldable pub queue_rows :
      List WorldRelease → Packs → Worlds → List PackWorld → Queueing (List ℕ)
  unfolding queue_world
  queue_rows releases resolved worlds [] = pure []
  queue_rows releases resolved worlds (row ∷ rows) =
      let world = get_key row.world_key worlds in
      queue_row releases world (seed_for resolved world)
      >>= (λ o. queue_rows releases resolved worlds rows >>= (λ ids. pure (with_job o ids)))

  abbrev pub queued_rows :
      Packs
      → List PackWorld
      → JobTable
      → Result Failure (Universe × Worlds) × Realm
      → Result Failure (List ℕ) × Yard
  queued_rows resolved rows table (err e, realm) = (err e, record { realm = realm; table = table })
  queued_rows resolved rows table (ok (universe, worlds), realm) =
      beside realm (queue_rows realm.store.releases resolved worlds rows table)

  abbrev pub queued_resolved :
      UniversePack → (actor : Option ℕ) → Result Failure Packs → Exec Failure Yard (List ℕ)
  queued_resolved pack actor (err e) yard = (err e, yard)
  queued_resolved pack actor (ok resolved) yard =
      queued_rows resolved pack.worlds yard.table
        (ensure_universe_worlds pack resolved actor yard.realm)

  unfoldable pub queue_universe_pack :
      (catalog : List SeedPack)
      → List SeedPackRow
      → UniversePack
      → (actor : Option ℕ) → Exec Failure Yard (List ℕ)
  unfolding queue_rows resolve_world_packs ensure_universe_worlds
  queue_universe_pack catalog registered pack actor =
      queued_resolved pack actor (resolve_world_packs catalog registered pack.worlds [])
