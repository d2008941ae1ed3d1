-- ===== src/Tasks.antt =====
-- backend/konnaxion/worlds/services/tasks.py: background tasks that are pinned to the release that was
-- current when they were queued.
pub mod Pinning
pub mod Retries
pub mod Targets
pub mod Fanout
pub mod Messages
pub mod Tests
use konnaxion_worlds.Base.{
  ℕ, ◌+◌, Bool, true, false, not, ◌&&◌, ◌||◌, Option, none, some, List, [], ◌∷◌, ◌++◌, Text, codes,
  text_eq, find, is_id, if◌then◌else◌, ◌==◌, ◌⊎◌, inl, inr,
}
use konnaxion_worlds.Base.Exec.{Result, ok, err, Exec, pure, raise, ◌>>=◌, ◌>>◌}
use konnaxion_worlds.Models.{Universe, World, WorldRelease, ReleaseStatus, is_active, is_current}
use konnaxion_worlds.Access.{Registry, WorldRuntime, runtime_from_release}
use konnaxion_worlds.Store.{world_id_of, release_id_of}
use konnaxion_worlds.Scope.{
  Session, ScopeError, Scoped, transaction, world_db_scope, task_without_ids, unknown_task_context,
  stale_task_context, unavailable_task_context, retry, row_does_not_exist,
}

-- status in PINNED_TASK_RELEASE_STATUSES
abbrev pub is_pinned_status : ReleaseStatus → Bool
is_pinned_status ReleaseStatus.ready = true
is_pinned_status ReleaseStatus.current = true
is_pinned_status ReleaseStatus.frozen = true
is_pinned_status _ = false

-- A missing keyword is none.
unfoldable pub validate_task_ids : (world_id release_id : Option ℕ) → Result ScopeError (ℕ × ℕ)
validate_task_ids (some world_id) (some release_id) =
    if world_id == 0 || release_id == 0 then err task_without_ids else ok (world_id, release_id)
validate_task_ids world_id release_id = err task_without_ids

abbrev owned_release : (world_id : ℕ) → Option WorldRelease → Result ScopeError WorldRelease
owned_release world_id none = err unknown_task_context
owned_release world_id (some release) =
    if release.world_id == world_id then ok release else err unknown_task_context

-- WorldRelease.objects.….get(pk=release_id, world_id=world_id)
unfoldable pub named_release : Registry → (world_id release_id : ℕ) → Result ScopeError WorldRelease
named_release db world_id release_id =
    owned_release world_id (find release_id_of release_id db.releases)

-- release.world.current_release_id, and World.objects.filter(pk=…, current_release_id=…).exists()
abbrev pointed : ℕ → Option World → Bool
pointed release_id none = false
pointed release_id (some world) = is_id world.current_release_id release_id

unfoldable pub points_to : Registry → (world_id release_id : ℕ) → Bool
points_to db world_id release_id = pointed release_id (find world_id_of world_id db.worlds)

-- The checks behind the lookup, given whether the pointer of the World names the release.
unfoldable pub admitted :
    (require_current current : Bool) → WorldRelease → Result ScopeError WorldRelease
admitted require_current current release =
    if require_current
    then (if not (is_current release.status) || not current
        then err stale_task_context
        else ok release)
    else if not (is_pinned_status release.status)
    then err unavailable_task_context
    else ok release

abbrev then_admit :
    (WorldRelease → Result ScopeError WorldRelease)
    → Result ScopeError WorldRelease
    → Result ScopeError WorldRelease
then_admit check (ok release) = check release
then_admit check (err e) = err e

abbrev with_ids :
    {A : Type 0} → Result ScopeError (ℕ × ℕ) → (ℕ → ℕ → Result ScopeError A) → Result ScopeError A
with_ids (ok (world_id, release_id)) f = f world_id release_id
with_ids (err e) f = err e

unfoldable pub get_task_release :
    Registry
    → (world_id release_id : Option ℕ) (require_current : Bool) → Result ScopeError WorldRelease
unfolding admitted named_release points_to validate_task_ids
get_task_release db world_id release_id require_current =
    with_ids (validate_task_ids world_id release_id) (λ w r.
      then_admit
        (λ release. admitted require_current (points_to db release.world_id release.id) release)
        (named_release db w r))

-- The locked read of world_release_scope, and its checks.
unfoldable pub locked_task_release :
    Registry → (world_id release_id : ℕ) (require_current : Bool) → Result ScopeError WorldRelease
unfolding admitted named_release points_to
locked_task_release db world_id release_id require_current =
    then_admit (admitted require_current (points_to db world_id release_id))
      (named_release db world_id release_id)

abbrev runtime_in : WorldRelease → Option World → Option Universe → Result ScopeError WorldRuntime
runtime_in release (some world) (some universe) = ok (runtime_from_release universe world release)
runtime_in release world universe = err row_does_not_exist

abbrev universe_of : Registry → Option World → Option Universe
universe_of db none = none
universe_of db (some world) = find (λ u. u.id) world.universe_id db.universes

-- runtime_from_release(release), which follows release.world.universe.
unfoldable pub release_runtime : Registry → WorldRelease → Result ScopeError WorldRuntime
release_runtime db release =
    let world = find world_id_of release.world_id db.worlds in
    runtime_in release world (universe_of db world)

abbrev pub retry_of : ScopeError → Option ℕ
retry_of (retry exc) = some exc
retry_of _ = none

-- The control plane is read from the rows of the session, whatever else these hold.
module _ {D : Type 0} (registry_of : D → Registry) (control_schema : Text) where
  abbrev locked : (world_id release_id : ℕ) → Bool → Scoped D WorldRelease
  locked world_id release_id require_current s =
      (locked_task_release (registry_of s.rows) world_id release_id require_current, s)

  abbrev runtime_of : WorldRelease → Scoped D WorldRuntime
  runtime_of release s = (release_runtime (registry_of s.rows) release, s)

  abbrev scope_of :
      {A : Type 0}
      → Result ScopeError (ℕ × ℕ)
      → (require_current : Bool) → (WorldRelease → Scoped D A)
      → Scoped D A
  scope_of (err e) require_current body = raise e
  scope_of (ok (world_id, release_id)) require_current body = transaction (
      locked world_id release_id require_current >>= (λ release.
        runtime_of release >>= (λ runtime. world_db_scope control_schema runtime (body release))))

  -- with world_release_scope(…) as release: body(release)
  unfoldable pub world_release_scope :
      {A : Type 0}
      → (world_id release_id : Option ℕ) (require_current : Bool) → (WorldRelease → Scoped D A)
      → Scoped D A
  unfolding locked_task_release release_runtime validate_task_ids
  world_release_scope world_id release_id require_current body =
      scope_of (validate_task_ids world_id release_id) require_current body

  unfoldable pub world_task_scope :
      {A : Type 0} → (world_id release_id : Option ℕ) → (WorldRelease → Scoped D A) → Scoped D A
  unfolding world_release_scope
  world_task_scope world_id release_id body = world_release_scope world_id release_id false body

  unfoldable pub current_world_task_scope :
      {A : Type 0} → (world_id release_id : Option ℕ) → (WorldRelease → Scoped D A) → Scoped D A
  unfolding world_release_scope
  current_world_task_scope world_id release_id body =
      world_release_scope world_id release_id true body

  abbrev caught_as :
      {A : Type 0} → Option ℕ → ScopeError → Session D → Result ScopeError (A ⊎ ℕ) × Session D
  caught_as (some exc) e s = (ok (inr exc), s)
  caught_as none e s = (err e, s)

  -- except Retry as exc: retry_exc = exc
  abbrev caught :
      {A : Type 0} → Result ScopeError A × Session D → Result ScopeError (A ⊎ ℕ) × Session D
  caught (ok a, s) = (ok (inl a), s)
  caught (err e, s) = caught_as (retry_of e) e s

  abbrev raise_retry : {A : Type 0} → A ⊎ ℕ → Scoped D A
  raise_retry (inl a) = pure a
  raise_retry (inr exc) = raise (retry exc)

  -- PinnedWorldTask.__call__, and CurrentWorldTask's with require_current_release. The task's own
  -- code is `run`.
  unfoldable pub call_task :
      {A : Type 0}
      → (require_current_release : Bool) (world_id release_id : Option ℕ) → Scoped D A
      → Scoped D A
  unfolding world_release_scope
  call_task require_current_release world_id release_id run =
      world_release_scope world_id release_id require_current_release (λ release s. caught (run s))
      >>= raise_retry
