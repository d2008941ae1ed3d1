-- ===== src/Releases.antt =====
-- backend/konnaxion/worlds/services/builder.py: creating, promoting and purging releases.
pub mod Numbering
pub mod Consistency
pub mod Promotion
pub mod Progress
pub mod Tests
use konnaxion_worlds.Base.{
  ℕ, zero, suc, ◌+◌, max, Bool, true, false, not, ◌&&◌, ◌||◌, Option, none, some, List, [], ◌∷◌,
  ◌++◌, Text, text_eq, find, put, remove, any, keep, is_id, if◌then◌else◌, ◌==◌,
}
use konnaxion_worlds.Base.Exec.{Result, ok, err, Exec, pure, raise, atomic, ◌>>=◌, ◌>>◌}
use konnaxion_worlds.Models.{
  World, WorldRelease, ReleaseStatus, WorldPersona, WorldPersonaBridge, WorldSnapshot,
  WorldPublication, Lifecycle, is_archived, is_current, is_ready,
}
use konnaxion_worlds.Naming.{TextLibrary, release_schema_names}
use konnaxion_worlds.Plane.{Plane, SchemaState, Host, validate_release_schemas}
use konnaxion_worlds.Store.{
  Store, Act, Failure, does_not_exist, integrity_error, archived_world, host_error,
  release_of_another_world, invalid_schemas, not_promotable, purges_current_release,
  retained_by_snapshot, retained_by_object, release_promoted, get_world, get_release,
  get_release_of, breaks_uniqueness, save_release, save_world, audit,
}

-- The numbers of the World's releases, 0 where there is none: aggregate(Max("release_number")) or 0
unfoldable pub max_number : (world_id : ℕ) → List WorldRelease → ℕ
max_number w [] = 0
max_number w (r ∷ rs) =
    let rest = max_number w rs in if r.world_id == w then max r.release_number rest else rest

unfoldable pub next_release_number : (world_id : ℕ) → List WorldRelease → ℕ
unfolding max_number
next_release_number w releases = max_number w releases + 1

-- The columns of a SeedPackRecord that a release copies. All are empty where no pack is given.
pub record SeedPackRecord : Type 0 where
  pub key : Text
  pub version : Text
  pub checksum : Text

unfoldable pub new_release :
    TextLibrary
    → (now id : ℕ) → World
    → (number : ℕ) → SeedPackRecord
    → Option ℕ
    → Text
    → WorldRelease
new_release lib now id world number pack parent reason =
    let (domain_schema, ekoh_schema) = release_schema_names lib world.key number in
    record {
      id = id;
      world_id = world.id;
      release_number = number;
      status = ReleaseStatus.building;
      domain_schema = domain_schema;
      ekoh_schema = ekoh_schema;
      seed_pack_key = pack.key;
      seed_version = pack.version;
      seed_checksum = pack.checksum;
      domain_migration_fingerprint = [];
      ekoh_migration_fingerprint = [];
      fixture_checksum = [];
      build_started_at = some now;
      build_finished_at = none;
      promoted_at = none;
      is_dirty = false;
      dirty_since = none;
      parent_release_id = parent;
      build_reason = reason;
    }

-- WorldRelease.objects.create(…), which takes the next number of the sequence. The gap that a failed
-- insert leaves in the server's sequence is left out.
unfoldable pub insert_release : (ℕ → WorldRelease) → Act WorldRelease
insert_release make s =
    let release = make s.next_release_id in
    if breaks_uniqueness release s.releases then (err integrity_error, s) else (
      ok release,
      record s { releases = s.releases ++ release ∷ []; next_release_id = suc s.next_release_id },
    )

-- The transaction of create_release_record.
unfoldable pub create_locked :
    TextLibrary
    → (now : ℕ) → World
    → SeedPackRecord
    → (parent : Option ℕ) → (reason : Text) → Act WorldRelease
unfolding next_release_number new_release insert_release
create_locked lib now world pack parent reason = do
  locked_world ← get_world world.id
  releases ← λ s. (ok s.releases, s)
  insert_release λ id.
      new_release lib now id locked_world (next_release_number locked_world.id releases) pack parent
        reason

unfoldable pub create_release_record :
    TextLibrary
    → (now : ℕ) → World
    → SeedPackRecord
    → (parent : Option ℕ) → (reason : Text) → Act WorldRelease
unfolding create_locked
create_release_record lib now world pack parent reason =
    atomic (create_locked lib now world pack parent reason)

-- services/personas.py: the stable personas of a promoted release take the data of its bridges.
unfoldable pub rebind : WorldPersonaBridge → List WorldPersona → List WorldPersona
rebind bridge [] = []
rebind bridge (p ∷ ps) =
    let bound : WorldPersona = record p {
      bridge_user_id = some bridge.bridge_user_id;
      display_name = bridge.display_name;
    } in
    (if p.id == bridge.persona_id then bound else p) ∷ rebind bridge ps

unfoldable pub rebind_all : List WorldPersonaBridge → List WorldPersona → List WorldPersona
unfolding rebind
rebind_all [] personas = personas
rebind_all (b ∷ bs) personas = rebind_all bs (rebind b personas)

unfoldable pub promote_persona_bridges : WorldRelease → Act Unit
unfolding rebind_all
promote_persona_bridges release s = (
  ok tt,
  record s { personas = rebind_all (keep (λ b. b.release_id == release.id) s.bridges) s.personas },
)

unfoldable pub freeze_if_current : WorldRelease → Act Unit
freeze_if_current previous =
    if is_current previous.status
    then save_release (record previous { status = ReleaseStatus.frozen })
    else pure tt

unfoldable pub freeze_previous : Option ℕ → WorldRelease → Act Unit
unfolding freeze_if_current
freeze_previous none target = pure tt
freeze_previous (some i) target =
    if i == target.id then pure tt else (get_release i >>= freeze_if_current)

unfoldable pub make_current : (now : ℕ) → World → WorldRelease → Act WorldRelease
unfolding freeze_previous promote_persona_bridges
make_current now locked target =
    let promoted : WorldRelease = record target {
      status = ReleaseStatus.current;
      promoted_at = some now;
    } in
    if not (is_ready target.status) then raise (not_promotable target.status) else do
      freeze_previous locked.current_release_id target
      save_release promoted
      save_world (record locked { current_release_id = some target.id; status = Lifecycle.active })
      promote_persona_bridges promoted
      pure promoted

-- The transaction of promote_release.
unfoldable pub promote_locked : (now : ℕ) → (world_id release_id : ℕ) → Act WorldRelease
unfolding make_current
promote_locked now world_id release_id = do
  locked ← get_world world_id
  target ← get_release_of locked.id release_id
  make_current now locked target

-- The audit of a promotion, which stands behind the transaction.
unfoldable pub announce_promotion : Option ℕ → WorldRelease → Act WorldRelease
announce_promotion none target s =
    (audit release_promoted target.world_id (some target.id) >> pure target) s
announce_promotion (some code) target s = (err (host_error code), s)

-- `world` and `release` are the caller's objects, which may be older than the rows.
unfoldable pub promote_release : Host → (now : ℕ) → World → WorldRelease → Act WorldRelease
unfolding announce_promotion
promote_release host now world release s =
    if is_archived world.status
    then (err archived_world, s)
    else if not (release.world_id == world.id)
    then (err release_of_another_world, s)
    else if not (is_ready release.status)
    then (err (not_promotable release.status), s)
    else if not (validate_release_schemas host release s.plane)
    then (err invalid_schemas, s)
    else (atomic (promote_locked now world.id release.id)
          >>= announce_promotion host.promotion_audit_failure)
        s
