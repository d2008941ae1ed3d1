-- ===== src/Build.antt =====
-- backend/konnaxion/worlds/services/builder.py, build_world_release, with the provisioning of
-- backend/konnaxion/worlds/services/provisioning.py: a new release from a Seed Pack.
pub mod Failing
pub mod Valid
pub mod Tests
use konnaxion_worlds.Base.{
  ℕ, Bool, true, false, not, ◌&&◌, Option, none, some, List, [], ◌∷◌, ◌++◌, Text, codes, text_eq,
  find, put, is_some, if◌then◌else◌,
}
use konnaxion_worlds.Base.Exec.{
  Result, ok, err, Exec, pure, raise, recover, try_except, atomic, ◌>>=◌, ◌>>◌,
}
use konnaxion_worlds.Models.{World, WorldRelease, ReleaseStatus, is_archived}
use konnaxion_worlds.Naming.{TextLibrary}
use konnaxion_worlds.Plane.{
  Plane, SchemaState, SchemaKind, domain, auxiliary, Canary, Host, schema_state, schema_kind,
  schema_contract_version, migration_fingerprint, missing_leaf_migrations, is_nil,
  validate_release_schemas,
}
use konnaxion_worlds.Releases.{SeedPackRecord, create_release_record, promote_release}
use konnaxion_worlds.Store.{
  Store, Act, Failure, archived_world, pack_key_mismatch, pack_version_mismatch, bad_fixtures,
  missing_migrations, invalid_schemas, release_build_started, release_ready, release_build_failed,
  release_id_of, save_release, audit, Bookkeeping, bookkept,
}

-- The stages that a build reports to its progress callback, which may raise.
pub data Stage : Type 0 where
  preparing creating_schemas migrating_domain migrating_auxiliary loading_fixtures : Stage
  importing : Stage
  importing_scenario : ℕ → Stage
  validating_stage ready_stage : Stage

-- What a build calls: the Seed Pack catalog, Django's migration executor and fixture loader, the
-- host's scenario importer, if one is configured, and the progress callback.
pub record Engine : Type 0 where
  pub get_seed_pack : Text → Option Text → Result Failure (SeedPackRecord × SeedPackRecord)
  pub find_record : SeedPackRecord → Result Failure SeedPackRecord
  pub fixtures_are_names : SeedPackRecord → Bool
  pub scenarios : SeedPackRecord → List ℕ
  pub importer : Option (WorldRelease → ℕ → Plane → Result Failure Plane)
  pub installed : SchemaKind → List Text
  pub migrate : SchemaKind → Text → Plane → Result Failure Plane
  pub load_fixture : WorldRelease → Plane → Result Failure (Text × Plane)
  pub progress : Stage → WorldRelease → Option Failure
  -- how far the except block gets, whose own failures are swallowed
  pub bookkeeping : Bookkeeping

abbrev empty_schema : SchemaState
empty_schema = record { canary = none; tables = []; migrations = []; foreign_keys = [] }

-- CREATE SCHEMA IF NOT EXISTS
unfoldable pub create_schema : Text → Plane → Plane
create_schema schema plane =
    if is_some (schema_state schema plane) then plane else plane ++ (schema, empty_schema) ∷ []

unfoldable pub write_canary : Text → Canary → Plane → Plane
write_canary schema canary [] = []
write_canary schema canary ((name, state) ∷ plane) =
    (if text_eq name schema then (name, record state { canary = some canary }) else (name, state))
    ∷ write_canary schema canary plane

abbrev pub change_plane : (Plane → Plane) → Act Unit
change_plane f s = (ok tt, record s { plane = f s.plane })

abbrev changed : {A : Type 0} → Store → Result Failure (A × Plane) → Result Failure A × Store
changed s (ok (a, plane)) = (ok a, record s { plane = plane })
changed s (err e) = (err e, s)

abbrev pub on_plane : {A : Type 0} → (Plane → Result Failure (A × Plane)) → Act A
on_plane f s = changed s (f s.plane)

abbrev without_value : Result Failure Plane → Result Failure (Unit × Plane)
without_value (ok plane) = ok (tt, plane)
without_value (err e) = err e

abbrev or_pass : Option Failure → Act Unit
or_pass none = pure tt
or_pass (some e) = raise e

pub record ProvisioningReport : Type 0 where
  pub domain_migration_fingerprint : Text
  pub auxiliary_migration_fingerprint : Text
  pub fixture_checksum : Text

abbrev pub seeded : SeedPackRecord → WorldRelease → WorldRelease
seeded pack release = record release {
  seed_pack_key = pack.key;
  seed_version = pack.version;
  seed_checksum = pack.checksum;
}

module _ (engine : Engine) (host : Host) where
  abbrev pub announce : Stage → WorldRelease → Act Unit
  announce stage release = or_pass (engine.progress stage release)

  -- After the migrations of its group ran in the schema: the missing leaves, or the fingerprint.
  abbrev pub fingerprinted : SchemaKind → Option SchemaState → Act Text
  fingerprinted kind none = raise missing_migrations
  fingerprinted kind (some state) =
      if is_nil (missing_leaf_migrations host kind state)
      then pure (migration_fingerprint host kind state)
      else raise missing_migrations

  unfoldable pub run_scoped_migrations : SchemaKind → Text → Act Text
  run_scoped_migrations kind schema =
      if is_nil (engine.installed kind) then pure (host.digest (codes "no-installed-apps")) else do
        on_plane (λ plane. without_value (engine.migrate kind schema plane))
        state ← λ s. (ok (schema_state schema s.plane), s)
        fingerprinted kind state

  abbrev pub new_canary : SchemaKind → WorldRelease → Text → Canary
  new_canary kind release fingerprint = record {
    world_id = release.world_id;
    release_id = release.id;
    schema_kind = schema_kind kind;
    contract_version = schema_contract_version;
    seed_checksum = release.seed_checksum;
    migration_fingerprint = fingerprint;
  }

  -- provision_release, and the two canaries.
  unfoldable pub provision_release_schemas : WorldRelease → Act ProvisioningReport
  unfolding create_schema run_scoped_migrations write_canary
  provision_release_schemas release = do
    announce creating_schemas release
    change_plane (create_schema release.domain_schema)
    change_plane (create_schema release.ekoh_schema)
    announce migrating_domain release
    d ← run_scoped_migrations domain release.domain_schema
    announce migrating_auxiliary release
    a ← run_scoped_migrations auxiliary release.ekoh_schema
    announce loading_fixtures release
    f ← on_plane (engine.load_fixture release)
    change_plane (write_canary release.domain_schema (new_canary domain release d))
    change_plane (write_canary release.ekoh_schema (new_canary auxiliary release a))
    pure (record {
      domain_migration_fingerprint = d;
      auxiliary_migration_fingerprint = a;
      fixture_checksum = f;
    })

  -- for payload in scenarios: importer(payload, …), in one database scope, which a raise takes back.
  unfoldable pub import_each :
      (WorldRelease → ℕ → Plane → Result Failure Plane) → WorldRelease → List ℕ → Act Unit
  import_each importer release [] = pure tt
  import_each importer release (scenario ∷ scenarios) = do
    announce (importing_scenario scenario) release
    on_plane (λ plane. without_value (importer release scenario plane))
    import_each importer release scenarios

  unfoldable pub announce_each : WorldRelease → List ℕ → Act Unit
  announce_each release [] = pure tt
  announce_each release (scenario ∷ scenarios) =
      announce (importing_scenario scenario) release >> announce_each release scenarios

  abbrev pub import_with :
      Option (WorldRelease → ℕ → Plane → Result Failure Plane)
      → SeedPackRecord
      → WorldRelease
      → Act Unit
  import_with none pack release = announce_each release (engine.scenarios pack)
  import_with (some importer) pack release =
      atomic (import_each importer release (engine.scenarios pack))

  unfoldable pub import_pack_scenarios : SeedPackRecord → WorldRelease → Act Unit
  unfolding import_each announce_each
  import_pack_scenarios pack release =
      if engine.fixtures_are_names pack
      then import_with engine.importer pack release
      else raise bad_fixtures

  unfoldable pub promote_if : Bool → (now : ℕ) → World → WorldRelease → Act Unit
  promote_if false now world release = pure tt
  promote_if true now world release = promote_release host now world release >> pure tt

  abbrev pub ready_row : (now : ℕ) → WorldRelease → WorldRelease
  ready_row now release = record release {
    status = ReleaseStatus.ready;
    build_finished_at = some now;
  }

  unfoldable pub mark_ready : (promote : Bool) → (now : ℕ) → World → WorldRelease → Act WorldRelease
  unfolding promote_if
  mark_ready promote now world release = do
    let ready = ready_row now release
    save_release ready
    announce ready_stage ready
    audit release_ready world.id (some ready.id)
    promote_if promote now world ready
    pure ready

  unfoldable pub validate_and_finish :
      (promote : Bool) → (now : ℕ) → World → WorldRelease → Act WorldRelease
  unfolding mark_ready
  validate_and_finish promote now world release s =
      if validate_release_schemas host release s.plane
      then mark_ready promote now world release s
      else (err invalid_schemas, s)

  abbrev pub validating_row : WorldRelease → ProvisioningReport → WorldRelease
  validating_row release report = record release {
    status = ReleaseStatus.validating;
    domain_migration_fingerprint = report.domain_migration_fingerprint;
    ekoh_migration_fingerprint = report.auxiliary_migration_fingerprint;
    fixture_checksum = report.fixture_checksum;
  }

  -- The body of the try block.
  unfoldable pub build_body :
      (promote : Bool) → (now : ℕ) → World → SeedPackRecord → WorldRelease → Act WorldRelease
  unfolding provision_release_schemas import_pack_scenarios validate_and_finish
  build_body promote now world pack release = do
    report ← provision_release_schemas release
    let validating = validating_row release report
    save_release validating
    announce importing validating
    import_pack_scenarios pack validating
    announce validating_stage validating
    validate_and_finish promote now world validating

  -- The except block: at best the row fails, if it is still there, and the exception goes on.
  abbrev pub failed_row : (now : ℕ) → WorldRelease → WorldRelease
  failed_row now r = record r { status = ReleaseStatus.failed; build_finished_at = some now }

  abbrev pub fail_found : (now world_id : ℕ) → Option WorldRelease → Store → Store
  fail_found now world_id none s = s
  fail_found now world_id (some r) s =
      bookkept engine.bookkeeping s
        (record s { releases = put release_id_of (failed_row now r) s.releases })
        (λ s. (audit release_build_failed world_id (some r.id) s).1)

  unfoldable pub fail_build : {A : Type 0} → (now world_id release_id : ℕ) → Failure → Act A
  unfolding audit
  fail_build now world_id release_id e s =
      (err e, fail_found now world_id (find release_id_of release_id s.releases) s)

  -- The pack, checked if the caller resolved it, and its record.
  unfoldable pub resolve_pack :
      (key : Text)
      → (version : Option Text) → (resolved_pack seed_record : Option SeedPackRecord)
      → Result Failure (SeedPackRecord × SeedPackRecord)
  resolve_pack key version none seed_record = engine.get_seed_pack key version
  resolve_pack key version (some pack) seed_record =
      if not (text_eq pack.key key)
      then err pack_key_mismatch
      else if other_version version pack.version
      then err pack_version_mismatch
      else with_record pack seed_record
    where
      other_version : Option Text → Text → Bool
      other_version none v = false
      other_version (some wanted) v = not (text_eq v wanted)

      looked_up :
          SeedPackRecord
          → Result Failure SeedPackRecord
          → Result Failure (SeedPackRecord × SeedPackRecord)
      looked_up pack (ok r) = ok (pack, r)
      looked_up pack (err e) = err e

      with_record :
          SeedPackRecord → Option SeedPackRecord → Result Failure (SeedPackRecord × SeedPackRecord)
      with_record pack (some r) = ok (pack, r)
      with_record pack none = looked_up pack (engine.find_record pack)

  unfoldable pub build_seeded :
      (promote : Bool) → (now : ℕ) → World → SeedPackRecord → WorldRelease → Act WorldRelease
  unfolding build_body fail_build
  build_seeded promote now world pack release = do
    save_release release
    audit release_build_started world.id (some release.id)
    announce preparing release
    try_except (build_body promote now world pack release) (fail_build now world.id release.id)

  unfoldable pub build_world_release :
      TextLibrary
      → (promote : Bool) → (now : ℕ) → World
      → (key : Text) → (version : Option Text) → (resolved_pack seed_record : Option SeedPackRecord)
      → Act WorldRelease
  unfolding resolve_pack build_seeded
  build_world_release lib promote now world key version resolved_pack seed_record =
      if is_archived world.status then raise archived_world else do
        (pack, seed) ← λ s. (resolve_pack key version resolved_pack seed_record, s)
        release ← create_release_record lib now world seed none (codes "seed_build")
        build_seeded promote now world pack (seeded pack release)
