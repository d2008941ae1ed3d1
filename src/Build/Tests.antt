-- ===== src/Build/Tests.antt =====
-- A build that goes through on the sample installation, and one that raises.
use konnaxion_worlds.Base.{
  ◌≡◌, refl, true, false, none, some, Option, [], ◌∷◌, Text, codes, any, keep, find, put, text_eq,
  from_option, map, show,
}
use konnaxion_worlds.Base.Regex.{take, strip, sub_runs}
use konnaxion_worlds.Base.Exec.{ok, result_or}
use konnaxion_worlds.Models.{WorldRelease, ReleaseStatus}
use konnaxion_worlds.Naming.{TextLibrary, release_schema_names, safe_world_token}
use konnaxion_worlds.Plane.{
  Plane, SchemaState, schema_state, contains, same_migration, missing_tables, applied_migrations,
  missing_leaf_migrations, migration_fingerprint, canary_ok, escapes, fk_isolation_violations,
  schema_checks, fixture_checksum_ok, fk_isolation_ok, validate_release_schemas,
}
use konnaxion_worlds.Releases.{
  SeedPackRecord, max_number, next_release_number, new_release, insert_release, create_locked,
  create_release_record,
}
use konnaxion_worlds.Store.{
  Failure, host_error, get_world, breaks_uniqueness, save_release, second_current, audit,
  release_id_of, all_saved,
}
use konnaxion_worlds.Build.{
  Engine, Stage, creating_schemas, create_schema, write_canary, run_scoped_migrations,
  provision_release_schemas, import_each, announce_each, import_pack_scenarios, promote_if,
  mark_ready, validate_and_finish, build_body, fail_build, resolve_pack, build_seeded,
  build_world_release,
}
use konnaxion_worlds.Build.Valid.{build_world_release-IsPromotable}
use konnaxion_worlds.Samples.{host, alpha, second_release, installation}

abbrev lib : TextLibrary
lib = record { lower = λ s. s; digest = λ s. codes "c0ffee0123456789" }

abbrev pack : SeedPackRecord
pack = record { key = codes "alpha"; version = codes "1.1.0"; checksum = codes "c2" }

abbrev migrated : SchemaState → SchemaState
migrated state = record state {
  tables = codes "debate" ∷ [];
  migrations = (codes "ethikos", codes "0001") ∷ [];
}

abbrev migrate_schema : Text → Plane → Plane
migrate_schema schema plane =
    map
      (λ (x : Text × SchemaState).
        (x.0, elim (text_eq x.0 schema) [ true ↦ migrated x.1 | false ↦ x.1 ]))
      plane

abbrev engine : Engine
engine = record {
  get_seed_pack = λ key version. ok (pack, pack);
  find_record = λ p. ok p;
  fixtures_are_names = λ p. true;
  scenarios = λ p. 1 ∷ 2 ∷ [];
  importer = some (λ release scenario plane. ok plane);
  installed = λ kind. codes "ethikos" ∷ [];
  migrate = λ kind schema plane. ok (migrate_schema schema plane);
  load_fixture = λ release plane. ok (codes "fx", plane);
  progress = λ stage release. none;
  bookkeeping = all_saved;
}

program : Unit {0}
unfolding build_world_release build_seeded resolve_pack fail_build build_body validate_and_finish
    mark_ready promote_if import_pack_scenarios announce_each import_each provision_release_schemas
    run_scoped_migrations write_canary create_schema audit second_current save_release
    breaks_uniqueness get_world create_release_record create_locked insert_release new_release
    next_release_number max_number validate_release_schemas fk_isolation_ok fixture_checksum_ok
    schema_checks fk_isolation_violations escapes canary_ok migration_fingerprint
    missing_leaf_migrations applied_migrations missing_tables same_migration contains schema_state
    release_schema_names safe_world_token text_eq put find keep any
program = tt

abbrev built_release : WorldRelease
built_release =
    result_or second_release
      (build_world_release engine host lib false 60 alpha (codes "alpha") none none none
        installation).0

built :
    (build_world_release engine host lib false 60 alpha
      (codes "alpha")
      none
      none
      none
      installation).0
    ≡ ok built_release
unfolding program take strip sub_runs show
built = refl

promotable_example :
    (built_release.status ≡ ReleaseStatus.ready)
    × (validate_release_schemas host built_release
          (build_world_release engine host lib false 60 alpha
            (codes "alpha")
            none
            none
            none
            installation).1.plane
        ≡ true)
promotable_example =
    build_world_release-IsPromotable engine host false 60 alpha lib (codes "alpha") none none none
      installation built

-- The progress callback raises once the work has begun.
abbrev fails_at : Stage → WorldRelease → Option Failure
fails_at creating_schemas release = some (host_error 5)
fails_at _ release = none

abbrev failing_engine : Engine
failing_engine = record engine { progress = fails_at }

abbrev left_row : WorldRelease
left_row = from_option second_release (
    find release_id_of 9
      (build_world_release failing_engine host lib false 60 alpha (codes "alpha") none none none
        installation).1.releases)
