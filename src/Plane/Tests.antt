-- ===== src/Plane/Tests.antt =====
-- Validation on a sample data plane.
use konnaxion_worlds.Base.{◌≡◌, refl, true, any, keep, text_eq}
use konnaxion_worlds.Plane.{
  domain, schema_state, contains, same_migration, missing_tables, applied_migrations,
  missing_leaf_migrations, migration_fingerprint, canary_ok, escapes, fk_isolation_violations,
  SchemaKind, validate_release_schemas,
}
use konnaxion_worlds.Plane.Validation.{IsValidated, validate_release_schemas_sound}
use konnaxion_worlds.Plane.Ownership.{validated_ownership}
use konnaxion_worlds.Samples.{host, second_release, plane}

valid : validate_release_schemas host second_release plane ≡ true
unfolding validate_release_schemas schema_state contains same_migration missing_tables
    applied_migrations missing_leaf_migrations migration_fingerprint canary_ok escapes
    fk_isolation_violations any keep text_eq
valid = refl

validation_example : IsValidated host second_release plane
validation_example = validate_release_schemas_sound host second_release plane valid

ownership_example :
    (second_release.id ≡ second_release.id)
    × (second_release.world_id ≡ second_release.world_id)
    × (◌≡◌ {A = SchemaKind} domain domain)
ownership_example =
    validated_ownership host second_release second_release plane domain domain valid valid refl
