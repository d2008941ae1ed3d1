-- ===== src/Plane.antt =====
-- backend/konnaxion/worlds/services/schema.py and backend/konnaxion/worlds/services/provisioning.py:
-- the two PostgreSQL schemas of a release, their canaries, and the checks before a promotion.
pub mod Validation
pub mod Ownership
pub mod Tests
use konnaxion_worlds.Base.{
  ℕ, ◌≡◌, Bool, true, false, not, ◌&&◌, ◌||◌, Option, none, some, List, [], ◌∷◌, ◌++◌, Text, codes,
  text_eq, any, keep, if◌then◌else◌, ◌==◌,
}
use konnaxion_worlds.Models.{WorldRelease}

pub data SchemaKind : Type 0 where
  domain auxiliary : SchemaKind

abbrev pub schema_kind : SchemaKind → Text
schema_kind domain = codes "domain"
schema_kind auxiliary = codes "auxiliary"

abbrev pub schema_contract_version : Text
schema_contract_version = codes "kx-world-schema/v3"

-- The row of kx_world_canary. A table without the two younger columns reads as empty text there.
pub record Canary : Type 0 where
  pub world_id : ℕ
  pub release_id : ℕ
  pub schema_kind : Text
  pub contract_version : Text
  pub seed_checksum : Text
  pub migration_fingerprint : Text

pub record ForeignKey : Type 0 where
  pub child_table : Text
  pub parent_schema : Text
  pub parent_table : Text

-- (app, name), as the django_migrations ledger of the schema lists them.
abbrev pub Migration : Type 0
Migration = Text × Text

pub record SchemaState : Type 0 where
  pub canary : Option Canary
  pub tables : List Text
  pub migrations : List Migration
  pub foreign_keys : List ForeignKey

-- pg_namespace: the schemas by name.
abbrev pub Plane : Type 0
Plane = List (Text × SchemaState)

-- What Django's app registry and migration graph, the host's settings and hashlib answer, and the
-- database, to the write of an audit event.
pub record Host : Type 0 where
  pub digest : Text → Text
  pub control_schema : Text
  pub global_tables : List Text
  pub expected_tables : SchemaKind → List Text
  pub migration_apps : SchemaKind → List Text
  pub leaf_migrations : SchemaKind → List Migration
  pub canonical_fixture_checksum : Text
  -- what the audit behind the commit of a promotion raises, if it does
  pub promotion_audit_failure : Option ℕ

-- The state of a schema, or none where it does not exist.
unfoldable pub schema_state : Text → Plane → Option SchemaState
schema_state schema [] = none
schema_state schema ((name, state) ∷ plane) =
    if text_eq name schema then some state else schema_state schema plane

-- DROP SCHEMA IF EXISTS … CASCADE, which takes the foreign keys of other schemas to it as well.
abbrev pub without_keys_to : Text → SchemaState → SchemaState
without_keys_to schema state = record state {
  foreign_keys = keep (λ k. not (text_eq k.parent_schema schema)) state.foreign_keys;
}

unfoldable pub drop_schema : Text → Plane → Plane
drop_schema schema [] = []
drop_schema schema ((name, state) ∷ plane) =
    let rest = drop_schema schema plane in
    if text_eq name schema then rest else (name, without_keys_to schema state) ∷ rest

unfoldable pub contains : Text → List Text → Bool
contains t ts = any (λ u. text_eq u t) ts

unfoldable pub same_migration : Migration → Migration → Bool
same_migration (app, name) (app', name') = text_eq app app' && text_eq name name'

-- sorted(expected - actual), in the order of `expected`.
unfoldable pub missing_tables : List Text → SchemaState → List Text
unfolding contains
missing_tables expected state = keep (λ t. not (contains t state.tables)) expected

module _ (host : Host) where
  unfoldable pub applied_migrations : SchemaKind → SchemaState → List Migration
  unfolding contains
  applied_migrations kind state =
      keep (λ (app, name). contains app (host.migration_apps kind)) state.migrations

  unfoldable pub missing_leaf_migrations : SchemaKind → SchemaState → List Migration
  unfolding applied_migrations same_migration
  missing_leaf_migrations kind state =
      keep (λ m. not (any (λ a. same_migration a m) (applied_migrations kind state)))
        (host.leaf_migrations kind)

  -- "\n".join(f"{app}:{name}")
  abbrev payload : List Migration → Text
  payload [] = []
  payload ((app, name) ∷ []) = app ++ b':' ∷ name
  payload ((app, name) ∷ m ∷ rest) = app ++ (b':' ∷ (name ++ b'\n' ∷ payload (m ∷ rest)))

  unfoldable pub migration_fingerprint : SchemaKind → SchemaState → Text
  unfolding applied_migrations
  migration_fingerprint kind state = host.digest (payload (applied_migrations kind state))

-- A nonempty text, as a condition.
abbrev pub truthy : Text → Bool
truthy [] = false
truthy (c ∷ s) = true

abbrev pub is_nil {ℓ} : {A : Type ℓ} → List A → Bool
is_nil [] = true
is_nil (x ∷ xs) = false

unfoldable pub canary_ok : SchemaKind → (expected_fingerprint : Text) → WorldRelease → Canary → Bool
canary_ok kind expected_fingerprint release canary =
    canary.world_id == release.world_id
    && canary.release_id == release.id
    && text_eq canary.contract_version schema_contract_version
    && text_eq canary.seed_checksum release.seed_checksum
    && text_eq canary.schema_kind (schema_kind kind)
    && text_eq canary.migration_fingerprint expected_fingerprint

-- The fingerprint that the release records for a kind of schema, and the name of that schema.
abbrev pub recorded_fingerprint : SchemaKind → WorldRelease → Text
recorded_fingerprint domain release = release.domain_migration_fingerprint
recorded_fingerprint auxiliary release = release.ekoh_migration_fingerprint

abbrev pub schema_name : SchemaKind → WorldRelease → Text
schema_name domain release = release.domain_schema
schema_name auxiliary release = release.ekoh_schema

-- The checks of validate_release_schemas on one of the two schemas.
pub record SchemaChecks : Type 0 where
  pub schema_exists : Bool
  pub canary_ok : Bool
  pub business_tables_ok : Bool
  pub migrations_ok : Bool
  pub migration_fingerprint_ok : Bool

abbrev pub canary_checked : SchemaKind → WorldRelease → Option Canary → Bool
canary_checked kind release none = false
canary_checked kind release (some canary) =
    canary_ok kind (recorded_fingerprint kind release) release canary

unfoldable pub escapes : Host → WorldRelease → ForeignKey → Bool
unfolding contains
escapes host release fk =
    if text_eq fk.parent_schema release.domain_schema
      || text_eq fk.parent_schema release.ekoh_schema
    then false
    else not (
        text_eq fk.parent_schema host.control_schema && contains fk.parent_table host.global_tables)

-- fk_isolation_violations, over the foreign keys of the two schemas in turn.
unfoldable pub fk_isolation_violations :
    Host → WorldRelease → SchemaState → SchemaState → List ForeignKey
unfolding escapes
fk_isolation_violations host release domain_state auxiliary_state =
    keep (escapes host release) domain_state.foreign_keys
    ++ keep (escapes host release) auxiliary_state.foreign_keys

module _ (host : Host) (release : WorldRelease) where
  unfoldable pub schema_checks : SchemaKind → Option SchemaState → SchemaChecks
  schema_checks kind none = record {
    schema_exists = false;
    canary_ok = false;
    business_tables_ok = is_nil (host.expected_tables kind);
    migrations_ok = false;
    migration_fingerprint_ok = false;
  }
  schema_checks kind (some state) = record {
    schema_exists = true;
    canary_ok = canary_checked kind release state.canary;
    business_tables_ok = is_nil (missing_tables (host.expected_tables kind) state);
    migrations_ok = is_nil (missing_leaf_migrations host kind state);
    migration_fingerprint_ok =
        truthy (recorded_fingerprint kind release)
        && text_eq (recorded_fingerprint kind release) (migration_fingerprint host kind state);
  }

  abbrev pub checks_pass : SchemaChecks → Bool
  checks_pass c =
      c.schema_exists && c.canary_ok && c.business_tables_ok && c.migrations_ok
      && c.migration_fingerprint_ok

  unfoldable pub fixture_checksum_ok : (auxiliary_exists : Bool) → Bool
  fixture_checksum_ok false = true
  fixture_checksum_ok true =
      if truthy host.canonical_fixture_checksum
      then truthy release.fixture_checksum
        && text_eq release.fixture_checksum host.canonical_fixture_checksum
      else true

  unfoldable pub fk_isolation_ok : Option SchemaState → Option SchemaState → Bool
  fk_isolation_ok (some d) (some a) = is_nil (fk_isolation_violations host release d a)
  fk_isolation_ok none a = false
  fk_isolation_ok (some d) none = false

  -- validate_release_schemas(release)["ok"]. Its public_fallback_guard_ok is the conjunction of
  -- the two checks of the business tables.
  unfoldable pub validate_release_schemas : Plane → Bool
  unfolding schema_checks fixture_checksum_ok fk_isolation_ok
  validate_release_schemas plane =
      let domain_state = schema_state release.domain_schema plane in
      let auxiliary_state = schema_state release.ekoh_schema plane in
      let d = schema_checks domain domain_state in
      let a = schema_checks auxiliary auxiliary_state in
      checks_pass d
      && checks_pass a
      && fixture_checksum_ok a.schema_exists
      && fk_isolation_ok domain_state auxiliary_state
      && (d.business_tables_ok && a.business_tables_ok)
