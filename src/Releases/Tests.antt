-- ===== src/Releases/Tests.antt =====
-- Releases of a sample World: created, promoted, consistent.
use konnaxion_worlds.Base.{
  ℕ, ◌⊎◌, put, ◌≡◌, refl, true, false, some, [], ◌∷◌, ◌++◌, any, keep, find, text_eq, codes, Bool,
}
use konnaxion_worlds.Base.Exec.{ok, err}
use konnaxion_worlds.Models.{World, WorldRelease, ReleaseStatus}
use konnaxion_worlds.Naming.{TextLibrary, release_schema_names}
use konnaxion_worlds.Plane.{
  Host, schema_state, contains, same_migration, missing_tables, applied_migrations,
  missing_leaf_migrations, migration_fingerprint, canary_ok, escapes, fk_isolation_violations,
  validate_release_schemas,
}
use konnaxion_worlds.Store.{
  get_world, get_release, get_release_of, save_release, second_current, save_world, host_error,
  breaks_uniqueness,
}
use konnaxion_worlds.Releases.{
  max_number, next_release_number, SeedPackRecord, new_release, insert_release,
  create_release_record, promote_release, promote_locked, make_current, announce_promotion,
}
use konnaxion_worlds.Releases.Numbering.{IsFresh, create_release_record-fresh}
use konnaxion_worlds.Releases.Consistency.{IsConsistent}
use konnaxion_worlds.Releases.Promotion.{
  Promoted, promoted_row, promote_release-IsConsistent, promote_release-atomic,
  promote_release-Promoted,
}
use konnaxion_worlds.Releases.Progress.{promote_release-succeeds}
use konnaxion_worlds.Samples.{host, alpha, second_release, installation, consistent}

valid : validate_release_schemas host second_release installation.plane ≡ true
unfolding validate_release_schemas schema_state contains same_migration missing_tables
    applied_migrations missing_leaf_migrations migration_fingerprint canary_ok escapes
    fk_isolation_violations any keep text_eq
valid = refl

promotion_keeps_example : IsConsistent (promote_release host 50 alpha second_release installation).1
promotion_keeps_example =
    promote_release-IsConsistent host 50 alpha second_release installation consistent

found : find (λ (w : World). w.id) 10 installation.worlds ≡ some alpha
unfolding find
found = refl

found_target : find (λ (r : WorldRelease). r.id) 8 installation.releases ≡ some second_release
unfolding find
found_target = refl

promoted :
    (promote_release host 50 alpha second_release installation).0
    ≡ ok (promoted_row 50 second_release)
promoted =
    promote_release-succeeds host 50 alpha second_release installation consistent found found_target
      refl refl refl valid refl

promotion_example :
    (◌≡◌ {A = Bool} false false)
    × (validate_release_schemas host second_release installation.plane ≡ true)
    × Promoted 50 10 8 installation
        (promote_release host 50 alpha second_release installation).1
        (promoted_row 50 second_release)
promotion_example = promote_release-Promoted host 50 alpha second_release installation promoted

-- The audit event of this promotion cannot be written.
abbrev silent : Host
silent = record host { promotion_audit_failure = some 3 }

unrecorded : (promote_release silent 50 alpha second_release installation).0 ≡ err (host_error 3)
unfolding promote_release promote_locked make_current get_world get_release get_release_of
    save_release second_current save_world validate_release_schemas schema_state contains
    same_migration missing_tables missing_leaf_migrations find any put announce_promotion text_eq
    canary_ok keep migration_fingerprint fk_isolation_violations
unrecorded = refl

atomic_example :
    ((promote_release silent 50 alpha second_release installation).1 ≡ installation)
    ⊎ ((code : ℕ) × (some 3 ≡ some code)
        × (host_error 3 ≡ host_error code)
        × (r : WorldRelease) × Promoted 50 10 8 installation
            (promote_release silent 50 alpha second_release installation).1
            r)
atomic_example = promote_release-atomic silent 50 alpha second_release installation unrecorded

abbrev lib : TextLibrary
lib = record { lower = λ s. s; digest = λ s. codes "c0ffee0123456789" }

abbrev pack : SeedPackRecord
pack = record { key = codes "alpha"; version = codes "1.1.0"; checksum = codes "c2" }

abbrev third_release : WorldRelease
third_release = new_release lib 60 9 alpha 3 pack (some 8) (codes "clone")

created :
    (create_release_record lib 60 alpha pack (some 8) (codes "clone") installation).0
    ≡ ok third_release
unfolding create_release_record get_world find next_release_number max_number new_release
    insert_release breaks_uniqueness any text_eq release_schema_names
created = refl

creation_example :
    ((create_release_record lib 60 alpha pack (some 8) (codes "clone") installation).1.releases
      ≡ installation.releases ++ third_release ∷ [])
    × IsFresh third_release installation.releases
    × (third_release.world_id ≡ 10)
    × (third_release.status ≡ ReleaseStatus.building)
    × (third_release.id ≡ 9)
unfolding new_release
creation_example =
    create_release_record-fresh lib 60 alpha pack (some 8) (codes "clone") installation created
