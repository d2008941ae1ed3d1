-- ===== src/Purge/Tests.antt =====
-- A sample release is purged, and a current one is not.
use konnaxion_worlds.Base.{◌≡◌, refl, true, none, some, [], any, keep, find, remove, text_eq}
use konnaxion_worlds.Base.Exec.{ok, err}
use konnaxion_worlds.Plane.{drop_schema}
use konnaxion_worlds.Store.{release_id_of, get_world, get_release_of, audit, purges_current_release}
use konnaxion_worlds.Purge.{
  Accounts, retains, delete_release, bridge_user_ids, drop_schemas, purge_target, purge_locked,
  distinct, orphans, cleanup_orphan_bridge_users, housekeeping, purge_release,
}
use konnaxion_worlds.Purge.Effect.{IsPurged, purge_release-IsPurged, purge_release-IsConsistent}
use konnaxion_worlds.Releases.Consistency.{IsConsistent}
use konnaxion_worlds.Samples.{first_release, second_release, installation, consistent}

abbrev accounts : Accounts
accounts = record { eligible = λ i. true; delete_users = λ is. none; audit_failure = none }

purged :
    (purge_release accounts second_release installation).0
    ≡ ok (record { bridge_users_cleaned = 1; warnings = [] })
unfolding purge_release purge_locked purge_target get_world get_release_of find any retains
    bridge_user_ids keep drop_schemas drop_schema delete_release remove housekeeping
    cleanup_orphan_bridge_users orphans distinct audit text_eq
purged = refl

purged_example : IsPurged 10 8 installation (purge_release accounts second_release installation).1
purged_example = purge_release-IsPurged accounts second_release installation purged

found_target : find release_id_of 8 installation.releases ≡ some second_release
unfolding find
found_target = refl

found_first : find release_id_of 7 installation.releases ≡ some first_release
unfolding find
found_first = refl

current_refused : (purge_release accounts first_release installation).0 ≡ err purges_current_release
unfolding purge_release purge_locked purge_target get_world get_release_of find
current_refused = refl

purge_keeps_example : IsConsistent (purge_release accounts second_release installation).1
purge_keeps_example = purge_release-IsConsistent accounts second_release installation consistent
