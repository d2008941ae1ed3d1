-- ===== src/Access/Tests.antt =====
-- The access decisions and the resolver on a small catalog.
use konnaxion_worlds.Base.{
  ℕ, ◌≡◌, refl, ◌↔◌, true, false, none, some, [], ◌∷◌, codes, text_eq, find, any,
}
use konnaxion_worlds.Base.Exec.{ok, err}
use konnaxion_worlds.Models.{
  Universe, UniverseRole, World, WorldRelease, User, Lifecycle, Visibility, ReleaseStatus,
}
use konnaxion_worlds.Access.{
  Registry, LoadedWorld, can_manage_universe, can_access_universe, can_access_world,
  can_manage_world, is_universe_member, has_universe_role, is_world_member, has_world_role,
  runtime_for_world, runtime_from_release, select_world, resolve_world_runtime, joined_release,
  access_denied,
}
use konnaxion_worlds.Access.Resolution.{
  IsServable, IsRow, runtime_for_world_iff, resolve_world_runtime_sound,
}

abbrev town : Universe
town = record {
  id = 1;
  key = codes "levis";
  title = codes "Levis";
  status = Lifecycle.active;
  visibility = Visibility.private;
  default_world_id = none;
  created_by_id = some 4;
}

abbrev alpha : World
alpha = record {
  id = 10;
  universe_id = 1;
  key = codes "demo-alpha";
  title = codes "Alpha";
  status = Lifecycle.active;
  visibility = Visibility.public;
  current_release_id = some 7;
  created_by_id = none;
}

abbrev r2 : WorldRelease
r2 = record {
  id = 7;
  world_id = 10;
  release_number = 2;
  status = ReleaseStatus.current;
  domain_schema = codes "kx_w_a_r2";
  ekoh_schema = codes "kx_e_a_r2";
  seed_pack_key = codes "demo-alpha";
  seed_version = codes "1.0.0";
  seed_checksum = codes "c0ffee";
  domain_migration_fingerprint = codes "d";
  ekoh_migration_fingerprint = codes "e";
  fixture_checksum = [];
  build_started_at = some 1;
  build_finished_at = some 2;
  promoted_at = some 3;
  is_dirty = false;
  dirty_since = none;
  parent_release_id = none;
  build_reason = codes "seed_build";
}

abbrev catalog : Registry
catalog = record {
  universes = town ∷ [];
  worlds = alpha ∷ [];
  releases = r2 ∷ [];
  universe_memberships =
      record { universe_id = 1; user_id = 5; role = UniverseRole.maintainer; is_active = true }
      ∷ [];
  world_memberships = [];
}

abbrev visitor : User
visitor = record { id = 9; is_authenticated = true; is_staff = false; is_superuser = false }

abbrev maintainer : User
maintainer = record { id = 5; is_authenticated = true; is_staff = false; is_superuser = false }

abbrev loaded : LoadedWorld
loaded = record { world = alpha; universe = town; current_release = some r2 }

program : Unit {0}
unfolding resolve_world_runtime runtime_for_world select_world joined_release can_access_world
    can_access_universe can_manage_universe can_manage_world is_universe_member has_universe_role
    is_world_member has_world_role runtime_from_release any find text_eq
program = tt

resolved :
    resolve_world_runtime catalog (codes "demo-alpha") (some maintainer) (some (codes "levis"))
    ≡ ok (runtime_from_release town alpha r2)
unfolding program
resolved = refl

visitor_refused :
    resolve_world_runtime catalog (codes "demo-alpha") (some visitor) none ≡ err access_denied
unfolding program
visitor_refused = refl

visitor_outside : can_access_universe catalog (some visitor) town ≡ false
unfolding program
visitor_outside = refl

maintains : can_manage_universe catalog (some maintainer) town ≡ true
unfolding program
maintains = refl

abbrev staff : User
staff = record { id = 2; is_authenticated = true; is_staff = true; is_superuser = false }

staff_manages : can_manage_world catalog (some staff) alpha town ≡ true
unfolding program
staff_manages = refl

runtime_example :
    (runtime_for_world catalog (some maintainer) loaded ≡ ok (runtime_from_release town alpha r2))
    ↔ ((release : WorldRelease) × IsServable catalog (some maintainer) loaded release
        × (runtime_from_release town alpha r2 ≡ runtime_from_release town alpha release))
runtime_example =
    runtime_for_world_iff catalog (some maintainer) loaded (runtime_from_release town alpha r2)

resolve_example :
    (l : LoadedWorld) × (release : WorldRelease) × IsRow catalog
      (codes "demo-alpha")
      (some (codes "levis"))
      catalog.worlds
      l
    × IsServable catalog (some maintainer) l release
    × (runtime_from_release town alpha r2 ≡ runtime_from_release l.universe l.world release)
resolve_example =
    resolve_world_runtime_sound catalog (codes "demo-alpha") (some (codes "levis"))
      (some maintainer) (runtime_from_release town alpha r2) resolved

abbrev rank : Lifecycle → ℕ
rank Lifecycle.active = 0
rank Lifecycle.maintenance = 1
rank Lifecycle.archived = 2

visitor_no_access : can_access_world catalog (some visitor) alpha town ≡ false
unfolding program
visitor_no_access = refl
