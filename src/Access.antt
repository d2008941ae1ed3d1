-- ===== src/Access.antt =====
-- backend/konnaxion/worlds/resolver.py: who may enter and manage a Universe and a World, and the
-- runtime that a request is pinned to.
pub mod Gates
pub mod Resolution
pub mod Tests
use konnaxion_worlds.Base.{
  ℕ, ◌≡◌, Bool, true, false, not, ◌&&◌, ◌||◌, Option, none, some, List, [], ◌∷◌, arith, Text,
  text_eq, find, any, is_id, if◌then◌else◌, ◌==◌,
}
use konnaxion_worlds.Base.Exec.{Result, ok, err}
use konnaxion_worlds.Models.{
  Universe, UniverseMembership, UniverseRole, World, WorldMembership, WorldRole, WorldRelease, User,
  is_archived, is_maintenance, is_public, is_current,
}

-- The tables that access decisions read.
pub record Registry : Type 0 where
  pub universes : List Universe
  pub worlds : List World
  pub releases : List WorldRelease
  pub universe_memberships : List UniverseMembership
  pub world_memberships : List WorldMembership

-- A World with its Universe and its current release, as select_related loads them.
pub record LoadedWorld : Type 0 where
  pub world : World
  pub universe : Universe
  pub current_release : Option WorldRelease

pub record WorldRuntime : Type 0 where
  pub universe_id : ℕ
  pub universe_key : Text
  pub world_id : ℕ
  pub world_key : Text
  pub release_id : ℕ
  pub release_number : ℕ
  pub domain_schema : Text
  pub ekoh_schema : Text
  pub is_dirty : Bool

abbrev pub manages_universe : UniverseRole → Bool
manages_universe UniverseRole.owner = true
manages_universe UniverseRole.maintainer = true
manages_universe _ = false

abbrev pub manages_world : WorldRole → Bool
manages_world WorldRole.owner = true
manages_world WorldRole.maintainer = true
manages_world _ = false

-- UniverseMembership.objects.filter(universe=…, user=…, is_active=True).exists()
unfoldable pub is_universe_member : Registry → User → Universe → Bool
is_universe_member db user universe =
    any (λ m. m.universe_id == universe.id && m.user_id == user.id && m.is_active)
      db.universe_memberships

unfoldable pub has_universe_role : Registry → User → Universe → Bool
has_universe_role db user universe =
    any
      (λ m.
        m.universe_id == universe.id
        && m.user_id == user.id
        && m.is_active
        && manages_universe m.role)
      db.universe_memberships

unfoldable pub is_world_member : Registry → User → World → Bool
is_world_member db user world =
    any (λ m. m.world_id == world.id && m.user_id == user.id && m.is_active) db.world_memberships

unfoldable pub has_world_role : Registry → User → World → Bool
has_world_role db user world =
    any (λ m. m.world_id == world.id && m.user_id == user.id && m.is_active && manages_world m.role)
      db.world_memberships

pub can_manage_universe : Registry → Option User → Universe → Bool
can_manage_universe db none universe = false
can_manage_universe db (some user) universe =
    if not user.is_authenticated
    then false
    else if user.is_staff || user.is_superuser || is_id universe.created_by_id user.id
    then true
    else has_universe_role db user universe

unfoldable pub can_access_universe : Registry → Option User → Universe → Bool
unfolding can_manage_universe
can_access_universe db none universe = is_public universe.visibility
can_access_universe db (some user) universe =
    if is_public universe.visibility
    then true
    else if user.is_authenticated
    then (if can_manage_universe db (some user) universe
        then true
        else is_universe_member db user universe)
    else false

pub can_manage_world : Registry → Option User → World → Universe → Bool
can_manage_world db none world universe = false
can_manage_world db (some user) world universe =
    if not user.is_authenticated
    then false
    else if not (can_access_universe db (some user) universe)
    then false
    else if user.is_staff || user.is_superuser || is_id world.created_by_id user.id
    then true
    else has_world_role db user world

unfoldable pub can_access_world : Registry → Option User → World → Universe → Bool
can_access_world db none world universe =
    if not (can_access_universe db none universe) then false else is_public world.visibility
can_access_world db (some user) world universe =
    if not (can_access_universe db (some user) universe)
    then false
    else if is_public world.visibility
    then true
    else if user.is_authenticated
    then (if can_manage_world db (some user) world universe
        then true
        else is_world_member db user world)
    else false

-- The raises of _runtime_for_world and resolve_world_runtime. All but `access_denied`, which is
-- Django's PermissionDenied, are WorldUnavailable.
pub data Refusal : Type 0 where
  universe_archived universe_in_maintenance world_archived access_denied : Refusal
  world_in_maintenance no_current_release cross_world_release unknown_world : Refusal
  release_not_current : WorldRelease → Refusal

-- runtime_from_release, and the value that _runtime_for_world returns.
unfoldable pub runtime_from_release : Universe → World → WorldRelease → WorldRuntime
runtime_from_release universe world release = record {
  universe_id = universe.id;
  universe_key = universe.key;
  world_id = release.world_id;
  world_key = world.key;
  release_id = release.id;
  release_number = release.release_number;
  domain_schema = release.domain_schema;
  ekoh_schema = release.ekoh_schema;
  is_dirty = release.is_dirty;
}

-- The part of _runtime_for_world behind the access checks.
unfoldable pub pin_release : Universe → World → Option WorldRelease → Result Refusal WorldRuntime
pin_release universe world none = err no_current_release
pin_release universe world (some release) =
    if not (release.world_id == world.id)
    then err cross_world_release
    else if not (is_current release.status)
    then err (release_not_current release)
    else ok (record {
      universe_id = universe.id;
      universe_key = universe.key;
      world_id = world.id;
      world_key = world.key;
      release_id = release.id;
      release_number = release.release_number;
      domain_schema = release.domain_schema;
      ekoh_schema = release.ekoh_schema;
      is_dirty = release.is_dirty;
    })

unfoldable pub runtime_for_world :
    Registry → Option User → LoadedWorld → Result Refusal WorldRuntime
unfolding pin_release
runtime_for_world db user loaded =
    let world = loaded.world in
    let universe = loaded.universe in
    if is_archived universe.status
    then err universe_archived
    else if is_maintenance universe.status && not (can_manage_universe db user universe)
    then err universe_in_maintenance
    else if is_archived world.status
    then err world_archived
    else if not (can_access_world db user world universe)
    then err access_denied
    else if is_maintenance world.status && not (can_manage_world db user world universe)
    then err world_in_maintenance
    else pin_release universe world loaded.current_release

-- The nullable key current_release is a LEFT JOIN.
unfoldable pub joined_release : Registry → Option ℕ → Option WorldRelease
joined_release db none = none
joined_release db (some i) = find (λ r. r.id) i db.releases

abbrev pub joined : Registry → World → Option Universe → Option LoadedWorld
joined db world none = none
joined db world (some universe) = some (record {
  world = world;
  universe = universe;
  current_release = joined_release db world.current_release_id;
})

-- Does the Universe of a joined row answer to the key of the route, where the route names one?
abbrev in_universe : Option Text → Universe → Bool
in_universe none universe = true
in_universe (some key) universe = text_eq universe.key key

abbrev pub accept_row : Option Text → Option LoadedWorld → Option LoadedWorld → Option LoadedWorld
accept_row universe_key none rest = rest
accept_row universe_key (some loaded) rest =
    if in_universe universe_key loaded.universe then some loaded else rest

-- World.objects.select_related("universe", "current_release").get(key=…, universe__key=…): the
-- join on the Universe is an inner one. World.key is unique, so the first hit is the only one.
unfoldable pub select_world : Registry → Text → Option Text → List World → Option LoadedWorld
select_world db world_key universe_key [] = none
select_world db world_key universe_key (world ∷ worlds) =
    let rest = select_world db world_key universe_key worlds in
    if text_eq world.key world_key
    then accept_row universe_key (joined db world (find (λ u. u.id) world.universe_id db.universes))
        rest
    else rest

abbrev resolve_loaded : Registry → Option User → Option LoadedWorld → Result Refusal WorldRuntime
resolve_loaded db user none = err unknown_world
resolve_loaded db user (some loaded) = runtime_for_world db user loaded

unfoldable pub resolve_world_runtime :
    Registry
    → (world_key : Text) → Option User
    → (universe_key : Option Text) → Result Refusal WorldRuntime
resolve_world_runtime db world_key user universe_key =
    resolve_loaded db user (select_world db world_key universe_key db.worlds)
