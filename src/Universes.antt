-- ===== src/Universes.antt =====
-- backend/konnaxion/worlds/services/universe_packs.py: a Universe Pack declares a Universe with its Worlds,
-- relations and subscriptions, and the exact Seed Pack of every World. This file has the state and
-- the registry of Worlds; Topology has relations and subscriptions, and Finalize the promotion of a whole
-- Universe.
pub mod Topology
pub mod Finalize
pub mod Manifest
pub mod Loading
pub mod LoadedWorlds
pub mod LoadedRelations
pub mod Loaded
pub mod Ensuring
pub mod Ids
pub mod Registry
pub mod Promotions
pub mod Served
pub mod Effects
pub mod Registration
pub mod Resolving
pub mod Planning
pub mod Exact
pub mod Targets
pub mod Whole
pub mod Upserts
pub mod Unrelated
pub mod Reconciled
pub mod Queueing
pub mod Requeueing
pub mod QueueingTests
pub mod LoadingTests
pub mod Tests
use konnaxion_worlds.Base.{
  ℕ, ◌+◌, Bool, true, false, not, ◌&&◌, ◌||◌, Option, none, some, List, [], ◌∷◌, ◌++◌, Text, codes,
  text_eq, find, put, any, get_key, set_key, if◌then◌else◌, ◌==◌,
}
use konnaxion_worlds.Base.Exec.{and_then, Result, ok, err, Exec, pure, raise, atomic, ◌>>=◌, ◌>>◌}
use konnaxion_worlds.Models.{Universe, World, WorldRelease, Lifecycle, Visibility, is_archived}
use konnaxion_worlds.Store.{
  Store, Act, Failure, world_id_of, release_id_of, does_not_exist, universe_archived,
  world_of_another_universe, validation_error, missing_key, pack_not_found,
}
use konnaxion_worlds.Seeds.{SeedPack}
use konnaxion_worlds.Seeds.Catalog.{SeedPackRow, find_pack, find_row}

-- WorldRelation and WorldSubscription. `managed_by` is the universe_key of the marker that
-- _managed_metadata leaves in the metadata.
pub record WorldRelation : Type 0 where
  pub universe_id : ℕ
  pub source_world_id : ℕ
  pub target_world_id : ℕ
  pub relation_type : Text
  pub title : Text
  pub managed_by : Option Text

pub record WorldSubscription : Type 0 where
  pub consumer_world_id : ℕ
  pub source_world_id : ℕ
  pub publication_type : Text
  pub status : Text
  pub managed_by : Option Text

-- The rows of a pack, as load_universe_pack has checked them, but for descriptions and metadata.
pub record PackWorld : Type 0 where
  pub world_key : Text
  pub seed_pack_key : Text
  pub seed_version : Text
  pub title : Text
  pub visibility : Visibility

pub record PackRelation : Type 0 where
  pub source : Text
  pub target : Text
  pub kind : Text
  pub title : Text

pub record PackSubscription : Type 0 where
  pub consumer : Text
  pub source : Text
  pub publication_type : Text
  pub status : Text

pub record UniversePack : Type 0 where
  pub universe_key : Text
  pub title : Text
  pub version : Text
  pub visibility : Visibility
  pub default_world : Option Text
  pub worlds : List PackWorld
  pub relations : List PackRelation
  pub subscriptions : List PackSubscription
  pub checksum : Text

-- The control plane with the tables of Universes and of what connects Worlds.
pub record Realm : Type 0 where
  pub store : Store
  pub universes : List Universe
  pub relations : List WorldRelation
  pub subscriptions : List WorldSubscription
  pub next_universe_id : ℕ
  pub next_world_id : ℕ

abbrev pub Deed : Type 0 → Type 0
Deed A = Exec Failure Realm A

abbrev pub relifted : {A : Type 0} → Realm → Result Failure A × Store → Result Failure A × Realm
relifted realm (r, s) = (r, record realm { store = s })

-- A service on the store, within the realm.
abbrev pub on_store : {A : Type 0} → Act A → Deed A
on_store m realm = relifted realm (m realm.store)

abbrev pub universe_id_of : Universe → ℕ
universe_id_of u = u.id

abbrev pub Worlds : Type 0
Worlds = List (Text × World)

abbrev pub Packs : Type 0
Packs = List (Text × SeedPack)

-- d[key], which raises KeyError
abbrev pub or_missing : {A : Type 0} → Option A → Deed A
or_missing none = raise missing_key
or_missing (some a) = pure a

abbrev pub with_row : Packs → Text → SeedPack → Option SeedPackRow → Result Failure Packs
with_row resolved key pack none = err does_not_exist
with_row resolved key pack (some record_row) = ok (set_key key pack resolved)

abbrev pub resolved_as : List SeedPackRow → Packs → Text → Option SeedPack → Result Failure Packs
resolved_as registered resolved key none = err pack_not_found
resolved_as registered resolved key (some pack) =
    with_row resolved key pack (find_row pack.world_key pack.version registered)

-- _resolve_world_packs, with the packs of the catalog, the last one first, and the table of records. The
-- keys and versions of the rows are stripped and lower-case already, as load_universe_pack leaves them.
unfoldable pub resolve_world_packs :
    (catalog : List SeedPack) → List SeedPackRow → List PackWorld → Packs → Result Failure Packs
unfolding find_pack find_row
resolve_world_packs catalog registered [] resolved = ok resolved
resolve_world_packs catalog registered (row ∷ rows) resolved =
    and_then
      (resolved_as registered resolved row.world_key
        (find_pack row.seed_pack_key row.seed_version catalog))
      (resolve_world_packs catalog registered rows)
