-- ===== src/Universes/Finalize.antt =====
-- backend/konnaxion/worlds/services/universe_packs.py, finalize_universe_pack: the releases that a pack wants,
-- and their promotion in one transaction.
use konnaxion_worlds.Base.{
  ℕ, Bool, true, false, ◌&&◌, Option, none, some, List, [], ◌∷◌, Text, text_eq, find, get_key,
  set_key, leb, if◌then◌else◌, ◌==◌,
}
use konnaxion_worlds.Base.Exec.{Result, ok, err, pure, raise, atomic, ◌>>=◌, ◌>>◌}
use konnaxion_worlds.Models.{Universe, World, WorldRelease, Visibility, is_ready}
use konnaxion_worlds.Plane.{Host}
use konnaxion_worlds.Store.{
  Act, Failure, release_id_of, get_world, save_world, does_not_exist, missing_key,
  targets_not_ready,
}
use konnaxion_worlds.Releases.{promote_release}
use konnaxion_worlds.Seeds.{SeedPack}
use konnaxion_worlds.Seeds.Catalog.{SeedPackRow}
use konnaxion_worlds.Universes.{
  PackWorld, UniversePack, Deed, on_store, Worlds, Packs, or_missing, universe_id_of,
  resolve_world_packs,
}
use konnaxion_worlds.Universes.Ensuring.{save_universe, ensure_universe_worlds}
use konnaxion_worlds.Universes.Topology.{reconcile_topology}

-- The release has the content of the pack.
abbrev pub has_seed : SeedPack → WorldRelease → Bool
has_seed seed r = text_eq r.seed_checksum seed.checksum && text_eq r.seed_version seed.version

abbrev pub matches_row : SeedPack → Option WorldRelease → Bool
matches_row seed none = false
matches_row seed (some r) = has_seed seed r

abbrev pub release_at : Option ℕ → List WorldRelease → Option WorldRelease
release_at none releases = none
release_at (some i) releases = find release_id_of i releases

-- _current_matches
unfoldable pub current_matches : List WorldRelease → World → SeedPack → Bool
current_matches releases world seed =
    matches_row seed (release_at world.current_release_id releases)

abbrev pub later_of : WorldRelease → Option WorldRelease → WorldRelease
later_of r none = r
later_of r (some q) = if leb q.release_number r.release_number then r else q

abbrev pub is_target : World → SeedPack → WorldRelease → Bool
is_target world seed r = r.world_id == world.id && has_seed seed r && is_ready r.status

-- _matching_ready_release: the first one in the order of falling numbers
unfoldable pub matching_ready_release : List WorldRelease → World → SeedPack → Option WorldRelease
matching_ready_release [] world seed = none
matching_ready_release (r ∷ rs) world seed =
    let rest = matching_ready_release rs world seed in
    if is_target world seed r then some (later_of r rest) else rest

pub record Plan : Type 0 where
  pub targets : List (World × WorldRelease)
  pub not_ready : List Text

abbrev pub planned : World → SeedPack → List WorldRelease → Option WorldRelease → Plan → Plan
planned world seed releases none plan =
    if current_matches releases world seed
    then plan
    else record plan { not_ready = world.key ∷ plan.not_ready }
planned world seed releases (some r) plan =
    if current_matches releases world seed
    then plan
    else record plan { targets = (world, r) ∷ plan.targets }

abbrev pub plan_row :
    List WorldRelease → Option World → Option SeedPack → Result Failure Plan → Result Failure Plan
plan_row releases none seed rest = err missing_key
plan_row releases (some world) none rest = err missing_key
plan_row releases (some world) (some seed) (err e) = err e
plan_row releases (some world) (some seed) (ok plan) =
    ok (planned world seed releases (matching_ready_release releases world seed) plan)

abbrev pub seed_for : Packs → Option World → Option SeedPack
seed_for resolved none = none
seed_for resolved (some world) = get_key world.key resolved

-- The loop of finalize_universe_pack.
unfoldable pub plan_releases :
    List WorldRelease → Packs → Worlds → List PackWorld → Result Failure Plan
unfolding current_matches matching_ready_release
plan_releases releases resolved worlds [] = ok (record { targets = []; not_ready = [] })
plan_releases releases resolved worlds (row ∷ rows) =
    let world = get_key row.world_key worlds in
    plan_row releases world (seed_for resolved world) (plan_releases releases resolved worlds rows)

module _ (host : Host) (now : ℕ) where
  unfoldable pub promote_all : List (World × WorldRelease) → Act (List (Text × ℕ))
  promote_all [] = pure []
  promote_all ((world, release) ∷ rest) = promote_release host now world release >>= (λ target.
      promote_all rest >>= (λ promoted. pure ((world.key, target.release_number) ∷ promoted)))

abbrev pub seen_as : Visibility → Visibility → Bool
seen_as Visibility.public Visibility.public = true
seen_as Visibility.private Visibility.private = true
seen_as _ _ = false

abbrev pub shown : Visibility → World → Act World
shown visibility world =
    if seen_as world.visibility visibility
    then pure world
    else save_world (record world { visibility = visibility })
      >> pure (record world { visibility = visibility })

-- The declared visibility of every World.
unfoldable pub show_worlds : List PackWorld → Worlds → Deed Worlds
unfolding get_world
show_worlds [] worlds = pure worlds
show_worlds (row ∷ rows) worlds = or_missing (get_key row.world_key worlds) >>= (λ known.
    on_store (get_world known.id >>= shown row.visibility)
    >>= (λ world. show_worlds rows (set_key world.key world worlds)))

abbrev pub get_universe : ℕ → Deed Universe
get_universe i realm = universe_or (find universe_id_of i realm.universes) realm
  where
    universe_or : Option Universe → Deed Universe
    universe_or none = raise does_not_exist
    universe_or (some u) = pure u

abbrev id_of : Option World → Option ℕ
id_of none = none
id_of (some w) = some w.id

abbrev pub default_id : Worlds → Option Text → Option ℕ
default_id worlds none = none
default_id worlds (some key) = id_of (get_key key worlds)

unfoldable pub apply_topology_without_promotion : UniversePack → Universe → Worlds → Deed Unit
unfolding reconcile_topology
apply_topology_without_promotion pack universe worlds = atomic (do
  locked ← get_universe universe.id
  reconcile_topology pack locked worlds
  save_universe (record locked { default_world_id = default_id worlds pack.default_world }))

abbrev pub no_text : List Text → Bool
no_text [] = true
no_text (key ∷ keys) = false

-- The events "promoting" and "promoted", of which the caller is told.
pub data Announcement : Type 0 where
  before_promotion after_promotion : Announcement

-- _emit: the caller's callback may raise.
abbrev pub tell : Option Failure → Deed Unit
tell none = pure tt
tell (some e) = raise e

module _ (host : Host) (now : ℕ) where
  -- The transaction of _apply_promotions_and_topology.
  unfoldable pub apply_promotions_and_topology :
      UniversePack → Universe → Worlds → List (World × WorldRelease) → Deed (List (Text × ℕ))
  unfolding promote_all show_worlds reconcile_topology
  apply_promotions_and_topology pack universe worlds targets = atomic (do
    promoted ← on_store (promote_all host now targets)
    shown_worlds ← show_worlds pack.worlds worlds
    locked ← get_universe universe.id
    reconcile_topology pack locked shown_worlds
    save_universe (record locked {
      default_world_id = default_id shown_worlds pack.default_world;
      visibility = pack.visibility;
    })
    pure promoted)

module _ (host : Host) (now : ℕ) (progress : Announcement → Option Failure) where
  abbrev pub finish_pack :
      (promote : Bool) → UniversePack → Universe → Worlds → Plan → Deed (List (Text × ℕ))
  finish_pack promote pack universe worlds plan =
      if promote
      then (tell (progress before_promotion)
          >> (apply_promotions_and_topology host now pack universe worlds plan.targets
              >>= (λ promoted. tell (progress after_promotion) >> pure promoted)))
      else (apply_topology_without_promotion pack universe worlds >> pure [])

  -- The refusal names the Worlds whose targets are not ready.
  abbrev pub when_ready :
      (promote : Bool)
      → UniversePack
      → Universe
      → Worlds
      → Result Failure Plan
      → Deed (List (Text × ℕ))
  when_ready promote pack universe worlds (err e) = raise e
  when_ready promote pack universe worlds (ok plan) =
      if no_text plan.not_ready
      then finish_pack promote pack universe worlds plan
      else raise (targets_not_ready plan.not_ready)

  -- The pack's Worlds are there, and what is to be promoted is known.
  abbrev pub finalize_planned :
      (promote : Bool) → UniversePack → Packs → Universe × Worlds → Deed (List (Text × ℕ))
  finalize_planned promote pack resolved (universe, worlds) realm =
      when_ready promote pack universe worlds
        (plan_releases realm.store.releases resolved worlds pack.worlds) realm

  abbrev pub finalize_resolved :
      (promote : Bool)
      → UniversePack
      → (actor : Option ℕ) → Result Failure Packs
      → Deed (List (Text × ℕ))
  finalize_resolved promote pack actor (err e) = raise e
  finalize_resolved promote pack actor (ok resolved) =
      ensure_universe_worlds pack resolved actor >>= finalize_planned promote pack resolved

  unfoldable pub finalize_universe_pack :
      (catalog : List SeedPack)
      → List SeedPackRow
      → (promote : Bool) → UniversePack
      → (actor : Option ℕ) → Deed (List (Text × ℕ))
  unfolding resolve_world_packs ensure_universe_worlds plan_releases apply_promotions_and_topology
      apply_topology_without_promotion
  finalize_universe_pack catalog registered promote pack actor =
      finalize_resolved promote pack actor (resolve_world_packs catalog registered pack.worlds [])
