-- ===== src/Universes/Tests.antt =====
-- A Universe of one World, whose next release is ready.
use konnaxion_worlds.Base.{
  ◌<◌, arith, ◌≡◌, ◌⊎◌, Option, refl, subst, true, none, some, List, [], ◌∷◌, codes, inl, inr,
  text_eq, find, any, put, find, get_key, set_key, keep,
}
use konnaxion_worlds.Base.Exec.{ok, err}
use konnaxion_worlds.Models.{Universe, World, WorldRelease, Lifecycle, Visibility}
use konnaxion_worlds.Store.{
  Store, world_id_of, release_id_of, get_world, get_release, get_release_of, save_release,
  save_world, second_current, audit, targets_not_ready, Failure,
}
use konnaxion_worlds.Plane.{
  validate_release_schemas, schema_state, canary_ok, missing_tables, missing_leaf_migrations,
  migration_fingerprint, fk_isolation_violations,
}
use konnaxion_worlds.Samples.{host, alpha, first_release, second_release, installation}
use konnaxion_worlds.Seeds.{SeedPack}
use konnaxion_worlds.Seeds.Catalog.{row_of, find_row, find_pack, SeedPackRow}
use konnaxion_worlds.Releases.{promote_release, promote_locked}
use konnaxion_worlds.Universes.{PackWorld, UniversePack, Realm, WorldRelation, Worlds}
use konnaxion_worlds.Universes.Ensuring.{find_universe, find_world, has_live_world}
use konnaxion_worlds.Universes.Topology.{
  reconcile_topology, put_relation, put_relations, put_subscription, put_subscriptions, upsert,
  same_edge, stale_relation, stale_subscription, drop_relations, drop_subscriptions,
}
use konnaxion_worlds.Universes.Reconciled.{IsReconciled, reconcile_topology-IsReconciled}
use konnaxion_worlds.Universes.Finalize.{
  finalize_universe_pack, matching_ready_release, Announcement, after_promotion,
}
use konnaxion_worlds.Universes.Planning.{Newest, matching_ready_release-Newest}
use konnaxion_worlds.Universes.Ids.{HasIds, Carries}
use konnaxion_worlds.Universes.Targets.{HasReleaseRows}
use konnaxion_worlds.Universes.Whole.{
  Installed, finalize_universe_pack-err, finalize_universe_pack-Serves,
}

abbrev metropolis : Universe
metropolis = record {
  id = 1;
  key = codes "metropolis";
  title = codes "Metropolis";
  status = Lifecycle.active;
  visibility = Visibility.public;
  default_world_id = some 10;
  created_by_id = none;
}

abbrev upgrade : WorldRelease
upgrade = record second_release { seed_version = codes "1.1.0" }

abbrev store : Store
store = record installation { releases = first_release ∷ upgrade ∷ [] }

abbrev realm : Realm
realm = record {
  store = store;
  universes = metropolis ∷ [];
  relations = [];
  subscriptions = [];
  next_universe_id = 2;
  next_world_id = 11;
}

abbrev seed : SeedPack
seed = record {
  manifest_path = codes "levis/worlds/alpha/world.yaml";
  world_key = codes "alpha";
  title = codes "Alpha";
  version = codes "1.1.0";
  scenario_schema_version = codes "v1";
  scenario_paths = codes "a.json" ∷ [];
  checksum = codes "cs";
}

abbrev row : PackWorld
row = record {
  world_key = codes "alpha";
  seed_pack_key = codes "alpha";
  seed_version = codes "1.1.0";
  title = codes "Alpha";
  visibility = Visibility.public;
}

abbrev beta : PackWorld
beta = record row { world_key = codes "beta" }

abbrev pack : UniversePack
pack = record {
  universe_key = codes "metropolis";
  title = codes "Metropolis";
  version = codes "1.0.0";
  visibility = Visibility.public;
  default_world = some (codes "alpha");
  worlds = row ∷ [];
  relations = [];
  subscriptions = [];
  checksum = codes "u";
}

abbrev larger : UniversePack
larger = record pack { worlds = row ∷ beta ∷ [] }

abbrev catalog : List SeedPack
catalog = seed ∷ []

abbrev registered : List SeedPackRow
registered = row_of seed ∷ []

program : Unit {0}
unfolding text_eq find any put keep get_key set_key find_pack find_row find_universe find_world
    has_live_world promote_release get_world get_release get_release_of save_release save_world
    second_current audit validate_release_schemas finalize_universe_pack schema_state canary_ok
    missing_tables missing_leaf_migrations migration_fingerprint fk_isolation_violations
    promote_locked
program = tt

-- A caller whose callback never raises.
abbrev quiet : Announcement → Option Failure
quiet event = none

promotes :
    (finalize_universe_pack host 100 quiet catalog registered true pack none realm).0
    ≡ ok ((codes "alpha", 2) ∷ [])
unfolding program
promotes = refl

waits :
    (finalize_universe_pack host 100 quiet catalog registered true larger none realm).0
    ≡ err (targets_not_ready (codes "beta" ∷ []))
unfolding program
waits = refl

ids : HasIds store.worlds 11
unfolding find
ids = (
  (λ w m. elim m [
    | inl e ↦ subst (λ x. find world_id_of x.id store.worlds ≡ some x) e refl
    | inr n ↦ absurd n
  ]),
  (λ w m. elim m [ inl e ↦ subst (λ x. x.id < 11) e (omega arith) | inr n ↦ absurd n ]),
)

release_rows : HasReleaseRows store.releases
unfolding find
release_rows r m = elim m [
  | inl e ↦ subst (λ x. find release_id_of x.id store.releases ≡ some x) e refl
  | inr (inl e) ↦ subst (λ x. find release_id_of x.id store.releases ≡ some x) e refl
  | inr (inr n) ↦ absurd n
]

installed_example :
    Installed catalog
      (finalize_universe_pack host 100 quiet catalog registered true pack none realm).1.store
      row
installed_example =
    finalize_universe_pack-Serves host 100 quiet pack catalog registered none realm ids release_rows
      ((λ other m. absurd m), tt) promotes row (inl refl)

kept_example :
    Carries store
      (finalize_universe_pack host 100 quiet catalog registered true larger none realm).1.store
    ⊎ (quiet after_promotion ≡ some (targets_not_ready (codes "beta" ∷ [])))
kept_example =
    finalize_universe_pack-err host 100 quiet larger catalog registered none realm ids waits

best_example : Newest alpha seed store.releases (matching_ready_release store.releases alpha seed)
best_example = matching_ready_release-Newest alpha seed store.releases

-- Two Worlds, a relation that the pack no longer declares, and one of somebody else.
abbrev beta_world : World
beta_world = record alpha { id = 11; key = codes "beta"; current_release_id = none }

abbrev worlds : Worlds
worlds = (codes "alpha", alpha) ∷ (codes "beta", beta_world) ∷ []

abbrev manual : WorldRelation
manual = record {
  universe_id = 1;
  source_world_id = 10;
  target_world_id = 11;
  relation_type = codes "references";
  title = [];
  managed_by = none;
}

abbrev stale : WorldRelation
stale = record manual { relation_type = codes "constrains"; managed_by = some (codes "metropolis") }

abbrev related : UniversePack
related = record larger {
  relations =
      record {
        source = codes "alpha";
        target = codes "beta";
        kind = codes "coordinates";
        title = codes "c";
      }
      ∷ [];
  subscriptions =
      record {
        consumer = codes "beta";
        source = codes "alpha";
        publication_type = codes "digest";
        status = codes "active";
      }
      ∷ [];
}

abbrev before : Realm
before = record realm { relations = manual ∷ stale ∷ [] }

reconciles : (reconcile_topology related metropolis worlds before).0 ≡ ok tt
unfolding program reconcile_topology put_relation put_relations put_subscription put_subscriptions
    upsert same_edge drop_relations drop_subscriptions
reconciles = refl

leaves :
    (reconcile_topology related metropolis worlds before).1.relations
    ≡ manual
      ∷ record manual {
        relation_type = codes "coordinates";
        title = codes "c";
        managed_by = some (codes "metropolis");
      }
      ∷ []
unfolding program reconcile_topology put_relation put_relations put_subscription put_subscriptions
    upsert same_edge stale_relation stale_subscription drop_relations drop_subscriptions
leaves = refl

topology_example :
    IsReconciled related metropolis worlds before.relations
      (reconcile_topology related metropolis worlds before).1.relations
topology_example = reconcile_topology-IsReconciled related metropolis worlds before reconciles
