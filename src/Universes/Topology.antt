-- ===== src/Universes/Topology.antt =====
-- backend/konnaxion/worlds/services/universe_packs.py, _reconcile_topology_rows: the relations and
-- subscriptions of a pack.
use konnaxion_worlds.Base.{
  ℕ, Bool, false, not, ◌&&◌, ◌||◌, Option, none, some, List, [], ◌∷◌, Text, text_eq, find, any,
  keep, get_key, if◌then◌else◌, ◌==◌,
}
use konnaxion_worlds.Base.Exec.{ok, err, pure, atomic, ◌>>=◌, ◌>>◌}
use konnaxion_worlds.Models.{Universe, World}
use konnaxion_worlds.Store.{world_id_of, integrity_error, validation_error}
use konnaxion_worlds.Universes.{
  WorldRelation, WorldSubscription, PackRelation, PackSubscription, UniversePack, Deed, Worlds,
  or_missing,
}

-- (source_world_id, target_world_id, relation_type), or the same of a subscription
abbrev pub Edge : Type 0
Edge = ℕ × ℕ × Text

unfoldable pub same_edge : Edge → Edge → Bool
same_edge (a, b, t) (c, d, u) = a == c && b == d && text_eq t u

abbrev pub edge_of : WorldRelation → Edge
edge_of r = (r.source_world_id, r.target_world_id, r.relation_type)

abbrev pub arc_of : WorldSubscription → Edge
arc_of r = (r.consumer_world_id, r.source_world_id, r.publication_type)

-- Model.objects.update_or_create(…), on the columns of a unique constraint
module _ {R : Type 0} (edge : R → Edge) where
  unfoldable pub upsert : R → List R → List R
  unfolding same_edge
  upsert r [] = r ∷ []
  upsert r (x ∷ xs) =
      let rest = upsert r xs in if same_edge (edge x) (edge r) then r ∷ xs else x ∷ rest

abbrev pub is_managed : Text → Option Text → Bool
is_managed key none = false
is_managed key (some k) = text_eq k key

abbrev pub desired_relation : UniversePack → Universe → PackRelation → World → World → WorldRelation
desired_relation pack universe row source target = record {
  universe_id = universe.id;
  source_world_id = source.id;
  target_world_id = target.id;
  relation_type = row.kind;
  title = row.title;
  managed_by = some pack.universe_key;
}

-- update_or_create, which ck_world_relation_distinct_worlds may refuse, and full_clean()
unfoldable pub put_relation : World → World → WorldRelation → Deed Unit
unfolding upsert
put_relation source target r realm =
    if r.source_world_id == r.target_world_id
    then (err integrity_error, realm)
    else if not (source.universe_id == r.universe_id) || not (target.universe_id == r.universe_id)
    then (err validation_error, record realm { relations = upsert edge_of r realm.relations })
    else (ok tt, record realm { relations = upsert edge_of r realm.relations })

unfoldable pub put_relations :
    UniversePack → Universe → Worlds → List PackRelation → (desired : List Edge) → Deed (List Edge)
unfolding put_relation
put_relations pack universe worlds [] desired = pure desired
put_relations pack universe worlds (row ∷ rows) desired = do
  source ← or_missing (get_key row.source worlds)
  target ← or_missing (get_key row.target worlds)
  let r = desired_relation pack universe row source target
  put_relation source target r
  put_relations pack universe worlds rows (edge_of r ∷ desired)

unfoldable pub stale_relation : Text → Universe → (desired : List Edge) → WorldRelation → Bool
unfolding same_edge
stale_relation key universe desired r =
    r.universe_id == universe.id
    && is_managed key r.managed_by
    && not (any (same_edge (edge_of r)) desired)

unfoldable pub drop_relations : UniversePack → Universe → (desired : List Edge) → Deed Unit
unfolding stale_relation
drop_relations pack universe desired realm = (
  ok tt,
  record realm {
    relations =
        keep (λ r. not (stale_relation pack.universe_key universe desired r)) realm.relations;
  },
)

abbrev pub desired_subscription :
    UniversePack → PackSubscription → World → World → WorldSubscription
desired_subscription pack row consumer source = record {
  consumer_world_id = consumer.id;
  source_world_id = source.id;
  publication_type = row.publication_type;
  status = row.status;
  managed_by = some pack.universe_key;
}

unfoldable pub put_subscription : World → World → WorldSubscription → Deed Unit
unfolding upsert
put_subscription consumer source r realm =
    if r.consumer_world_id == r.source_world_id
    then (err integrity_error, realm)
    else if not (consumer.universe_id == source.universe_id)
    then (
      err validation_error,
      record realm { subscriptions = upsert arc_of r realm.subscriptions },
    )
    else (ok tt, record realm { subscriptions = upsert arc_of r realm.subscriptions })

unfoldable pub put_subscriptions :
    UniversePack → Worlds → List PackSubscription → (desired : List Edge) → Deed (List Edge)
unfolding put_subscription
put_subscriptions pack worlds [] desired = pure desired
put_subscriptions pack worlds (row ∷ rows) desired = do
  consumer ← or_missing (get_key row.consumer worlds)
  source ← or_missing (get_key row.source worlds)
  let r = desired_subscription pack row consumer source
  put_subscription consumer source r
  put_subscriptions pack worlds rows (arc_of r ∷ desired)

abbrev in_universe : ℕ → Option World → Bool
in_universe universe_id none = false
in_universe universe_id (some w) = w.universe_id == universe_id

unfoldable pub stale_subscription :
    Text → Universe → List World → (desired : List Edge) → WorldSubscription → Bool
unfolding same_edge
stale_subscription key universe ws desired r =
    in_universe universe.id (find world_id_of r.consumer_world_id ws)
    && is_managed key r.managed_by
    && not (any (same_edge (arc_of r)) desired)

unfoldable pub drop_subscriptions : UniversePack → Universe → (desired : List Edge) → Deed Unit
unfolding stale_subscription
drop_subscriptions pack universe desired realm = (
  ok tt,
  record realm {
    subscriptions =
        keep (λ r. not (stale_subscription pack.universe_key universe realm.store.worlds desired r))
          realm.subscriptions;
  },
)

-- _reconcile_topology, with the transaction around _reconcile_topology_rows
unfoldable pub reconcile_topology : UniversePack → Universe → Worlds → Deed Unit
unfolding put_relations put_subscriptions drop_relations drop_subscriptions
reconcile_topology pack universe worlds = atomic (
    (put_relations pack universe worlds pack.relations [] >>= drop_relations pack universe)
    >> (put_subscriptions pack worlds pack.subscriptions [] >>= drop_subscriptions pack universe))
