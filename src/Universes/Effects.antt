-- ===== src/Universes/Effects.antt =====
-- backend/konnaxion/worlds/services/universe_packs.py: the relations, the subscriptions and the row of a
-- Universe are apart from its Worlds and releases.
use konnaxion_worlds.Base.{ℕ, ◌≡◌, refl, ◌∙◌, Option, none, some, List, [], ◌∷◌, arith, get_key}
use konnaxion_worlds.Base.Exec.{◌>>=◌, continue-keeps, settle-keeps}
use konnaxion_worlds.Models.{Universe, World}
use konnaxion_worlds.Universes.{
  WorldRelation, WorldSubscription, PackRelation, PackSubscription, UniversePack, Realm, Deed,
  Worlds, or_missing,
}
use konnaxion_worlds.Universes.Ensuring.{save_universe}
use konnaxion_worlds.Universes.Topology.{
  Edge, edge_of, arc_of, desired_relation, desired_subscription, put_relation, put_relations,
  drop_relations, put_subscription, put_subscriptions, drop_subscriptions, reconcile_topology,
}
use konnaxion_worlds.Universes.Finalize.{get_universe}

-- A service that leaves the store as it is.
abbrev pub IsApart : {A : Type 0} → Deed A → Type 0
IsApart m = (realm : Realm) → (m realm).1.store ≡ realm.store

pub bind-IsApart :
    {A B : Type 0} (m : Deed A) (f : A → Deed B)
    → IsApart m
    → ((a : A) → IsApart (f a))
    → IsApart (m >>= f)
bind-IsApart m f h k realm =
    continue-keeps (λ r. r.store ≡ realm.store) (m realm) f (h realm) (λ a r e. k a r ∙ e)

or_missing-IsApart : {A : Type 0} (o : Option A) → IsApart (or_missing o)
or_missing-IsApart none realm = refl
or_missing-IsApart (some a) realm = refl

put_relation-IsApart :
    (source target : World) (r : WorldRelation) → IsApart (put_relation source target r)
unfolding put_relation
put_relation-IsApart source target r realm = ground arith

put_relations-IsApart :
    (pack : UniversePack) (universe : Universe) (worlds : Worlds) (rows : List PackRelation)
    (desired : List Edge)
    → IsApart (put_relations pack universe worlds rows desired)
unfolding put_relations
put_relations-IsApart pack universe worlds [] desired = λ realm. refl
put_relations-IsApart pack universe worlds (row ∷ rows) desired =
    bind-IsApart (or_missing (get_key row.source worlds)) _
      (or_missing-IsApart (get_key row.source worlds))
      (λ source.
        bind-IsApart (or_missing (get_key row.target worlds)) _
          (or_missing-IsApart (get_key row.target worlds))
          (λ target.
            let r = desired_relation pack universe row source target in
            bind-IsApart (put_relation source target r) _ (put_relation-IsApart source target r)
              (λ _. put_relations-IsApart pack universe worlds rows (edge_of r ∷ desired))))

put_subscription-IsApart :
    (consumer source : World) (r : WorldSubscription) → IsApart (put_subscription consumer source r)
unfolding put_subscription
put_subscription-IsApart consumer source r realm = ground arith

put_subscriptions-IsApart :
    (pack : UniversePack) (worlds : Worlds) (rows : List PackSubscription) (desired : List Edge)
    → IsApart (put_subscriptions pack worlds rows desired)
unfolding put_subscriptions
put_subscriptions-IsApart pack worlds [] desired = λ realm. refl
put_subscriptions-IsApart pack worlds (row ∷ rows) desired =
    bind-IsApart (or_missing (get_key row.consumer worlds)) _
      (or_missing-IsApart (get_key row.consumer worlds))
      (λ consumer.
        bind-IsApart (or_missing (get_key row.source worlds)) _
          (or_missing-IsApart (get_key row.source worlds))
          (λ source.
            let r = desired_subscription pack row consumer source in
            bind-IsApart (put_subscription consumer source r) _
              (put_subscription-IsApart consumer source r)
              (λ _. put_subscriptions-IsApart pack worlds rows (arc_of r ∷ desired))))

module _ (pack : UniversePack) (universe : Universe) where
  drop_relations-IsApart : (desired : List Edge) → IsApart (drop_relations pack universe desired)
  unfolding drop_relations
  drop_relations-IsApart desired realm = refl

  drop_subscriptions-IsApart :
      (desired : List Edge) → IsApart (drop_subscriptions pack universe desired)
  unfolding drop_subscriptions
  drop_subscriptions-IsApart desired realm = refl

  pub reconcile_topology-IsApart :
      (worlds : Worlds) → IsApart (reconcile_topology pack universe worlds)
  unfolding reconcile_topology
  reconcile_topology-IsApart worlds realm =
      settle-keeps (λ r. r.store ≡ realm.store) realm _ refl
        (bind-IsApart
          (put_relations pack universe worlds pack.relations [] >>= drop_relations pack universe) _
          (bind-IsApart (put_relations pack universe worlds pack.relations []) _
            (put_relations-IsApart pack universe worlds pack.relations []) drop_relations-IsApart)
          (λ _.
            bind-IsApart (put_subscriptions pack worlds pack.subscriptions []) _
              (put_subscriptions-IsApart pack worlds pack.subscriptions [])
              drop_subscriptions-IsApart)
          realm)

pub get_universe-IsApart : (i : ℕ) → IsApart (get_universe i)
get_universe-IsApart i realm = ground arith

pub save_universe-IsApart : (u : Universe) → IsApart (save_universe u)
save_universe-IsApart u realm = ground arith
