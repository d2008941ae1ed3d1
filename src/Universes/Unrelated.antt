-- ===== src/Universes/Unrelated.antt =====
-- backend/konnaxion/worlds/services/universe_packs.py, _reconcile_topology_rows: subscriptions leave the
-- relations alone.
use konnaxion_worlds.Base.{◌≡◌, refl, ◌∙◌, Option, none, some, List, [], ◌∷◌, get_key, arith}
use konnaxion_worlds.Base.Exec.{◌>>=◌, continue-keeps}
use konnaxion_worlds.Models.{Universe, World}
use konnaxion_worlds.Universes.{
  WorldSubscription, PackSubscription, UniversePack, Realm, Deed, Worlds, or_missing,
}
use konnaxion_worlds.Universes.Topology.{
  Edge, arc_of, desired_subscription, put_subscription, put_subscriptions, drop_subscriptions,
}

-- Subscriptions are apart from relations.
abbrev IsUnrelated : {A : Type 0} → Deed A → Type 0
IsUnrelated m = (realm : Realm) → (m realm).1.relations ≡ realm.relations

pub bind-IsUnrelated :
    {A B : Type 0} (m : Deed A) (f : A → Deed B)
    → IsUnrelated m
    → ((a : A) → IsUnrelated (f a))
    → IsUnrelated (m >>= f)
bind-IsUnrelated m f h k realm =
    continue-keeps (λ r. r.relations ≡ realm.relations) (m realm) f (h realm) (λ a r e. k a r ∙ e)

or_missing-IsUnrelated : {A : Type 0} (o : Option A) → IsUnrelated (or_missing o)
or_missing-IsUnrelated none realm = refl
or_missing-IsUnrelated (some a) realm = refl

put_subscription-IsUnrelated :
    (consumer source : World) (r : WorldSubscription)
    → IsUnrelated (put_subscription consumer source r)
unfolding put_subscription
put_subscription-IsUnrelated consumer source r realm = ground arith

pub put_subscriptions-IsUnrelated :
    (pack : UniversePack) (worlds : Worlds) (rows : List PackSubscription) (desired : List Edge)
    → IsUnrelated (put_subscriptions pack worlds rows desired)
unfolding put_subscriptions
put_subscriptions-IsUnrelated pack worlds [] desired = λ realm. refl
put_subscriptions-IsUnrelated pack worlds (row ∷ rows) desired =
    bind-IsUnrelated (or_missing (get_key row.consumer worlds)) _
      (or_missing-IsUnrelated (get_key row.consumer worlds))
      (λ consumer.
        bind-IsUnrelated (or_missing (get_key row.source worlds)) _
          (or_missing-IsUnrelated (get_key row.source worlds))
          (λ source.
            let r = desired_subscription pack row consumer source in
            bind-IsUnrelated (put_subscription consumer source r) _
              (put_subscription-IsUnrelated consumer source r)
              (λ _. put_subscriptions-IsUnrelated pack worlds rows (arc_of r ∷ desired))))

pub drop_subscriptions-IsUnrelated :
    (pack : UniversePack) (universe : Universe) (desired : List Edge)
    → IsUnrelated (drop_subscriptions pack universe desired)
unfolding drop_subscriptions
drop_subscriptions-IsUnrelated pack universe desired realm = refl
