-- ===== src/Universes/Exact.antt =====
-- backend/konnaxion/worlds/services/universe_packs.py, finalize_universe_pack: a whole Universe is promoted, or
-- nothing is.
use konnaxion_worlds.Base.{ℕ, ◌≡◌, refl, sym, ◌∙◌, ap, subst, List, Text, ◌⊎◌}
use konnaxion_worlds.Base.Exec.{
  ok, err, pure, ◌>>=◌, ◌>>◌, continue-ok, continue-keeps, settle-keeps, settle-ok, atomic-err,
}
use konnaxion_worlds.Models.{Universe, World, WorldRelease}
use konnaxion_worlds.Plane.{Host}
use konnaxion_worlds.Store.{Store, Failure}
use konnaxion_worlds.Universes.{UniversePack, Realm, Deed, Worlds, on_store}
use konnaxion_worlds.Universes.Ensuring.{save_universe}
use konnaxion_worlds.Universes.Topology.{reconcile_topology}
use konnaxion_worlds.Universes.Finalize.{
  promote_all, show_worlds, get_universe, default_id, apply_promotions_and_topology,
  apply_topology_without_promotion,
}
use konnaxion_worlds.Universes.Effects.{
  IsApart, bind-IsApart, reconcile_topology-IsApart, get_universe-IsApart, save_universe-IsApart,
}
use konnaxion_worlds.Universes.Served.{key_at, Serves, SameService, SameService-refl, Serves-same}
use konnaxion_worlds.Universes.Promotions.{
  Aimed, Exact, promote_all-Serves, promote_all-key, show_worlds-SameService,
}

module _ (pack : UniversePack) (universe : Universe) where
  -- The Universe is described anew.
  abbrev described : (Universe → Universe) → Worlds → Deed Unit
  described update worlds =
      get_universe universe.id
      >>= (λ locked. reconcile_topology pack locked worlds >> save_universe (update locked))

  described-IsApart :
      (update : Universe → Universe) (worlds : Worlds) → IsApart (described update worlds)
  described-IsApart update worlds =
      bind-IsApart (get_universe universe.id) _ (get_universe-IsApart universe.id) (λ locked.
        bind-IsApart (reconcile_topology pack locked worlds) _
          (reconcile_topology-IsApart pack locked worlds)
          (λ _. save_universe-IsApart (update locked)))

  pub apply_topology_without_promotion-IsApart :
      (worlds : Worlds) → IsApart (apply_topology_without_promotion pack universe worlds)
  unfolding apply_topology_without_promotion
  apply_topology_without_promotion-IsApart worlds realm =
      settle-keeps (λ r. r.store ≡ realm.store) realm _ refl
        (described-IsApart
          (λ locked. record locked { default_world_id = default_id worlds pack.default_world })
          worlds realm)

module _ (host : Host) (now : ℕ) (pack : UniversePack) (universe : Universe) (worlds : Worlds) where
  abbrev opened : Worlds → Universe → Universe
  opened shown_worlds locked = record locked {
    default_world_id = default_id shown_worlds pack.default_world;
    visibility = pack.visibility;
  }

  abbrev told : List (Text × ℕ) → Worlds → Deed (List (Text × ℕ))
  told promoted shown_worlds = get_universe universe.id >>= (λ locked.
      reconcile_topology pack locked shown_worlds
      >> (save_universe (opened shown_worlds locked) >> pure promoted))

  told-IsApart :
      (promoted : List (Text × ℕ)) (shown_worlds : Worlds) → IsApart (told promoted shown_worlds)
  told-IsApart promoted shown_worlds =
      bind-IsApart (get_universe universe.id) _ (get_universe-IsApart universe.id) (λ locked.
        bind-IsApart (reconcile_topology pack locked shown_worlds) _
          (reconcile_topology-IsApart pack locked shown_worlds)
          (λ _.
            bind-IsApart (save_universe (opened shown_worlds locked)) _
              (save_universe-IsApart (opened shown_worlds locked)) (λ _. λ realm. refl)))

  settled-SameService :
      (promoted : List (Text × ℕ)) (realm : Realm)
      → SameService realm.store ((show_worlds pack.worlds worlds >>= told promoted) realm).1.store
  settled-SameService promoted realm =
      continue-keeps (λ r. SameService realm.store r.store) (show_worlds pack.worlds worlds realm)
        (told promoted)
        (show_worlds-SameService pack.worlds worlds realm realm.store
          (SameService-refl realm.store))
        (λ shown_worlds r kept.
          subst (SameService realm.store) (sym (told-IsApart promoted shown_worlds r)) kept)

  abbrev body : List (World × WorldRelease) → Deed (List (Text × ℕ))
  body targets =
      on_store (promote_all host now targets)
      >>= (λ promoted. show_worlds pack.worlds worlds >>= told promoted)

  pub apply_promotions-err :
      (targets : List (World × WorldRelease)) (realm : Realm) {e : Failure}
      → (apply_promotions_and_topology host now pack universe worlds targets realm).0 ≡ err e
      → (apply_promotions_and_topology host now pack universe worlds targets realm).1 ≡ realm
  unfolding apply_promotions_and_topology
  apply_promotions-err targets realm h = atomic-err (body targets) realm h

  -- A promotion of a Universe that returns is, from the outside, all its promotions.
  apply_promotions-SameService :
      (targets : List (World × WorldRelease)) (realm : Realm) {promoted : List (Text × ℕ)}
      → (apply_promotions_and_topology host now pack universe worlds targets realm).0 ≡ ok promoted
      → ((ps : List (Text × ℕ)) × ((promote_all host now targets realm.store).0 ≡ ok ps))
        × SameService
            (promote_all host now targets realm.store).1
            (apply_promotions_and_topology host now pack universe worlds targets realm).1.store
  unfolding apply_promotions_and_topology
  apply_promotions-SameService targets realm h =
      let settled = settle-ok realm (body targets realm) h in
      let (promoted, done, first, _) =
        continue-ok (on_store (promote_all host now targets) realm)
          (λ promoted. show_worlds pack.worlds worlds >>= told promoted)
          (ap (λ x. x.0) (sym settled) ∙ h) in
      let middle : Realm = (on_store (promote_all host now targets) realm).1 in
      (
        (promoted, done),
        subst (λ x. SameService middle.store x.1.store) (sym (settled ∙ first))
            (settled-SameService promoted middle),
      )

  pub apply_promotions-Serves :
      (targets : List (World × WorldRelease)) (realm : Realm) (k : ℕ) (content : Text × Text)
      {promoted : List (Text × ℕ)}
      → Exact realm.store k content targets
      → Serves realm.store k content ⊎ Aimed k targets
      → (apply_promotions_and_topology host now pack universe worlds targets realm).0 ≡ ok promoted
      → Serves
          (apply_promotions_and_topology host now pack universe worlds targets realm).1.store
          k
          content
        × (key_at
              (apply_promotions_and_topology host now pack universe worlds targets realm).1.store
              k
            ≡ key_at realm.store k)
  apply_promotions-Serves targets realm k content exact start h =
      let ((promoted, done), same) = apply_promotions-SameService targets realm h in
      let middle : Store = (promote_all host now targets realm.store).1 in
      (
        Serves-same middle
            (apply_promotions_and_topology host now pack universe worlds targets realm).1.store k
            content same
            (promote_all-Serves host now targets realm.store k content exact start done),
        same.1 k ∙ promote_all-key host now targets realm.store k done,
      )
