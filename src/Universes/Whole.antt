-- ===== src/Universes/Whole.antt =====
-- backend/konnaxion/worlds/services/universe_packs.py, finalize_universe_pack, from the first step to the last.
use konnaxion_worlds.Base.{
  ℕ, ◌≡◌, ◌⊎◌, refl, sym, ◌∙◌, ap, subst, Bool, true, false, Option, none, some, Option-cases, List,
  [], ◌∷◌, In, Text, inl, inr, Bool-cases,
}
use konnaxion_worlds.Base.Exec.{
  Result, ok, err, pure, Result-cases, continue, continue-ok, continue-at, continue-err, ◌>>◌,
}
use konnaxion_worlds.Models.{Universe}
use konnaxion_worlds.Plane.{Host}
use konnaxion_worlds.Store.{Store, Failure}
use konnaxion_worlds.Seeds.{SeedPack}
use konnaxion_worlds.Seeds.Catalog.{SeedPackRow, find_pack}
use konnaxion_worlds.Universes.{PackWorld, UniversePack, Realm, Worlds, Packs, resolve_world_packs}
use konnaxion_worlds.Universes.Ensuring.{ensure_universe_worlds}
use konnaxion_worlds.Universes.Finalize.{
  Plan, plan_releases, when_ready, finish_pack, finalize_planned, finalize_resolved,
  finalize_universe_pack, apply_topology_without_promotion, apply_promotions_and_topology, no_text,
  Announcement, before_promotion, after_promotion, tell,
}
use konnaxion_worlds.Universes.Served.{key_at, Serves}
use konnaxion_worlds.Universes.Registry.{Kept-refl}
use konnaxion_worlds.Universes.Ids.{HasIds, Carries}
use konnaxion_worlds.Universes.Registration.{
  ensure_universe_worlds-Done, ensure_universe_worlds-err,
}
use konnaxion_worlds.Universes.Resolving.{HasUniqueKeys, resolve_world_packs-Resolved}
use konnaxion_worlds.Universes.Planning.{plan_releases-Sound}
use konnaxion_worlds.Universes.Effects.{bind-IsApart}
use konnaxion_worlds.Universes.Exact.{
  apply_promotions-Serves, apply_promotions-err, apply_topology_without_promotion-IsApart,
}
use konnaxion_worlds.Universes.Targets.{HasReleaseRows, content_of, row_planned}

-- A row of a pack is installed: its World serves a release with the checksum and the version of the Seed
-- Pack that the row names.
abbrev pub Installed : (catalog : List SeedPack) → Store → PackWorld → Type 0
Installed catalog s row =
    (k : ℕ) × (seed : SeedPack) × (find_pack row.seed_pack_key row.seed_version catalog ≡ some seed)
    × (key_at s k ≡ some row.world_key)
    × Serves s k (content_of seed)

no_text-empty : (keys : List Text) → no_text keys ≡ true → keys ≡ []
no_text-empty [] h = refl
no_text-empty (key ∷ keys) h = absurd cc

-- What the last announcement makes of a promotion that returned.
tell-ok :
    (o : Option Failure) (y : Result Failure (List (Text × ℕ)) × Realm) {promoted : List (Text × ℕ)}
    → (continue y (λ ps. tell o >> pure ps)).0 ≡ ok promoted
    → continue y (λ ps. tell o >> pure ps) ≡ y
tell-ok none (ok ps, realm) h = refl
tell-ok none (err e, realm) h = refl
tell-ok (some e) (ok ps, realm) h = absurd cc
tell-ok (some e) (err f, realm) h = refl

tell-err :
    (o : Option Failure) (y : Result Failure (List (Text × ℕ)) × Realm) {e : Failure}
    → (continue y (λ ps. tell o >> pure ps)).0 ≡ err e
    → ((y.0 ≡ err e) × (continue y (λ ps. tell o >> pure ps) ≡ y)) ⊎ (o ≡ some e)
tell-err none (ok ps, realm) h = absurd cc
tell-err (some f) (ok ps, realm) h = inr cc
tell-err o (err f, realm) h = inl (h, refl)

module _ (host : Host) (now : ℕ) (progress : Announcement → Option Failure)
    (pack : UniversePack) where
  finish_pack-ok :
      (universe : Universe) (worlds : Worlds) (plan : Plan) (realm : Realm)
      {promoted : List (Text × ℕ)}
      → (finish_pack host now progress true pack universe worlds plan realm).0 ≡ ok promoted
      → finish_pack host now progress true pack universe worlds plan realm
        ≡ apply_promotions_and_topology host now pack universe worlds plan.targets realm
  finish_pack-ok universe worlds plan realm h = elim (Option-cases (progress before_promotion)) [
    | inr (e, raises) ↦ absurd (cc (rw raises at h))
    | inl quiet ↦ rw quiet (
        tell-ok (progress after_promotion)
          (apply_promotions_and_topology host now pack universe worlds plan.targets realm)
          (rw quiet at h))
  ]

  finish_pack-err :
      (universe : Universe) (worlds : Worlds) (plan : Plan) (realm : Realm) {e : Failure}
      → (finish_pack host now progress true pack universe worlds plan realm).0 ≡ err e
      → ((finish_pack host now progress true pack universe worlds plan realm).1 ≡ realm)
        ⊎ (progress after_promotion ≡ some e)
  finish_pack-err universe worlds plan realm h = elim (Option-cases (progress before_promotion)) [
    | inr (e, raises) ↦ inl (rw raises refl)
    | inl quiet ↦
        elim (tell-err (progress after_promotion)
          (apply_promotions_and_topology host now pack universe worlds plan.targets realm)
          (rw quiet at h)) [
            | inr late ↦ inr late
            | inl (raised, same) ↦ inl (
                rw quiet (
                  ap (λ x. x.1) same
                  ∙ apply_promotions-err host now pack universe worlds plan.targets realm raised))
          ]
  ]

  -- A run that gets to its end had a plan without gaps.
  when_ready-ok :
      (promote : Bool) (universe : Universe) (worlds : Worlds) (r : Result Failure Plan)
      (realm : Realm) {promoted : List (Text × ℕ)}
      → (when_ready host now progress promote pack universe worlds r realm).0 ≡ ok promoted
      → (plan : Plan) × (r ≡ ok plan)
        × (plan.not_ready ≡ [])
        × (when_ready host now progress promote pack universe worlds r realm
            ≡ finish_pack host now progress promote pack universe worlds plan realm)
  when_ready-ok promote universe worlds (err e) realm h = absurd cc
  when_ready-ok promote universe worlds (ok plan) realm h =
      elim (Bool-cases (no_text plan.not_ready)) [
        | inl t ↦ (plan, refl, no_text-empty plan.not_ready t, rw t refl)
        | inr f ↦ absurd (cc (rw f at h))
      ]

  -- From the outside, a run that is refused after the registration has left the Worlds where it found
  -- them, but for an announcement that comes too late.
  when_ready-err :
      (universe : Universe) (worlds : Worlds) (r : Result Failure Plan) (realm : Realm)
      {e : Failure}
      → (when_ready host now progress true pack universe worlds r realm).0 ≡ err e
      → ((when_ready host now progress true pack universe worlds r realm).1 ≡ realm)
        ⊎ (progress after_promotion ≡ some e)
  when_ready-err universe worlds (err e) realm h = inl refl
  when_ready-err universe worlds (ok plan) realm h = elim (Bool-cases (no_text plan.not_ready)) [
    | inr f ↦ inl (rw f refl)
    | inl t ↦ rw t (finish_pack-err universe worlds plan realm (rw t at h))
  ]

  when_ready-staged :
      (universe : Universe) (worlds : Worlds) (r : Result Failure Plan) (realm : Realm)
      → (when_ready host now progress false pack universe worlds r realm).1.store ≡ realm.store
  when_ready-staged universe worlds (err e) realm = refl
  when_ready-staged universe worlds (ok plan) realm = elim (Bool-cases (no_text plan.not_ready)) [
    | inr f ↦ rw f refl
    | inl t ↦ rw t (
        bind-IsApart (apply_topology_without_promotion pack universe worlds) (λ _. pure [])
          (apply_topology_without_promotion-IsApart pack universe worlds) (λ _. λ r. refl) realm)
  ]

  module _ (catalog : List SeedPack) (registered : List SeedPackRow) (actor : Option ℕ)
      (realm : Realm) (v : HasIds realm.store.worlds realm.next_world_id) where
    -- The registration, and what follows it.
    abbrev entered : Packs → Result Failure (Universe × Worlds) × Realm
    entered resolved = ensure_universe_worlds pack resolved actor realm

    abbrev ends : Bool → Packs → Universe → Worlds → Result Failure (List (Text × ℕ)) × Realm
    ends promote resolved u ws =
        finalize_planned host now progress promote pack resolved (u, ws) (entered resolved).1

    refused_entry :
        (promote : Bool) (resolved : Packs) {e : Failure}
        → (entered resolved).0 ≡ err e
        → Carries realm.store
            (finalize_resolved host now progress promote pack actor (ok resolved) realm).1.store
    refused_entry promote resolved raised =
        let next = finalize_planned host now progress promote pack resolved in
        subst (λ r. Carries realm.store r.store)
          (sym (
            ap (λ x. x.1) (continue-err (entered resolved) next raised)
            ∙ ensure_universe_worlds-err pack actor realm v resolved raised))
          (Kept-refl realm v).carries

    resolved-err :
        (x : Result Failure Packs) {e : Failure}
        → (finalize_resolved host now progress true pack actor x realm).0 ≡ err e
        → Carries realm.store (finalize_resolved host now progress true pack actor x realm).1.store
          ⊎ (progress after_promotion ≡ some e)
    resolved-err (err e) h = inl (Kept-refl realm v).carries
    resolved-err (ok resolved) h = elim (Result-cases (entered resolved).0) [
      | inr (e, raised) ↦ inl (refused_entry true resolved raised)
      | inl ((u, ws), done) ↦
          let same =
            continue-at (entered resolved) (finalize_planned host now progress true pack resolved)
              done in
          let r = plan_releases (entered resolved).1.store.releases resolved ws pack.worlds in
          elim (when_ready-err u ws r (entered resolved).1 (ap (λ x. x.0) (sym same) ∙ h)) [
            | inr late ↦ inr late
            | inl stays ↦ inl (
                subst (λ x. Carries realm.store x.1.store) (sym same)
                  (subst (λ r. Carries realm.store r.store) (sym stays)
                    (ensure_universe_worlds-Done pack actor realm v resolved done).0.carries))
          ]
    ]

    resolved-staged :
        (x : Result Failure Packs)
        → Carries realm.store (finalize_resolved host now progress false pack actor x realm).1.store
    resolved-staged (err e) = (Kept-refl realm v).carries
    resolved-staged (ok resolved) = elim (Result-cases (entered resolved).0) [
      | inr (e, raised) ↦ refused_entry false resolved raised
      | inl ((u, ws), done) ↦
          let same =
            continue-at (entered resolved) (finalize_planned host now progress false pack resolved)
              done in
          let r = plan_releases (entered resolved).1.store.releases resolved ws pack.worlds in
          subst (λ x. Carries realm.store x.1.store) (sym same)
            (subst (Carries realm.store) (sym (when_ready-staged u ws r (entered resolved).1))
              (ensure_universe_worlds-Done pack actor realm v resolved done).0.carries)
    ]

    abbrev finalized : Bool → Result Failure (List (Text × ℕ)) × Realm
    finalized promote =
        finalize_universe_pack host now progress catalog registered promote pack actor realm

    -- Where World numbers are unique and below the next one: if the finalization of a Universe with
    -- promotion raises, then every World serves the release that it served and has its key, and the
    -- table of releases is as it was, whatever had been promoted until then; the one exception is a
    -- failure that the caller's callback raises when it is told, after the commit, that the Universe
    -- has been promoted.
    pub finalize_universe_pack-err :
        {e : Failure}
        → (finalized true).0 ≡ err e
        → Carries realm.store (finalized true).1.store ⊎ (progress after_promotion ≡ some e)
    unfolding finalize_universe_pack
    finalize_universe_pack-err {e} h =
        resolved-err (resolve_world_packs catalog registered pack.worlds []) h

    -- Where World numbers are unique and below the next one: a finalization without promotion, whether
    -- it returns or raises, changes no World's release or key, and no release.
    pub finalize_universe_pack-staged : Carries realm.store (finalized false).1.store
    unfolding finalize_universe_pack
    finalize_universe_pack-staged =
        resolved-staged (resolve_world_packs catalog registered pack.worlds [])

    resolved-Serves :
        (x : Result Failure Packs)
        → resolve_world_packs catalog registered pack.worlds [] ≡ x
        → {promoted : List (Text × ℕ)} → HasReleaseRows realm.store.releases
        → HasUniqueKeys pack.worlds
        → (finalize_resolved host now progress true pack actor x realm).0 ≡ ok promoted
        → (row : PackWorld) → In row pack.worlds
        → Installed catalog
            (finalize_resolved host now progress true pack actor x realm).1.store
            row
    resolved-Serves (err e) from rows_there unique h row m = absurd cc
    resolved-Serves (ok resolved) from rows_there unique h row m =
        let ((u, ws), done, same, more) =
          continue-ok (entered resolved) (finalize_planned host now progress true pack resolved)
            h in
        let middle : Realm = (entered resolved).1 in
        let r = plan_releases middle.store.releases resolved ws pack.worlds in
        let (plan, planned, ready, finishes) = when_ready-ok true u ws r middle more in
        let applied = finish_pack-ok u ws plan middle (ap (λ x. x.0) (sym finishes) ∙ more) in
        let (kept, known) = ensure_universe_worlds-Done pack actor realm v resolved done in
        let there : HasReleaseRows middle.store.releases =
          subst HasReleaseRows (sym kept.carries.2) rows_there in
        let (seed, found, in_dict) =
          resolve_world_packs-Resolved catalog registered pack.worlds [] unique from row m in
        let (k, at_k, exact, start) =
          row_planned middle.store there resolved ws known pack.worlds plan
            (plan_releases-Sound middle.store.releases resolved ws pack.worlds plan planned) row
            seed m ready in_dict in
        let (serves, key_kept) =
          apply_promotions-Serves host now pack u ws plan.targets middle k (content_of seed) exact
            start (ap (λ x. x.0) (sym (finishes ∙ applied)) ∙ more) in
        subst (λ x. Installed catalog x.1.store row) (sym (same ∙ finishes ∙ applied))
          (k, seed, found, key_kept ∙ at_k, serves)

    -- Where World numbers are unique and below the next one, release numbers are unique, and no two rows of the pack have
    -- one key: once a finalization with promotion returns, every row of the pack has its World, and that
    -- World serves a release with the checksum and the version of the Seed Pack that the row names.
    pub finalize_universe_pack-Serves :
        {promoted : List (Text × ℕ)}
        → HasReleaseRows realm.store.releases
        → HasUniqueKeys pack.worlds
        → (finalized true).0 ≡ ok promoted
        → (row : PackWorld) → In row pack.worlds
        → Installed catalog (finalized true).1.store row
    unfolding finalize_universe_pack
    finalize_universe_pack-Serves rows_there unique h row m =
        resolved-Serves (resolve_world_packs catalog registered pack.worlds []) refl rows_there
          unique h row m
