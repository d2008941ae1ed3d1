-- ===== src/Access/Resolution.antt =====
-- What a runtime stands for, and which refusal comes first.
use konnaxion_worlds.Base.{
  ◌≡◌, ◌≢◌, refl, subst, ◌↔◌, ◌⊎◌, inl, inr, true, false, Option, none, some, List, [], ◌∷◌, arith,
  In, find, Text, text_eq, text_eq_iff, Bool-cases, Option-cases, from_option, ap,
}
use konnaxion_worlds.Base.Exec.{ok, err}
use konnaxion_worlds.Models.{Universe, World, WorldRelease, User, Lifecycle, ReleaseStatus}
use konnaxion_worlds.Access.{
  Registry, LoadedWorld, WorldRuntime, can_manage_universe, can_access_world, can_manage_world,
  access_denied, accept_row, joined, runtime_for_world, runtime_from_release, joined_release,
  select_world, resolve_world_runtime,
}

-- The World may be served to the user on this release.
pub record IsServable (db : Registry) (user : Option User) (loaded : LoadedWorld)
    (release : WorldRelease) : Type 0 where
  pub universe_live : loaded.universe.status ≢ Lifecycle.archived
  pub universe_open :
      (loaded.universe.status ≡ Lifecycle.maintenance)
      → can_manage_universe db user loaded.universe ≡ true
  pub world_live : loaded.world.status ≢ Lifecycle.archived
  pub allowed : can_access_world db user loaded.world loaded.universe ≡ true
  pub world_open :
      (loaded.world.status ≡ Lifecycle.maintenance)
      → can_manage_world db user loaded.world loaded.universe ≡ true
  pub pinned : loaded.current_release ≡ some release
  pub own : release.world_id ≡ loaded.world.id
  pub is_current : release.status ≡ ReleaseStatus.current

module _ (db : Registry) (user : Option User) (loaded : LoadedWorld) where
  refused_without_release :
      {rt : WorldRuntime} → loaded.current_release ≡ none → runtime_for_world db user loaded ≢ ok rt
  unfolding runtime_for_world
  refused_without_release e h = ground arith

  servable :
      (release : WorldRelease) {rt : WorldRuntime}
      → loaded.current_release ≡ some release
      → runtime_for_world db user loaded ≡ ok rt
      → IsServable db user loaded release
  unfolding runtime_for_world
  servable release e h = ground arith

  runtime_of :
      (release : WorldRelease) {rt : WorldRuntime}
      → loaded.current_release ≡ some release
      → runtime_for_world db user loaded ≡ ok rt
      → rt ≡ runtime_from_release loaded.universe loaded.world release
  unfolding runtime_for_world runtime_from_release
  runtime_of release e h = ground arith

  served :
      (release : WorldRelease)
      → IsServable db user loaded release
      → runtime_for_world db user loaded
        ≡ ok (runtime_from_release loaded.universe loaded.world release)
  unfolding runtime_for_world runtime_from_release
  served release v = ground arith

  -- A runtime is handed out exactly for a servable World, and it is the runtime of its current
  -- release.
  pub runtime_for_world_iff :
      (rt : WorldRuntime)
      → (runtime_for_world db user loaded ≡ ok rt) ↔ (
          (release : WorldRelease) × IsServable db user loaded release
          × (rt ≡ runtime_from_release loaded.universe loaded.world release))
  runtime_for_world_iff rt = (
    (λ h. elim (Option-cases loaded.current_release) [
      | inl e ↦ absurd (refused_without_release e h)
      | inr (release, e) ↦ (release, servable release e h, runtime_of release e h)
    ]),
    (λ (release, v, e). rw e (served release v)),
  )

-- The row of `worlds` that a route names: the World has the key of the route, its Universe is the
-- one that the World belongs to, and has the key of the route where the route names one.
pub record IsRow (db : Registry) (world_key : Text) (universe_key : Option Text)
    (worlds : List World) (loaded : LoadedWorld) : Type 0 where
  pub listed : In loaded.world worlds
  pub key : loaded.world.key ≡ world_key
  pub universe : find (λ u. u.id) loaded.world.universe_id db.universes ≡ some loaded.universe
  pub universe_named : (k : Text) → universe_key ≡ some k → loaded.universe.key ≡ k
  pub release : loaded.current_release ≡ joined_release db loaded.world.current_release_id

accept_row-some :
    (universe_key : Option Text) (row rest : Option LoadedWorld) {loaded : LoadedWorld}
    → accept_row universe_key row rest ≡ some loaded
    → ((row ≡ some loaded) × ((k : Text) → universe_key ≡ some k → loaded.universe.key ≡ k))
      ⊎ (rest ≡ some loaded)
accept_row-some universe_key none rest h = inr h
accept_row-some none (some row) rest h = inl (h, λ k e. cc)
accept_row-some (some key) (some row) rest {loaded} h =
    elim (Bool-cases (text_eq row.universe.key key)) [
      | inl t ↦ inl (rw t at h, λ k e. cc (rw t at h, (text_eq_iff row.universe.key key).0 t, e))
      | inr f ↦ inr (rw f at h)
    ]

module _ (db : Registry) (world_key : Text) (universe_key : Option Text) where
  IsRow-tail :
      (world : World) {worlds : List World} {loaded : LoadedWorld}
      → IsRow db world_key universe_key worlds loaded
      → IsRow db world_key universe_key (world ∷ worlds) loaded
  IsRow-tail world v = record {
    listed = inr v.listed;
    key = v.key;
    universe = v.universe;
    universe_named = v.universe_named;
    release = v.release;
  }

  joined-IsRow :
      (world : World) (worlds : List World) (o : Option Universe) {loaded : LoadedWorld}
      → find (λ u. u.id) world.universe_id db.universes ≡ o
      → joined db world o ≡ some loaded
      → world.key ≡ world_key
      → ((k : Text) → universe_key ≡ some k → loaded.universe.key ≡ k)
      → IsRow db world_key universe_key (world ∷ worlds) loaded
  joined-IsRow world worlds none here h e named = cc
  joined-IsRow world worlds (some universe) here h e named =
      subst
        (λ l.
          ((k : Text) → universe_key ≡ some k → l.universe.key ≡ k)
          → IsRow db world_key universe_key (world ∷ worlds) l)
        (ap
          (from_option (record {
            world = world;
            universe = universe;
            current_release = joined_release db world.current_release_id;
          }))
          h)
        (λ n. record {
          listed = inl refl;
          key = e;
          universe = here;
          universe_named = n;
          release = refl;
        })
        named

  select_world-IsRow :
      (worlds : List World) {loaded : LoadedWorld}
      → select_world db world_key universe_key worlds ≡ some loaded
      → IsRow db world_key universe_key worlds loaded
  unfolding select_world
  select_world-IsRow [] h = absurd (cc h)
  select_world-IsRow (world ∷ worlds) {loaded} h = elim (Bool-cases (text_eq world.key world_key)) [
    | inl same ↦
        elim (accept_row-some universe_key
          (joined db world (find (λ u. u.id) world.universe_id db.universes))
          (select_world db world_key universe_key worlds) (rw same at h)) [
            | inl (row, named) ↦
                joined-IsRow world worlds _ refl row ((text_eq_iff world.key world_key).0 same)
                  named
            | inr later ↦ IsRow-tail world (select_world-IsRow worlds later)
          ]
    | inr other ↦ IsRow-tail world (select_world-IsRow worlds (rw other at h))
  ]

  -- A resolved route names a World of the catalog, in the Universe of the route where it names one;
  -- the runtime is that of the World's current release, which is CURRENT and the World's own, and
  -- the World is one that the user may enter, neither archived nor in an archived Universe, nor in
  -- maintenance unless the user manages it.
  pub resolve_world_runtime_sound :
      (user : Option User) (rt : WorldRuntime)
      → resolve_world_runtime db world_key user universe_key ≡ ok rt
      → (loaded : LoadedWorld) × (release : WorldRelease) × IsRow db world_key universe_key
          db.worlds loaded
        × IsServable db user loaded release
        × (rt ≡ runtime_from_release loaded.universe loaded.world release)
  unfolding resolve_world_runtime
  resolve_world_runtime_sound user rt h =
      elim (Option-cases (select_world db world_key universe_key db.worlds)) [
        | inl absent ↦ absurd (cc (rw absent at h))
        | inr (loaded, e) ↦
            let (release, v, same) = (runtime_for_world_iff db user loaded rt).0 (rw e at h) in
            (loaded, release, select_world-IsRow db.worlds e, v, same)
      ]

-- Someone who may not enter learns no more of a World than that: in a Universe that is active, and
-- short of a World that is archived, the answer is the same whatever the World's state and release.
pub refused_alike :
    (db : Registry) (user : Option User) (loaded : LoadedWorld)
    → loaded.universe.status ≡ Lifecycle.active
    → loaded.world.status ≢ Lifecycle.archived
    → can_access_world db user loaded.world loaded.universe ≡ false
    → runtime_for_world db user loaded ≡ err access_denied
unfolding runtime_for_world
refused_alike db user loaded active live outside = ground arith
