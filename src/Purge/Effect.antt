-- ===== src/Purge/Effect.antt =====
-- What a purge does, when it refuses, and what it leaves alone.
use konnaxion_worlds.Base.{
  ℕ, ◌≡◌, ◌≢◌, refl, ap, sym, ◌∙◌, subst, Bool, true, false, not, Option, none, some, List, [], ◌∷◌,
  find, find-In, remove, keep, map, any, arith, is_id, Text, text_eq, text_eq_iff, text_eq_refl,
  from_option, Bool-cases, Option-cases, ==_iff, ==_refl, ◌==◌, inl, inr,
}
use konnaxion_worlds.Base.Exec.{ok, err, Result-cases}
use konnaxion_worlds.Models.{World, WorldRelease}
use konnaxion_worlds.Plane.{Plane, SchemaState, schema_state, drop_schema, without_keys_to}
use konnaxion_worlds.Store.{
  Store, Failure, world_id_of, release_id_of, get_world, get_release_of, audit,
}
use konnaxion_worlds.Purge.{
  Accounts, Purged, purge_release, purge_locked, purge_target, drop_schemas, delete_release,
  retains, publishes, housekeeping, forget_parent, forget_current,
}
use konnaxion_worlds.Purge.Cascade.{find-cascade, cascade-Pointers}
use konnaxion_worlds.Releases.Consistency.{IsConsistent}

-- The rows and the schemas of `target` are gone, for the reasons that allow it.
pub record IsPurged (world_id release_id : ℕ) (s s' : Store) : Type 0 where
  pub world : World
  pub target : WorldRelease
  pub world_row : find world_id_of world_id s.worlds ≡ some world
  pub target_row : find release_id_of release_id s.releases ≡ some target
  pub own : target.world_id ≡ world.id
  pub not_current : is_id world.current_release_id target.id ≡ false
  pub not_retained : any (retains target.id) s.snapshots ≡ false
  pub not_published : any (publishes target.id) s.publications ≡ false
  pub worlds : s'.worlds ≡ map (forget_current target.id) s.worlds
  pub releases :
      s'.releases ≡ map (forget_parent target.id) (remove release_id_of target.id s.releases)
  pub bridges : s'.bridges ≡ keep (λ b. not (b.release_id == target.id)) s.bridges
  pub plane : s'.plane ≡ drop_schema target.domain_schema (drop_schema target.ekoh_schema s.plane)
  pub snapshots : s'.snapshots ≡ s.snapshots
  pub publications : s'.publications ≡ s.publications

purge_target-tables :
    (world : World) (target : WorldRelease) (s : Store) {x : World × List ℕ}
    → (purge_target world target s).0 ≡ ok x
    → (is_id world.current_release_id target.id ≡ false)
      × (any (retains target.id) s.snapshots ≡ false)
      × (any (publishes target.id) s.publications ≡ false)
      × ((purge_target world target s).1.worlds ≡ map (forget_current target.id) s.worlds)
      × ((purge_target world target s).1.releases
          ≡ map (forget_parent target.id) (remove release_id_of target.id s.releases))
      × ((purge_target world target s).1.bridges
          ≡ keep (λ b. not (b.release_id == target.id)) s.bridges)
      × ((purge_target world target s).1.plane
          ≡ drop_schema target.domain_schema (drop_schema target.ekoh_schema s.plane))
      × ((purge_target world target s).1.snapshots ≡ s.snapshots)
      × ((purge_target world target s).1.publications ≡ s.publications)
unfolding purge_target drop_schemas delete_release
purge_target-tables world target s h = ground arith

purge_locked-IsPurged :
    (release : WorldRelease) (s : Store) {x : World × List ℕ}
    → (purge_locked release s).0 ≡ ok x
    → IsPurged release.world_id release.id s (purge_locked release s).1
unfolding purge_locked get_world get_release_of
purge_locked-IsPurged release s h =
    elim (Option-cases (find world_id_of release.world_id s.worlds)) [
      | inl e ↦ absurd (cc (rw e at h))
      | inr (world, e) ↦ elim (Option-cases (find release_id_of release.id s.releases)) [
        | inl f ↦ absurd (cc (rw (e, f) at h))
        | inr (target, f) ↦ elim (Bool-cases (target.world_id == world.id)) [
          | inr g ↦ absurd (cc (rw (e, f, g) at h))
          | inl g ↦
              let (a, b, c, ws, rs, bs, pl, sn, pu) =
                purge_target-tables world target s (rw (e, f, g) at h) in
              record {
                world = world;
                target = target;
                world_row = e;
                target_row = f;
                own = (==_iff target.world_id world.id).0 g;
                not_current = a;
                not_retained = b;
                not_published = c;
                worlds = rw (e, f, g) ws;
                releases = rw (e, f, g) rs;
                bridges = rw (e, f, g) bs;
                plane = rw (e, f, g) pl;
                snapshots = rw (e, f, g) sn;
                publications = rw (e, f, g) pu;
              }
        ]
      ]
    ]

module _ (accounts : Accounts) (release : WorldRelease) (s : Store) where
  -- The tables after a purge are those after its transaction: the housekeeping writes an audit row.
  purge_release-tables :
      {r : Purged}
      → (purge_release accounts release s).0 ≡ ok r
      → ((x : World × List ℕ) × ((purge_locked release s).0 ≡ ok x))
        × ((purge_release accounts release s).1.worlds ≡ (purge_locked release s).1.worlds)
        × ((purge_release accounts release s).1.releases ≡ (purge_locked release s).1.releases)
        × ((purge_release accounts release s).1.bridges ≡ (purge_locked release s).1.bridges)
        × ((purge_release accounts release s).1.plane ≡ (purge_locked release s).1.plane)
        × ((purge_release accounts release s).1.snapshots ≡ (purge_locked release s).1.snapshots)
        × ((purge_release accounts release s).1.publications
            ≡ (purge_locked release s).1.publications)
  unfolding purge_release housekeeping audit
  purge_release-tables h = ground arith

-- A purge that succeeds found a release of its World that is not the current one and that no
-- snapshot and no publication retains. It removed that row, its bridges and its two schemas, cleared
-- the columns of Worlds and releases that named it, and left the snapshots and the publications as
-- they were.
pub purge_release-IsPurged :
    (accounts : Accounts) (release : WorldRelease) (s : Store) {r : Purged}
    → (purge_release accounts release s).0 ≡ ok r
    → IsPurged release.world_id release.id s (purge_release accounts release s).1
purge_release-IsPurged accounts release s h =
    let ((x, done), ws, rs, bs, pl, sn, pu) = purge_release-tables accounts release s h in
    let p = purge_locked-IsPurged release s done in
    record {
      world = p.world;
      target = p.target;
      world_row = p.world_row;
      target_row = p.target_row;
      own = p.own;
      not_current = p.not_current;
      not_retained = p.not_retained;
      not_published = p.not_published;
      worlds = ws ∙ p.worlds;
      releases = rs ∙ p.releases;
      bridges = bs ∙ p.bridges;
      plane = pl ∙ p.plane;
      snapshots = sn ∙ p.snapshots;
      publications = pu ∙ p.publications;
    }

-- A purge that raises has changed nothing: the schemas that its transaction dropped are back.
pub purge_release-atomic :
    (accounts : Accounts) (release : WorldRelease) (s : Store) {e : Failure}
    → (purge_release accounts release s).0 ≡ err e
    → (purge_release accounts release s).1 ≡ s
unfolding purge_release housekeeping audit
purge_release-atomic accounts release s h = ground arith

module _ (accounts : Accounts) (release : WorldRelease) (s : Store)
    (p : IsPurged release.world_id release.id s (purge_release accounts release s).1) where
  target_is : p.target.id ≡ release.id
  target_is = (find-In release_id_of release.id s.releases p.target_row).1

-- What is left of a schema once the schema `dropped` is gone, under this test of their names.
abbrev left_schema : Text → Bool → Option SchemaState → Option SchemaState
left_schema dropped true state = none
left_schema dropped false none = none
left_schema dropped false (some state) = some (without_keys_to dropped state)

schema_state-drop :
    (name dropped : Text) (plane : Plane)
    → schema_state name (drop_schema dropped plane)
      ≡ left_schema dropped (text_eq dropped name) (schema_state name plane)
unfolding schema_state drop_schema
schema_state-drop name dropped [] = ground arith
schema_state-drop name dropped ((n, st) ∷ plane) =
    let rest = schema_state-drop name dropped plane in
    elim (Bool-cases (text_eq n dropped)) [
      | inl e ↦
          let same : n ≡ dropped = (text_eq_iff n dropped).0 e in
          rw same (rw text_eq_refl (ground (arith, rest)))
      | inr f ↦ elim (Bool-cases (text_eq n name)) [
        | inl g ↦
            let other : text_eq dropped name ≡ false =
              ground (arith, differs ((text_eq_iff n name).0 g) f) in
            rw (f, g, other) refl
        | inr g ↦ rw (f, g) rest
      ]
    ]
  where
    differs : n ≡ name → text_eq n dropped ≡ false → text_eq dropped name ≡ false
    differs e f = elim (Bool-cases (text_eq dropped name)) [
      | inl t ↦
          absurd (cc (f, (text_eq_iff n dropped).1 (e ∙ sym ((text_eq_iff dropped name).0 t))))
      | inr t ↦ t
    ]

both_dropped :
    (d e : Text) (plane : Plane)
    → (schema_state d (drop_schema d (drop_schema e plane)) ≡ none)
      × (schema_state e (drop_schema d (drop_schema e plane)) ≡ none)
both_dropped d e plane = (
  rw (schema_state-drop, text_eq_refl) refl,
  schema_state-drop e d (drop_schema e plane)
      ∙ ap (left_schema d (text_eq d e)) (
          schema_state-drop e e plane
          ∙ ap (λ b. left_schema e b (schema_state e plane)) (text_eq_refl e))
      ∙ nothing (text_eq d e),
)
  where
    nothing : (b : Bool) → left_schema d b none ≡ none
    nothing true = refl
    nothing false = refl

-- After a purge that succeeds the release is gone, with both of its schemas.
pub purge_release-gone :
    (accounts : Accounts) (release target : WorldRelease) (s : Store) {r : Purged}
    → (purge_release accounts release s).0 ≡ ok r
    → find release_id_of release.id s.releases ≡ some target
    → (find release_id_of release.id (purge_release accounts release s).1.releases ≡ none)
      × (schema_state target.domain_schema (purge_release accounts release s).1.plane ≡ none)
      × (schema_state target.ekoh_schema (purge_release accounts release s).1.plane ≡ none)
purge_release-gone accounts release target s h e =
    let p = purge_release-IsPurged accounts release s h in
    let same = target_is accounts release s p in
    let here : target ≡ p.target = ap (from_option target) (sym e ∙ p.target_row) in
    let (d, e) = both_dropped p.target.domain_schema p.target.ekoh_schema s.plane in
    (
      ap (find release_id_of release.id) p.releases
          ∙ find-cascade p.target.id release.id s.releases
          ∙ rw (p.target_row, same, ==_refl) refl,
      rw (here, p.plane) d,
      rw (here, p.plane) e,
    )

-- A purge leaves every other release as it is, but for the parent it may name.
pub purge_release-others :
    (accounts : Accounts) (release : WorldRelease) (s : Store) {r : Purged}
    → (purge_release accounts release s).0 ≡ ok r
    → (other : WorldRelease) → other.id ≢ release.id
    → find release_id_of other.id s.releases ≡ some other
    → find release_id_of other.id (purge_release accounts release s).1.releases
      ≡ some (forget_parent release.id other)
purge_release-others accounts release s h other differs here =
    let p = purge_release-IsPurged accounts release s h in
    let same = target_is accounts release s p in
    ap (find release_id_of other.id) p.releases
    ∙ find-cascade p.target.id other.id s.releases
    ∙ rw same (rw here (ground arith))

-- Every purge of a store with consistent pointers, refused or not, leaves them consistent.
pub purge_release-IsConsistent :
    (accounts : Accounts) (release : WorldRelease) (s : Store)
    → IsConsistent s
    → IsConsistent (purge_release accounts release s).1
purge_release-IsConsistent accounts release s v =
    elim (Result-cases (purge_release accounts release s).0) [
      | inl (r, done) ↦
          let p = purge_release-IsPurged accounts release s done in
          rw (p.worlds, p.releases) (cascade-Pointers v p.target.id)
      | inr (e, raised) ↦
          subst IsConsistent (sym (purge_release-atomic accounts release s raised)) v
    ]
