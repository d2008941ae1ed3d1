-- ===== src/Releases/Promotion.antt =====
-- Promotion: it is atomic, keeps the pointers consistent, and moves exactly what it should.
use konnaxion_worlds.Base.{
  ℕ, ◌≡◌, refl, ap, sym, ◌∙◌, subst, true, false, Option, none, some, List, In, find, find-In,
  find-put, put, arith, if◌then◌else◌, ◌==◌, ==_iff, ◌⊎◌, inl, inr, Option-cases, Bool-cases,
}
use konnaxion_worlds.Base.Exec.{ok, err, Result-cases}
use konnaxion_worlds.Models.{World, WorldRelease, ReleaseStatus, Lifecycle, is_current, is_archived}
use konnaxion_worlds.Plane.{Host, validate_release_schemas}
use konnaxion_worlds.Store.{
  Store, Failure, world_id_of, release_id_of, get_world, get_release, get_release_of, save_release,
  save_world, audit, host_error,
}
use konnaxion_worlds.Releases.{make_current, promote_locked, promote_release}
use konnaxion_worlds.Releases.Consistency.{
  IsConsistent, Others, unpointed-Others, frozen-Others, promoted-Pointers,
}

abbrev pub promoted_row : (now : ℕ) → WorldRelease → WorldRelease
promoted_row now target = record target { status = ReleaseStatus.current; promoted_at = some now }

abbrev pub moved_world : World → WorldRelease → World
moved_world locked target = record locked {
  current_release_id = some target.id;
  status = Lifecycle.active;
}

abbrev pub frozen_row : WorldRelease → WorldRelease
frozen_row previous = record previous { status = ReleaseStatus.frozen }

abbrev frozen_found : Option WorldRelease → List WorldRelease → List WorldRelease
frozen_found none releases = releases
frozen_found (some p) releases =
    if is_current p.status then put release_id_of (frozen_row p) releases else releases

-- The releases once the one that the World points to, if it is another one, is frozen.
abbrev pub frozen_previous : Option ℕ → WorldRelease → List WorldRelease → List WorldRelease
frozen_previous none target releases = releases
frozen_previous (some i) target releases =
    if i == target.id then releases else frozen_found (find release_id_of i releases) releases

-- What a promotion that succeeds does to the tables of Worlds and releases.
pub record Promoted (now world_id release_id : ℕ) (s s' : Store) (result : WorldRelease)
    : Type 0 where
  pub locked : World
  pub target : WorldRelease
  pub world_row : find world_id_of world_id s.worlds ≡ some locked
  pub target_row : find release_id_of release_id s.releases ≡ some target
  pub own : target.world_id ≡ locked.id
  pub was_ready : target.status ≡ ReleaseStatus.ready
  pub returned : result ≡ promoted_row now target
  pub worlds : s'.worlds ≡ put world_id_of (moved_world locked target) s.worlds
  pub releases :
      s'.releases
      ≡ put release_id_of
          (promoted_row now target)
          (frozen_previous locked.current_release_id target s.releases)

module _ (now : ℕ) (locked : World) (target : WorldRelease) (s : Store) where
  make_current-tables :
      {r : WorldRelease}
      → (make_current now locked target s).0 ≡ ok r
      → (target.status ≡ ReleaseStatus.ready)
        × (r ≡ promoted_row now target)
        × ((make_current now locked target s).1.worlds
            ≡ put world_id_of (moved_world locked target) s.worlds)
        × ((make_current now locked target s).1.releases
            ≡ put release_id_of
                (promoted_row now target)
                (frozen_previous locked.current_release_id target s.releases))
  unfolding make_current get_release save_release save_world
  make_current-tables h = ground arith

promote_locked-Promoted :
    (now world_id release_id : ℕ) (s : Store) {r : WorldRelease}
    → (promote_locked now world_id release_id s).0 ≡ ok r
    → Promoted now world_id release_id s (promote_locked now world_id release_id s).1 r
unfolding promote_locked get_world get_release_of
promote_locked-Promoted now world_id release_id s {r} h =
    elim (Option-cases (find world_id_of world_id s.worlds)) [
      | inl e ↦ absurd (cc (rw e at h))
      | inr (locked, e) ↦ elim (Option-cases (find release_id_of release_id s.releases)) [
        | inl f ↦ absurd (cc (rw (e, f) at h))
        | inr (target, f) ↦ elim (Bool-cases (target.world_id == locked.id)) [
          | inr g ↦ absurd (cc (rw (e, f, g) at h))
          | inl g ↦
              let (ready, same, ws, rs) =
                make_current-tables now locked target s (rw (e, f, g) at h) in
              record {
                locked = locked;
                target = target;
                world_row = e;
                target_row = f;
                own = (==_iff target.world_id locked.id).0 g;
                was_ready = ready;
                returned = same;
                worlds = rw (e, f, g) ws;
                releases = rw (e, f, g) rs;
              }
        ]
      ]
    ]

module _ (now world_id release_id : ℕ) {s s' : Store} {r : WorldRelease} (v : IsConsistent s)
    (p : Promoted now world_id release_id s s' r) where
  target_is : p.target.id ≡ release_id
  target_is = (find-In release_id_of release_id s.releases p.target_row).1

  locked_listed : In p.locked s.worlds
  locked_listed = (find-In world_id_of world_id s.worlds p.world_row).0

  found_target : find release_id_of p.target.id s.releases ≡ some p.target
  found_target =
      subst (λ j. find release_id_of j s.releases ≡ some p.target) (sym target_is) p.target_row

  abbrev pub Prepared : Type 0
  Prepared =
      Others p.locked.id s.worlds (frozen_previous p.locked.current_release_id p.target s.releases)
      × (find release_id_of p.target.id
            (frozen_previous p.locked.current_release_id p.target s.releases)
          ≡ some p.target)

  -- The World points to the row `q`, which is not the target.
  prepared_by_freezing :
      (q : WorldRelease)
      → p.locked.current_release_id ≡ some q.id
      → find release_id_of q.id s.releases ≡ some q
      → q.world_id ≡ p.locked.id
      → q.status ≡ ReleaseStatus.current
      → Prepared
  prepared_by_freezing q e found own cur = elim (Bool-cases (q.id == p.target.id)) [
    | inl t ↦
        let same : ◌≡◌ {A = Option WorldRelease} (some q) (some p.target) =
          sym found
          ∙ ap (λ j. find release_id_of j s.releases) ((==_iff q.id p.target.id).0 t)
          ∙ found_target in
        absurd (cc (cur, p.was_ready, same))
    | inr f ↦
        rw (e, f, found, cur)
          (frozen-Others v p.locked locked_listed q e found own, rw (find-put, f) found_target)
  ]

  pub prepared : Prepared
  prepared = elim (Option-cases p.locked.current_release_id) [
    | inl e ↦ rw e (unpointed-Others v p.locked locked_listed e, found_target)
    | inr (i, e) ↦
        let (q, found, own, cur) = v.pointed p.locked i locked_listed e in
        let same : q.id ≡ i = (find-In release_id_of i s.releases found).1 in
        prepared_by_freezing q (e ∙ ap some (sym same))
          (subst (λ j. find release_id_of j s.releases ≡ some q) (sym same) found) own cur
  ]

  Promoted-IsConsistent : IsConsistent s'
  Promoted-IsConsistent =
      rw (p.worlds, p.releases)
        (promoted-Pointers (moved_world p.locked p.target) (promoted_row now p.target) prepared.0
          p.target prepared.1 (λ c. absurd (cc (c, p.was_ready))) refl p.own refl)

-- A promotion either refuses, changing nothing, or is its transaction and an audit event.
module _ (host : Host) (now : ℕ) (world : World) (release : WorldRelease) (s : Store) where
  promote_release-ok :
      {r : WorldRelease}
      → (promote_release host now world release s).0 ≡ ok r
      → (is_archived world.status ≡ false)
        × (validate_release_schemas host release s.plane ≡ true)
        × ((promote_locked now world.id release.id s).0 ≡ ok r)
        × ((promote_release host now world release s).1.worlds
            ≡ (promote_locked now world.id release.id s).1.worlds)
        × ((promote_release host now world release s).1.releases
            ≡ (promote_locked now world.id release.id s).1.releases)
  unfolding promote_release audit
  promote_release-ok h = ground arith

raised_late :
    (host : Host) (now : ℕ) (world : World) (release : WorldRelease) (s : Store) {e : Failure}
    {r : WorldRelease}
    → (promote_release host now world release s).0 ≡ err e
    → (promote_locked now world.id release.id s).0 ≡ ok r
    → ((promote_release host now world release s).1 ≡ s)
      ⊎ ((code : ℕ) × (host.promotion_audit_failure ≡ some code)
          × (e ≡ host_error code)
          × ((promote_release host now world release s).1
              ≡ (promote_locked now world.id release.id s).1))
unfolding promote_release audit
raised_late host now world release s h done = ground (arith, h, done)

raised_within :
    (host : Host) (now : ℕ) (world : World) (release : WorldRelease) (s : Store) {f : Failure}
    → (promote_locked now world.id release.id s).0 ≡ err f
    → (promote_release host now world release s).1 ≡ s
unfolding promote_release audit
raised_within host now world release s h = ground (arith, h)

-- A promotion that raises has changed nothing at all, with one exception: where the write of the audit
-- event behind the commit raises, the promotion raises just that, and has been done, with all the
-- changes of the tables that it makes where it returns.
pub promote_release-atomic :
    (host : Host) (now : ℕ) (world : World) (release : WorldRelease) (s : Store) {e : Failure}
    → (promote_release host now world release s).0 ≡ err e
    → ((promote_release host now world release s).1 ≡ s)
      ⊎ ((code : ℕ) × (host.promotion_audit_failure ≡ some code)
          × (e ≡ host_error code)
          × (r : WorldRelease) × Promoted now world.id release.id s
              (promote_release host now world release s).1
              r)
promote_release-atomic host now world release s h =
    elim (Result-cases (promote_locked now world.id release.id s).0) [
      | inr (f, raised) ↦ inl (raised_within host now world release s raised)
      | inl (r, done) ↦ elim (raised_late host now world release s h done) [
        | inl same ↦ inl same
        | inr (code, fails, which, committed) ↦ inr (
          code,
          fails,
          which,
          r,
          subst (λ t. Promoted now world.id release.id s t r) (sym committed)
              (promote_locked-Promoted now world.id release.id s done),
        )
      ]
    ]

-- Where a promotion returns, the caller's World object was not archived, the schemas that the caller's
-- release object names passed validation, and the locked rows were a World and a READY release of it. It
-- returns that release as CURRENT, and has changed the tables as `Promoted` says: the World points to the
-- release and is ACTIVE, the release is CURRENT, and the one that the World pointed to before, if it is
-- another and was CURRENT, is FROZEN. (The locked World's own status is not looked at.)
pub promote_release-Promoted :
    (host : Host) (now : ℕ) (world : World) (release : WorldRelease) (s : Store) {r : WorldRelease}
    → (promote_release host now world release s).0 ≡ ok r
    → (is_archived world.status ≡ false)
      × (validate_release_schemas host release s.plane ≡ true)
      × Promoted now world.id release.id s (promote_release host now world release s).1 r
promote_release-Promoted host now world release s h =
    let (live, valid, done, ws, rs) = promote_release-ok host now world release s h in
    let p = promote_locked-Promoted now world.id release.id s done in
    (
      live,
      valid,
      record {
        locked = p.locked;
        target = p.target;
        world_row = p.world_row;
        target_row = p.target_row;
        own = p.own;
        was_ready = p.was_ready;
        returned = p.returned;
        worlds = ws ∙ p.worlds;
        releases = rs ∙ p.releases;
      },
    )

-- Every promotion in a store with consistent pointers, refused or not, leaves them consistent:
-- whatever the caller's objects say, each World that points to a release points to a CURRENT one of its own, and no other release
-- of it is CURRENT.
pub promote_release-IsConsistent :
    (host : Host) (now : ℕ) (world : World) (release : WorldRelease) (s : Store)
    → IsConsistent s
    → IsConsistent (promote_release host now world release s).1
promote_release-IsConsistent host now world release s v =
    elim (Result-cases (promote_release host now world release s).0) [
      | inl (r, done) ↦
          Promoted-IsConsistent now world.id release.id v
            (promote_release-Promoted host now world release s done).2
      | inr (e, raised) ↦ elim (promote_release-atomic host now world release s raised) [
        | inl same ↦ subst IsConsistent (sym same) v
        | inr (code, fails, which, r, p) ↦ Promoted-IsConsistent now world.id release.id v p
      ]
    ]
