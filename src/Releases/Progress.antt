-- ===== src/Releases/Progress.antt =====
-- Progress: a promotion that ought to go through does.
use konnaxion_worlds.Base.{
  ℕ, ◌≡◌, refl, sym, ◌∙◌, subst, Bool, true, false, not, ◌&&◌, none, some, List, find, find-In, put,
  arith, ◌==◌, ==_refl, inl, inr, any-In, Option-cases, Bool-cases,
}
use konnaxion_worlds.Base.Exec.{ok}
use konnaxion_worlds.Models.{World, WorldRelease, ReleaseStatus, is_current, is_archived}
use konnaxion_worlds.Plane.{Host, validate_release_schemas}
use konnaxion_worlds.Store.{
  Store, world_id_of, release_id_of, get_world, get_release, get_release_of, save_release,
  second_current, save_world, audit,
}
use konnaxion_worlds.Releases.{make_current, promote_locked, promote_release}
use konnaxion_worlds.Releases.Consistency.{IsConsistent, Others}
use konnaxion_worlds.Releases.Promotion.{
  Promoted, prepared, promoted_row, moved_world, frozen_previous, frozen_row,
}

abbrev same_world_current : WorldRelease → WorldRelease → Bool
same_world_current r x = not (x.id == r.id) && (x.world_id == r.world_id && is_current x.status)

no_second :
    (r : WorldRelease) (worlds : List World) (releases : List WorldRelease)
    → Others r.world_id worlds releases
    → second_current r releases ≡ false
unfolding second_current
no_second r worlds releases v = elim (Bool-cases (second_current r releases)) [
  | inr f ↦ f
  | inl t ↦
      let (x, m, e) = any-In (same_world_current r) releases (ground arith) in
      absurd (v.idle x m (ground arith) (ground arith))
]

-- A release that is not CURRENT is never the second one that is.
frozen_single :
    (p : WorldRelease) (rs : List WorldRelease) → second_current (frozen_row p) rs ≡ false
unfolding second_current
frozen_single p rs = refl

module _ (now : ℕ) (locked : World) (target : WorldRelease) (s : Store)
    (waits : target.status ≡ ReleaseStatus.ready)
    (free : second_current
        (promoted_row now target)
        (frozen_previous locked.current_release_id target s.releases)
      ≡ false) where
  unpointed-ok :
      locked.current_release_id ≡ none
      → (make_current now locked target s).0 ≡ ok (promoted_row now target)
  unfolding make_current get_release save_release save_world
  unpointed-ok e = ground arith

  pointed-ok :
      (i : ℕ) (p : WorldRelease)
      → locked.current_release_id ≡ some i
      → find release_id_of i s.releases ≡ some p
      → (make_current now locked target s).0 ≡ ok (promoted_row now target)
  unfolding make_current get_release save_release save_world
  pointed-ok i p e found = ground (arith, frozen_single p s.releases)

locked_is_made :
    (now : ℕ) (world : World) (target : WorldRelease) (s : Store)
    → find world_id_of world.id s.worlds ≡ some world
    → find release_id_of target.id s.releases ≡ some target
    → target.world_id ≡ world.id
    → (promote_locked now world.id target.id s).0 ≡ (make_current now world target s).0
unfolding promote_locked get_world get_release_of
locked_is_made now world target s ew et own = rw (ew, et, own, ==_refl) refl

announced :
    (host : Host) (now : ℕ) (world : World) (target : WorldRelease) (s : Store) {r : WorldRelease}
    → target.world_id ≡ world.id
    → is_archived world.status ≡ false
    → target.status ≡ ReleaseStatus.ready
    → validate_release_schemas host target s.plane ≡ true
    → host.promotion_audit_failure ≡ none
    → (promote_locked now world.id target.id s).0 ≡ ok r
    → (promote_release host now world target s).0 ≡ ok r
unfolding promote_release audit
announced host now world target s own live waits valid silent done = ground arith

pub promote_release-succeeds :
    (host : Host) (now : ℕ) (world : World) (target : WorldRelease) (s : Store)
    → IsConsistent s
    → find world_id_of world.id s.worlds ≡ some world
    → find release_id_of target.id s.releases ≡ some target
    → target.world_id ≡ world.id
    → is_archived world.status ≡ false
    → target.status ≡ ReleaseStatus.ready
    → validate_release_schemas host target s.plane ≡ true
    → host.promotion_audit_failure ≡ none
    → (promote_release host now world target s).0 ≡ ok (promoted_row now target)
promote_release-succeeds host now world target s v ew et own live waits valid silent =
    announced host now world target s own live waits valid silent done
  where
    after :
        Promoted now world.id target.id s
          (record s {
            worlds = put world_id_of (moved_world world target) s.worlds;
            releases =
                put release_id_of
                  (promoted_row now target)
                  (frozen_previous world.current_release_id target s.releases);
          })
          (promoted_row now target)
    after = record {
      locked = world;
      target = target;
      world_row = ew;
      target_row = et;
      own = own;
      was_ready = waits;
      returned = refl;
      worlds = refl;
      releases = refl;
    }

    free :
        second_current
          (promoted_row now target)
          (frozen_previous world.current_release_id target s.releases)
        ≡ false
    free =
        no_second (promoted_row now target) s.worlds
          (frozen_previous world.current_release_id target s.releases)
          (subst
            (λ k. Others k s.worlds (frozen_previous world.current_release_id target s.releases))
            (sym own) (prepared now world.id target.id v after).0)

    made : (make_current now world target s).0 ≡ ok (promoted_row now target)
    made = elim (Option-cases world.current_release_id) [
      | inl e ↦ unpointed-ok now world target s waits free e
      | inr (i, e) ↦
          let (p, found, _, _) = v.pointed world i (find-In world_id_of world.id s.worlds ew).0 e in
          pointed-ok now world target s waits free i p e found
    ]

    done : (promote_locked now world.id target.id s).0 ≡ ok (promoted_row now target)
    done = locked_is_made now world target s ew et own ∙ made
