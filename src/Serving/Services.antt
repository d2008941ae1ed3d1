-- ===== src/Serving/Services.antt =====
-- Promotions, purges and collections, as the abstract state sees them.
use konnaxion_worlds.Base.{
  ℕ, ◌≡◌, refl, ap, sym, ◌∙◌, subst, true, false, Option, none, some, List, [], ◌∷◌, find, find-In,
  find-put, map, arith, from_option, is_id, if◌then◌else◌, ◌==◌, ==_iff, inl, inr, Option-cases,
  Bool-cases,
}
use konnaxion_worlds.Base.Exec.{Result-cases}
use konnaxion_worlds.Models.{World, WorldRelease}
use konnaxion_worlds.Plane.{Host}
use konnaxion_worlds.Store.{Store, world_id_of, release_id_of}
use konnaxion_worlds.Releases.{promote_release}
use konnaxion_worlds.Releases.Consistency.{IsConsistent}
use konnaxion_worlds.Releases.Promotion.{
  Promoted, moved_world, promote_release-Promoted, promote_release-atomic,
}
use konnaxion_worlds.Purge.{Accounts, purge_release, forget_current}
use konnaxion_worlds.Purge.Effect.{
  IsPurged, purge_release-IsPurged, purge_release-atomic, purge_release-IsConsistent,
}
use konnaxion_worlds.Gc.{purge_all}
use konnaxion_worlds.Serving.{serving, pointer_of, Switches}

module _ (host : Host) (now : ℕ) (world : World) (release : WorldRelease) (s : Store) where
  make_current-serving :
      {r : WorldRelease} (k : ℕ)
      → Promoted now world.id release.id s (promote_release host now world release s).1 r
      → serving (promote_release host now world release s).1 k
        ≡ (if world.id == k then some release.id else serving s k)
  make_current-serving k p =
      let same : p.locked.id ≡ world.id = (find-In world_id_of world.id s.worlds p.world_row).1 in
      let row : p.target.id ≡ release.id =
        (find-In release_id_of release.id s.releases p.target_row).1 in
      let moved = find-put world_id_of k (moved_world p.locked p.target) s.worlds in
      ap (λ ws. pointer_of (find world_id_of k ws)) p.worlds
      ∙ ap pointer_of moved
      ∙ elim (Bool-cases (world.id == k)) [
        | inl t ↦
            let key : world.id ≡ k = (==_iff world.id k).0 t in
            let found = subst (λ j. find world_id_of j s.worlds ≡ some p.locked) key p.world_row in
            rw (same, t, found, row) refl
        | inr f ↦ rw (same, f) refl
      ]

  -- A promotion does to the abstract state what its result says: where it returns, its World serves the
  -- release and the others what they served; where it raises, every World serves what it served, unless
  -- it is the audit event behind the commit that could not be written, where the promotion is done.
  pub promote_release-serving :
      Switches host.promotion_audit_failure
        (promote_release host now world release s).0
        world.id
        release.id
        (serving s)
        (serving (promote_release host now world release s).1)
  promote_release-serving = elim (Result-cases (promote_release host now world release s).0) [
    | inl (r, done) ↦
        let (_, _, p) = promote_release-Promoted host now world release s done in
        rw done (λ k. make_current-serving k p)
    | inr (e, raised) ↦ elim (promote_release-atomic host now world release s raised) [
      | inl same ↦ rw raised (inl (λ k. ap (λ t. serving t k) same))
      | inr (code, fails, which, r, p) ↦
          rw raised (inr (code, fails, which, (λ k. make_current-serving k p)))
    ]
  ]

find-forget :
    (i k : ℕ) (ws : List World)
    → pointer_of (find world_id_of k (map (forget_current i) ws)) ≡ (
        if is_id (pointer_of (find world_id_of k ws)) i
        then none
        else pointer_of (find world_id_of k ws))
unfolding find
find-forget i k [] = refl
find-forget i k (w ∷ ws) = ground (arith, find-forget i k ws)

is_id-some : (o : Option ℕ) (i : ℕ) → is_id o i ≡ true → o ≡ some i
is_id-some o i h = ground arith

module _ (accounts : Accounts) (release : WorldRelease) (s : Store) (v : IsConsistent s) where
  serves_target :
      (p : IsPurged release.world_id release.id s (purge_release accounts release s).1) (k : ℕ)
      (w : World)
      → find world_id_of k s.worlds ≡ some w
      → is_id w.current_release_id p.target.id ≡ true
      → ⊥
  serves_target p k w e t =
      let (listed, key) = find-In world_id_of k s.worlds e in
      let (r, found, own, _) =
        v.pointed w p.target.id listed (is_id-some w.current_release_id p.target.id t) in
      let row : p.target.id ≡ release.id =
        (find-In release_id_of release.id s.releases p.target_row).1 in
      let target : ◌≡◌ {A = Option WorldRelease} (some r) (some p.target) =
        sym found ∙ ap (λ j. find release_id_of j s.releases) row ∙ p.target_row in
      let same_id : w.id ≡ p.world.id =
        sym own ∙ ap (λ x. x.world_id) (ap (from_option r) target) ∙ p.own in
      let at_key : k ≡ release.world_id =
        sym key ∙ same_id ∙ (find-In world_id_of release.world_id s.worlds p.world_row).1 in
      let same_world : ◌≡◌ {A = Option World} (some w) (some p.world) =
        sym e ∙ ap (λ j. find world_id_of j s.worlds) at_key ∙ p.world_row in
      cc (t, p.not_current, same_world)

  -- Nobody serves the release that a purge takes.
  unserved :
      (p : IsPurged release.world_id release.id s (purge_release accounts release s).1) (k : ℕ)
      → is_id (serving s k) p.target.id ≡ false
  unserved p k = elim (Option-cases (find world_id_of k s.worlds)) [
    | inl e ↦ rw e refl
    | inr (w, e) ↦ elim (Bool-cases (is_id w.current_release_id p.target.id)) [
      | inr f ↦ rw e f
      | inl t ↦ absurd (serves_target p k w e t)
    ]
  ]

  -- A purge, whether it goes through or is refused, changes no World's service.
  pub purge_release-serving : (k : ℕ) → serving (purge_release accounts release s).1 k ≡ serving s k
  purge_release-serving k = elim (Result-cases (purge_release accounts release s).0) [
    | inl (r, done) ↦
        let p = purge_release-IsPurged accounts release s done in
        ap (λ ws. pointer_of (find world_id_of k ws)) p.worlds
        ∙ find-forget p.target.id k s.worlds
        ∙ rw (unserved p k) refl
    | inr (e, raised) ↦ ap (λ t. serving t k) (purge_release-atomic accounts release s raised)
  ]

-- A garbage collection over any list of releases changes no World's service.
pub purge_all-serving :
    (accounts : Accounts) (releases : List WorldRelease) (s : Store)
    → IsConsistent s
    → (k : ℕ) → serving (purge_all accounts releases s).1 k ≡ serving s k
unfolding purge_all
purge_all-serving accounts [] s v k = refl
purge_all-serving accounts (r ∷ rs) s v k =
    purge_all-serving accounts rs (purge_release accounts r s).1
      (purge_release-IsConsistent accounts r s v) k
    ∙ purge_release-serving accounts r s v k
