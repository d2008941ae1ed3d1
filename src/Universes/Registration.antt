-- ===== src/Universes/Registration.antt =====
-- backend/konnaxion/worlds/services/universe_packs.py, _ensure_universe_worlds: a whole pack is registered, or
-- nothing is.
use konnaxion_worlds.Base.{
  ℕ, ◌≡◌, refl, sym, ◌∙◌, ap, subst, Option, none, some, List, [], ◌∷◌, arith, get_key, set_key,
  inl, inr, Option-cases,
}
use konnaxion_worlds.Base.Exec.{ok, err, result_or, pure, ◌>>=◌, continue-ok, settle-ok, atomic-err}
use konnaxion_worlds.Models.{Universe, World}
use konnaxion_worlds.Store.{Failure}
use konnaxion_worlds.Universes.{PackWorld, UniversePack, Realm, Deed, Worlds, Packs}
use konnaxion_worlds.Universes.Ensuring.{
  find_universe, got_universe, prepare_universe, ensure_world, ensure_worlds,
  ensure_universe_worlds,
}
use konnaxion_worlds.Universes.Registry.{
  Kept, Kept-refl, Kept-trans, Known, Known-carried, Known-set, ensure_world-Kept,
}
use konnaxion_worlds.Universes.Ids.{HasIds}

-- The Worlds that a registration returns are those of the table.
abbrev pub Done : Realm → Worlds → Realm → Type 0
Done s worlds t = Kept s t × Known t.store worlds

module _ (universe : Universe) (resolved : Packs) (actor : Option ℕ) where
  pub ensure_worlds-Done :
      (rows : List PackWorld) (worlds : Worlds) (realm : Realm)
      → HasIds realm.store.worlds realm.next_world_id
      → Known realm.store worlds
      → {result : Worlds} → (ensure_worlds universe resolved actor rows worlds realm).0 ≡ ok result
      → Done realm result (ensure_worlds universe resolved actor rows worlds realm).1
  unfolding ensure_worlds
  ensure_worlds-Done [] worlds realm v known {result} h =
      subst (λ d. Done realm d realm) (ap (result_or worlds) h) (Kept-refl realm v, known)
  ensure_worlds-Done (row ∷ rows) worlds realm v known {result} h =
      elim (Option-cases (get_key row.world_key resolved)) [
        | inl e ↦ absurd (cc (rw e at h))
        | inr (seed, e) ↦
            let rest : World → Deed Worlds =
              λ w. ensure_worlds universe resolved actor rows (set_key w.key w worlds) in
            let (w, done, same, more) =
              continue-ok (ensure_world universe row seed actor realm) rest (rw e at h) in
            let middle : Realm = (ensure_world universe row seed actor realm).1 in
            let (kept, there) = ensure_world-Kept universe row seed actor realm v done in
            let (then_kept, then_known) =
              ensure_worlds-Done rows (set_key w.key w worlds) middle kept.ids
                (Known-set middle.store worlds row.world_key w
                  (Known-carried realm.store middle.store worlds kept.carries known) there)
                more in
            rw e (
              subst (λ x. Done realm result x.1) (sym same)
                (Kept-trans realm middle (rest w middle).1 kept then_kept, then_known))
      ]

module _ (pack : UniversePack) (actor : Option ℕ) (realm : Realm)
    (v : HasIds realm.store.worlds realm.next_world_id) where
  -- Only the table of Universes has changed.
  abbrev Beside : Realm → Type 0
  Beside t = (t.store ≡ realm.store) × (t.next_world_id ≡ realm.next_world_id)

  Beside-Kept : (t : Realm) → Beside t → Kept realm t
  Beside-Kept t (a, b) = record {
    carries = rw a ((λ i. refl), (λ i key m. m), refl);
    ids = rw (a, b) v;
  }

  got_universe-Beside : (o : Option Universe) → Beside (got_universe pack actor o realm).1
  got_universe-Beside none = (refl, refl)
  got_universe-Beside (some u) = (refl, refl)

  prepare_universe-Beside :
      (u : Universe) (t : Realm) → Beside t → Beside (prepare_universe pack u t).1
  prepare_universe-Beside u t h = ground (arith, h)

  pub ensure_universe_worlds-err :
      (resolved : Packs) {e : Failure}
      → (ensure_universe_worlds pack resolved actor realm).0 ≡ err e
      → (ensure_universe_worlds pack resolved actor realm).1 ≡ realm
  unfolding ensure_universe_worlds
  ensure_universe_worlds-err resolved h =
      atomic-err
        ((λ r. got_universe pack actor (find_universe pack.universe_key r.universes) r) >>= (λ u.
          prepare_universe pack u
          >>= (λ u1. ensure_worlds u1 resolved actor pack.worlds [] >>= (λ ws. pure (u1, ws)))))
        realm h

  -- Where a registration returns, the Worlds stand as in the table, and no World serves another
  -- release, or has another key, than before.
  pub ensure_universe_worlds-Done :
      (resolved : Packs) {universe : Universe} {worlds : Worlds}
      → (ensure_universe_worlds pack resolved actor realm).0 ≡ ok (universe, worlds)
      → Done realm worlds (ensure_universe_worlds pack resolved actor realm).1
  unfolding ensure_universe_worlds get_key
  ensure_universe_worlds-Done resolved {universe} {worlds} h =
      let o : Option Universe = find_universe pack.universe_key realm.universes in
      let registered : Universe → Deed (Universe × Worlds) =
        λ u. ensure_worlds u resolved actor pack.worlds [] >>= (λ ws. pure (u, ws)) in
      let prepared : Universe → Deed (Universe × Worlds) =
        λ u. prepare_universe pack u >>= registered in
      let settled = settle-ok realm (((λ r. got_universe pack actor o r) >>= prepared) realm) h in
      let (u, got, first, more) =
        continue-ok (got_universe pack actor o realm) prepared (ap (λ x. x.0) (sym settled) ∙ h) in
      let r1 : Realm = (got_universe pack actor o realm).1 in
      let (u1, ready, second, most) = continue-ok (prepare_universe pack u r1) registered more in
      let r2 : Realm = (prepare_universe pack u r1).1 in
      let (ws, all, third, returned) =
        continue-ok (ensure_worlds u1 resolved actor pack.worlds [] r2) (λ ws. pure (u1, ws))
          most in
      let r3 : Realm = (ensure_worlds u1 resolved actor pack.worlds [] r2).1 in
      let kept : Kept realm r2 =
        Beside-Kept r2 (prepare_universe-Beside u r1 (got_universe-Beside o)) in
      let (done, known) =
        ensure_worlds-Done u1 resolved actor pack.worlds [] r2 kept.ids
          (λ key w e. absurd (ground arith)) all in
      subst (λ x. Done realm worlds x.1) (sym (settled ∙ first ∙ second ∙ third))
        (
          Kept-trans realm r2 r3 kept done,
          subst (λ x. Known r3.store (result_or {A = Universe × Worlds} (u1, ws) x).1) returned
              known,
        )
