-- ===== src/Universes/Promotions.antt =====
-- backend/konnaxion/worlds/services/universe_packs.py, _apply_promotions_and_topology: what its transaction
-- does to the releases that Worlds serve.
use konnaxion_worlds.Base.{
  ℕ, ◌≡◌, refl, ap, sym, ◌∙◌, subst, false, some, List, [], ◌∷◌, In, Text, find, find-In, read-put,
  arith, get_key, set_key, if◌then◌else◌, ◌==◌, ==_iff, ==_refl, inl, inr, ◌⊎◌, Option-cases,
  Bool-cases,
}
use konnaxion_worlds.Base.Exec.{ok, pure, ◌>>=◌, continue-ok, continue-keeps}
use konnaxion_worlds.Models.{World, WorldRelease, Visibility}
use konnaxion_worlds.Plane.{Host}
use konnaxion_worlds.Store.{Store, world_id_of, get_world, save_world}
use konnaxion_worlds.Releases.{promote_release}
use konnaxion_worlds.Releases.Promotion.{promote_release-Promoted}
use konnaxion_worlds.Serving.{serving, pointer_of}
use konnaxion_worlds.Serving.Services.{promote_release-serving}
use konnaxion_worlds.Universes.{PackWorld, Realm, Worlds, on_store}
use konnaxion_worlds.Universes.Finalize.{promote_all, show_worlds, shown, seen_as}
use konnaxion_worlds.Universes.Served.{
  key_of, key_at, seed_at, Serves, SameService, SameService-refl, SameService-trans,
  promote_release-key, promote_release-seed,
}

-- A World that a list of targets names.
abbrev pub Aimed : ℕ → List (World × WorldRelease) → Type 0
Aimed k targets = (t : World × WorldRelease) × In t targets × (t.0.id ≡ k)

-- Every target for a World has the content.
abbrev pub Exact : Store → ℕ → Text × Text → List (World × WorldRelease) → Type 0
Exact s k content targets =
    (t : World × WorldRelease) → In t targets → t.0.id ≡ k → seed_at s t.1.id ≡ some content

module _ (host : Host) (now : ℕ) where
  module _ (world : World) (release : WorldRelease) (s : Store) {r : WorldRelease}
      (done : (promote_release host now world release s).0 ≡ ok r) where
    abbrev after : Store
    after = (promote_release host now world release s).1

    same_key : (k : ℕ) → key_at after k ≡ key_at s k
    same_key k =
        promote_release-key host now world release s k
          (promote_release-Promoted host now world release s done).2

    same_seed : (i : ℕ) → seed_at after i ≡ seed_at s i
    same_seed i =
        promote_release-seed host now world release s i
          (promote_release-Promoted host now world release s done).2

    served : (k : ℕ) → serving after k ≡ (if world.id == k then some release.id else serving s k)
    served k = (rw done at (promote_release-serving host now world release s)) k

    -- The World of a promotion serves its release, and the others what they served.
    moves_one :
        {content : Text × Text}
        → seed_at s release.id ≡ some content
        → Serves after world.id content
    moves_one exact = (release.id, rw ==_refl at (served world.id), same_seed release.id ∙ exact)

    leaves_others :
        (k : ℕ) (content : Text × Text)
        → (world.id == k) ≡ false
        → Serves s k content
        → Serves after k content
    leaves_others k content f (i, e, c) = (i, (rw f at (served k)) ∙ e, same_seed i ∙ c)

  pub promote_all-Serves :
      (targets : List (World × WorldRelease)) (s : Store) (k : ℕ) (content : Text × Text)
      {promoted : List (Text × ℕ)}
      → Exact s k content targets
      → Serves s k content ⊎ Aimed k targets
      → (promote_all host now targets s).0 ≡ ok promoted
      → Serves (promote_all host now targets s).1 k content
  unfolding promote_all
  promote_all-Serves [] s k content exact (inl v) h = v
  promote_all-Serves [] s k content exact (inr (t, m, e)) h = elim m [ ]
  promote_all-Serves ((w, r) ∷ rest) s k content exact start h =
      let (target, done, first, more) =
        continue-ok (promote_release host now w r s)
          (λ target.
            promote_all host now rest
            >>= (λ promoted. pure ((w.key, target.release_number) ∷ promoted)))
          h in
      let s1 : Store = (promote_release host now w r s).1 in
      let (promoted, others, second, _) =
        continue-ok (promote_all host now rest s1)
          (λ promoted. pure ((w.key, target.release_number) ∷ promoted)) more in
      let exact1 : Exact s1 k content rest =
        λ t m e. same_seed w r s done t.1.id ∙ exact t (inr m) e in
      let start1 : Serves s1 k content ⊎ Aimed k rest = elim (Bool-cases (w.id == k)) [
        | inl t ↦
            let key : w.id ≡ k = (==_iff w.id k).0 t in
            inl (
              subst (λ j. Serves s1 j content) key
                (moves_one w r s done (exact (w, r) (inl refl) key)))
        | inr f ↦ elim start [
          | inl v ↦ inl (leaves_others w r s done k content f v)
          | inr (t, inl e, key) ↦ absurd (ground (arith, e, key, f))
          | inr (t, inr m, key) ↦ inr (t, m, key)
        ]
      ] in
      subst (λ x. Serves x.1 k content) (sym (first ∙ second))
        (promote_all-Serves rest s1 k content exact1 start1 others)

  pub promote_all-key :
      (targets : List (World × WorldRelease)) (s : Store) (k : ℕ) {promoted : List (Text × ℕ)}
      → (promote_all host now targets s).0 ≡ ok promoted
      → key_at (promote_all host now targets s).1 k ≡ key_at s k
  unfolding promote_all
  promote_all-key [] s k h = refl
  promote_all-key ((w, r) ∷ rest) s k h =
      let (target, done, first, more) =
        continue-ok (promote_release host now w r s)
          (λ target.
            promote_all host now rest
            >>= (λ promoted. pure ((w.key, target.release_number) ∷ promoted)))
          h in
      let s1 : Store = (promote_release host now w r s).1 in
      let (promoted, others, second, _) =
        continue-ok (promote_all host now rest s1)
          (λ promoted. pure ((w.key, target.release_number) ∷ promoted)) more in
      ap (λ x. key_at x.1 k) (first ∙ second)
      ∙ promote_all-key rest s1 k others
      ∙ same_key w r s done k

abbrev visible_as : Visibility → World → World
visible_as visibility w = record w { visibility = visibility }

shown-SameService :
    (visibility : Visibility) (i : ℕ) (s : Store)
    → SameService s ((get_world i >>= shown visibility) s).1
unfolding get_world save_world
shown-SameService visibility i s = elim (Option-cases (find world_id_of i s.worlds)) [
  | inl e ↦ rw e (SameService-refl s)
  | inr (w, e) ↦ elim (Bool-cases (seen_as w.visibility visibility)) [
    | inl t ↦ rw (e, t) (SameService-refl s)
    | inr f ↦
        let row : find world_id_of w.id s.worlds ≡ some w =
          subst (λ j. find world_id_of j s.worlds ≡ some w)
            (sym (find-In world_id_of i s.worlds e).1) e in
        rw (e, f)
          (
            read-put world_id_of pointer_of (visible_as visibility w) w s.worlds row refl,
            read-put world_id_of key_of (visible_as visibility w) w s.worlds row refl,
            (λ i. refl),
          )
  ]
]

-- What is done to the visibility of Worlds is not seen.
pub show_worlds-SameService :
    (rows : List PackWorld) (worlds : Worlds) (realm : Realm) (s : Store)
    → SameService s realm.store
    → SameService s (show_worlds rows worlds realm).1.store
unfolding show_worlds
show_worlds-SameService [] worlds realm s h = h
show_worlds-SameService (row ∷ rows) worlds realm s h =
    elim (Option-cases (get_key row.world_key worlds)) [
      | inl e ↦ rw e h
      | inr (known, e) ↦ rw e (
          continue-keeps (λ r. SameService s r.store)
            (on_store (get_world known.id >>= shown row.visibility) realm)
            (λ world. show_worlds rows (set_key world.key world worlds))
            (SameService-trans s realm.store
              ((get_world known.id >>= shown row.visibility) realm.store).1 h
              (shown-SameService row.visibility known.id realm.store))
            (λ world r kept.
              show_worlds-SameService rows (set_key world.key world worlds) r s kept))
    ]
