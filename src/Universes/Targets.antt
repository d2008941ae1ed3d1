-- ===== src/Universes/Targets.antt =====
-- backend/konnaxion/worlds/services/universe_packs.py, finalize_universe_pack: what the targets of a plan are.
use konnaxion_worlds.Base.{
  ℕ, ◌≡◌, refl, sym, ◌∙◌, ap, subst, true, some, List, [], In, Text, text_eq_iff, find, arith,
  get_key, from_option, inl, inr, Option-cases, ◌⊎◌,
}
use konnaxion_worlds.Models.{World, WorldRelease}
use konnaxion_worlds.Store.{Store, release_id_of}
use konnaxion_worlds.Serving.{serving}
use konnaxion_worlds.Seeds.{SeedPack}
use konnaxion_worlds.Universes.{PackWorld, Worlds, Packs}
use konnaxion_worlds.Universes.Finalize.{Plan, has_seed, current_matches}
use konnaxion_worlds.Universes.Served.{key_at, Serves}
use konnaxion_worlds.Universes.Promotions.{Exact, Aimed}
use konnaxion_worlds.Universes.Registry.{Known}
use konnaxion_worlds.Universes.Planning.{Sound}

-- The content that a pack gives a release.
abbrev pub content_of : SeedPack → Text × Text
content_of seed = (seed.checksum, seed.version)

-- Releases are found by their numbers.
abbrev pub HasReleaseRows : List WorldRelease → Type 0
HasReleaseRows rs = (r : WorldRelease) → In r rs → find release_id_of r.id rs ≡ some r

has_seed-content :
    (seed : SeedPack) (r : WorldRelease)
    → has_seed seed r ≡ true
    → ◌≡◌ {A = Text × Text} (r.seed_checksum, r.seed_version) (content_of seed)
has_seed-content seed r h =
    let checksum : r.seed_checksum ≡ seed.checksum =
      (text_eq_iff r.seed_checksum seed.checksum).0 (ground arith) in
    let version : r.seed_version ≡ seed.version =
      (text_eq_iff r.seed_version seed.version).0 (ground arith) in
    rw (checksum, version) refl

current_matches-Serves :
    (s : Store) (w : World) (seed : SeedPack)
    → serving s w.id ≡ w.current_release_id
    → current_matches s.releases w seed ≡ true
    → Serves s w.id (content_of seed)
unfolding current_matches
current_matches-Serves s w seed serves h = elim (Option-cases w.current_release_id) [
  | inl e ↦ absurd (cc (rw e at h))
  | inr (i, e) ↦ elim (Option-cases (find release_id_of i s.releases)) [
    | inl f ↦ absurd (cc (rw (e, f) at h))
    | inr (r, f) ↦ (i, serves ∙ e, rw f (ap some (has_seed-content seed r (rw (e, f) at h))))
  ]
]

-- The plan made on a store promotes every World of the pack to the content of its pack.
module _ (s : Store) (rows_there : HasReleaseRows s.releases) (resolved : Packs) (worlds : Worlds)
    (known : Known s worlds) (rows : List PackWorld) (plan : Plan)
    (sound : Sound s.releases resolved worlds rows plan) where
  target-seed :
      (key : Text) (k : ℕ) (seed : SeedPack)
      → key_at s k ≡ some key
      → get_key key resolved ≡ some seed
      → Exact s k (content_of seed) plan.targets
  target-seed key k seed at_k pack t m same =
      let (other, (name, listed), found, there, fits) = sound.0 t m in
      let (own, at_t, _) = known name t.0 listed in
      let same_key : name ≡ key = ap (from_option key) (sym at_t ∙ ap (key_at s) same ∙ at_k) in
      let same_seed : other ≡ seed =
        ap (from_option seed) (sym found ∙ ap (λ x. get_key x resolved) (own ∙ same_key) ∙ pack) in
      rw (rows_there t.1 there) (
        ap some (
          has_seed-content seed t.1
            (subst (λ x. has_seed x t.1 ≡ true) same_seed (ground (arith, fits)))))

  -- Every World is where the pack wants it, or a promotion will bring it there.
  pub row_planned :
      (row : PackWorld) (seed : SeedPack)
      → In row rows
      → plan.not_ready ≡ []
      → get_key row.world_key resolved ≡ some seed
      → (k : ℕ) × (key_at s k ≡ some row.world_key)
        × Exact s k (content_of seed) plan.targets
        × (Serves s k (content_of seed) ⊎ Aimed k plan.targets)
  row_planned row seed m ready pack =
      let (w, other, ew, es, x) = sound.1 row m in
      let (own, at_w, serves) = known row.world_key w ew in
      let same_seed : other ≡ seed =
        ap (from_option seed) (sym es ∙ ap (λ y. get_key y resolved) own ∙ pack) in
      (
        w.id,
        at_w,
        target-seed row.world_key w.id seed at_w pack,
        elim x [
          | inl c ↦ inl (
              current_matches-Serves s w seed serves
                (subst (λ y. current_matches s.releases w y ≡ true) same_seed c))
          | inr (inl (r, n)) ↦ inr ((w, r), n, refl)
          | inr (inr n) ↦ absurd (subst (In w.key) ready n)
        ],
      )
