-- ===== src/Universes/Served.antt =====
-- backend/konnaxion/worlds/services/universe_packs.py as the outside sees it: the key of a World, and the
-- content of a release.
use konnaxion_worlds.Base.{
  ℕ, ◌≡◌, refl, ap, sym, ◌∙◌, subst, Option, none, some, List, Text, find, find-In, read-put, put,
  ◌==◌, inl, inr, Option-cases, Bool-cases,
}
use konnaxion_worlds.Models.{World, WorldRelease, is_current}
use konnaxion_worlds.Plane.{Host}
use konnaxion_worlds.Store.{Store, world_id_of, release_id_of}
use konnaxion_worlds.Releases.{promote_release}
use konnaxion_worlds.Releases.Promotion.{
  Promoted, promoted_row, moved_world, frozen_row, frozen_previous,
}
use konnaxion_worlds.Serving.{serving}

abbrev pub key_of : Option World → Option Text
key_of none = none
key_of (some w) = some w.key

abbrev seed_of : Option WorldRelease → Option (Text × Text)
seed_of none = none
seed_of (some r) = some (r.seed_checksum, r.seed_version)

-- The key of the World with a number.
abbrev pub key_at : Store → ℕ → Option Text
key_at s k = key_of (find world_id_of k s.worlds)

-- The checksum and version of the pack that a release was built from.
abbrev pub seed_at : Store → ℕ → Option (Text × Text)
seed_at s i = seed_of (find release_id_of i s.releases)

-- The World with a number serves a release of some content.
abbrev pub Serves : Store → ℕ → Text × Text → Type 0
Serves s k content = (i : ℕ) × (serving s k ≡ some i) × (seed_at s i ≡ some content)

-- The outside does not tell two stores apart.
abbrev pub SameService : Store → Store → Type 0
SameService s t =
    ((k : ℕ) → serving t k ≡ serving s k)
    × ((k : ℕ) → key_at t k ≡ key_at s k)
    × ((i : ℕ) → seed_at t i ≡ seed_at s i)

pub SameService-refl : (s : Store) → SameService s s
SameService-refl s = ((λ k. refl), (λ k. refl), (λ i. refl))

pub SameService-trans : (s t u : Store) → SameService s t → SameService t u → SameService s u
SameService-trans s t u (a, b, c) (d, e, f) = ((λ k. d k ∙ a k), (λ k. e k ∙ b k), (λ i. f i ∙ c i))

pub Serves-same :
    (s t : Store) (k : ℕ) (content : Text × Text)
    → SameService s t
    → Serves s k content
    → Serves t k content
Serves-same s t k content (a, b, c) (i, e, f) = (i, a k ∙ e, c i ∙ f)

frozen-seed :
    (previous : Option ℕ) (target : WorldRelease) (rs : List WorldRelease) (k : ℕ)
    → seed_of (find release_id_of k (frozen_previous previous target rs))
      ≡ seed_of (find release_id_of k rs)
frozen-seed none target rs k = refl
frozen-seed (some i) target rs k = elim (Bool-cases (i == target.id)) [
  | inl t ↦ rw t refl
  | inr f ↦ elim (Option-cases (find release_id_of i rs)) [
    | inl e ↦ rw (f, e) refl
    | inr (p, e) ↦ elim (Bool-cases (is_current p.status)) [
      | inr c ↦ rw (f, e, c) refl
      | inl c ↦
          let row : p.id ≡ i = (find-In release_id_of i rs e).1 in
          rw (f, e, c)
            (read-put release_id_of seed_of (frozen_row p) p rs
              (subst (λ j. find release_id_of j rs ≡ some p) (sym row) e) refl k)
    ]
  ]
]

module _ (now world_id release_id : ℕ) {s s' : Store} {r : WorldRelease}
    (p : Promoted now world_id release_id s s' r) where
  abbrev before : List WorldRelease
  before = frozen_previous p.locked.current_release_id p.target s.releases

  target-found : seed_of (find release_id_of p.target.id before) ≡ seed_of (some p.target)
  target-found =
      frozen-seed p.locked.current_release_id p.target s.releases p.target.id
      ∙ ap seed_of (
          subst (λ j. find release_id_of j s.releases ≡ some p.target)
            (sym (find-In release_id_of release_id s.releases p.target_row).1) p.target_row)

  promoted-seed :
      (k : ℕ)
      → seed_of (find release_id_of k (put release_id_of (promoted_row now p.target) before))
        ≡ seed_at s k
  promoted-seed k = elim (Option-cases (find release_id_of p.target.id before)) [
    | inl e ↦ absurd (cc (rw e at target-found))
    | inr (q, e) ↦
        read-put release_id_of seed_of (promoted_row now p.target) q before e
          (sym (rw e at target-found)) k
        ∙ frozen-seed p.locked.current_release_id p.target s.releases k
  ]

module _ (host : Host) (now : ℕ) (world : World) (release : WorldRelease) (s : Store) where
  -- A promotion gives no World another key, and no release other content.
  pub promote_release-key :
      {r : WorldRelease} (k : ℕ)
      → Promoted now world.id release.id s (promote_release host now world release s).1 r
      → key_at (promote_release host now world release s).1 k ≡ key_at s k
  promote_release-key k p =
      let row : p.locked.id ≡ world.id = (find-In world_id_of world.id s.worlds p.world_row).1 in
      ap (λ ws. key_of (find world_id_of k ws)) p.worlds
      ∙ read-put world_id_of key_of (moved_world p.locked p.target) p.locked s.worlds
          (subst (λ j. find world_id_of j s.worlds ≡ some p.locked) (sym row) p.world_row) refl k

  pub promote_release-seed :
      {r : WorldRelease} (k : ℕ)
      → Promoted now world.id release.id s (promote_release host now world release s).1 r
      → seed_at (promote_release host now world release s).1 k ≡ seed_at s k
  promote_release-seed k p =
      ap (λ rs. seed_of (find release_id_of k rs)) p.releases
      ∙ promoted-seed now world.id release.id p k
