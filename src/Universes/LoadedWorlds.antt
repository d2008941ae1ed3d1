-- ===== src/Universes/LoadedWorlds.antt =====
-- backend/konnaxion/worlds/services/universe_packs.py, load_universe_pack: the Worlds of a loaded pack.
use konnaxion_worlds.Base.{
  ◌≡◌, sym, ap, subst, true, false, not, ◌||◌, Option, none, some, List, [], ◌∷◌, In, Text, text_eq,
  text_eq_iff, any, arith, inl, inr, Bool-cases,
}
use konnaxion_worlds.Base.Exec.{ok, result_or, and_then-ok}
use konnaxion_worlds.Base.Regex.{strip, or_else}
use konnaxion_worlds.Namespaces.{is_space}
use konnaxion_worlds.Middleware.{is_key}
use konnaxion_worlds.Seeds.{is_semver, member, is_blank}
use konnaxion_worlds.Universes.{PackWorld}
use konnaxion_worlds.Universes.Manifest.{RawWorld, UniverseFiles}
use konnaxion_worlds.Universes.Loading.{slug, keyed_world, load_world, load_worlds}
use konnaxion_worlds.Universes.Resolving.{HasUniqueKeys}

text_eq-apart : (s t : Text) → text_eq s t ≡ false → text_eq t s ≡ false
text_eq-apart s t f = elim (Bool-cases (text_eq t s)) [
  | inr g ↦ g
  | inl e ↦ absurd (ground (arith, f, (text_eq_iff s t).1 (sym ((text_eq_iff t s).0 e))))
]

unmember :
    (t u : Text) (seen : List Text)
    → member t (u ∷ seen) ≡ false
    → (text_eq u t ≡ false) × (member t seen ≡ false)
unfolding member any
unmember t u seen h = ground arith

module _ (files : UniverseFiles) where
  -- The keys of a World are keys, and the version of its pack is one.
  abbrev pub ValidWorld : PackWorld → Type 0
  ValidWorld w =
      (is_key w.world_key ≡ true)
      × (is_key w.seed_pack_key ≡ true)
      × (is_semver files.is_decimal w.seed_version ≡ true)

  pub slug-key : (value : Text) {k : Text} → slug files value ≡ ok k → is_key k ≡ true
  unfolding slug
  slug-key value {k} h =
      let n : Text = files.lower (strip is_space value) in
      elim (Bool-cases (is_blank n || not (is_key n))) [
        | inl t ↦ absurd (cc (rw t at h))
        | inr f ↦ subst (λ x. is_key x ≡ true) (ap (result_or n) (rw f at h)) (ground (arith, f))
      ]

  keyed_world-ValidWorld :
      (raw : RawWorld) (key pack : Text) {w : PackWorld}
      → keyed_world files raw key pack ≡ ok w
      → (w.world_key ≡ key)
        × (w.seed_pack_key ≡ pack)
        × (is_semver files.is_decimal w.seed_version ≡ true)
  keyed_world-ValidWorld raw key pack h = ground arith

  load_world-ValidWorld :
      (seen : List Text) (raw : Option RawWorld) {w : PackWorld}
      → load_world files seen raw ≡ ok w
      → (member w.world_key seen ≡ false) × ValidWorld w
  load_world-ValidWorld seen none h = absurd cc
  load_world-ValidWorld seen (some raw) {w} h =
      let (key, slugged, rest) = and_then-ok (slug files raw.world_key) _ h in
      elim (Bool-cases (member key seen)) [
        | inl t ↦ absurd (cc (rw t at rest))
        | inr f ↦
            let (pack, named, last) =
              and_then-ok (slug files (or_else raw.seed_pack_key key)) (keyed_world files raw key)
                (rw f at rest) in
            let (same_key, same_pack, valid) = keyed_world-ValidWorld raw key pack last in
            (
              rw same_key f,
              (
                rw same_key (slug-key raw.world_key slugged),
                rw same_pack (slug-key (or_else raw.seed_pack_key key) named),
                valid,
              ),
            )
      ]

  abbrev Loaded : List Text → List PackWorld → Type 0
  Loaded seen ws =
      HasUniqueKeys ws
      × ((w : PackWorld) → In w ws → (member w.world_key seen ≡ false) × ValidWorld w)

  pub load_worlds-Loaded :
      (seen : List Text) (raws : List (Option RawWorld)) {ws : List PackWorld}
      → load_worlds files seen raws ≡ ok ws
      → Loaded seen ws
  unfolding load_worlds member
  load_worlds-Loaded seen [] h = subst (Loaded seen) (ap (result_or []) h) (tt, (λ w m. absurd m))
  load_worlds-Loaded seen (raw ∷ rest) h =
      let (w, one, more) = and_then-ok (load_world files seen raw) _ h in
      let (ws, others, all) =
        and_then-ok (load_worlds files (w.world_key ∷ seen) rest) (λ ws. ok (w ∷ ws)) more in
      let (unique, each) = load_worlds-Loaded (w.world_key ∷ seen) rest others in
      subst (Loaded seen) (ap (result_or []) all) (
        (
          (λ other m.
              text_eq-apart w.world_key other.world_key
                (unmember other.world_key w.world_key seen (each other m).0).0),
          unique,
        ),
        (λ x m. elim m [
          | inl e ↦
              subst (λ y. (member y.world_key seen ≡ false) × ValidWorld y) e
                (load_world-ValidWorld seen raw one)
          | inr n ↦ ((unmember x.world_key w.world_key seen (each x n).0).1, (each x n).1)
        ]),
      )
