-- ===== src/Universes/Loaded.antt =====
-- backend/konnaxion/worlds/services/universe_packs.py, load_universe_pack: what a pack that is loaded is.
use konnaxion_worlds.Base.{
  ◌≡◌, refl, ◌∷◌, any, text_eq_iff, ap, subst, true, Option, none, some, List, [], In, Text, codes,
  text_eq, arith, inl, inr, Bool-cases,
}
use konnaxion_worlds.Base.Exec.{ok, result_or, and_then-ok}
use konnaxion_worlds.Middleware.{is_key}
use konnaxion_worlds.Seeds.{is_semver, member}
use konnaxion_worlds.Universes.{PackWorld, PackRelation, PackSubscription, UniversePack}
use konnaxion_worlds.Universes.Manifest.{
  RawWorld, RawPack, UniverseFiles, identity_of, subscribed_of, world_keys, is_declared, Head,
  check_requires, raw_worlds,
}
use konnaxion_worlds.Universes.Loading.{
  slug, load_worlds, load_relations, load_subscriptions, load_head, pack_of, load_rows,
  load_manifest, load_located, load_universe_pack,
}
use konnaxion_worlds.Universes.Resolving.{HasUniqueKeys}
use konnaxion_worlds.Universes.LoadedWorlds.{ValidWorld, load_worlds-Loaded, slug-key}
use konnaxion_worlds.Universes.LoadedRelations.{
  Connects, NoRepeat, Subscribes, load_relations-Related, load_subscriptions-Subscribed,
}

-- The default World, if there is one, is the key of a World of the pack.
abbrev pub HasDefault : List PackWorld → Option Text → Type 0
HasDefault ws none = Unit
HasDefault ws (some k) = (w : PackWorld) × In w ws × (w.world_key ≡ k)

world_with :
    (ws : List PackWorld) (k : Text)
    → member k (world_keys ws) ≡ true
    → (w : PackWorld) × In w ws × (w.world_key ≡ k)
unfolding member any
world_with [] k h = absurd cc
world_with (w ∷ ws) k h = elim (Bool-cases (text_eq w.world_key k)) [
  | inl t ↦ (w, inl refl, (text_eq_iff w.world_key k).0 t)
  | inr f ↦ let (v, listed, same) = world_with ws k (rw f at h) in (v, inr listed, same)
]

default_there :
    (ws : List PackWorld) (o : Option Text) → is_declared (world_keys ws) o ≡ true → HasDefault ws o
default_there ws none h = tt
default_there ws (some k) h = world_with ws k h

-- A pack that can be applied: its Worlds, relations and subscriptions do not repeat, keys and versions are
-- of their forms, and what it names it declares.
pub record IsWellFormed (files : UniverseFiles) (pack : UniversePack) : Type 0 where
  pub key : is_key pack.universe_key ≡ true
  pub version : is_semver files.is_decimal pack.version ≡ true
  pub worlds_unique : HasUniqueKeys pack.worlds
  pub worlds_valid : (w : PackWorld) → In w pack.worlds → ValidWorld files w
  pub default_declared : HasDefault pack.worlds pack.default_world
  pub relations_unique : NoRepeat identity_of pack.relations
  pub relations_connect :
      (r : PackRelation) → In r pack.relations → Connects (world_keys pack.worlds) r
  pub subscriptions_unique : NoRepeat subscribed_of pack.subscriptions
  pub subscriptions_connect :
      (r : PackSubscription) → In r pack.subscriptions → Subscribes (world_keys pack.worlds) r

module _ (files : UniverseFiles) where
  load_head-valid :
      (m : RawPack) {head : Head}
      → load_head files m ≡ ok head
      → (is_key head.key ≡ true) × (is_semver files.is_decimal head.version ≡ true)
  load_head-valid m h =
      let (key, slugged, rest) = and_then-ok (slug files m.universe_key) _ h in
      ground (arith, slug-key files m.universe_key slugged)

  load_rows-IsWellFormed :
      (path : Text) (m : RawPack) (head : Head) (raws : List (Option RawWorld))
      (ws : List PackWorld) {pack : UniversePack}
      → load_head files m ≡ ok head
      → load_worlds files [] raws ≡ ok ws
      → load_rows files path m head ws ≡ ok pack
      → IsWellFormed files pack
  load_rows-IsWellFormed path m head raws ws {pack} headed listed h =
      elim (Bool-cases (is_declared (world_keys ws) head.default_world)) [
        | inr f ↦ absurd (cc (rw f at h))
        | inl t ↦
            let keys : List Text = world_keys ws in
            let (rs, related, rest) =
              and_then-ok (load_relations files keys [] m.relations) _ (rw t at h) in
            let (ss, subscribed, last) =
              and_then-ok (load_subscriptions files keys [] m.subscriptions)
                (λ ss. ok (pack_of files path head ws rs ss)) rest in
            let made : UniversePack = pack_of files path head ws rs ss in
            let (valid_key, valid_version) = load_head-valid m headed in
            let (unique, each) = load_worlds-Loaded files [] raws listed in
            let (apart, connect) = load_relations-Related files keys [] m.relations related in
            let (alone, subscribes) =
              load_subscriptions-Subscribed files keys [] m.subscriptions subscribed in
            subst (IsWellFormed files) (ap (result_or made) last) (record {
              key = valid_key;
              version = valid_version;
              worlds_unique = unique;
              worlds_valid = λ w n. (each w n).1;
              default_declared = default_there ws head.default_world t;
              relations_unique = apart;
              relations_connect = λ r n. (connect r n).1;
              subscriptions_unique = alone;
              subscriptions_connect = λ r n. (subscribes r n).1;
            })
      ]

  load_manifest-IsWellFormed :
      (path : Text) (o : Option RawPack) {pack : UniversePack}
      → load_manifest files path o ≡ ok pack
      → IsWellFormed files pack
  load_manifest-IsWellFormed path none h = absurd cc
  load_manifest-IsWellFormed path (some m) h =
      elim (Bool-cases (text_eq m.universe_contract (codes "kx-universe-pack/v1"))) [
        | inr f ↦ absurd (cc (rw f at h))
        | inl t ↦
            let (head, headed, rest) = and_then-ok (load_head files m) _ (rw t at h) in
            let (_, _, more) = and_then-ok (check_requires m.requires) _ rest in
            let (raws, _, most) = and_then-ok (raw_worlds m.worlds) _ more in
            let (ws, listed, last) =
              and_then-ok (load_worlds files [] raws) (load_rows files path m head) most in
            load_rows-IsWellFormed path m head raws ws headed listed last
      ]

  -- Whatever the files hold, a Universe Pack that is loaded is well formed: its key and those of its Worlds
  -- and their Seed Packs have the form of keys, all versions are semantic, no World, relation or
  -- subscription is declared twice, every relation and subscription connects two distinct Worlds of the
  -- pack and has a known type or status, and the default World is one of the pack.
  pub load_universe_pack-IsWellFormed :
      (manifest_path : Text) {pack : UniversePack}
      → load_universe_pack files manifest_path ≡ ok pack
      → IsWellFormed files pack
  unfolding load_universe_pack
  load_universe_pack-IsWellFormed manifest_path {pack} h =
      located (files.inside_root manifest_path) h
    where
      located : (o : Option Text) → load_located files o ≡ ok pack → IsWellFormed files pack
      located none e = absurd cc
      located (some path) e = elim (Bool-cases (files.is_manifest_name path)) [
        | inr f ↦ absurd (cc (rw f at e))
        | inl t ↦ load_manifest-IsWellFormed path (files.manifest path) (rw t at e)
      ]
