-- ===== src/Universes/Loading.antt =====
-- backend/konnaxion/worlds/services/universe_packs.py, load_universe_pack: a manifest is checked and becomes a
-- Universe Pack.
use konnaxion_worlds.Base.{
  not, ◌||◌, Option, none, some, List, [], ◌∷◌, Text, codes, text_eq, length, leb, if◌then◌else◌,
}
use konnaxion_worlds.Base.Exec.{Result, ok, err, and_then}
use konnaxion_worlds.Base.Regex.{strip, or_else}
use konnaxion_worlds.Namespaces.{is_space}
use konnaxion_worlds.Middleware.{is_key}
use konnaxion_worlds.Models.{Visibility}
use konnaxion_worlds.Seeds.{is_semver, member, is_blank}
use konnaxion_worlds.Universes.{PackWorld, PackRelation, PackSubscription, UniversePack}
use konnaxion_worlds.Universes.Manifest.{
  LoadError, path_escapes, not_a_manifest, not_an_object, wrong_contract, invalid_key,
  title_and_version_required, title_too_long, not_semantic, invalid_visibility, not_a_world,
  duplicate_world, seed_version_required, undeclared_default, not_a_relation, not_a_subscription,
  RawWorld, RawRelation, RawSubscription, RawPack, UniverseFiles, visibility_of, Identity,
  same_identity, identity_of, subscribed_of, world_keys, checked_relation, checked_subscription,
  declared_default, is_declared, check_requires, raw_worlds, Head, visible_head,
}

module _ (files : UniverseFiles) where
  -- _slug
  unfoldable pub slug : Text → Result LoadError Text
  slug value =
      let normalized = files.lower (strip is_space value) in
      if is_blank normalized || not (is_key normalized) then err invalid_key else ok normalized

  -- What follows the two keys of a World.
  abbrev pub keyed_world : RawWorld → (world_key seed_pack_key : Text) → Result LoadError PackWorld
  keyed_world raw world_key seed_pack_key =
      let seed_version = strip is_space raw.seed_version in
      if is_blank seed_version
      then err seed_version_required
      else if not (is_semver files.is_decimal seed_version)
      then err not_semantic
      else shown_as
          (visibility_of (files.lower (strip is_space (or_else raw.visibility (codes "private")))))
    where
      shown_as : Option Visibility → Result LoadError PackWorld
      shown_as none = err invalid_visibility
      shown_as (some v) = ok (record {
        world_key = world_key;
        seed_pack_key = seed_pack_key;
        seed_version = strip is_space raw.seed_version;
        title = strip is_space raw.title;
        visibility = v;
      })

  abbrev pub load_world : (seen : List Text) → Option RawWorld → Result LoadError PackWorld
  load_world seen none = err not_a_world
  load_world seen (some raw) = and_then (slug raw.world_key) (λ key.
      if member key seen
      then err duplicate_world
      else and_then (slug (or_else raw.seed_pack_key key)) (keyed_world raw key))

  unfoldable pub load_worlds :
      (seen : List Text) → List (Option RawWorld) → Result LoadError (List PackWorld)
  unfolding slug member
  load_worlds seen [] = ok []
  load_worlds seen (raw ∷ rest) =
      and_then (load_world seen raw)
        (λ w. and_then (load_worlds (w.world_key ∷ seen) rest) (λ ws. ok (w ∷ ws)))

  abbrev pub load_relation :
      (worlds : List Text) (seen : List Identity)
      → Option RawRelation
      → Result LoadError PackRelation
  load_relation worlds seen none = err not_a_relation
  load_relation worlds seen (some raw) = and_then (slug raw.source) (λ source.
      and_then (slug raw.target) (λ target. checked_relation worlds seen (record {
        source = source;
        target = target;
        kind = strip is_space raw.kind;
        title = raw.title;
      })))

  unfoldable pub load_relations :
      (worlds : List Text) (seen : List Identity)
      → List (Option RawRelation)
      → Result LoadError (List PackRelation)
  unfolding slug member same_identity
  load_relations worlds seen [] = ok []
  load_relations worlds seen (raw ∷ rest) =
      and_then (load_relation worlds seen raw)
        (λ r. and_then (load_relations worlds (identity_of r ∷ seen) rest) (λ rs. ok (r ∷ rs)))

  abbrev pub load_subscription :
      (worlds : List Text) (seen : List Identity)
      → Option RawSubscription
      → Result LoadError PackSubscription
  load_subscription worlds seen none = err not_a_subscription
  load_subscription worlds seen (some raw) = and_then (slug raw.consumer) (λ consumer.
      and_then (slug raw.source) (λ source. checked_subscription worlds seen (record {
        consumer = consumer;
        source = source;
        publication_type = strip is_space raw.publication_type;
        status = files.lower (strip is_space (or_else raw.status (codes "active")));
      })))

  unfoldable pub load_subscriptions :
      (worlds : List Text) (seen : List Identity)
      → List (Option RawSubscription)
      → Result LoadError (List PackSubscription)
  unfolding slug member same_identity
  load_subscriptions worlds seen [] = ok []
  load_subscriptions worlds seen (raw ∷ rest) =
      and_then (load_subscription worlds seen raw) (λ r.
        and_then (load_subscriptions worlds (subscribed_of r ∷ seen) rest) (λ rs. ok (r ∷ rs)))

  abbrev pub load_head : RawPack → Result LoadError Head
  load_head m = and_then (slug m.universe_key) (λ key.
      let title = strip is_space m.title in
      let version = strip is_space m.pack_version in
      if is_blank title || is_blank version
      then err title_and_version_required
      else if not (leb (length title) 255)
      then err title_too_long
      else if not (is_semver files.is_decimal version)
      then err not_semantic
      else visible_head key title version
          (declared_default (files.lower (strip is_space m.default_world)))
          (visibility_of (files.lower (strip is_space (or_else m.visibility (codes "private"))))))

  abbrev pub pack_of :
      Text → Head → List PackWorld → List PackRelation → List PackSubscription → UniversePack
  pack_of path head worlds relations subscriptions = record {
    universe_key = head.key;
    title = head.title;
    version = head.version;
    visibility = head.visibility;
    default_world = head.default_world;
    worlds = worlds;
    relations = relations;
    subscriptions = subscriptions;
    checksum = files.sha256 path;
  }

  -- The rows of the manifest, once its head is read.
  abbrev pub load_rows : Text → RawPack → Head → List PackWorld → Result LoadError UniversePack
  load_rows path m head worlds =
      if not (is_declared (world_keys worlds) head.default_world)
      then err undeclared_default
      else and_then (load_relations (world_keys worlds) [] m.relations) (λ relations.
        and_then (load_subscriptions (world_keys worlds) [] m.subscriptions)
          (λ subscriptions. ok (pack_of path head worlds relations subscriptions)))

  abbrev pub load_manifest : Text → Option RawPack → Result LoadError UniversePack
  load_manifest path none = err not_an_object
  load_manifest path (some m) =
      if not (text_eq m.universe_contract (codes "kx-universe-pack/v1"))
      then err wrong_contract
      else and_then (load_head m) (λ head. and_then (check_requires m.requires) (λ _.
        and_then (raw_worlds m.worlds)
          (λ raws. and_then (load_worlds [] raws) (load_rows path m head))))

  abbrev pub load_located : Option Text → Result LoadError UniversePack
  load_located none = err path_escapes
  load_located (some path) =
      if not (files.is_manifest_name path)
      then err not_a_manifest
      else load_manifest path (files.manifest path)

  unfoldable pub load_universe_pack : (manifest_path : Text) → Result LoadError UniversePack
  unfolding load_worlds load_relations load_subscriptions is_semver
  load_universe_pack manifest_path = load_located (files.inside_root manifest_path)
