-- ===== src/Universes/Manifest.antt =====
-- backend/konnaxion/worlds/services/universe_packs.py, load_universe_pack: the manifest of a Universe Pack, and the
-- checks on its rows. What the file system and YAML give is in UniverseFiles.
use konnaxion_worlds.Base.{
  ℕ, Bool, true, not, ◌&&◌, ◌||◌, Option, none, some, List, [], ◌∷◌, Text, codes, text_eq, any, map,
  if◌then◌else◌,
}
use konnaxion_worlds.Base.Exec.{Result, ok, err}
use konnaxion_worlds.Base.Regex.{or_else}
use konnaxion_worlds.Models.{Visibility}
use konnaxion_worlds.Seeds.{member, is_blank}
use konnaxion_worlds.Universes.{PackWorld, PackRelation, PackSubscription}

-- UniversePackError, by its causes in load_universe_pack.
pub data LoadError : Type 0 where
  path_escapes not_a_manifest not_an_object wrong_contract invalid_key : LoadError
  title_and_version_required title_too_long not_semantic invalid_visibility : LoadError
  requires_not_an_object wrong_world_contract wrong_host_contracts : LoadError
  no_worlds not_a_world duplicate_world seed_version_required undeclared_default : LoadError
  not_a_relation invalid_relation_endpoints invalid_relation_type duplicate_relation : LoadError
  not_a_subscription invalid_subscription_endpoints publication_type_required : LoadError
  invalid_subscription_status duplicate_subscription : LoadError

-- The objects of a manifest, by the fields that are read, as str(value or "").
pub record RawWorld : Type 0 where
  pub world_key : Text
  pub seed_pack_key : Text
  pub seed_version : Text
  pub visibility : Text
  pub title : Text

pub record RawRelation : Type 0 where
  pub source : Text
  pub target : Text
  pub kind : Text
  pub title : Text

pub record RawSubscription : Type 0 where
  pub consumer : Text
  pub source : Text
  pub publication_type : Text
  pub status : Text

pub record Requires : Type 0 where
  pub world_contract : Text
  pub is_list_of_host_contracts : Bool

-- A manifest that is a YAML object. What is no object, or no list, is none.
pub record RawPack : Type 0 where
  pub universe_contract : Text
  pub universe_key : Text
  pub title : Text
  pub pack_version : Text
  pub visibility : Text
  pub default_world : Text
  pub requires : Option Requires
  pub worlds : Option (List (Option RawWorld))
  pub relations : List (Option RawRelation)
  pub subscriptions : List (Option RawSubscription)

-- _inside of the configured root, the names and contents of files, _sha256, str.lower, and \d of re.
pub record UniverseFiles : Type 0 where
  pub lower : Text → Text
  pub is_decimal : ℕ → Bool
  pub inside_root : Text → Option Text
  pub is_manifest_name : Text → Bool
  pub manifest : Text → Option RawPack
  pub sha256 : Text → Text

abbrev pub visibility_of : Text → Option Visibility
visibility_of s =
    if text_eq s (codes "public")
    then some Visibility.public
    else if text_eq s (codes "private")
    then some Visibility.private
    else none

abbrev pub relation_types : List Text
relation_types =
    codes "coordinates"
    ∷ codes "depends_on"
    ∷ codes "constrains"
    ∷ codes "publishes_to"
    ∷ codes "references"
    ∷ []

abbrev pub subscription_statuses : List Text
subscription_statuses = codes "active" ∷ codes "paused" ∷ []

-- An identity of a set that guards against repetition.
abbrev pub Identity : Type 0
Identity = Text × Text × Text

unfoldable pub same_identity : Identity → Identity → Bool
same_identity (a, b, c) (d, e, f) = text_eq a d && text_eq b e && text_eq c f

abbrev pub seen_before : Identity → List Identity → Bool
seen_before i seen = any (same_identity i) seen

abbrev pub identity_of : PackRelation → Identity
identity_of r = (r.source, r.target, r.kind)

abbrev pub subscribed_of : PackSubscription → Identity
subscribed_of r = (r.consumer, r.source, r.publication_type)

abbrev pub checked_relation :
    (worlds : List Text) (seen : List Identity) → PackRelation → Result LoadError PackRelation
checked_relation worlds seen r =
    if not (member r.source worlds) || not (member r.target worlds) || text_eq r.source r.target
    then err invalid_relation_endpoints
    else if not (member r.kind relation_types)
    then err invalid_relation_type
    else if seen_before (identity_of r) seen
    then err duplicate_relation
    else ok r

abbrev pub checked_subscription :
    (worlds : List Text) (seen : List Identity)
    → PackSubscription
    → Result LoadError PackSubscription
checked_subscription worlds seen r =
    if not (member r.consumer worlds) || not (member r.source worlds) || text_eq r.consumer r.source
    then err invalid_subscription_endpoints
    else if is_blank r.publication_type
    then err publication_type_required
    else if not (member r.status subscription_statuses)
    then err invalid_subscription_status
    else if seen_before (subscribed_of r) seen
    then err duplicate_subscription
    else ok r

abbrev pub declared_default : Text → Option Text
declared_default [] = none
declared_default (c ∷ s) = some (c ∷ s)

abbrev pub is_declared : List Text → Option Text → Bool
is_declared keys none = true
is_declared keys (some k) = member k keys

abbrev pub check_requires : Option Requires → Result LoadError Unit
check_requires none = err requires_not_an_object
check_requires (some r) =
    if not
      (text_eq (or_else r.world_contract (codes "kx-world-pack/v1")) (codes "kx-world-pack/v1"))
    then err wrong_world_contract
    else if not r.is_list_of_host_contracts
    then err wrong_host_contracts
    else ok tt

abbrev pub raw_worlds : Option (List (Option RawWorld)) → Result LoadError (List (Option RawWorld))
raw_worlds none = err no_worlds
raw_worlds (some []) = err no_worlds
raw_worlds (some (raw ∷ rest)) = ok (raw ∷ rest)

-- Universe key, title, version and visibility.
pub record Head : Type 0 where
  pub key : Text
  pub title : Text
  pub version : Text
  pub visibility : Visibility
  pub default_world : Option Text

abbrev pub visible_head :
    (key title version : Text) → Option Text → Option Visibility → Result LoadError Head
visible_head key title version default none = err invalid_visibility
visible_head key title version default (some v) = ok (record {
  key = key;
  title = title;
  version = version;
  visibility = v;
  default_world = default;
})

-- seen_worlds
abbrev pub world_keys : List PackWorld → List Text
world_keys ws = map (λ (w : PackWorld). w.world_key) ws
