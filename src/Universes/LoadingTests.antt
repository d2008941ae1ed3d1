-- ===== src/Universes/LoadingTests.antt =====
-- A manifest of two Worlds, one of which coordinates the other.
use konnaxion_worlds.Base.{◌≡◌, refl, true, some, [], ◌∷◌, codes, text_eq, any, is_digit}
use konnaxion_worlds.Base.Exec.{ok, err}
use konnaxion_worlds.Base.Regex.{strip, lstrip, rstrip, all_chars}
use konnaxion_worlds.Middleware.{is_key}
use konnaxion_worlds.Models.{Visibility}
use konnaxion_worlds.Seeds.{is_semver, split_at, cut, member}
use konnaxion_worlds.Universes.{PackWorld, UniversePack}
use konnaxion_worlds.Universes.Manifest.{
  RawWorld, RawRelation, RawPack, UniverseFiles, same_identity, duplicate_world,
  invalid_relation_endpoints,
}
use konnaxion_worlds.Universes.Loading.{
  slug, load_worlds, load_relations, load_subscriptions, load_universe_pack,
}
use konnaxion_worlds.Universes.Loaded.{IsWellFormed, load_universe_pack-IsWellFormed}

abbrev alpha_row : RawWorld
alpha_row = record {
  world_key = codes " alpha";
  seed_pack_key = codes "";
  seed_version = codes "1.1.0";
  visibility = codes "public";
  title = codes "Alpha";
}

abbrev beta_row : RawWorld
beta_row = record alpha_row {
  world_key = codes "beta";
  seed_pack_key = codes "alpha";
  visibility = [];
}

abbrev coordinates : RawRelation
coordinates = record {
  source = codes "alpha";
  target = codes "beta";
  kind = codes "coordinates";
  title = [];
}

abbrev manifest : RawPack
manifest = record {
  universe_contract = codes "kx-universe-pack/v1";
  universe_key = codes "metropolis";
  title = codes "Metropolis";
  pack_version = codes "1.0.0";
  visibility = codes "public";
  default_world = codes "alpha";
  requires = some (record { world_contract = []; is_list_of_host_contracts = true });
  worlds = some (some alpha_row ∷ some beta_row ∷ []);
  relations = some coordinates ∷ [];
  subscriptions = [];
}

abbrev files_of : RawPack → UniverseFiles
files_of m = record {
  lower = λ s. s;
  is_decimal = is_digit;
  inside_root = λ p. some p;
  is_manifest_name = λ p. true;
  manifest = λ p. some m;
  sha256 = λ p. codes "u";
}

abbrev alpha : PackWorld
alpha = record {
  world_key = codes "alpha";
  seed_pack_key = codes "alpha";
  seed_version = codes "1.1.0";
  title = codes "Alpha";
  visibility = Visibility.public;
}

abbrev loaded : UniversePack
loaded = record {
  universe_key = codes "metropolis";
  title = codes "Metropolis";
  version = codes "1.0.0";
  visibility = Visibility.public;
  default_world = some (codes "alpha");
  worlds = alpha ∷ record alpha { world_key = codes "beta"; visibility = Visibility.private } ∷ [];
  relations =
      record {
        source = codes "alpha";
        target = codes "beta";
        kind = codes "coordinates";
        title = [];
      }
      ∷ [];
  subscriptions = [];
  checksum = codes "u";
}

program : Unit {0}
unfolding text_eq any strip lstrip rstrip all_chars is_key is_semver split_at cut member
    same_identity slug load_worlds load_relations load_subscriptions load_universe_pack
program = tt

loads : load_universe_pack (files_of manifest) (codes "universe.yaml") ≡ ok loaded
unfolding program
loads = refl

declares_twice :
    load_universe_pack
      (files_of (record manifest { worlds = some (some alpha_row ∷ some alpha_row ∷ []) }))
      (codes "universe.yaml")
    ≡ err duplicate_world
unfolding program
declares_twice = refl

dangles :
    load_universe_pack
      (files_of (record manifest { worlds = some (some alpha_row ∷ []) }))
      (codes "universe.yaml")
    ≡ err invalid_relation_endpoints
unfolding program
dangles = refl

loaded_example : IsWellFormed (files_of manifest) loaded
loaded_example = load_universe_pack-IsWellFormed (files_of manifest) (codes "universe.yaml") loads
