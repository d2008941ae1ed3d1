-- ===== src/Seeds/Tests.antt =====
-- A catalog of one pack.
use konnaxion_worlds.Base.{
  ◌≡◌, refl, true, false, some, [], ◌∷◌, codes, text_eq, any, inl, is_digit,
}
use konnaxion_worlds.Base.Exec.{ok, err}
use konnaxion_worlds.Base.Regex.{strip, lstrip, rstrip, all_chars}
use konnaxion_worlds.Namespaces.{is_space}
use konnaxion_worlds.Middleware.{is_key}
use konnaxion_worlds.Seeds.{
  Files, SeedPack, duplicate_scenario_key, load_scenarios, scenario_paths, load_seed_pack,
  is_semver, split_at, cut, member, has_repeats,
}
use konnaxion_worlds.Seeds.Catalog.{
  row_of, find_row, update_or_create, find_pack, accept_pack, discover, get_registered_seed_pack,
}
use konnaxion_worlds.Seeds.Reading.{Resolves}
use konnaxion_worlds.Seeds.Registry.{discover-get_registered}

abbrev files : Files
files = record {
  lower = λ s. s;
  is_decimal = is_digit;
  inside_root = λ p. some p;
  inside_pack = λ m r. some r;
  is_manifest_name = λ p. true;
  manifest = λ p. some (record {
    is_v1_contract = true;
    world_key = codes " alpha";
    title = codes "Alpha";
    pack_version = codes "1.0.10-rc.1+b7";
    requires_schema = some (codes "v1");
    scenarios = some (codes "a.json" ∷ []);
  });
  is_json_file = λ p. true;
  scenario = λ p. some (record { schema_version = codes "v1"; scenario_key = codes "s" });
  hash_pack = λ p. codes "cs";
  has_universe_manifest = λ p. true;
  directory_name = λ p. codes "alpha";
}

abbrev pack : SeedPack
pack = record {
  manifest_path = codes "levis/worlds/alpha/world.yaml";
  world_key = codes "alpha";
  title = codes "Alpha";
  version = codes "1.0.10-rc.1+b7";
  scenario_schema_version = codes "v1";
  scenario_paths = codes "a.json" ∷ [];
  checksum = codes "cs";
}

program : Unit {0}
unfolding load_scenarios scenario_paths load_seed_pack is_semver split_at cut member has_repeats
    strip lstrip rstrip all_chars is_key text_eq any find_row update_or_create find_pack accept_pack
    discover get_registered_seed_pack
program = tt

versions :
    (is_semver is_digit (codes "1.0.10-rc.1+b7") ≡ true)
    × (is_semver is_digit (codes "1.01.0") ≡ false)
    × (is_semver is_digit (codes "1.0.0-") ≡ false)
unfolding program
versions = (refl, refl, refl)

repeated :
    load_scenarios files (codes "v1") (codes "a.json" ∷ codes "b.json" ∷ []) []
    ≡ err duplicate_scenario_key
unfolding program
repeated = refl

discovered :
    discover files false true (codes "levis/worlds/alpha/world.yaml" ∷ []) [] []
    ≡ (ok (pack ∷ []), row_of pack ∷ [])
unfolding program
discovered = refl

resolves : Resolves files
resolves p q e = refl

stripped : strip is_space (codes "alpha ") ≡ codes "alpha"
unfolding program
stripped = refl

exact : strip is_space (codes "1.0.10-rc.1+b7") ≡ codes "1.0.10-rc.1+b7"
unfolding program
exact = refl

registered_example :
    get_registered_seed_pack files (codes "alpha ") (codes "1.0.10-rc.1+b7") (row_of pack ∷ [])
    ≡ ok (pack, row_of pack)
registered_example =
    discover-get_registered files false resolves (codes "levis/worlds/alpha/world.yaml" ∷ []) []
      (row_of pack ∷ []) (pack ∷ []) pack (codes "alpha ") (codes "1.0.10-rc.1+b7") discovered
      (inl refl) stripped exact refl
