-- ===== src/Seeds.antt =====
-- backend/konnaxion/worlds/services/seed_packs.py: reading, discovering and registering the packs from which
-- Worlds are built. What the file system, YAML and JSON give is in Files.
pub mod Catalog
pub mod Reading
pub mod Registry
pub mod Tests
use konnaxion_worlds.Base.{
  ℕ, Bool, true, false, not, ◌&&◌, ◌||◌, Option, none, some, List, [], ◌∷◌, ◌++◌, Text, codes,
  text_eq, length, any, leb, is_digit, is_lower, is_upper, if◌then◌else◌, ◌==◌,
}
use konnaxion_worlds.Base.Exec.{Result, ok, err, Exec, pure, raise, ◌>>=◌, ◌>>◌}
use konnaxion_worlds.Base.Regex.{strip, all_chars}
use konnaxion_worlds.Namespaces.{is_space}
use konnaxion_worlds.Middleware.{is_key}

pub data SeedPackError : Type 0 where
  path_escapes not_a_manifest not_an_object wrong_contract required_missing : SeedPackError
  invalid_world_key title_too_long not_semantic requires_not_an_object no_scenario_schema :
      SeedPackError
  no_scenarios repeated_scenario_file not_a_json_file : SeedPackError
  scenario_not_an_object scenario_schema_mismatch no_scenario_key duplicate_scenario_key :
      SeedPackError
  orphan_pack directory_mismatch duplicate_identity : SeedPackError
  no_exact_version not_registered identity_drift checksum_changed : SeedPackError

-- A scenario file that holds a JSON object, by the fields that are read, as str(value or "").
pub record Scenario : Type 0 where
  pub schema_version : Text
  pub scenario_key : Text

-- A manifest that is a YAML object. `requires_schema` is none where `requires` is no object, and
-- `scenarios` where it is no list.
pub record Manifest : Type 0 where
  pub is_v1_contract : Bool
  pub world_key : Text
  pub title : Text
  pub pack_version : Text
  pub requires_schema : Option Text
  pub scenarios : Option (List Text)

pub record SeedPack : Type 0 where
  pub manifest_path : Text
  pub world_key : Text
  pub title : Text
  pub version : Text
  pub scenario_schema_version : Text
  pub scenario_paths : List Text
  pub checksum : Text

-- Path.resolve() with the test that it stays below the root (_inside), names and contents of files,
-- the SHA-256 of _hash_pack, str.lower, and \d of re.
pub record Files : Type 0 where
  pub lower : Text → Text
  pub is_decimal : ℕ → Bool
  pub inside_root : Text → Option Text
  pub inside_pack : (manifest_path relative : Text) → Option Text
  pub is_manifest_name : Text → Bool
  pub manifest : Text → Option Manifest
  pub is_json_file : Text → Bool
  pub scenario : Text → Option Scenario
  pub hash_pack : (manifest_path : Text) → Text
  pub has_universe_manifest : Text → Bool
  pub directory_name : Text → Text

-- s.split(c)
abbrev push : ℕ → List Text → List Text
push c [] = (c ∷ []) ∷ []
push c (t ∷ ts) = (c ∷ t) ∷ ts

unfoldable pub split_at : ℕ → Text → List Text
split_at d [] = [] ∷ []
split_at d (c ∷ s) = let rest = split_at d s in if c == d then [] ∷ rest else push c rest

-- What stands before the first `d`, and behind it where there is one.
abbrev onto : ℕ → Text × Option Text → Text × Option Text
onto c (s, rest) = (c ∷ s, rest)

unfoldable pub cut : ℕ → Text → Text × Option Text
cut d [] = ([], none)
cut d (c ∷ s) = let rest = cut d s in if c == d then ([], some s) else onto c rest

abbrev is_identifier : Text → Bool
is_identifier [] = false
is_identifier (c ∷ s) = all_chars (λ x. is_digit x || is_upper x || is_lower x || x == b'-') (c ∷ s)

abbrev identifiers : Option Text → Bool
identifiers none = true
identifiers (some s) = not (any (λ t. not (is_identifier t)) (split_at b'.' s))

abbrev is_numeric : (ℕ → Bool) → Text → Bool
is_numeric decimal [] = false
is_numeric decimal (c ∷ []) = is_digit c
is_numeric decimal (c ∷ d ∷ s) = is_digit c && not (c == b'0') && all_chars decimal (d ∷ s)

abbrev is_core : (ℕ → Bool) → List Text → Bool
is_core decimal (a ∷ b ∷ c ∷ []) =
    is_numeric decimal a && is_numeric decimal b && is_numeric decimal c
is_core decimal _ = false

-- _SEMVER_RE.fullmatch
unfoldable pub is_semver : (decimal : ℕ → Bool) → Text → Bool
unfolding split_at cut all_chars
is_semver decimal version =
    let (head, build) = cut b'+' version in
    let (core, prerelease) = cut b'-' head in
    is_core decimal (split_at b'.' core) && identifiers prerelease && identifiers build

unfoldable pub member : Text → List Text → Bool
member t ts = any (λ u. text_eq u t) ts

unfoldable pub has_repeats : List Text → Bool
unfolding member
has_repeats [] = false
has_repeats (t ∷ ts) = member t ts || has_repeats ts

abbrev pub is_blank : Text → Bool
is_blank [] = true
is_blank (c ∷ s) = false

module _ (files : Files) where
  abbrev payload_of : Text → List Text → Option Scenario → Result SeedPackError Text
  payload_of schema seen none = err scenario_not_an_object
  payload_of schema seen (some payload) =
      let key = strip is_space payload.scenario_key in
      if not (text_eq payload.schema_version schema)
      then err scenario_schema_mismatch
      else if is_blank key
      then err no_scenario_key
      else if member key seen
      then err duplicate_scenario_key
      else ok key

  abbrev with_key :
      (List Text → Result SeedPackError (List Text))
      → List Text
      → Result SeedPackError Text
      → Result SeedPackError (List Text)
  with_key next seen (err e) = err e
  with_key next seen (ok key) = next (key ∷ seen)

  -- SeedPack.load_scenarios, by the keys of the scenarios, the last one first.
  unfoldable pub load_scenarios :
      (schema : Text) → List Text → (seen : List Text) → Result SeedPackError (List Text)
  unfolding member
  load_scenarios schema [] seen = ok seen
  load_scenarios schema (path ∷ paths) seen =
      with_key (load_scenarios schema paths) seen (payload_of schema seen (files.scenario path))

  unfoldable pub scenario_paths :
      (manifest_path : Text) → List Text → Result SeedPackError (List Text)
  scenario_paths manifest_path [] = ok []
  scenario_paths manifest_path (relative ∷ rest) =
      add_path (files.inside_pack manifest_path relative) (scenario_paths manifest_path rest)
    where
      add_path : Option Text → Result SeedPackError (List Text) → Result SeedPackError (List Text)
      add_path none others = err path_escapes
      add_path (some path) (err e) = err e
      add_path (some path) (ok paths) = ok (path ∷ paths)

  abbrev pub checked_scenarios :
      SeedPack → Result SeedPackError (List Text) → Result SeedPackError SeedPack
  checked_scenarios pack (err e) = err e
  checked_scenarios pack (ok keys) = ok pack

  abbrev pub with_paths :
      Text
      → (key title version schema : Text) → Result SeedPackError (List Text)
      → Result SeedPackError SeedPack
  with_paths path key title version schema (err e) = err e
  with_paths path key title version schema (ok paths) =
      if has_repeats paths
      then err repeated_scenario_file
      else if any (λ p. not (files.is_json_file p)) paths
      then err not_a_json_file
      else checked_scenarios
          (record {
            manifest_path = path;
            world_key = key;
            title = title;
            version = version;
            scenario_schema_version = schema;
            scenario_paths = paths;
            checksum = files.hash_pack path;
          })
          (load_scenarios schema paths [])

  abbrev pub with_scenarios :
      Text → (key title version schema : Text) → Option (List Text) → Result SeedPackError SeedPack
  with_scenarios path key title version schema none = err no_scenarios
  with_scenarios path key title version schema (some []) = err no_scenarios
  with_scenarios path key title version schema (some (r ∷ rs)) =
      with_paths path key title version schema (scenario_paths path (r ∷ rs))

  abbrev pub with_schema :
      Text
      → (key title version : Text) → Option Text
      → Option (List Text)
      → Result SeedPackError SeedPack
  with_schema path key title version none scenarios = err requires_not_an_object
  with_schema path key title version (some raw) scenarios =
      let schema = strip is_space raw in
      if is_blank schema
      then err no_scenario_schema
      else with_scenarios path key title version schema scenarios

  abbrev pub from_manifest : Text → Option Manifest → Result SeedPackError SeedPack
  from_manifest path none = err not_an_object
  from_manifest path (some m) =
      let key = files.lower (strip is_space m.world_key) in
      let title = strip is_space m.title in
      let version = strip is_space m.pack_version in
      if not m.is_v1_contract
      then err wrong_contract
      else if is_blank key || is_blank title || is_blank version
      then err required_missing
      else if not (is_key key)
      then err invalid_world_key
      else if not (leb (length title) 255)
      then err title_too_long
      else if not (is_semver files.is_decimal version)
      then err not_semantic
      else with_schema path key title version m.requires_schema m.scenarios

  abbrev pub from_located : Option Text → Result SeedPackError SeedPack
  from_located none = err path_escapes
  from_located (some path) =
      if not (files.is_manifest_name path)
      then err not_a_manifest
      else from_manifest path (files.manifest path)

  unfoldable pub load_seed_pack : (manifest_path : Text) → Result SeedPackError SeedPack
  unfolding load_scenarios scenario_paths has_repeats is_semver is_key
  load_seed_pack manifest_path = from_located (files.inside_root manifest_path)
