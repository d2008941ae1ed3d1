-- ===== src/Seeds/Catalog.antt =====
-- backend/konnaxion/worlds/services/seed_packs.py, discover_seed_packs and get_registered_seed_pack: packs and
-- the rows that register them.
use konnaxion_worlds.Base.{
  Bool, false, not, ◌&&◌, ◌||◌, Option, none, some, List, [], ◌∷◌, Text, text_eq, if◌then◌else◌,
}
use konnaxion_worlds.Base.Exec.{Result, ok, err, Exec, pure, raise, ◌>>=◌, ◌>>◌}
use konnaxion_worlds.Base.Regex.{strip}
use konnaxion_worlds.Namespaces.{is_space}
use konnaxion_worlds.Seeds.{
  SeedPackError, path_escapes, orphan_pack, directory_mismatch, duplicate_identity,
  no_exact_version, not_registered, identity_drift, checksum_changed, SeedPack, Files,
  load_seed_pack, is_blank,
}

-- A row of SeedPackRecord, by the columns that this code reads.
pub record SeedPackRow : Type 0 where
  pub key : Text
  pub version : Text
  pub manifest_path : Text
  pub checksum : Text

abbrev pub is_row : (key version : Text) → SeedPackRow → Bool
is_row key version row = text_eq row.key key && text_eq row.version version

-- SeedPackRecord.objects.get(key=…, version=…)
unfoldable pub find_row : (key version : Text) → List SeedPackRow → Option SeedPackRow
find_row key version [] = none
find_row key version (row ∷ rows) =
    let later = find_row key version rows in if is_row key version row then some row else later

abbrev pub row_of : SeedPack → SeedPackRow
row_of pack = record {
  key = pack.world_key;
  version = pack.version;
  manifest_path = pack.manifest_path;
  checksum = pack.checksum;
}

-- SeedPackRecord.objects.update_or_create(key=…, version=…, defaults=…)
unfoldable pub update_or_create : SeedPack → List SeedPackRow → List SeedPackRow
update_or_create pack [] = row_of pack ∷ []
update_or_create pack (row ∷ rows) =
    let later = update_or_create pack rows in
    if is_row pack.world_key pack.version row then row_of pack ∷ rows else row ∷ later

-- identities.get(identity)
unfoldable pub find_pack : (key version : Text) → List SeedPack → Option SeedPack
find_pack key version [] = none
find_pack key version (p ∷ ps) =
    let later = find_pack key version ps in
    if text_eq p.world_key key && text_eq p.version version then some p else later

abbrev pub Rows : Type 0 → Type 0
Rows A = Exec SeedPackError (List SeedPackRow) A

module _ (files : Files) (is_worlds_root persist : Bool) where
  abbrev pub from : {A : Type 0} → Result SeedPackError A → Rows A
  from r rows = (r, rows)

  abbrev elsewhere : SeedPack → Option SeedPack → Bool
  elsewhere pack none = false
  elsewhere pack (some previous) = not (text_eq previous.manifest_path pack.manifest_path)

  abbrev pub located : Option Text → Result SeedPackError Text
  located none = err path_escapes
  located (some path) = ok path

  abbrev register : SeedPack → Rows Unit
  register pack rows = (ok tt, if persist then update_or_create pack rows else rows)

  -- The checks behind the load, given the packs so far, the last one first.
  unfoldable pub accept_pack : List SeedPack → (manifest : Text) → SeedPack → Rows Unit
  unfolding update_or_create find_pack
  accept_pack packs manifest pack =
      if not is_worlds_root && not (files.has_universe_manifest manifest)
      then raise orphan_pack
      else if not is_worlds_root && not (text_eq (files.directory_name manifest) pack.world_key)
      then raise directory_mismatch
      else if elsewhere pack (find_pack pack.world_key pack.version packs)
      then raise duplicate_identity
      else register pack

  -- discover_seed_packs over the sorted manifests, with the packs so far, the last one first.
  unfoldable pub discover : List Text → List SeedPack → Rows (List SeedPack)
  unfolding load_seed_pack accept_pack
  discover [] packs = pure packs
  discover (candidate ∷ rest) packs = from (located (files.inside_root candidate)) >>= (λ manifest.
      from (load_seed_pack files manifest)
      >>= (λ pack. accept_pack packs manifest pack >> discover rest (pack ∷ packs)))

module _ (files : Files) where
  abbrev same_files :
      (key version : Text)
      → SeedPackRow
      → Result SeedPackError SeedPack
      → Result SeedPackError (SeedPack × SeedPackRow)
  same_files key version row (err e) = err e
  same_files key version row (ok pack) =
      if not (text_eq pack.world_key key) || not (text_eq pack.version version)
      then err identity_drift
      else if not (is_blank row.checksum) && not (text_eq row.checksum pack.checksum)
      then err checksum_changed
      else ok (pack, row)

  abbrev of_row :
      (key version : Text) → Option SeedPackRow → Result SeedPackError (SeedPack × SeedPackRow)
  of_row key version none = err not_registered
  of_row key version (some row) =
      same_files key version row (load_seed_pack files row.manifest_path)

  unfoldable pub get_registered_seed_pack :
      (key version : Text) → List SeedPackRow → Result SeedPackError (SeedPack × SeedPackRow)
  unfolding load_seed_pack find_row
  get_registered_seed_pack key version rows =
      let normalized = files.lower (strip is_space key) in
      let exact_version = strip is_space version in
      if is_blank exact_version
      then err no_exact_version
      else of_row normalized exact_version (find_row normalized exact_version rows)
