-- ===== src/Seeds/Reading.antt =====
-- The row of an identity, and reading a pack again.
use konnaxion_worlds.Base.{
  ◌≡◌, inl, inr, refl, ap, sym, subst, false, ◌&&◌, Option, none, some, List, [], ◌∷◌, Text,
  text_eq, text_eq_iff, In, if◌then◌else◌, Bool-cases, Option-cases, arith,
}
use konnaxion_worlds.Base.Exec.{Result, Result-cases, ok, err}
use konnaxion_worlds.Base.Regex.{strip}
use konnaxion_worlds.Namespaces.{is_space}
use konnaxion_worlds.Seeds.{
  SeedPackError, SeedPack, Files, Manifest, load_scenarios, scenario_paths, load_seed_pack,
  is_blank, with_paths, with_scenarios, with_schema, from_manifest, from_located,
}
use konnaxion_worlds.Seeds.Catalog.{
  SeedPackRow, row_of, is_row, find_row, update_or_create, find_pack,
}

pub find_row-update :
    (k v : Text) (pack : SeedPack) (rows : List SeedPackRow)
    → find_row k v (update_or_create pack rows) ≡ (
        if text_eq pack.world_key k && text_eq pack.version v
        then some (row_of pack)
        else find_row k v rows)
unfolding find_row update_or_create
find_row-update k v pack [] = ground arith
find_row-update k v pack (row ∷ rows) = elim (Bool-cases (is_row pack.world_key pack.version row)) [
  | inl e ↦
      let keys : row.key ≡ pack.world_key = ground (arith, e, text_eq_iff row.key pack.world_key) in
      let versions : row.version ≡ pack.version =
        ground (arith, e, text_eq_iff row.version pack.version) in
      ground (
        arith,
        e,
        ap (λ t. text_eq t k) keys,
        ap (λ t. text_eq t v) versions,
        find_row-update k v pack rows,
      )
  | inr f ↦ ground (
    arith,
    f,
    find_row-update k v pack rows,
    text_eq_iff row.key pack.world_key,
    text_eq_iff row.version pack.version,
    text_eq_iff row.key k,
    text_eq_iff row.version v,
    text_eq_iff pack.world_key k,
    text_eq_iff pack.version v,
  )
]

abbrev pub Named : (k v : Text) → SeedPack → Type 0
Named k v p = (p.world_key ≡ k) × (p.version ≡ v)

abbrev pub Found : (k v : Text) → List SeedPack → Type 0
Found k v ps = (q : SeedPack) × (find_pack k v ps ≡ some q) × In q ps × Named k v q

Found-later :
    (k v : Text) (x : SeedPack) (ps : List SeedPack)
    → (text_eq x.world_key k && text_eq x.version v) ≡ false
    → Found k v ps
    → Found k v (x ∷ ps)
unfolding find_pack
Found-later k v x ps f (q, found, m, named) = (q, ground (arith, f, found), inr m, named)

pub find_pack-Found :
    (k v : Text) (p : SeedPack) (ps : List SeedPack) → In p ps → Named k v p → Found k v ps
unfolding find_pack
find_pack-Found k v p [] m named = elim m [ ]
find_pack-Found k v p (x ∷ ps) m named =
    elim (Bool-cases (text_eq x.world_key k && text_eq x.version v)) [
      | inl e ↦ (
        x,
        ground (arith, e),
        inl refl,
        (ground (arith, e, text_eq_iff x.world_key k), ground (arith, e, text_eq_iff x.version v)),
      )
      | inr f ↦ elim m [
        | inl here ↦ absurd (
            ground (
              arith,
              f,
              ap (λ (y : SeedPack). text_eq y.world_key k) here,
              ap (λ (y : SeedPack). text_eq y.version v) here,
              text_eq_iff p.world_key k,
              text_eq_iff p.version v,
              named.0,
              named.1,
            ))
        | inr later ↦ Found-later k v x ps f (find_pack-Found k v p ps later named)
      ]
    ]

module _ (files : Files) where
  with_paths-path :
      (path key title version schema : Text) (r : Result SeedPackError (List Text))
      (pack : SeedPack)
      → with_paths files path key title version schema r ≡ ok pack
      → pack.manifest_path ≡ path
  with_paths-path path key title version schema (err e) pack h = absurd cc
  with_paths-path path key title version schema (ok paths) pack h =
      elim (Result-cases (load_scenarios files schema paths [])) [
        | inl (keys, e) ↦ ground (arith, h, e)
        | inr (bad, e) ↦ ground (arith, h, e)
      ]

  with_scenarios-path :
      (path key title version schema : Text) (r : Option (List Text)) (pack : SeedPack)
      → with_scenarios files path key title version schema r ≡ ok pack
      → pack.manifest_path ≡ path
  with_scenarios-path path key title version schema none pack h = absurd cc
  with_scenarios-path path key title version schema (some []) pack h = absurd cc
  with_scenarios-path path key title version schema (some (r ∷ rs)) pack h =
      with_paths-path path key title version schema (scenario_paths files path (r ∷ rs)) pack h

  with_schema-path :
      (path key title version : Text) (o : Option Text) (r : Option (List Text)) (pack : SeedPack)
      → with_schema files path key title version o r ≡ ok pack
      → pack.manifest_path ≡ path
  with_schema-path path key title version none r pack h = absurd cc
  with_schema-path path key title version (some raw) r pack h =
      elim (Bool-cases (is_blank (strip is_space raw))) [
        | inl e ↦ absurd (ground (arith, h, e))
        | inr f ↦
            with_scenarios-path path key title version (strip is_space raw) r pack
              (ground (arith, h, f))
      ]

  from_manifest-path :
      (path : Text) (m : Option Manifest) (pack : SeedPack)
      → from_manifest files path m ≡ ok pack
      → pack.manifest_path ≡ path
  from_manifest-path path none pack h = absurd cc
  from_manifest-path path (some m) pack h =
      let key = files.lower (strip is_space m.world_key) in
      let title = strip is_space m.title in
      let version = strip is_space m.pack_version in
      ground (arith, h, with_schema-path path key title version m.requires_schema m.scenarios pack)

  from_located-path :
      (path : Text) (pack : SeedPack)
      → from_located files (some path) ≡ ok pack
      → pack.manifest_path ≡ path
  from_located-path path pack h =
      ground (arith, h, from_manifest-path path (files.manifest path) pack)

  -- A resolved path resolves to itself.
  abbrev pub Resolves : Type 0
  Resolves = (p q : Text) → files.inside_root p ≡ some q → files.inside_root q ≡ some q

  -- Reading the pack again from the path that it names gives the same pack.
  pub load_again :
      Resolves
      → (path : Text) (pack : SeedPack) → load_seed_pack files path ≡ ok pack
      → load_seed_pack files pack.manifest_path ≡ ok pack
  unfolding load_seed_pack
  load_again resolves path pack h = elim (Option-cases (files.inside_root path)) [
    | inl e ↦ absurd (ground (arith, subst (λ o. from_located files o ≡ ok pack) e h))
    | inr (q, e) ↦
        let there = subst (λ o. from_located files o ≡ ok pack) e h in
        let same = from_located-path q pack there in
        subst (λ x. from_located files (files.inside_root x) ≡ ok pack) (sym same)
          (subst (λ o. from_located files o ≡ ok pack) (sym (resolves path q e)) there)
  ]
