-- ===== src/Seeds/Registry.antt =====
-- What discover_seed_packs registers is what get_registered_seed_pack finds again.
use konnaxion_worlds.Base.{
  ◌≡◌, inl, inr, refl, ap, sym, ◌∙◌, subst, Bool, true, false, ◌&&◌, Option, none, some, List, [],
  ◌∷◌, Text, text_eq, text_eq_iff, text_eq_refl, In, Bool-cases, arith,
}
use konnaxion_worlds.Base.Exec.{Result, result_or, ok, err, Holds, continue, ◌>>◌}
use konnaxion_worlds.Base.Regex.{strip}
use konnaxion_worlds.Namespaces.{is_space}
use konnaxion_worlds.Seeds.{SeedPackError, SeedPack, Files, load_seed_pack, is_blank}
use konnaxion_worlds.Seeds.Catalog.{
  SeedPackRow, row_of, find_row, update_or_create, find_pack, accept_pack, discover, located,
  get_registered_seed_pack,
}
use konnaxion_worlds.Seeds.Reading.{find_row-update, Named, find_pack-Found, Resolves, load_again}

module _ (files : Files) where
  abbrev path_of : Option SeedPackRow → Text
  path_of none = []
  path_of (some row) = row.manifest_path

  -- What holds of the packs so far and the rows.
  abbrev pub Registered : List SeedPack → List SeedPackRow → Type 0
  Registered packs rows =
      (p : SeedPack)
      → In p packs
      → (find_row p.world_key p.version rows ≡ some (row_of p))
        × (load_seed_pack files p.manifest_path ≡ ok p)

  module _ (is_worlds_root : Bool) where
    accepted :
        (packs : List SeedPack) (manifest : Text) (pack : SeedPack) (rows rows' : List SeedPackRow)
        → accept_pack files is_worlds_root true packs manifest pack rows ≡ (ok tt, rows')
        → (rows' ≡ update_or_create pack rows)
          × ((q : SeedPack)
              → find_pack pack.world_key pack.version packs ≡ some q
              → q.manifest_path ≡ pack.manifest_path)
    unfolding accept_pack
    accepted packs manifest pack rows rows' h = (
      ground (arith, h),
      (λ q e. ground (arith, h, e, text_eq_iff q.manifest_path pack.manifest_path)),
    )

    -- An older pack with the identity of the new one is the new one.
    same_pack :
        (packs : List SeedPack) (pack : SeedPack) (rows : List SeedPackRow)
        → Registered packs rows
        → load_seed_pack files pack.manifest_path ≡ ok pack
        → ((q : SeedPack)
            → find_pack pack.world_key pack.version packs ≡ some q
            → q.manifest_path ≡ pack.manifest_path)
        → (p : SeedPack) → In p packs
        → Named pack.world_key pack.version p
        → p ≡ pack
    same_pack packs pack rows reg load unique p m named =
        let (q, found, n, qn) = find_pack-Found pack.world_key pack.version p packs m named in
        let rows_agree =
          ap (λ k. find_row k p.version rows) (named.0 ∙ sym qn.0)
          ∙ ap (λ v. find_row q.world_key v rows) (named.1 ∙ sym qn.1) in
        let paths : p.manifest_path ≡ pack.manifest_path =
          ap path_of (sym (reg p m).0 ∙ (rows_agree ∙ (reg q n).0)) ∙ unique q found in
        ap (result_or p) (sym (reg p m).1 ∙ (ap (load_seed_pack files) paths ∙ load))

    Registered-new :
        (pack : SeedPack) (rows : List SeedPackRow)
        → load_seed_pack files pack.manifest_path ≡ ok pack
        → (p : SeedPack) → pack ≡ p
        → (find_row p.world_key p.version (update_or_create pack rows) ≡ some (row_of p))
          × (load_seed_pack files p.manifest_path ≡ ok p)
    Registered-new pack rows load p here =
        subst
          (λ x.
            (find_row x.world_key x.version (update_or_create pack rows) ≡ some (row_of x))
            × (load_seed_pack files x.manifest_path ≡ ok x))
          here
          (
            find_row-update pack.world_key pack.version pack rows
                ∙ ground (arith, text_eq_refl pack.world_key, text_eq_refl pack.version),
            load,
          )

    Registered-step :
        (packs : List SeedPack) (pack : SeedPack) (rows : List SeedPackRow)
        → Registered packs rows
        → load_seed_pack files pack.manifest_path ≡ ok pack
        → ((q : SeedPack)
            → find_pack pack.world_key pack.version packs ≡ some q
            → q.manifest_path ≡ pack.manifest_path)
        → Registered (pack ∷ packs) (update_or_create pack rows)
    Registered-step packs pack rows reg load unique p (inl here) =
        Registered-new pack rows load p here
    Registered-step packs pack rows reg load unique p (inr m) =
        elim (Bool-cases (text_eq pack.world_key p.world_key && text_eq pack.version p.version)) [
          | inl e ↦
              let keys : pack.world_key ≡ p.world_key =
                ground (arith, e, text_eq_iff pack.world_key p.world_key) in
              let versions : pack.version ≡ p.version =
                ground (arith, e, text_eq_iff pack.version p.version) in
              let same = same_pack packs pack rows reg load unique p m (sym keys, sym versions) in
              Registered-new pack rows load p (sym same)
          | inr f ↦ (
            find_row-update p.world_key p.version pack rows ∙ ground (arith, f, (reg p m).0),
            (reg p m).1,
          )
        ]

    Continues : List Text → SeedPack → List SeedPack → Type 0
    Continues rest pack packs =
        (rows : List SeedPackRow)
        → Registered (pack ∷ packs) rows
        → Holds Registered (discover files is_worlds_root true rest (pack ∷ packs) rows)

    after_accept :
        (rest : List Text) (packs : List SeedPack) (manifest : Text) (pack : SeedPack)
        (rows : List SeedPackRow) (x : Result SeedPackError Unit × List SeedPackRow)
        → Registered packs rows
        → load_seed_pack files pack.manifest_path ≡ ok pack
        → accept_pack files is_worlds_root true packs manifest pack rows ≡ x
        → Continues rest pack packs
        → Holds Registered
            (continue x (λ u. discover files is_worlds_root true rest (pack ∷ packs)))
    unfolding Continues
    after_accept rest packs manifest pack rows (err e, rows') reg load h next = tt
    after_accept rest packs manifest pack rows (ok u, rows') reg load h next =
        let (written, unique) = accepted packs manifest pack rows rows' h in
        next rows' (
          subst (Registered (pack ∷ packs)) (sym written)
            (Registered-step packs pack rows reg load unique))

    after_load :
        Resolves files
        → (rest : List Text) (packs : List SeedPack) (manifest : Text) (rows : List SeedPackRow)
          (r : Result SeedPackError SeedPack)
        → Registered packs rows
        → load_seed_pack files manifest ≡ r
        → ((pack : SeedPack) → Continues rest pack packs)
        → Holds Registered (
            continue
              (r, rows)
              (λ pack.
                accept_pack files is_worlds_root true packs manifest pack
                >> discover files is_worlds_root true rest (pack ∷ packs)))
    after_load resolves rest packs manifest rows (err e) reg h next = tt
    after_load resolves rest packs manifest rows (ok pack) reg h next =
        after_accept rest packs manifest pack rows
          (accept_pack files is_worlds_root true packs manifest pack rows) reg
          (load_again files resolves manifest pack h) refl (next pack)

    after_located :
        Resolves files
        → (rest : List Text) (packs : List SeedPack) (rows : List SeedPackRow)
          (o : Result SeedPackError Text)
        → Registered packs rows
        → ((pack : SeedPack) → Continues rest pack packs)
        → Holds Registered (
            continue
              (o, rows)
              (λ manifest rows1.
                continue
                  (load_seed_pack files manifest, rows1)
                  (λ pack.
                    accept_pack files is_worlds_root true packs manifest pack
                    >> discover files is_worlds_root true rest (pack ∷ packs))))
    after_located resolves rest packs rows (err e) reg next = tt
    after_located resolves rest packs rows (ok manifest) reg next =
        after_load resolves rest packs manifest rows (load_seed_pack files manifest) reg refl next

    discover-Registered :
        Resolves files
        → (manifests : List Text) (packs : List SeedPack) (rows : List SeedPackRow)
        → Registered packs rows
        → Holds Registered (discover files is_worlds_root true manifests packs rows)
    unfolding discover Continues
    discover-Registered resolves [] packs rows reg = reg
    discover-Registered resolves (candidate ∷ rest) packs rows reg =
        after_located resolves rest packs rows
          (located files is_worlds_root true (files.inside_root candidate)) reg
          (λ pack rows' reg'. discover-Registered resolves rest (pack ∷ packs) rows' reg')

    -- A pack that discover_seed_packs has found, with registration, from no packs so far, is the one that
    -- get_registered_seed_pack gives for its key and version right after, whatever the table held
    -- before, and with the row of that pack: if the files do not change in between, a resolved path
    -- resolves to itself, and the key and version are asked for as the pack has them and
    -- the version is not blank.
    pub discover-get_registered :
        Resolves files
        → (manifests : List Text) (rows rows' : List SeedPackRow) (packs : List SeedPack)
          (pack : SeedPack) (key version : Text)
        → discover files is_worlds_root true manifests [] rows ≡ (ok packs, rows')
        → In pack packs
        → files.lower (strip is_space key) ≡ pack.world_key
        → strip is_space version ≡ pack.version
        → is_blank pack.version ≡ false
        → get_registered_seed_pack files key version rows' ≡ ok (pack, row_of pack)
    unfolding get_registered_seed_pack
    discover-get_registered resolves manifests rows rows' packs pack key version done m keys
          versions exact =
        let none_yet : Registered [] rows = λ p n. elim n [ ] in
        let all =
          subst (Holds Registered) done (discover-Registered resolves manifests [] rows none_yet) in
        let (row, load) = all pack m in
        ground (
          arith,
          exact,
          versions,
          keys,
          row,
          load,
          text_eq_refl pack.world_key,
          text_eq_refl pack.version,
          text_eq_refl pack.checksum,
        )
