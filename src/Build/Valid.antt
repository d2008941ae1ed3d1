-- ===== src/Build/Valid.antt =====
-- A build that returns has made a READY release whose schemas pass validation.
use konnaxion_worlds.Base.{
  ℕ, ◌≡◌, refl, sym, ◌∙◌, subst, Bool, true, false, Option, none, some, Text, arith, Bool-cases,
  Option-cases, inl, inr, put, codes,
}
use konnaxion_worlds.Base.Exec.{
  Result, ok, err, continue, pure, Holds, Holds-ok, bind-Holds, recover-Holds,
}
use konnaxion_worlds.Models.{World, WorldRelease, ReleaseStatus, is_archived}
use konnaxion_worlds.Naming.{TextLibrary}
use konnaxion_worlds.Plane.{
  Plane, Host, validate_release_schemas, schema_checks, canary_ok, fixture_checksum_ok,
  fk_isolation_ok, fk_isolation_violations, escapes,
}
use konnaxion_worlds.Releases.{
  SeedPackRecord, create_release_record, promote_release, promote_locked, make_current,
  freeze_previous, freeze_if_current, promote_persona_bridges,
}
use konnaxion_worlds.Store.{
  Store, Failure, save_release, save_world, get_world, get_release, get_release_of, audit,
  release_id_of, release_ready, release_build_started,
}
use konnaxion_worlds.Build.{
  Engine, ready_row, validating_row, announce, importing, validating_stage, preparing, ready_stage,
  provision_release_schemas, import_pack_scenarios, promote_if, mark_ready, validate_and_finish,
  build_body, fail_build, resolve_pack, build_seeded, build_world_release,
}

-- The release is READY, and passes the validation that a promotion repeats.
abbrev pub IsPromotable : Host → WorldRelease → Store → Type 0
IsPromotable host r s =
    (r.status ≡ ReleaseStatus.ready) × (validate_release_schemas host r s.plane ≡ true)

validate_status :
    (host : Host) (r : WorldRelease) (finished : Option ℕ) (plane : Plane)
    → validate_release_schemas host
        (record r { status = ReleaseStatus.ready; build_finished_at = finished })
        plane
      ≡ validate_release_schemas host r plane
unfolding validate_release_schemas schema_checks canary_ok fixture_checksum_ok fk_isolation_ok
    fk_isolation_violations escapes
validate_status host r finished plane = refl

module _ (host : Host) (now : ℕ) (world : World) (release : WorldRelease) (s : Store) where
  promote_release-plane : (promote_release host now world release s).1.plane ≡ s.plane
  unfolding promote_release promote_locked make_current freeze_previous freeze_if_current
      promote_persona_bridges save_release save_world get_world get_release get_release_of audit
  promote_release-plane = ground arith

module _ (engine : Engine) (host : Host) where
  abbrev P : WorldRelease → Store → Type 0
  P = IsPromotable host

  promote_if-plane :
      (promote : Bool) (now : ℕ) (world : World) (release : WorldRelease) (s : Store)
      → (promote_if engine host promote now world release s).1.plane ≡ s.plane
  unfolding promote_if
  promote_if-plane false now world release s = refl
  promote_if-plane true now world release s =
      ground (arith, promote_release-plane host now world release s)

  returned :
      (ready : WorldRelease) (plane : Plane) (x : Result Failure Unit × Store)
      → x.1.plane ≡ plane
      → ready.status ≡ ReleaseStatus.ready
      → validate_release_schemas host ready plane ≡ true
      → Holds P (continue x (λ u. pure ready))
  returned ready plane (ok u, s) e is_ready v =
      (is_ready, subst (λ p. validate_release_schemas host ready p ≡ true) (sym e) v)
  returned ready plane (err f, s) e is_ready v = tt

  module _ (promote : Bool) (now : ℕ) (world : World) where
    mark_ready-IsPromotable :
        (release : WorldRelease) (s : Store)
        → validate_release_schemas host release s.plane ≡ true
        → Holds (IsPromotable host) (mark_ready engine host promote now world release s)
    unfolding mark_ready save_release audit
    mark_ready-IsPromotable release s valid =
        let ready = ready_row engine host now release in
        elim (Option-cases (engine.progress ready_stage ready)) [
          | inr (e, f) ↦ rw f tt
          | inl f ↦
              let s' = record s { releases = put release_id_of ready s.releases } in
              let s3 = (audit release_ready world.id (some release.id) s').1 in
              rw f (
                returned ready s.plane (promote_if engine host promote now world ready s3)
                  (promote_if-plane promote now world ready s3) refl
                  (validate_status host release (some now) s.plane ∙ valid))
        ]

    finish-IsPromotable :
        (release : WorldRelease) (s : Store)
        → Holds (IsPromotable host) (validate_and_finish engine host promote now world release s)
    unfolding validate_and_finish
    finish-IsPromotable release s =
        elim (Bool-cases (validate_release_schemas host release s.plane)) [
          | inl t ↦ rw t (mark_ready-IsPromotable release s t)
          | inr f ↦ rw f tt
        ]

    build_body-IsPromotable :
        (pack : SeedPackRecord) (release : WorldRelease) (s : Store)
        → Holds (IsPromotable host) (build_body engine host promote now world pack release s)
    unfolding build_body
    build_body-IsPromotable pack release s =
        bind-Holds P (provision_release_schemas engine host release s) _ λ report s1.
          let row = validating_row engine host release report in
          bind-Holds P (save_release row s1) _ λ u s2.
            bind-Holds P (announce engine host importing row s2) _ λ u s3.
              bind-Holds P (import_pack_scenarios engine host pack row s3) _ λ u s4.
                bind-Holds P (announce engine host validating_stage row s4) _
                  λ u s5. finish-IsPromotable row s5

    build_seeded-IsPromotable :
        (pack : SeedPackRecord) (release : WorldRelease) (s : Store)
        → Holds (IsPromotable host) (build_seeded engine host promote now world pack release s)
    unfolding build_seeded fail_build
    build_seeded-IsPromotable pack release s = bind-Holds P (save_release release s) _ λ u s1.
        bind-Holds P (audit release_build_started world.id (some release.id) s1) _ λ u s2.
          bind-Holds P (announce engine host preparing release s2) _ λ u s3.
            recover-Holds P (build_body engine host promote now world pack release s3)
              (fail_build engine host now world.id release.id)
              (build_body-IsPromotable pack release s3) (λ e s4. tt)

    -- A build that returns, promoting or not, returns a READY release whose schemas pass the
    -- validation of a promotion in the data plane that the build leaves.
    pub build_world_release-IsPromotable :
        (lib : TextLibrary) (key : Text) (version : Option Text)
        (resolved_pack seed_record : Option SeedPackRecord) (s : Store) {r : WorldRelease}
        → (build_world_release engine host lib promote now world key version resolved_pack
            seed_record s).0
          ≡ ok r
        → (r.status ≡ ReleaseStatus.ready)
          × (validate_release_schemas host r
                (build_world_release engine host lib promote now world key version resolved_pack
                  seed_record s).1.plane
              ≡ true)
    unfolding build_world_release
    build_world_release-IsPromotable lib key version resolved_pack seed_record s h =
        Holds-ok (IsPromotable host)
          (build_world_release engine host lib promote now world key version resolved_pack
            seed_record s)
          held h
      where
        held : Holds (IsPromotable host) (
            build_world_release engine host lib promote now world key version resolved_pack
              seed_record s)
        held = elim (Bool-cases (is_archived world.status)) [
          | inl t ↦ rw t tt
          | inr f ↦ rw f (
              bind-Holds P (resolve_pack engine host key version resolved_pack seed_record, s) _
                λ packs s1.
                  bind-Holds P
                    (create_release_record lib now world packs.1 none (codes "seed_build") s1) _
                    λ release s2. build_seeded-IsPromotable packs.0 _ s2)
        ]
